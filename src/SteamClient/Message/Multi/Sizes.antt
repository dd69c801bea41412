-- ===== src/SteamClient/Message/Multi/Sizes.antt =====
-- The sizes of the packets in a group.
use steamstacks.Prelude.{
  ℕ, zero, suc, ◌+◌, ◌%◌, ◌^◌, ◌≤◌, ◌<◌, ◌≡◌, sym, Bool, true, false, ◌&&◌, List, [], ◌∷◌, ◌++◌,
  Option, ok, ◌>>=◌, ◌==◌, if◌then◌else◌, >>=-eq-ok, ok-injective, arith, length, take, drop,
  length-drop, length-take, All, All-append,
}
use steamstacks.Prelude.Bytes.{Bytes, get_le, slice}
use steamstacks.SteamClient.Protocol.{Codec, Header, clear_proto_mask}
use steamstacks.SteamClient.Message.{
  Packet, decode_packet, decode_proto_packet, decode_non_proto_packet,
}
use steamstacks.SteamClient.Message.Multi.{Stream, read_sub_message, multi_loop, decode_multi}

module _ (codec : Codec Header) where
  decode_proto-body :
      (emsg : ℕ) (d : Bytes) (p : Packet)
      → decode_proto_packet codec emsg d ≡ ok p
      → length p.body ≤ length d
  unfolding decode_proto_packet
  decode_proto-body emsg d p e = ground (arith, length-drop ((8 + get_le (slice d 4 8)) % 2 ^ 32) d)

  decode_non_proto-body :
      (emsg : ℕ) (d : Bytes) (p : Packet)
      → decode_non_proto_packet codec emsg d ≡ ok p
      → length p.body ≤ length d
  unfolding decode_non_proto_packet
  decode_non_proto-body emsg d p e = ground (arith, length-drop 36 d)

  pub decode_packet-body :
      (d : Bytes) (p : Packet) → decode_packet codec d ≡ ok p → length p.body ≤ length d
  unfolding decode_packet
  decode_packet-body d p e = ground (
    arith,
    decode_proto-body (clear_proto_mask (get_le (take 4 d))) d p,
    decode_non_proto-body (clear_proto_mask (get_le (take 4 d))) d p,
  )

  -- A round takes four bytes more than the packet that it reads, at least.
  read_sub_message-sizes :
      (content rest : Bytes) (p : Packet)
      → read_sub_message codec content ≡ ok (p, rest)
      → (length p.body < length content) × (length rest < length content)
  unfolding read_sub_message
  read_sub_message-sizes content rest p e =
      let size = get_le (take 4 content) in
      ground (
        arith,
        decode_packet-body (take size (drop 4 content)) p,
        length-take size (drop 4 content),
        length-drop 4 content,
        length-drop size (drop 4 content),
      )

  multi_loop-sizes :
      (n fuel : ℕ) (content : Bytes) (ends : Bool) (before after : List Packet)
      → length content ≤ n
      → All (λ (p : Packet). length p.body < n) before
      → multi_loop codec fuel content ends before ≡ ok after
      → All (λ (p : Packet). length p.body < n) after
  unfolding multi_loop
  multi_loop-sizes n zero content ends before after h small e = cc
  multi_loop-sizes n (suc fuel) content ends before after h small e =
      by_end
        (λ rest before' h' small' e'. multi_loop-sizes n fuel rest ends before' after h' small' e')
        (length content == 0 && ends) e
    where
      by_end :
          ((rest : Bytes) (before' : List Packet)
            → length rest ≤ n
            → All (λ (p : Packet). length p.body < n) before'
            → multi_loop codec fuel rest ends before' ≡ ok after
            → All (λ (p : Packet). length p.body < n) after)
          → (b : Bool)
          → (if b
              then ok before
              else (read_sub_message codec content >>= λ r.
                  multi_loop codec fuel r.1 ends (before ++ (r.0 ∷ []))))
            ≡ ok after
          → All (λ (p : Packet). length p.body < n) after
      by_end ih true q = rw (sym (ok-injective q)) small
      by_end ih false q =
          let (r, e1, e2) = >>=-eq-ok (read_sub_message codec content) _ q in
          let sizes = read_sub_message-sizes content r.1 r.0 e1 in
          ih r.1 (before ++ (r.0 ∷ [])) (omega (arith, sizes.1))
            (All-append _ before (r.0 ∷ []) small (omega (arith, sizes.0), tt)) e2

  -- In a group that is not compressed, every packet has a shorter body than the group.
  pub decode_multi-sizes :
      (gunzip : Bytes → Option Stream) (body : Bytes) (packets : List Packet)
      → decode_multi codec gunzip body 0 ≡ ok packets
      → All (λ (p : Packet). length p.body < length body) packets
  unfolding decode_multi
  decode_multi-sizes gunzip body packets e =
      multi_loop-sizes (length body) (suc (length body)) body true [] packets (omega arith) tt e
