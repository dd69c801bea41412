-- ===== src/SteamClient/Message/RoundTrip.antt =====
-- Packets encoded and decoded again.
use steamstacks.Prelude.{
  ℕ, ◌+◌, ◌%◌, ◌^◌, ◌<◌, ◌≤◌, ◌≡◌, refl, ap, sym, ◌∙◌, true, false, [], ◌∷◌, ◌++◌, some, ok, ltb,
  le→ltb, lt→ltb, if◌then◌else◌, arith, append_assoc, length, take, drop, length-append,
  take-append, drop-append, ◌>>=◌,
}
use steamstacks.Prelude.Bytes.{Bytes, slice, put_le, get_le, length-put_le, get_le-put_le}
use steamstacks.SteamClient.Mask.{set_mask, test_mask, clear_mask}
use steamstacks.SteamClient.Protocol.{
  Codec, RoundTrips, Header, empty_header, get_steamid, get_client_sessionid,
}
use steamstacks.SteamClient.Message.{
  Packet, encode_packet, encode_proto_packet, encode_non_proto_packet, decode_packet,
  decode_proto_packet, decode_non_proto_packet, header_or_empty,
}

-- A number of `k` bytes in front, sliced off and read.
pub take-put_le : (k v : ℕ) (t : Bytes) → take k (put_le k v ++ t) ≡ put_le k v
take-put_le k v t = take-append (put_le k v) t k (sym (length-put_le k v))

pub drop-put_le : (k v : ℕ) (t : Bytes) → drop k (put_le k v ++ t) ≡ t
drop-put_le k v t = drop-append (put_le k v) t k (sym (length-put_le k v))

-- A slice that starts inside a list joined on the left.
pub slice-append :
    (xs ys zs : Bytes) (lo hi : ℕ)
    → lo ≡ length xs
    → hi ≡ lo + length ys
    → slice (xs ++ (ys ++ zs)) lo hi ≡ ys
slice-append xs ys zs lo hi e f = rw (← append_assoc xs ys zs) (
    rw (take-append (xs ++ ys) zs hi (omega (arith, length-append xs ys))) (drop-append xs ys lo e))

pub get_slice :
    (xs zs : Bytes) (k v lo : ℕ)
    → lo ≡ length xs
    → v < 256 ^ k
    → get_le (slice (xs ++ (put_le k v ++ zs)) lo (lo + k)) ≡ v
get_slice xs zs k v lo e h =
    rw (slice-append xs (put_le k v) zs lo (lo + k) e (omega (arith, length-put_le k v)))
      (get_le-put_le k v h)

-- The branch of `decode_proto_packet` that succeeds: `n` is the length in the frame.
pub decode_proto_packet_lem :
    (codec : Codec Header) (emsg : ℕ) (frame : Bytes) (n : ℕ) (h : Header)
    → get_le (slice frame 4 8) ≡ n
    → 8 + n ≤ length frame
    → length frame < 2 ^ 32
    → codec.unmarshal (slice frame 8 (8 + n)) ≡ some h
    → decode_proto_packet codec emsg frame
      ≡ ok (record { emsg = emsg; is_proto = true; header = some h; body = drop (8 + n) frame })
unfolding decode_proto_packet
decode_proto_packet_lem codec emsg frame n h e fits small u =
    let end : (8 + get_le (slice frame 4 8)) % 2 ^ 32 ≡ 8 + n = omega (arith, e) in
    rw (
      end,
      le→ltb (length frame) 8 (omega arith),
      le→ltb (length frame % 2 ^ 32) (8 + n) (omega arith),
      le→ltb (8 + n) 8 (omega arith),
      u,
    )

-- The eight bytes in front of a header, and what a decoder makes of them.
decode_proto-frame :
    (codec : Codec Header) (emsg word : ℕ) (hdr body : Bytes) (h : Header)
    → length hdr + length body + 8 < 2 ^ 32
    → codec.unmarshal hdr ≡ some h
    → decode_proto_packet codec emsg (put_le 4 word ++ (put_le 4 (length hdr) ++ (hdr ++ body)))
      ≡ ok (record { emsg = emsg; is_proto = true; header = some h; body = body })
decode_proto-frame codec emsg word hdr body h total e =
    decode_proto_packet_lem codec emsg _ (length hdr) h
      (get_slice (put_le 4 word) (hdr ++ body) 4 (length hdr) 4 (sym (length-put_le 4 word))
        (omega arith))
      (omega (arith, frame_length)) (omega (arith, frame_length)) (rw header e)
    ∙ rw rest
  where
    frame : Bytes
    frame = put_le 4 word ++ (put_le 4 (length hdr) ++ (hdr ++ body))

    prefix_length : length (put_le 4 word ++ put_le 4 (length hdr)) ≡ 8
    prefix_length = omega (
      arith,
      length-append (put_le 4 word) (put_le 4 (length hdr)),
      length-put_le 4 word,
      length-put_le 4 (length hdr),
    )

    split : frame ≡ (put_le 4 word ++ put_le 4 (length hdr)) ++ (hdr ++ body)
    split = sym (append_assoc (put_le 4 word) (put_le 4 (length hdr)) (hdr ++ body))

    frame_length : length frame ≡ 8 + length hdr + length body
    frame_length = omega (
      arith,
      ap length split,
      length-append (put_le 4 word ++ put_le 4 (length hdr)) (hdr ++ body),
      prefix_length,
      length-append hdr body,
    )

    header : slice frame 8 (8 + length hdr) ≡ hdr
    header = rw split (slice-append _ hdr body 8 (8 + length hdr) (sym prefix_length) refl)

    rest : drop (8 + length hdr) frame ≡ body
    rest =
        rw (split, ← append_assoc (put_le 4 word ++ put_le 4 (length hdr)) hdr body)
          (drop-append _ body (8 + length hdr) (
            omega
              (arith, length-append (put_le 4 word ++ put_le 4 (length hdr)) hdr, prefix_length)))

-- The type word in front decides how the rest is read.
decode_packet_type :
    (codec : Codec Header) (word : ℕ) (t : Bytes)
    → word < 2 ^ 32
    → decode_packet codec (put_le 4 word ++ t) ≡ (
        if ltb word (2 ^ 31)
        then decode_non_proto_packet codec (word % 2 ^ 31) (put_le 4 word ++ t)
        else decode_proto_packet codec (word % 2 ^ 31) (put_le 4 word ++ t))
unfolding decode_packet
decode_packet_type codec word t h =
    rw
      (
        take-put_le 4 word t,
        get_le-put_le 4 word (omega arith),
        le→ltb (length (put_le 4 word ++ t)) 4 long,
        test_mask word h,
        clear_mask word h,
      )
      (ground arith)
  where
    long : 4 ≤ length (put_le 4 word ++ t)
    long = omega (arith, length-append (put_le 4 word) t, length-put_le 4 word)

-- A protobuf packet with a header is encoded, and decoded to itself, if protobuf's codec is
-- faithful and marshals the header, the type is below 2 ^ 31, and header, body and the eight bytes
-- before them are shorter than 2 ^ 32 bytes together.
pub decode_packet-encode_proto :
    (codec : Codec Header)
    → RoundTrips codec
    → (emsg : ℕ) (h : Header) (hdr body : Bytes) → emsg < 2 ^ 31
    → codec.marshal h ≡ some hdr
    → length hdr + length body + 8 < 2 ^ 32
    → let p : Packet = record { emsg = emsg; is_proto = true; header = some h; body = body } in
      (encode_packet codec p >>= decode_packet codec) ≡ ok p
unfolding encode_packet encode_proto_packet
decode_packet-encode_proto codec faithful emsg h hdr body small m total =
    let len : length hdr % 2 ^ 32 ≡ length hdr = omega arith in
    let type : (emsg + 2 ^ 31) % 2 ^ 31 ≡ emsg = omega arith in
    rw (m, set_mask emsg small, len)
      (decode_packet_type codec (emsg + 2 ^ 31) _ (omega arith)
        ∙ rw (le→ltb (emsg + 2 ^ 31) (2 ^ 31) (omega arith), type)
            (decode_proto-frame codec emsg (emsg + 2 ^ 31) hdr body h total (faithful h hdr m)))

-- The 36 bytes of the extended header.
abbrev extended : ℕ → ℕ → ℕ → Bytes → Bytes
extended emsg sid session body =
    put_le 4 emsg
    ++ ((36 ∷ [])
        ++ (put_le 2 2
            ++ (put_le 8 0xFFFFFFFFFFFFFFFF
                ++ (put_le 8 0xFFFFFFFFFFFFFFFF
                    ++ ((0xEF ∷ []) ++ (put_le 8 sid ++ (put_le 4 session ++ body)))))))

decode_non_proto-extended :
    (codec : Codec Header) (emsg sid session : ℕ) (body : Bytes)
    → sid < 2 ^ 64
    → session < 2 ^ 32
    → decode_non_proto_packet codec emsg (extended emsg sid session body)
      ≡ ok (record {
        emsg = emsg;
        is_proto = false;
        header = some (record empty_header { steamid = some sid; client_sessionid = some session });
        body = body;
      })
unfolding decode_non_proto_packet put_le
decode_non_proto-extended codec emsg sid session body hs hi =
    ground (arith, get_le-put_le 8 sid, get_le-put_le 4 session)

-- A packet of the other format whose type is below 2 ^ 31 and whose account and session fit 64 and
-- 32 bits is encoded and decoded to itself, save that of its header only the account and the
-- session remain.
pub decode_packet-encode_non_proto :
    (codec : Codec Header) (p : Packet)
    → p.is_proto ≡ false
    → p.emsg < 2 ^ 31
    → get_steamid (header_or_empty p.header) < 2 ^ 64
    → get_client_sessionid (header_or_empty p.header) < 2 ^ 32
    → (encode_packet codec p >>= decode_packet codec)
      ≡ ok (record p {
        header = some (record empty_header {
          steamid = some (get_steamid (header_or_empty p.header));
          client_sessionid = some (get_client_sessionid (header_or_empty p.header));
        });
      })
unfolding encode_packet encode_non_proto_packet
decode_packet-encode_non_proto codec p np small hs hi =
    let sid = get_steamid (header_or_empty p.header) in
    let session = get_client_sessionid (header_or_empty p.header) in
    let type : p.emsg % 2 ^ 31 ≡ p.emsg = omega arith in
    rw np (
      decode_packet_type codec p.emsg _ (omega arith)
      ∙ rw (lt→ltb p.emsg (2 ^ 31) small, type)
          (decode_non_proto-extended codec p.emsg sid session p.body hs hi ∙ cc))
