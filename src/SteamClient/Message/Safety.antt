-- ===== src/SteamClient/Message/Safety.antt =====
-- How `decodePacket` ends on any input.
use steamstacks.Prelude.{
  ℕ, ◌+◌, ◌-◌, ◌%◌, ◌^◌, ◌<◌, ◌≤◌, ◌≡◌, ◌≢◌, ◌↔◌, Option, none, some, Result, ok, err, panic, stuck,
  ◌>>=◌, ltb, if◌then◌else◌, arith, length, take, All, le→ltb, lt→ltb,
}
use steamstacks.Prelude.Bytes.{Bytes, IsByte, slice, get_le, get_le-take_u32, get_le-slice_u32}
use steamstacks.SteamClient.Mask.{test_mask}
use steamstacks.SteamClient.Protocol.{Codec, Header, clear_proto_mask}
use steamstacks.SteamClient.Message.{
  Packet, PacketError, decode_packet, decode_proto_packet, decode_non_proto_packet, or_fail,
  unmarshal_header, too_short_for_header_length, truncated,
}

-- The frames whose header length is so near 2 ^ 32 that `8+hdrLen` wraps.
pub record Wraps (frame : Bytes) : Type 0 where
  pub has_length : 8 ≤ length frame
  pub is_proto : 2 ^ 31 ≤ get_le (take 4 frame)
  pub too_large : 2 ^ 32 - 8 ≤ get_le (slice frame 4 8)

or_fail-Returns :
    (o : Option Header) (k : Header → Packet)
    → (or_fail o unmarshal_header >>= λ h. ok (k h)) ≢ panic
or_fail-Returns none k = λ e. cc
or_fail-Returns (some h) k = λ e. cc

decode_proto_panics :
    (codec : Codec Header) (emsg : ℕ) (frame : Bytes)
    → 8 ≤ length frame
    → length frame < 2 ^ 32
    → get_le (slice frame 4 8) < 2 ^ 32
    → 2 ^ 32 - 8 ≤ get_le (slice frame 4 8)
    → decode_proto_packet codec emsg frame ≡ panic
unfolding decode_proto_packet
decode_proto_panics codec emsg frame long small word large =
    let end = (8 + get_le (slice frame 4 8)) % 2 ^ 32 in
    rw (
      le→ltb (length frame) 8 long,
      le→ltb (length frame % 2 ^ 32) end (omega arith),
      lt→ltb end 8 (omega arith),
    )

decode_proto_panic :
    (codec : Codec Header) (emsg : ℕ) (frame : Bytes)
    → get_le (slice frame 4 8) < 2 ^ 32
    → decode_proto_packet codec emsg frame ≡ panic
    → (8 ≤ length frame) × (2 ^ 32 - 8 ≤ get_le (slice frame 4 8))
unfolding decode_proto_packet
decode_proto_panic codec emsg frame word =
    branches (length frame) (get_le (slice frame 4 8)) _ word (or_fail-Returns _ _)
  where
    branches :
        (len n : ℕ) (r : Result PacketError Packet)
        → n < 2 ^ 32
        → r ≢ panic
        → (if ltb len 8
            then err too_short_for_header_length
            else if ltb (len % 2 ^ 32) ((8 + n) % 2 ^ 32)
            then err truncated
            else if ltb ((8 + n) % 2 ^ 32) 8
            then panic
            else r)
          ≡ panic
        → (8 ≤ len) × (2 ^ 32 - 8 ≤ n)
    branches len n r h k e = ground arith

decode_non_proto-ne-panic :
    (codec : Codec Header) (emsg : ℕ) (frame : Bytes)
    → decode_non_proto_packet codec emsg frame ≢ panic
unfolding decode_non_proto_packet
decode_non_proto-ne-panic codec emsg frame = ground arith

-- On a frame of bytes shorter than 2 ^ 32, `decodePacket` panics exactly if the frame has eight
-- bytes at least, its type has the protobuf bit, and its header length is 2 ^ 32 - 8 or more.
pub decode_packet-panic_iff :
    (codec : Codec Header) (frame : Bytes)
    → All IsByte frame
    → length frame < 2 ^ 32
    → (decode_packet codec frame ≡ panic) ↔ Wraps frame
unfolding decode_packet
decode_packet-panic_iff codec frame bytes small =
    let raw : get_le (take 4 frame) < 2 ^ 32 = get_le-take_u32 frame bytes in
    let word : get_le (slice frame 4 8) < 2 ^ 32 = get_le-slice_u32 4 frame bytes in
    (
      λ e. ground (
        arith,
        test_mask (get_le (take 4 frame)) raw,
        decode_proto_panic codec (clear_proto_mask (get_le (take 4 frame))) frame word,
        decode_non_proto-ne-panic codec (clear_proto_mask (get_le (take 4 frame))) frame,
      ),
      λ w. ground (
        arith,
        test_mask (get_le (take 4 frame)) raw,
        decode_proto_panics codec (clear_proto_mask (get_le (take 4 frame))) frame,
      ),
    )

-- It has no loop to run out of.
pub decode_packet-ne-stuck :
    (codec : Codec Header) (frame : Bytes) → decode_packet codec frame ≢ stuck
unfolding decode_packet decode_proto_packet decode_non_proto_packet
decode_packet-ne-stuck codec frame = ground arith
