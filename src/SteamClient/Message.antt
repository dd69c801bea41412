-- ===== src/SteamClient/Message.antt =====
-- steamclient/message.go: packets on the wire, and the packets inside an `EMsgMulti`.
pub mod RoundTrip
pub mod Safety
pub mod Multi
use steamstacks.Prelude.{
  ℕ, zero, suc, ◌+◌, ◌-◌, ◌%◌, ◌^◌, bit_and, bit_or, Bool, true, false, not, List, [], ◌∷◌, ◌++◌,
  Option, none, some, Result, ok, err, panic, stuck, ◌>>=◌, wrap_err, ltb, ◌==◌, if◌then◌else◌,
  length, take, drop,
}
use steamstacks.Prelude.Bytes.{Bytes, slice, put_le, get_le}
use steamstacks.SteamClient.Protocol.{
  Codec, Header, empty_header, get_steamid, get_client_sessionid, proto_mask, clear_proto_mask,
}

-- A nil header is `none`.
pub record Packet : Type 0 where
  pub emsg : ℕ
  pub is_proto : Bool
  pub header : Option Header
  pub body : Bytes

-- The messages of the errors, without the numbers that they print.
pub data PacketError : Type 0 where
  marshal_header : PacketError
  packet_too_short : PacketError
  too_short_for_header_length : PacketError
  truncated : PacketError
  unmarshal_header : PacketError
  non_proto_too_short : PacketError

-- The value, or an error where there is none.
abbrev pub or_fail {ℓ} : {A : Type ℓ} {E : Type 0} → Option A → E → Result E A
or_fail none e = err e
or_fail (some a) e = ok a

abbrev pub header_or_empty : Option Header → Header
header_or_empty none = empty_header
header_or_empty (some h) = h

module _ (codec : Codec Header) where
  unfoldable pub encode_proto_packet : Packet → Result PacketError Bytes
  encode_proto_packet p = do
    hdr ← or_fail (codec.marshal (header_or_empty p.header)) marshal_header
    ok (put_le 4 (bit_or p.emsg proto_mask) ++ (put_le 4 (length hdr % 2 ^ 32) ++ (hdr ++ p.body)))

  -- The extended header: its size 36, its version 2, two job ids, the canary, and the session.
  unfoldable pub encode_non_proto_packet : Packet → Result PacketError Bytes
  encode_non_proto_packet p =
      let hdr = header_or_empty p.header in
      ok (
        put_le 4 p.emsg
        ++ ((36 ∷ [])
            ++ (put_le 2 2
                ++ (put_le 8 0xFFFFFFFFFFFFFFFF
                    ++ (put_le 8 0xFFFFFFFFFFFFFFFF
                        ++ ((0xEF ∷ [])
                            ++ (put_le 8 (get_steamid hdr)
                                ++ (put_le 4 (get_client_sessionid hdr) ++ p.body))))))))

  unfoldable pub encode_packet : Packet → Result PacketError Bytes
  encode_packet p = if p.is_proto then encode_proto_packet p else encode_non_proto_packet p

  -- `8+hdrLen` is computed in 32 bits. The slice `data[8:end]` panics where `end` is below 8.
  unfoldable pub decode_proto_packet : ℕ → Bytes → Result PacketError Packet
  decode_proto_packet emsg data_bytes =
      let hdr_len = get_le (slice data_bytes 4 8) in
      let end = (8 + hdr_len) % 2 ^ 32 in
      if ltb (length data_bytes) 8
      then err too_short_for_header_length
      else if ltb (length data_bytes % 2 ^ 32) end
      then err truncated
      else if ltb end 8
      then panic
      else or_fail (codec.unmarshal (slice data_bytes 8 end)) unmarshal_header >>= λ hdr.
          ok
            (record { emsg = emsg; is_proto = true; header = some hdr; body = drop end data_bytes })

  unfoldable pub decode_non_proto_packet : ℕ → Bytes → Result PacketError Packet
  decode_non_proto_packet emsg data_bytes =
      if ltb (length data_bytes) 36
      then err non_proto_too_short
      else ok (record {
        emsg = emsg;
        is_proto = false;
        header = some (record empty_header {
          steamid = some (get_le (slice data_bytes 24 32));
          client_sessionid = some (get_le (slice data_bytes 32 36));
        });
        body = drop 36 data_bytes;
      })

  unfoldable pub decode_packet : Bytes → Result PacketError Packet
  decode_packet data_bytes =
      let raw = get_le (take 4 data_bytes) in
      let emsg = clear_proto_mask raw in
      if ltb (length data_bytes) 4
      then err packet_too_short
      else if not (bit_and raw proto_mask == 0)
      then decode_proto_packet emsg data_bytes
      else decode_non_proto_packet emsg data_bytes
