-- ===== src/SteamClient/Gc.antt =====
-- steamclient/gc.go: messages of a Game Coordinator inside `CMsgGCClient`.
pub mod RoundTrip
use steamstacks.Prelude.{
  ℕ, ◌+◌, ◌*◌, ◌%◌, ◌^◌, bit_and, bit_or, Bool, true, false, not, List, [], ◌∷◌, ◌++◌, Option, none,
  some, Result, ok, err, panic, stuck, ◌>>=◌, ltb, ◌==◌, if◌then◌else◌, length, drop,
}
use steamstacks.Prelude.Bytes.{Bytes, slice, put_le, get_le}
use steamstacks.SteamClient.Protocol.{
  Codec, Header, empty_header, get_default, proto_mask, clear_proto_mask,
}
use steamstacks.SteamClient.Message.{or_fail}

pub record GcMessage : Type 0 where
  pub app_id : ℕ
  pub msg_type : ℕ
  pub is_proto : Bool
  pub body : Bytes

-- The fields of `CMsgGCClient` that the package uses.
pub record GcClient : Type 0 where
  pub appid : Option ℕ
  pub msgtype : Option ℕ
  pub payload : Bytes

pub data GcError : Type 0 where
  marshal_gc_header : GcError
  marshal_gc_client : GcError
  short_proto_payload : GcError
  truncated_payload : GcError
  short_binary_payload : GcError

abbrev pub bool_to_uint32 : Bool → ℕ
bool_to_uint32 true = 1
bool_to_uint32 false = 0

unfoldable pub encode_gc_proto_payload : Codec Header → GcMessage → Result GcError Bytes
encode_gc_proto_payload codec msg = do
  hdr ← or_fail (codec.marshal empty_header) marshal_gc_header
  ok (
      put_le 4 (bit_or msg.msg_type proto_mask)
      ++ (put_le 4 (length hdr % 2 ^ 32) ++ (hdr ++ msg.body)))

unfoldable pub encode_gc_binary_payload : GcMessage → Bytes
encode_gc_binary_payload msg =
    put_le 2 1 ++ (put_le 8 0xFFFFFFFFFFFFFFFF ++ (put_le 8 0xFFFFFFFFFFFFFFFF ++ msg.body))

unfoldable pub encode_gc_payload : Codec Header → GcMessage → Result GcError Bytes
encode_gc_payload codec msg =
    if msg.is_proto then encode_gc_proto_payload codec msg else ok (encode_gc_binary_payload msg)

-- The offset of the body is computed in 32 bits.
unfoldable pub decode_gc_proto_payload : ℕ → ℕ → Bytes → Result GcError GcMessage
decode_gc_proto_payload app_id msg_type payload =
    let body_offset = (8 + get_le (slice payload 4 8)) % 2 ^ 32 in
    if ltb (length payload) 8
    then err short_proto_payload
    else if ltb (length payload % 2 ^ 32) body_offset
    then err truncated_payload
    else ok (record {
      app_id = app_id;
      msg_type = msg_type;
      is_proto = true;
      body = drop body_offset payload;
    })

unfoldable pub decode_gc_binary_payload : ℕ → ℕ → Bytes → Result GcError GcMessage
decode_gc_binary_payload app_id msg_type payload =
    if ltb (length payload) 18
    then err short_binary_payload
    else ok
        (record { app_id = app_id; msg_type = msg_type; is_proto = false; body = drop 18 payload })

unfoldable pub decode_gc_payload : ℕ → ℕ → Bytes → Result GcError GcMessage
decode_gc_payload app_id raw_msg_type payload =
    let msg_type = clear_proto_mask raw_msg_type in
    if not (bit_and raw_msg_type proto_mask == 0)
    then decode_gc_proto_payload app_id msg_type payload
    else decode_gc_binary_payload app_id msg_type payload

-- `SendGCMessage`, up to the call of `sendPacket`: the packet's header and its body.
unfoldable pub gc_packet_body :
    Codec Header → Codec GcClient → GcMessage → Result GcError (Header × Bytes)
gc_packet_body codec gc_codec msg = do
  payload ← encode_gc_payload codec msg
  gc_body ←
      or_fail
        (gc_codec.marshal (record {
          appid = some msg.app_id;
          msgtype = some (bit_or msg.msg_type (proto_mask * bool_to_uint32 msg.is_proto));
          payload = payload;
        }))
        marshal_gc_client
  ok (record empty_header { routing_appid = some msg.app_id }, gc_body)

-- What `handleGCMessage` makes of `msg`, once the body is unmarshalled.
abbrev pub gc_event : GcClient → Result GcError GcMessage
gc_event msg = decode_gc_payload (get_default 0 msg.appid) (get_default 0 msg.msgtype) msg.payload

-- The message that `handleGCMessage` gives to `OnGCMessage`, if it is called. Errors are logged.
abbrev to_event : Result GcError GcMessage → Option GcMessage
to_event (ok msg) = some msg
to_event _ = none

unfoldable pub handle_gc_message : Codec GcClient → Bytes → Option GcMessage
handle_gc_message gc_codec body = elim (gc_codec.unmarshal body) [
  | none ↦ none
  | some msg ↦ to_event (gc_event msg)
]
