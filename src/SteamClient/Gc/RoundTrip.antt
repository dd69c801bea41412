-- ===== src/SteamClient/Gc/RoundTrip.antt =====
-- A Game Coordinator message sent and received.
use steamstacks.Prelude.{
  ℕ, ◌+◌, ◌-◌, ◌*◌, ◌%◌, ◌^◌, ◌<◌, ◌≤◌, ◌≡◌, ap, sym, ◌∙◌, bit_and, bit_or, Bool, true, false, not,
  ◌++◌, Option, none, some, ok, le→ltb, ◌==◌, if◌then◌else◌, arith, length, drop, length-append,
  drop-append, append_assoc, Bool-cases, inl, inr, >>=-eq-ok, All,
}
use steamstacks.Prelude.Bytes.{
  Bytes, IsByte, slice, put_le, get_le, length-put_le, get_le-slice_u32,
}
use steamstacks.Prelude.Bits.{bit_or-zero}
use steamstacks.SteamClient.Mask.{set_mask, test_mask, clear_mask}
use steamstacks.SteamClient.Protocol.{
  Codec, RoundTrips, Header, empty_header, proto_mask, clear_proto_mask,
}
use steamstacks.SteamClient.Message.{or_fail}
use steamstacks.SteamClient.Message.RoundTrip.{get_slice}
use steamstacks.SteamClient.Gc.{
  GcMessage, GcClient, GcError, encode_gc_payload, encode_gc_proto_payload,
  encode_gc_binary_payload, decode_gc_payload, decode_gc_proto_payload, decode_gc_binary_payload,
  gc_packet_body, gc_event, handle_gc_message, marshal_gc_client, bool_to_uint32,
}

decode_gc_proto-frame :
    (app_id msg_type word : ℕ) (hdr body : Bytes)
    → length hdr + length body + 8 < 2 ^ 32
    → decode_gc_proto_payload app_id msg_type
        (put_le 4 word ++ (put_le 4 (length hdr) ++ (hdr ++ body)))
      ≡ ok (record { app_id = app_id; msg_type = msg_type; is_proto = true; body = body })
unfolding decode_gc_proto_payload
decode_gc_proto-frame app_id msg_type word hdr body total = rw (
  get_slice (put_le 4 word) (hdr ++ body) 4 (length hdr) 4 (sym (length-put_le 4 word))
      (omega arith),
  offset,
  le→ltb (length frame) 8 (omega (arith, frame_length)),
  le→ltb (length frame % 2 ^ 32) (8 + length hdr) (omega (arith, frame_length)),
  rest,
)
  where
    frame : Bytes
    frame = put_le 4 word ++ (put_le 4 (length hdr) ++ (hdr ++ body))

    offset : (8 + length hdr) % 2 ^ 32 ≡ 8 + length hdr
    offset = omega arith

    front : Bytes
    front = (put_le 4 word ++ put_le 4 (length hdr)) ++ hdr

    front_length : length front ≡ 8 + length hdr
    front_length = omega (
      arith,
      length-append (put_le 4 word ++ put_le 4 (length hdr)) hdr,
      length-append (put_le 4 word) (put_le 4 (length hdr)),
      length-put_le 4 word,
      length-put_le 4 (length hdr),
    )

    split : frame ≡ front ++ body
    split =
        sym (append_assoc (put_le 4 word) (put_le 4 (length hdr)) (hdr ++ body))
        ∙ sym (append_assoc (put_le 4 word ++ put_le 4 (length hdr)) hdr body)

    frame_length : length frame ≡ 8 + length hdr + length body
    frame_length = omega (arith, ap length split, length-append front body, front_length)

    rest : drop (8 + length hdr) frame ≡ body
    rest = rw split (drop-append front body (8 + length hdr) (sym front_length))

-- What the receiver tests in a type word that the sender built.
type_word :
    (t : ℕ) (b : Bool)
    → t < 2 ^ 31
    → (not (bit_and (bit_or t (proto_mask * bool_to_uint32 b)) proto_mask == 0) ≡ b)
      × (clear_proto_mask (bit_or t (proto_mask * bool_to_uint32 b)) ≡ t)
type_word t true h = ground (arith, set_mask t h, test_mask (t + 2 ^ 31), clear_mask (t + 2 ^ 31))
type_word t false h = ground (arith, bit_or-zero t, test_mask t, clear_mask t)

decode_gc_payload_type :
    (app_id t : ℕ) (b : Bool) (payload : Bytes)
    → t < 2 ^ 31
    → decode_gc_payload app_id (bit_or t (proto_mask * bool_to_uint32 b)) payload ≡ (
        if b
        then decode_gc_proto_payload app_id t payload
        else decode_gc_binary_payload app_id t payload)
unfolding decode_gc_payload
decode_gc_payload_type app_id t b payload h = rw ((type_word t b h).0, (type_word t b h).1)

-- The payload alone.
decode_gc_payload-encode :
    (codec : Codec Header) (msg : GcMessage) (hdr payload : Bytes)
    → msg.msg_type < 2 ^ 31
    → codec.marshal empty_header ≡ some hdr
    → length hdr + length msg.body + 8 < 2 ^ 32
    → encode_gc_payload codec msg ≡ ok payload
    → decode_gc_payload msg.app_id
        (bit_or msg.msg_type (proto_mask * bool_to_uint32 msg.is_proto))
        payload
      ≡ ok msg
decode_gc_payload-encode codec msg hdr payload small m total e =
    decode_gc_payload_type msg.app_id msg.msg_type msg.is_proto payload small
    ∙ elim (Bool-cases msg.is_proto) [
      | inl proto ↦
          let len : length hdr % 2 ^ 32 ≡ length hdr = omega arith in
          let sent : put_le 4 (bit_or msg.msg_type proto_mask)
                ++ (put_le 4 (length hdr) ++ (hdr ++ msg.body))
              ≡ payload =
            unfold encode_gc_payload encode_gc_proto_payload in cc (proto, m, len, e) in
          rw (proto, ← sent)
            (decode_gc_proto-frame msg.app_id msg.msg_type _ hdr msg.body total ∙ cc)
      | inr binary ↦
          let sent : encode_gc_binary_payload msg ≡ payload =
            unfold encode_gc_payload in cc (binary, e) in
          rw (binary, ← sent)
            (unfold decode_gc_binary_payload encode_gc_binary_payload put_le in ground arith)
    ]

or_fail-eq-ok : {A : Type 0} (o : Option A) (e : GcError) {a : A} → or_fail o e ≡ ok a → o ≡ some a
or_fail-eq-ok none e h = cc
or_fail-eq-ok (some b) e h = cc

handle_gc_message_lem :
    (gc_codec : Codec GcClient) (m : GcClient) (msg : GcMessage) (body : Bytes)
    → gc_codec.unmarshal body ≡ some m
    → gc_event m ≡ ok msg
    → handle_gc_message gc_codec body ≡ some msg
unfolding handle_gc_message
handle_gc_message_lem gc_codec m msg body e f = rw (e, handle_gc_message) (rw f)

-- If `SendGCMessage` builds a body, `handleGCMessage` passes on the very message that it was
-- given, and the packet's header names the application, provided that the codecs are faithful, the
-- type is below 2 ^ 31, and an empty header, the body and eight bytes are shorter than 2 ^ 32
-- together.
pub handle-gc_packet_body :
    (codec : Codec Header) (gc_codec : Codec GcClient)
    → RoundTrips gc_codec
    → (msg : GcMessage) (hdr : Bytes) (h : Header) (body : Bytes) → msg.msg_type < 2 ^ 31
    → codec.marshal empty_header ≡ some hdr
    → length hdr + length msg.body + 8 < 2 ^ 32
    → gc_packet_body codec gc_codec msg ≡ ok (h, body)
    → (handle_gc_message gc_codec body ≡ some msg) × (h.routing_appid ≡ some msg.app_id)
unfolding gc_packet_body
handle-gc_packet_body codec gc_codec faithful msg hdr h body small m total e =
    let (payload, enc, e1) = >>=-eq-ok (encode_gc_payload codec msg) _ e in
    let (gc_body, sent, e2) = >>=-eq-ok (or_fail (gc_codec.marshal _) marshal_gc_client) _ e1 in
    let same : gc_body ≡ body = cc in
    (
      handle_gc_message_lem gc_codec _ msg body
          (rw same at (faithful _ gc_body (or_fail-eq-ok _ marshal_gc_client sent)))
          (decode_gc_payload-encode codec msg hdr payload small m total enc),
      cc,
    )

-- A protobuf payload of eight bytes or more, and shorter than 2 ^ 32, whose header length is 2 ^
-- 32 - 8 or more is accepted, for a type below 2 ^ 31, and its body starts among its first eight
-- bytes, at the header length less 2 ^ 32 - 8.
pub decode_gc_payload_wraps :
    (app_id t : ℕ) (payload : Bytes)
    → t < 2 ^ 31
    → All IsByte payload
    → 8 ≤ length payload
    → length payload < 2 ^ 32
    → 2 ^ 32 - 8 ≤ get_le (slice payload 4 8)
    → decode_gc_payload app_id (bit_or t (proto_mask * bool_to_uint32 true)) payload
      ≡ ok (record {
        app_id = app_id;
        msg_type = t;
        is_proto = true;
        body = drop (get_le (slice payload 4 8) - (2 ^ 32 - 8)) payload;
      })
unfolding decode_gc_proto_payload
decode_gc_payload_wraps app_id t payload h bytes long small large =
    let word : get_le (slice payload 4 8) < 2 ^ 32 = get_le-slice_u32 4 payload bytes in
    let offset : (8 + get_le (slice payload 4 8)) % 2 ^ 32
        ≡ get_le (slice payload 4 8) - (2 ^ 32 - 8) =
      omega arith in
    decode_gc_payload_type app_id t true payload h
    ∙ rw (
      offset,
      le→ltb (length payload) 8 long,
      le→ltb (length payload % 2 ^ 32) (get_le (slice payload 4 8) - (2 ^ 32 - 8)) (omega arith),
    )
