-- ===== src/Tests/Packets.antt =====
-- Packets, groups of packets and messages of a Game Coordinator at concrete inputs.
use steamstacks.Prelude.{
  ◌*◌, ◌-◌, ◌^◌, ◌≡◌, ◌↔◌, refl, bit_or, true, false, [], ◌∷◌, ◌++◌, none, some, ok, panic, ◌>>=◌,
  drop, arith,
}
use steamstacks.Prelude.Bytes.{Bytes, slice, put_le, get_le}
use steamstacks.SteamClient.Protocol.{Header, empty_header, proto_mask}
use steamstacks.SteamClient.Message.{Packet, encode_packet, decode_packet}
use steamstacks.SteamClient.Message.RoundTrip.{decode_packet-encode_proto}
use steamstacks.SteamClient.Message.Safety.{Wraps, decode_packet-panic_iff}
use steamstacks.SteamClient.Message.Multi.{decode_multi}
use steamstacks.SteamClient.Message.Multi.Frames.{frames, decode_each, decode_multi-frames}
use steamstacks.SteamClient.Gc.{
  GcMessage, encode_gc_payload, decode_gc_payload, gc_packet_body, handle_gc_message,
  bool_to_uint32, encode_gc_proto_payload,
}
use steamstacks.SteamClient.Gc.RoundTrip.{handle-gc_packet_body, decode_gc_payload_wraps}
use steamstacks.Tests.Codecs.{header_codec, header_codec-RoundTrips, gc_codec, gc_codec-RoundTrips}

abbrev logon_header : Header
logon_header = record empty_header { steamid = some 76561197960287930; client_sessionid = some 3 }

-- The written form of `logon_header`.
abbrev logon_bytes : Bytes
logon_bytes = 1 ∷ (76561197960287930 ∷ (1 ∷ (3 ∷ (0 ∷ (0 ∷ (0 ∷ (0 ∷ (0 ∷ []))))))))

abbrev hello : Bytes
hello = 104 ∷ (105 ∷ [])

decode_packet-encode_proto_example :
    let p : Packet = record {
      emsg = 5514;
      is_proto = true;
      header = some logon_header;
      body = hello;
    } in
    (encode_packet header_codec p >>= decode_packet header_codec) ≡ ok p
decode_packet-encode_proto_example =
    decode_packet-encode_proto header_codec header_codec-RoundTrips 5514 logon_header logon_bytes
      hello (omega arith) refl (omega arith)

abbrev plain_packet : Packet
plain_packet = record { emsg = 703; is_proto = false; header = some logon_header; body = hello }

-- The type has the protobuf bit, and the header length is 2 ^ 32 - 1.
abbrev wrapping : Bytes
wrapping = 1 ∷ (0 ∷ (0 ∷ (128 ∷ (255 ∷ (255 ∷ (255 ∷ (255 ∷ [])))))))

decode_packet-panic_iff_example : (decode_packet header_codec wrapping ≡ panic) ↔ Wraps wrapping
decode_packet-panic_iff_example =
    decode_packet-panic_iff header_codec wrapping (omega arith) (omega arith)

wrapping_panics : decode_packet header_codec wrapping ≡ panic
unfolding get_le
wrapping_panics =
    (decode_packet-panic_iff header_codec wrapping (omega arith) (omega arith)).1
      (record { has_length = omega arith; is_proto = omega arith; too_large = omega arith })

decode_multi-frames_example :
    decode_multi header_codec (λ b. none) (frames (wrapping ∷ (hello ∷ []))) 0
    ≡ decode_each header_codec (wrapping ∷ (hello ∷ []))
decode_multi-frames_example =
    decode_multi-frames header_codec (λ b. none) (frames (wrapping ∷ (hello ∷ []))) 0
      (wrapping ∷ (hello ∷ [])) (omega arith) refl

abbrev gc_hello : GcMessage
gc_hello = record { app_id = 440; msg_type = 4006; is_proto = true; body = hello }

-- The written form of an empty header.
abbrev empty_bytes : Bytes
empty_bytes = 0 ∷ (0 ∷ (0 ∷ (0 ∷ (0 ∷ (0 ∷ (0 ∷ []))))))

abbrev gc_payload : Bytes
gc_payload = put_le 4 (bit_or 4006 proto_mask) ++ (put_le 4 7 ++ (empty_bytes ++ hello))

abbrev gc_body : Bytes
gc_body = 1 ∷ (440 ∷ (1 ∷ (bit_or 4006 proto_mask ∷ gc_payload)))

gc_hello_sent :
    gc_packet_body header_codec gc_codec gc_hello
    ≡ ok (record empty_header { routing_appid = some 440 }, gc_body)
unfolding gc_packet_body encode_gc_payload encode_gc_proto_payload
gc_hello_sent = refl

handle-gc_packet_body_example :
    (handle_gc_message gc_codec gc_body ≡ some gc_hello)
    × ((record empty_header { routing_appid = some 440 }).routing_appid ≡ some 440)
handle-gc_packet_body_example =
    handle-gc_packet_body header_codec gc_codec gc_codec-RoundTrips gc_hello empty_bytes
      (record empty_header { routing_appid = some 440 }) gc_body (omega arith) refl (omega arith)
      gc_hello_sent

decode_gc_payload_wraps_example :
    decode_gc_payload 440 (bit_or 4006 (proto_mask * bool_to_uint32 true)) wrapping
    ≡ ok (record {
      app_id = 440;
      msg_type = 4006;
      is_proto = true;
      body = drop (get_le (slice wrapping 4 8) - (2 ^ 32 - 8)) wrapping;
    })
decode_gc_payload_wraps_example =
    decode_gc_payload_wraps 440 4006 wrapping (omega arith) (omega arith) (omega arith)
      (omega arith) (unfold get_le in omega arith)
