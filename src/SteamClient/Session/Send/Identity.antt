-- ===== src/SteamClient/Session/Send/Identity.antt =====
-- What the server reads in the header of what is sent.
use steamstacks.Prelude.{
  ℕ, ◌+◌, ◌^◌, ◌<◌, ◌≡◌, refl, ap, ◌∙◌, Bool, true, false, Option, some, Result, ok, err, panic,
  ◌>>=◌, >>=-eq-ok, wrap_err, if◌then◌else◌, length,
}
use steamstacks.Prelude.Bytes.{Bytes}
use steamstacks.SteamClient.Protocol.{RoundTrips, Header}
use steamstacks.SteamClient.Message.{Packet, encode_packet, decode_packet, header_or_empty}
use steamstacks.SteamClient.Message.RoundTrip.{decode_packet-encode_proto}
use steamstacks.SteamClient.Session.{Conn, no_conn, open_conn, closed_conn, CmClient, Services}
use steamstacks.SteamClient.Session.Send.{
  SendError, encode, write, filled_header, conn_write, send_encoded, send_packet,
}
use steamstacks.SteamClient.Session.Send.Sent.{after_write}

conn_write-open :
    (s : Services) (d : Bytes) (c : CmClient)
    → c.conn ≡ open_conn
    → s.accepts c.written d ≡ true
    → conn_write s d c ≡ ok (after_write s c d)
unfolding conn_write
conn_write-open s d c is_up takes = by_conn c.conn (s.accepts c.written d) is_up takes
  where
    by_conn :
        (k : Conn) (v : Bool)
        → k ≡ open_conn
        → v ≡ true
        → elim k as (λ _. Result SendError CmClient) [
          | no_conn ↦ panic
          | open_conn ↦ if v then ok (after_write s c d) else err write
          | closed_conn ↦ err write
        ]
          ≡ ok (after_write s c d)
    by_conn no_conn v e q = cc
    by_conn closed_conn v e q = cc
    by_conn open_conn false e q = cc
    by_conn open_conn true e q = refl

-- Let protobuf's codec be faithful and marshal the header, the type be below 2 ^ 31, the packet
-- shorter than 2 ^ 32 bytes, and the open connection take any message. Then `sendPacket` writes one
-- message more, which is decoded to the type, the body and this header: the one of the call, in
-- which a client that is logged in has put its own ID and session.
pub send_packet-read :
    (s : Services) (emsg : ℕ) (hdr : Option Header) (b body : Bytes) (c : CmClient)
    → RoundTrips s.header
    → c.conn ≡ open_conn
    → ((d : Bytes) → s.accepts c.written d ≡ true)
    → emsg < 2 ^ 31
    → s.header.marshal (filled_header hdr c) ≡ some b
    → length b + length body + 8 < 2 ^ 32
    → let h = header_or_empty hdr in
      (d : Bytes) × (send_packet s emsg hdr body c ≡ ok (after_write s c d))
      × (decode_packet s.header d
          ≡ ok (record {
            emsg = emsg;
            is_proto = true;
            header = some (
                if c.logged_in
                then record h { steamid = some c.steam_id; client_sessionid = some c.session_id }
                else h);
            body = body;
          }))
unfolding send_packet send_encoded filled_header
send_packet-read s emsg hdr b body c faithful is_up takes small m total =
    let pkt : Packet = record {
      emsg = emsg;
      is_proto = true;
      header = some (filled_header hdr c);
      body = body;
    } in
    let (d, e, q) = >>=-eq-ok (encode_packet s.header pkt) (decode_packet s.header) (
      decode_packet-encode_proto s.header faithful emsg (filled_header hdr c) b body small m
        total) in
    (
      d,
      ap (λ r. wrap_err encode r >>= λ x. conn_write s x c) e
          ∙ conn_write-open s d c is_up (takes d),
      q,
    )
