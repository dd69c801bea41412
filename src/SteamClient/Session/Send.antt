-- ===== src/SteamClient/Session/Send.antt =====
-- steamclient/steamclient.go and steamclient/friends.go: how the client sends.
pub mod Sent
pub mod Identity
use steamstacks.Prelude.{
  ℕ, Bool, true, false, List, [], ◌∷◌, ◌++◌, Option, none, some, Result, ok, err, panic, stuck,
  ◌>>=◌, wrap_err, if◌then◌else◌,
}
use steamstacks.Prelude.Bytes.{Bytes}
use steamstacks.SteamClient.Protocol.{Header, empty_header}
use steamstacks.SteamClient.Message.{Packet, PacketError, encode_packet, header_or_empty}
use steamstacks.SteamClient.Session.{CmClient, no_conn, open_conn, closed_conn, Services}

pub data SendError : Type 0 where
  encode : PacketError → SendError
  write : SendError

-- A client that is logged in puts its own ID and session into the header.
unfoldable pub filled_header : Option Header → CmClient → Header
filled_header hdr c =
    if c.logged_in
    then record (header_or_empty hdr) {
      steamid = some c.steam_id;
      client_sessionid = some c.session_id;
    }
    else header_or_empty hdr

module _ (s : Services) where
  -- `c.conn.Write`: the call on a nil connection panics, and one that was closed takes nothing.
  unfoldable pub conn_write : Bytes → CmClient → Result SendError CmClient
  conn_write data_bytes c = elim c.conn [
    | no_conn ↦ panic
    | open_conn ↦
        if s.accepts c.written data_bytes
        then ok (record c { written = c.written ++ (data_bytes ∷ []) })
        else err write
    | closed_conn ↦ err write
  ]

  unfoldable pub send_encoded : Packet → CmClient → Result SendError CmClient
  send_encoded pkt c =
      wrap_err encode (encode_packet s.header pkt) >>= λ data_bytes. conn_write data_bytes c

  unfoldable pub send_packet : ℕ → Option Header → Bytes → CmClient → Result SendError CmClient
  send_packet emsg hdr body c =
      send_encoded
        (record { emsg = emsg; is_proto = true; header = some (filled_header hdr c); body = body })
        c

  -- The ID and the session are those of the client, logged in or not.
  unfoldable pub send_non_proto_packet : ℕ → Bytes → CmClient → Result SendError CmClient
  send_non_proto_packet emsg body c =
      send_encoded
        (record {
          emsg = emsg;
          is_proto = false;
          header = some (record empty_header {
            steamid = some c.steam_id;
            client_sessionid = some c.session_id;
          });
          body = body;
        })
        c
