-- ===== src/SteamClient/Session/Links/Sends.antt =====
-- What is sent leaves the channels and the listeners as they are.
use steamstacks.Prelude.{
  ℕ, ◌≡◌, refl, sym, Bool, true, false, [], ◌∷◌, ◌++◌, wrap_err, Option, some, Result, ok, err,
  panic, stuck, if◌then◌else◌, >>=-eq-ok, ok-injective,
}
use steamstacks.Prelude.Bytes.{Bytes}
use steamstacks.SteamClient.Protocol.{Header, empty_header}
use steamstacks.SteamClient.Message.{Packet, encode_packet}
use steamstacks.SteamClient.Session.{Conn, no_conn, open_conn, closed_conn, CmClient, Services}
use steamstacks.SteamClient.Session.Send.{
  SendError, encode, write, conn_write, send_encoded, send_packet, send_non_proto_packet,
}
use steamstacks.SteamClient.Session.Lifecycle.{log_off, best_effort}
use steamstacks.SteamClient.Session.Links.{SameLinks}

module _ (s : Services) where
  conn_write-SameLinks : (d : Bytes) (c c' : CmClient) → conn_write s d c ≡ ok c' → SameLinks c c'
  unfolding conn_write
  conn_write-SameLinks d c c' e = by_conn c.conn (s.accepts c.written d) e
    where
      by_conn :
          (conn : Conn) (b : Bool)
          → ◌≡◌ {A = Result SendError CmClient}
              (elim conn [
                | no_conn ↦ panic
                | open_conn ↦
                    if b then ok (record c { written = c.written ++ (d ∷ []) }) else err write
                | closed_conn ↦ err write
              ])
              (ok c')
          → SameLinks c c'
      by_conn no_conn b q = cc
      by_conn open_conn true q = rw (sym (ok-injective q)) (refl, refl, refl)
      by_conn open_conn false q = cc
      by_conn closed_conn b q = cc

  pub send_encoded-SameLinks :
      (p : Packet) (c c' : CmClient) → send_encoded s p c ≡ ok c' → SameLinks c c'
  unfolding send_encoded
  send_encoded-SameLinks p c c' e =
      let (d, e1, e2) = >>=-eq-ok (wrap_err encode (encode_packet s.header p)) _ e in
      conn_write-SameLinks d c c' e2

  pub send_packet-SameLinks :
      (emsg : ℕ) (hdr : Option Header) (body : Bytes) (c c' : CmClient)
      → send_packet s emsg hdr body c ≡ ok c'
      → SameLinks c c'
  unfolding send_packet
  send_packet-SameLinks emsg hdr body c c' e = send_encoded-SameLinks _ c c' e

  pub send_non_proto-SameLinks :
      (emsg : ℕ) (body : Bytes) (c c' : CmClient)
      → send_non_proto_packet s emsg body c ≡ ok c'
      → SameLinks c c'
  unfolding send_non_proto_packet
  send_non_proto-SameLinks emsg body c c' e = send_encoded-SameLinks _ c c' e

  pub log_off-SameLinks : (c c' : CmClient) → log_off s c ≡ ok c' → SameLinks c c'
  unfolding log_off
  log_off-SameLinks c c' e = by_login c.logged_in e
    where
      off : CmClient
      off = record c { logged_in = false }

      sending : Result SendError CmClient
      sending =
          send_packet s 706
            (some (record empty_header {
              steamid = some c.steam_id;
              client_sessionid = some c.session_id;
            }))
            [] off

      by_send :
          (r : Result SendError CmClient) → sending ≡ r → best_effort r off ≡ ok c' → SameLinks c c'
      by_send (ok c1) k q = rw (sym (ok-injective q)) (send_packet-SameLinks _ _ _ off c1 k)
      by_send (err x) k q = rw (sym (ok-injective q)) (refl, refl, refl)
      by_send panic k q = cc
      by_send stuck k q = cc

      by_login : (b : Bool) → (if b then best_effort sending off else ok c) ≡ ok c' → SameLinks c c'
      by_login true q = by_send sending refl q
      by_login false q = rw (sym (ok-injective q)) (refl, refl, refl)
