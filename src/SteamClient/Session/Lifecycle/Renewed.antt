-- ===== src/SteamClient/Session/Lifecycle/Renewed.antt =====
-- `Reconnect` on a client whose connection is up or was lost.
use steamstacks.Prelude.{
  ℕ, ◌<◌, ◌≡◌, refl, true, false, List, [], ◌∷◌, some, ok, ==_ne, arith, length, get_elem?,
}
use steamstacks.SteamClient.Session.{open_conn, open_done, CmClient, close_conn}
use steamstacks.SteamClient.Session.Lifecycle.{
  TransportType, CmServer, Outside, ConnectError, candidates, connect, reset_once, tear_down,
  reconnect,
}
use steamstacks.SteamClient.Session.Lifecycle.Ends.{Live, close_done-Live}

-- What is asked of the world: servers were discovered, the number that `rand.IntN` gives is that of
-- one of the transport's type, and this server takes the dial.
pub record Reaches (t : TransportType) (o : Outside) : Type 0 where
  pub servers : List CmServer
  pub discovered : o.discovered ≡ some servers
  pub server : CmServer
  pub picked :
      get_elem? (candidates t servers) (o.int_n (length (candidates t servers))) ≡ some server
  pub dials : o.dials t server ≡ true

get_elem?-not_empty {ℓ} :
    {A : Type ℓ} (xs : List A) (i : ℕ) (x : A) → get_elem? xs i ≡ some x → 0 < length xs
get_elem?-not_empty [] i x e = cc
get_elem?-not_empty (y ∷ ys) i x e = omega arith

connect-Reaches :
    (t : TransportType) (o : Outside) (c : CmClient)
    → Reaches t o
    → connect t o c ≡ ok (record c { conn = open_conn; done = open_done })
unfolding connect
connect-Reaches t o c h =
    let found = candidates t h.servers in
    let some_candidate = get_elem?-not_empty found (o.int_n (length found)) h.server h.picked in
    rw (h.discovered, ==_ne (length found) 0 (omega (arith, some_candidate)), h.picked, h.dials)
      refl

-- `Reconnect` on a client that has a connection, lost or not, is successful if servers are
-- discovered and the one of the transport's type that is picked takes the dial: the connection and `done` are open, both `sync.Once` are unused, so that the end of
-- the new connection will be reported, and the client is not logged in.
pub reconnect-renews :
    (t : TransportType) (o : Outside) (c : CmClient)
    → Live c
    → Reaches t o
    → let r = reconnect t o c in
      (r.outcome ≡ ok tt)
      × (r.after.conn ≡ open_conn)
      × (r.after.done ≡ open_done)
      × (r.after.close_once ≡ false)
      × (r.after.disconnect_once ≡ false)
      × (r.after.logged_in ≡ false)
unfolding reconnect tear_down
reconnect-renews t o c h w =
    let (shut, e, d, n, l, u) = close_done-Live {E = ConnectError} c h in
    let down = record (reset_once (close_conn shut)) { done = open_done; logged_in = false } in
    rw (e, connect-Reaches t o down w) (refl, refl, refl, refl, refl, refl)
