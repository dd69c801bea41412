-- ===== src/SteamClient/Session/Lifecycle/Ends.antt =====
-- `Disconnect` and `Reconnect`, and the second call of each.
use steamstacks.Prelude.{
  ◌≡◌, ◌≢◌, refl, sym, ◌∙◌, Bool, true, false, List, [], ◌∷◌, ◌++◌, Option, some, Result, ok, err,
  panic, if◌then◌else◌, inl, inr, ◌⊎◌,
}
use steamstacks.Prelude.Bytes.{Bytes}
use steamstacks.SteamClient.Protocol.{Header, empty_header}
use steamstacks.SteamClient.Session.{
  no_conn, closed_conn, Done, open_done, closed_done, CmClient, Services, close_done, close_conn,
}
use steamstacks.SteamClient.Session.Send.{SendError, send_packet}
use steamstacks.SteamClient.Session.Send.Sent.{after_write, send_packet-Sent}
use steamstacks.SteamClient.Session.Lifecycle.{
  TransportType, Outside, ConnectError, best_effort, reset_once, log_off, disconnect, tear_down,
  reconnect,
}
use steamstacks.SteamClient.Session.Lifecycle.Close.{
  close_done-open, close_done-again, close_done-panics,
}
use steamstacks.SteamClient.Session.Lifecycle.Once.{close_conn-closed}

-- A client that has a connection: `done` is open, or a logoff has closed it in this cycle.
pub record Live (c : CmClient) : Type 0 where
  pub has_conn : c.conn ≢ no_conn
  pub closable : (c.close_once ≡ true) ⊎ ((c.close_once ≡ false) × (c.done ≡ open_done))
  pub closed : c.close_once ≡ true → c.done ≡ closed_done

pub close_done-Live :
    {E : Type 0} (c : CmClient)
    → Live c
    → (c' : CmClient) × (close_done {E = E} c ≡ ok c')
      × (c'.done ≡ closed_done)
      × (c'.conn ≡ c.conn)
      × (c'.logged_in ≡ c.logged_in)
      × (c'.written ≡ c.written)
close_done-Live c h = by_once h.closable
  where
    by_once :
        {E : Type 0}
        → (c.close_once ≡ true) ⊎ ((c.close_once ≡ false) × (c.done ≡ open_done))
        → (c' : CmClient) × (close_done {E = E} c ≡ ok c')
          × (c'.done ≡ closed_done)
          × (c'.conn ≡ c.conn)
          × (c'.logged_in ≡ c.logged_in)
          × (c'.written ≡ c.written)
    by_once (inl e) = (c, close_done-again c e, h.closed e, refl, refl, refl)
    by_once (inr (e, q)) = (
      record c { done = closed_done; close_once = true },
      close_done-open c e q,
      refl,
      refl,
      refl,
      refl,
    )

closed_not_open : (d : Done) → d ≡ closed_done → d ≢ open_done
closed_not_open d e = λ q. cc

module _ (s : Services) where
  -- What the logoff of this client may leave in `written`: nothing more, or behind all else the one
  -- message that a client which is logged in sends as EMsgClientLogOff, 706, with an empty body and
  -- its own ID and session in the header.
  pub data Wrote (c : CmClient) : List Bytes → Type 0 where
    nothing : Wrote c c.written
    logoff :
        (d : Bytes)
        → c.logged_in ≡ true
        → send_packet s 706
            (some (record empty_header {
              steamid = some c.steam_id;
              client_sessionid = some c.session_id;
            }))
            []
            (record c { logged_in = false })
          ≡ ok (after_write s (record c { logged_in = false }) d)
        → Wrote c (c.written ++ (d ∷ []))

  record Kept (c c' : CmClient) : Type 0 where
    pub conn : c'.conn ≡ c.conn
    pub close_once : c'.close_once ≡ c.close_once
    pub done : c'.done ≡ c.done
    pub logged_in : c'.logged_in ≡ false
    pub wrote : Wrote c c'.written

  Kept-Live : (c c' : CmClient) → Kept c c' → Live c → Live c'
  Kept-Live c c' k h = record {
    has_conn = λ e. h.has_conn (sym k.conn ∙ e);
    closable = by_once h.closable;
    closed = λ e. k.done ∙ h.closed (sym k.close_once ∙ e);
  }
    where
      by_once :
          (c.close_once ≡ true) ⊎ ((c.close_once ≡ false) × (c.done ≡ open_done))
          → (c'.close_once ≡ true) ⊎ ((c'.close_once ≡ false) × (c'.done ≡ open_done))
      by_once (inl e) = inl (k.close_once ∙ e)
      by_once (inr (e, q)) = inr (k.close_once ∙ e, k.done ∙ q)

  log_off_out : (c : CmClient) → c.logged_in ≡ false → log_off s c ≡ ok c
  unfolding log_off
  log_off_out c out = by_login c.logged_in out _
    where
      by_login : (b : Bool) → b ≡ false → (r : Result ⊥ CmClient) → (if b then r else ok c) ≡ ok c
      by_login true e r = cc
      by_login false e r = refl

  -- A client that is logged out, and whose `done` is not open.
  disconnect_again :
      (c : CmClient)
      → c.close_once ≡ false
      → c.logged_in ≡ false
      → c.done ≢ open_done
      → disconnect s c ≡ panic
  unfolding disconnect
  disconnect_again c once out shut =
      rw (log_off_out c out, close_done-panics {E = ⊥} c once shut) refl

  -- A logoff is sent if it can be; the rest is as before.
  log_off-Kept :
      (c : CmClient) → c.conn ≢ no_conn → (c' : CmClient) × (log_off s c ≡ ok c') × Kept c c'
  unfolding log_off
  log_off-Kept c h = by_login c.logged_in refl
    where
      off : CmClient
      off = record c { logged_in = false }

      hdr : Option Header
      hdr =
          some (record empty_header {
            steamid = some c.steam_id;
            client_sessionid = some c.session_id;
          })

      sent :
          c.logged_in ≡ true
          → ((e : SendError) × (send_packet s 706 hdr [] off ≡ err e))
            ⊎ ((d : Bytes) × (send_packet s 706 hdr [] off ≡ ok (after_write s off d)))
          → (c' : CmClient) × (best_effort (send_packet s 706 hdr [] off) off ≡ ok c') × Kept c c'
      sent on (inl (e, q)) = (
        off,
        rw q refl,
        record { conn = refl; close_once = refl; done = refl; logged_in = refl; wrote = nothing },
      )
      sent on (inr (d, q)) = (
        after_write s off d,
        rw q refl,
        record {
          conn = refl;
          close_once = refl;
          done = refl;
          logged_in = refl;
          wrote = logoff d on q;
        },
      )

      by_login :
          (b : Bool)
          → c.logged_in ≡ b
          → (c' : CmClient) × ((if b then best_effort (send_packet s 706 hdr [] off) off else ok c)
              ≡ ok c')
            × Kept c c'
      by_login true e = sent e (send_packet-Sent s 706 hdr [] off h)
      by_login false e = (
        c,
        refl,
        record { conn = refl; close_once = refl; done = refl; logged_in = e; wrote = nothing },
      )

  -- `Disconnect` on a client that has a connection, one that a logoff has closed included: it
  -- succeeds, closes the connection and logs the client out, and of messages it writes at most one,
  -- behind what was written before: the logoff, of a client that was logged in. But after it, both
  -- a second `Disconnect` and `Reconnect` close `done` again and panic.
  pub disconnect-twice :
      (c : CmClient)
      → Live c
      → (c' : CmClient) × (disconnect s c ≡ ok c')
        × (c'.conn ≡ closed_conn)
        × (c'.logged_in ≡ false)
        × Wrote c c'.written
        × (disconnect s c' ≡ panic)
        × ((t : TransportType) (o : Outside) → (reconnect t o c').outcome ≡ panic)
  unfolding disconnect reconnect tear_down
  disconnect-twice c h =
      let (off, e1, k) = log_off-Kept c h.has_conn in
      let live = Kept-Live c off k h in
      let (shut, e2, d, n, l, w) = close_done-Live {E = ⊥} off live in
      let c' : CmClient = reset_once (close_conn shut) in
      let shut_conn : (close_conn shut).conn ≡ closed_conn =
        close_conn-closed shut (λ q. live.has_conn (sym n ∙ q)) in
      let out : c'.logged_in ≡ false = l ∙ k.logged_in in
      let not_open : c'.done ≢ open_done = closed_not_open shut.done d in
      (
        c',
        rw (e1, e2) refl,
        shut_conn,
        out,
        rw w k.wrote,
        disconnect_again c' refl out not_open,
        (λ t o. rw (close_done-panics {E = ConnectError} c' refl not_open) refl),
      )
