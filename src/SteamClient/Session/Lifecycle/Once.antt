-- ===== src/SteamClient/Session/Lifecycle/Once.antt =====
-- `OnDisconnect` is called once for a connection, however it ends.
use steamstacks.Prelude.{
  ℕ, suc, ◌≡◌, ◌≢◌, refl, ◌∙◌, Bool, true, false, List, [], ◌∷◌, ok, err, ◌>>=◌, ◌==◌,
  if◌then◌else◌, arith, inl, inr, ◌⊎◌, All,
}
use steamstacks.Prelude.Bytes.{Bytes}
use steamstacks.SteamClient.Message.{Packet, PacketError, decode_packet}
use steamstacks.SteamClient.Events.{DisconnectEvent, read_failed, logged_off}
use steamstacks.SteamClient.Session.{
  emit, disconnected, Conn, no_conn, open_conn, closed_conn, Done, nil_done, open_done, closed_done,
  CmClient, Services, answer_job, fire_disconnect, close_conn,
}
use steamstacks.SteamClient.Session.Dispatch.{
  run_on_packet, handle_logged_off, handle_typed, logoff_reason, switch_emsg, deliver, deliver_all,
}
use steamstacks.SteamClient.Session.Groups.{leaves, handle_packet-leaves}
use steamstacks.SteamClient.Session.Lifecycle.{is_open, handle_decoded, read_error, read_loop}
use steamstacks.SteamClient.Session.Lifecycle.Close.{close_done-open, close_done-again}
use steamstacks.SteamClient.Session.Lifecycle.Life.{
  disconnects, disconnects-append, SameLife, handle_typed-SameLife, answer_job-SameLife,
  run_on_packet-SameLife,
}

-- The connection is up, and `OnDisconnect` was called `n` times, on earlier connections.
pub record Up (n : ℕ) (c : CmClient) : Type 0 where
  pub conn : c.conn ≡ open_conn
  pub done : c.done ≡ open_done
  pub close_once : c.close_once ≡ false
  pub disconnect_once : c.disconnect_once ≡ false
  pub has_callback : c.callbacks.on_disconnect ≡ true
  pub count : disconnects c.events ≡ n

-- The server has ended it, and this was reported.
pub record Down (n : ℕ) (c : CmClient) : Type 0 where
  pub conn : c.conn ≡ closed_conn
  pub done : c.done ≡ closed_done
  pub close_once : c.close_once ≡ true
  pub disconnect_once : c.disconnect_once ≡ true
  pub logged_in : c.logged_in ≡ false
  pub count : disconnects c.events ≡ suc n

same_Up : (n : ℕ) (c c' : CmClient) → SameLife c c' → Up n c → Up n c'
same_Up n c c' s h = record {
  conn = s.conn ∙ h.conn;
  done = s.done ∙ h.done;
  close_once = s.close_once ∙ h.close_once;
  disconnect_once = s.disconnect_once ∙ h.disconnect_once;
  has_callback = rw s.callbacks h.has_callback;
  count = s.count ∙ h.count;
}

same_Down : (n : ℕ) (c c' : CmClient) → SameLife c c' → Down n c → Down n c'
same_Down n c c' s h = record {
  conn = s.conn ∙ h.conn;
  done = s.done ∙ h.done;
  close_once = s.close_once ∙ h.close_once;
  disconnect_once = s.disconnect_once ∙ h.disconnect_once;
  logged_in = s.logged_in ∙ h.logged_in;
  count = s.count ∙ h.count;
}

abbrev UpOrDown : ℕ → CmClient → Type 0
UpOrDown n c = Up n c ⊎ Down n c

same_UpOrDown : (n : ℕ) (c c' : CmClient) → SameLife c c' → UpOrDown n c → UpOrDown n c'
same_UpOrDown n c c' s (inl h) = inl (same_Up n c c' s h)
same_UpOrDown n c c' s (inr h) = inr (same_Down n c c' s h)

-- The first time the callback is called.
record Fired (n : ℕ) (c fired : CmClient) : Type 0 where
  pub conn : fired.conn ≡ c.conn
  pub done : fired.done ≡ c.done
  pub close_once : fired.close_once ≡ c.close_once
  pub disconnect_once : fired.disconnect_once ≡ true
  pub logged_in : fired.logged_in ≡ false
  pub count : disconnects fired.events ≡ suc n

fire_disconnect-Up :
    (n : ℕ) (ev : DisconnectEvent) (c : CmClient) → Up n c → Fired n c (fire_disconnect ev c)
unfolding fire_disconnect
fire_disconnect-Up n ev c h =
    by_flags c.disconnect_once c.callbacks.on_disconnect h.disconnect_once h.has_callback
  where
    by_flags :
        (fired has : Bool)
        → fired ≡ false
        → has ≡ true
        → Fired n c (
            if fired
            then c
            else if has
            then emit (disconnected ev) (record c { disconnect_once = true; logged_in = false })
            else record c { disconnect_once = true; logged_in = false })
    by_flags true has e q = cc
    by_flags false false e q = cc
    by_flags false true e q = record {
      conn = refl;
      done = refl;
      close_once = refl;
      disconnect_once = refl;
      logged_in = refl;
      count = omega (arith, h.count, disconnects-append c.events (disconnected ev ∷ []));
    }

fire_disconnect-Down :
    (n : ℕ) (ev : DisconnectEvent) (c : CmClient) → Down n c → fire_disconnect ev c ≡ c
unfolding fire_disconnect
fire_disconnect-Down n ev c h = by_flag c.disconnect_once h.disconnect_once _
  where
    by_flag : (b : Bool) → b ≡ true → (x : CmClient) → (if b then c else x) ≡ c
    by_flag true e x = refl
    by_flag false e x = cc

pub close_conn-closed : (c : CmClient) → c.conn ≢ no_conn → (close_conn c).conn ≡ closed_conn
close_conn-closed c h = by_conn c.conn h
  where
    by_conn :
        (k : Conn)
        → k ≢ no_conn
        → elim k as (λ _. Conn) [
          | no_conn ↦ no_conn
          | open_conn ↦ closed_conn
          | closed_conn ↦ closed_conn
        ]
          ≡ closed_conn
    by_conn no_conn q = absurd (q refl)
    by_conn open_conn q = refl
    by_conn closed_conn q = refl

module _ (s : Services) (n : ℕ) where
  handle_logged_off-Down :
      (p : Packet) (c : CmClient)
      → UpOrDown n c
      → (c' : CmClient) × (handle_logged_off s p c ≡ ok c') × Down n c'
  unfolding handle_logged_off
  handle_logged_off-Down p c (inl h) =
      let fired = fire_disconnect (logged_off (logoff_reason s p)) c in
      let f = fire_disconnect-Up n (logged_off (logoff_reason s p)) c h in
      let closed = record fired { done = closed_done; close_once = true } in
      (
        close_conn closed,
        rw (close_done-open fired (f.close_once ∙ h.close_once) (f.done ∙ h.done)) refl,
        record {
          conn = close_conn-closed closed (λ e. cc);
          done = refl;
          close_once = refl;
          disconnect_once = f.disconnect_once;
          logged_in = f.logged_in;
          count = f.count;
        },
      )
  handle_logged_off-Down p c (inr h) = (
    close_conn c,
    rw
        (
          fire_disconnect-Down n (logged_off (logoff_reason s p)) c h,
          close_done-again c h.close_once,
        )
        refl,
    record {
      conn = close_conn-closed c (λ e. cc);
      done = h.done;
      close_once = h.close_once;
      disconnect_once = h.disconnect_once;
      logged_in = h.logged_in;
      count = h.count;
    },
  )

  switch_emsg-UpOrDown :
      (p : Packet) (c : CmClient)
      → UpOrDown n c
      → (c' : CmClient) × (switch_emsg s p c ≡ ok c') × UpOrDown n c'
  unfolding switch_emsg
  switch_emsg-UpOrDown p c h = by_type (p.emsg == 757)
    where
      by_type :
          (b : Bool)
          → (c' : CmClient) × ((if b then handle_logged_off s p c else ok (handle_typed s p c))
              ≡ ok c')
            × UpOrDown n c'
      by_type true = let (c', e, d) = handle_logged_off-Down p c h in (c', e, inr d)
      by_type false =
          (handle_typed s p c, refl, same_UpOrDown n c _ (handle_typed-SameLife s p c) h)

  deliver-UpOrDown :
      (p : Packet) (c : CmClient)
      → UpOrDown n c
      → (c' : CmClient) × (deliver s p c ≡ ok c') × UpOrDown n c'
  unfolding deliver
  deliver-UpOrDown p c h =
      let answered = same_UpOrDown n c (answer_job p c) (answer_job-SameLife p c) h in
      let (c1, e, k) = switch_emsg-UpOrDown p (answer_job p c) answered in
      (
        run_on_packet c1.on_packet p c1,
        rw e refl,
        same_UpOrDown n c1 _ (run_on_packet-SameLife c1.on_packet p c1) k,
      )

  deliver_all-UpOrDown :
      (ps : List Packet) (c : CmClient)
      → UpOrDown n c
      → (c' : CmClient) × (deliver_all s ps c ≡ ok c') × UpOrDown n c'
  deliver_all-UpOrDown [] c h = (c, refl, h)
  deliver_all-UpOrDown (p ∷ ps) c h =
      let (c1, e1, h1) = deliver-UpOrDown p c h in
      let (c', e, k) = deliver_all-UpOrDown ps c1 h1 in (c', rw e1 e, k)

  -- The connection is gone, and this was reported once.
  pub record Reported (c : CmClient) : Type 0 where
    pub logged_in : c.logged_in ≡ false
    pub count : disconnects c.events ≡ suc n

  read_error-Reported : (c : CmClient) → UpOrDown n c → Reported (read_error c)
  unfolding read_error
  read_error-Reported c (inl h) = by_done c.done h.done
    where
      by_done :
          (d : Done)
          → d ≡ open_done
          → Reported (elim d [
            | closed_done ↦ c
            | open_done ↦ fire_disconnect read_failed c
            | nil_done ↦ fire_disconnect read_failed c
          ])
      by_done nil_done e = cc
      by_done closed_done e = cc
      by_done open_done e =
          let f = fire_disconnect-Up n read_failed c h in
          record { logged_in = f.logged_in; count = f.count }
  read_error-Reported c (inr h) = by_done c.done h.done
    where
      by_done :
          (d : Done)
          → d ≡ closed_done
          → Reported (elim d [
            | closed_done ↦ c
            | open_done ↦ fire_disconnect read_failed c
            | nil_done ↦ fire_disconnect read_failed c
          ])
      by_done nil_done e = cc
      by_done open_done e = cc
      by_done closed_done e = record { logged_in = h.logged_in; count = h.count }

  module _ (fuel : ℕ) where
    -- A message that cannot be decoded, or a packet whose groups nest less than `fuel` deep.
    abbrev pub Readable : Bytes → Type 0
    Readable d =
        ((e : PacketError) × (decode_packet s.header d ≡ err e))
        ⊎ ((p : Packet) × (xs : List Packet) × (decode_packet s.header d ≡ ok p)
            × (leaves s fuel p ≡ ok xs))

    handle_decoded-UpOrDown :
        (d : Bytes) (c : CmClient)
        → Readable d
        → UpOrDown n c
        → (c' : CmClient) × (handle_decoded s fuel (decode_packet s.header d) c ≡ ok c')
          × UpOrDown n c'
    handle_decoded-UpOrDown d c (inl (e, q)) h = (c, rw q refl, h)
    handle_decoded-UpOrDown d c (inr (p, xs, q, l)) h =
        let (c', e, k) = deliver_all-UpOrDown xs c h in
        (c', rw (q, handle_packet-leaves s fuel p xs c l) e, k)

    read_loop-Reported :
        (ds : List Bytes) (c : CmClient)
        → All Readable ds
        → UpOrDown n c
        → (c' : CmClient) × (read_loop s fuel ds c ≡ ok c') × Reported c'
    unfolding read_loop
    read_loop-Reported [] c a h = (read_error c, refl, read_error-Reported c h)
    read_loop-Reported (d ∷ ds) c a h =
        let (c1, e1, h1) = handle_decoded-UpOrDown d c a.0 h in
        by_conn e1 (read_loop-Reported ds c1 a.1 h1) (is_open s fuel c.conn)
      where
        by_conn :
            {c1 : CmClient}
            → handle_decoded s fuel (decode_packet s.header d) c ≡ ok c1
            → (c' : CmClient) × (read_loop s fuel ds c1 ≡ ok c') × Reported c'
            → (b : Bool)
            → (c' : CmClient) × ((if b
                  then (handle_decoded s fuel (decode_packet s.header d) c >>= λ c2.
                      read_loop s fuel ds c2)
                  else ok (read_error c))
                ≡ ok c')
              × Reported c'
        by_conn e (c', q, r) true = (c', rw e q, r)
        by_conn e k false = (read_error c, refl, read_error-Reported c h)

    -- On a connection that is up, with `OnDisconnect` set, let the server send any messages that
    -- can be read or are rejected, logoffs in any number among them. Then the read loop ends without
    -- a panic, the client is not logged in, and `OnDisconnect` was called exactly once more.
    pub read_loop-reports_once :
        (ds : List Bytes) (c : CmClient)
        → All Readable ds
        → Up n c
        → (c' : CmClient) × (read_loop s fuel ds c ≡ ok c') × Reported c'
    read_loop-reports_once ds c a h = read_loop-Reported ds c a (inl h)
