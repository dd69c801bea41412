-- ===== src/SteamClient/Session/Matched/Steps.antt =====
-- Every interleaving of the session's steps keeps responses with those who wait for them.
use steamstacks.Prelude.{
  ℕ, ◌≡◌, refl, sym, Bool, true, false, List, [], ◌∷◌, arith, Option, some, ok, if◌then◌else◌,
  >>=-eq-ok, ok-injective, All,
}
use mathlib.Core.Option.{some-injective}
use steamstacks.Prelude.Bytes.{Bytes}
use steamstacks.SteamClient.Protocol.{Header}
use steamstacks.SteamClient.Message.{Packet}
use steamstacks.SteamClient.Events.{read_failed}
use steamstacks.SteamClient.Session.{
  Channel, job_channel, emsg_channel, same_channel, OnPacket, no_handler, user_handler, one_shot,
  Callbacks, open_conn, Done, nil_done, open_done, closed_done, CmClient, new_client, Services,
  response_of, forget, fire_disconnect, close_done, close_conn,
}
use steamstacks.SteamClient.Session.Dispatch.{deliver}
use steamstacks.SteamClient.Session.Send.{send_packet, send_non_proto_packet}
use steamstacks.SteamClient.Session.Calls.{expect_emsg, expect_job_id}
use steamstacks.SteamClient.Session.Lifecycle.{disconnect, tear_down, log_off, read_error}
use steamstacks.SteamClient.Session.Links.{fire_disconnect-SameLinks, close_done-SameLinks}
use steamstacks.SteamClient.Session.Matched.{Fits, Listens, Matched, same_links, forget-ForJob}
use steamstacks.SteamClient.Session.Links.Sends.{
  send_packet-SameLinks, send_non_proto-SameLinks, log_off-SameLinks,
}
use steamstacks.SteamClient.Session.Matched.Delivered.{deliver-Matched}

pub same_channel-eq : (a b : Channel) → same_channel a b ≡ true → a ≡ b
same_channel-eq (job_channel n job) (job_channel m job') e = ground arith
same_channel-eq (job_channel n job) (emsg_channel m target) e = cc
same_channel-eq (emsg_channel n target) (job_channel m job) e = cc
same_channel-eq (emsg_channel n target) (emsg_channel m target') e = ground arith

pub found-Fits :
    (ch : Channel) (p : Packet) (rs : List (Channel × Packet))
    → All (λ (r : Channel × Packet). Fits r.0 r.1) rs
    → response_of ch rs ≡ some p
    → Fits ch p
unfolding response_of
found-Fits ch p [] h e = cc
found-Fits ch p (r ∷ rs) h e =
    by_channel (λ q. found-Fits ch p rs h.1 q) (same_channel r.0 ch) refl e
  where
    by_channel :
        (response_of ch rs ≡ some p → Fits ch p)
        → (b : Bool) → same_channel r.0 ch ≡ b
        → (if b then some r.1 else response_of ch rs) ≡ some p
        → Fits ch p
    by_channel ih true k q = rw (sym (same_channel-eq r.0 ch k), sym (some-injective r.1 p q)) h.0
    by_channel ih false k q = ih q

-- A function that the program itself puts into `OnPacket`, or none.
abbrev pub Given : OnPacket → Type 0
Given no_handler = Unit {0}
Given user_handler = Unit {0}
Given (one_shot target ch prev) = ⊥

Given-Listens : (handler : OnPacket) → Given handler → Listens handler
Given-Listens no_handler h = tt
Given-Listens user_handler h = tt
Given-Listens (one_shot target ch prev) h = absurd h

module _ (s : Services) where
  disconnect-Matched : (c c' : CmClient) → disconnect s c ≡ ok c' → Matched c → Matched c'
  unfolding disconnect
  disconnect-Matched c c' e h =
      let (off, e1, e2) = >>=-eq-ok (log_off s c) _ e in
      let (closed, e3, e4) = >>=-eq-ok (close_done off) _ e2 in
      rw (sym (ok-injective e4)) (
        same_links closed _ (refl, refl, refl)
          (same_links off closed (close_done-SameLinks off closed e3)
            (same_links c off (log_off-SameLinks s c off e1) h)))

  tear_down-Matched : (c c' : CmClient) → tear_down c ≡ ok c' → Matched c → Matched c'
  unfolding tear_down
  tear_down-Matched c c' e h =
      let (closed, e1, e2) = >>=-eq-ok (close_done c) _ e in
      rw (sym (ok-injective e2)) (
        same_links closed _ (refl, refl, refl)
          (same_links c closed (close_done-SameLinks c closed e1) h))

  -- What the goroutines of a client and its callers do, in any order: the read loop delivers or
  -- fails, requests are sent and registered, a call ends, the connection begins and ends, and the
  -- program assigns `OnPacket`.
  pub data CmStep : CmClient → CmClient → Type 0 where
    delivered : (c c' : CmClient) (p : Packet) → deliver s p c ≡ ok c' → CmStep c c'
    read_ended : (c : CmClient) → CmStep c (read_error c)
    sent :
        (c c' : CmClient) (emsg : ℕ) (hdr : Option Header) (body : Bytes)
        → send_packet s emsg hdr body c ≡ ok c'
        → CmStep c c'
    sent_non_proto :
        (c c' : CmClient) (emsg : ℕ) (body : Bytes)
        → send_non_proto_packet s emsg body c ≡ ok c'
        → CmStep c c'
    expecting_emsg : (c : CmClient) (target : ℕ) → CmStep c (expect_emsg target c).1
    expecting_job :
        (c : CmClient) (job : ℕ) → CmStep c (expect_job_id job (record c { next_job_id = job })).1
    call_ended :
        (c : CmClient) (job : ℕ) → CmStep c (record c { pending_jobs = forget job c.pending_jobs })
    logged_on :
        (c : CmClient) (sid session : ℕ)
        → CmStep c (record c { steam_id = sid; session_id = session; logged_in = true })
    connection_closed : (c : CmClient) → CmStep c (close_conn c)
    connected : (c : CmClient) → CmStep c (record c { conn = open_conn; done = open_done })
    disconnected : (c c' : CmClient) → disconnect s c ≡ ok c' → CmStep c c'
    torn_down : (c c' : CmClient) → tear_down c ≡ ok c' → CmStep c c'
    handler_given :
        (c : CmClient) (handler : OnPacket)
        → Given handler
        → CmStep c (record c { on_packet = handler })

  pub data CmReachable : CmClient → CmClient → Type 0 where
    here : {c : CmClient} → CmReachable c c
    next : {c c1 c2 : CmClient} → CmReachable c c1 → CmStep c1 c2 → CmReachable c c2

  read_error-Matched : (c : CmClient) → Matched c → Matched (read_error c)
  unfolding read_error
  read_error-Matched c h = by_done c.done
    where
      by_done :
          (d : Done)
          → Matched (elim d [
            | closed_done ↦ c
            | open_done ↦ fire_disconnect read_failed c
            | nil_done ↦ fire_disconnect read_failed c
          ])
      by_done closed_done = h
      by_done open_done = same_links c _ (fire_disconnect-SameLinks _ c) h
      by_done nil_done = same_links c _ (fire_disconnect-SameLinks _ c) h

  expect-Matched :
      (c : CmClient) (n : ℕ)
      → Matched c
      → Matched (expect_emsg n c).1 × Matched (expect_job_id n c).1
  unfolding expect_emsg expect_job_id
  expect-Matched c n h = (
    record { sent = h.sent; registered = h.registered; listening = (refl, h.listening) },
    record {
      sent = h.sent;
      registered = (refl, forget-ForJob n c.pending_jobs h.registered);
      listening = h.listening;
    },
  )

  pub CmStep-Matched : (c c' : CmClient) → CmStep c c' → Matched c → Matched c'
  CmStep-Matched _ _ (delivered c c' p e) h = deliver-Matched s p c c' e h
  CmStep-Matched _ _ (read_ended c) h = read_error-Matched c h
  CmStep-Matched _ _ (sent c c' emsg hdr body e) h =
      same_links c c' (send_packet-SameLinks s emsg hdr body c c' e) h
  CmStep-Matched _ _ (sent_non_proto c c' emsg body e) h =
      same_links c c' (send_non_proto-SameLinks s emsg body c c' e) h
  CmStep-Matched _ _ (expecting_emsg c target) h = (expect-Matched c target h).0
  CmStep-Matched _ _ (expecting_job c job) h =
      (expect-Matched (record c { next_job_id = job }) job (same_links c _ (refl, refl, refl) h)).1
  CmStep-Matched _ _ (call_ended c job) h = record {
    sent = h.sent;
    registered = forget-ForJob job c.pending_jobs h.registered;
    listening = h.listening;
  }
  CmStep-Matched _ _ (logged_on c sid session) h = same_links c _ (refl, refl, refl) h
  CmStep-Matched _ _ (connection_closed c) h = same_links c _ (refl, refl, refl) h
  CmStep-Matched _ _ (connected c) h = same_links c _ (refl, refl, refl) h
  CmStep-Matched _ _ (disconnected c c' e) h = disconnect-Matched c c' e h
  CmStep-Matched _ _ (torn_down c c' e) h = tear_down-Matched c c' e h
  CmStep-Matched _ _ (handler_given c handler g) h = record {
    sent = h.sent;
    registered = h.registered;
    listening = Given-Listens handler g;
  }

  CmReachable-Matched : (c c' : CmClient) → CmReachable c c' → Matched c → Matched c'
  CmReachable-Matched c _ here h = h
  CmReachable-Matched c _ (next {c1 = c1} {c2 = c2} r e) h =
      CmStep-Matched c1 c2 e (CmReachable-Matched c c1 r h)

  -- After any steps of a new client, whatever their order, the packet on a channel that was made
  -- for a job names this job as its target, and the one on a channel that was made for a type is
  -- of this type. The client begins with any callbacks, and with nothing or with a function of the
  -- program in `OnPacket`, which the program may assign again at any time.
  pub response_of-Fits :
      (callbacks : Callbacks) (handler : OnPacket) (c : CmClient) (ch : Channel) (p : Packet)
      → Given handler
      → CmReachable (new_client callbacks handler) c
      → response_of ch c.responses ≡ some p
      → Fits ch p
  response_of-Fits callbacks handler c ch p g r e =
      found-Fits ch p c.responses
        (CmReachable-Matched (new_client callbacks handler) c r
          (record { sent = tt; registered = tt; listening = Given-Listens handler g })).sent
        e
