-- ===== src/SteamClient/Session/Calls/Answered.antt =====
-- A service method whose response arrives returns it, whatever else the server sends meanwhile.
use steamstacks.Prelude.{
  ℕ, suc, ◌%◌, ◌^◌, ◌≡◌, ◌≢◌, refl, ap, ◌∙◌, Bool, true, false, List, [], ◌∷◌, ◌++◌, Option, none,
  some, ok, ◌==◌, ==_refl, ==_ne, if◌then◌else◌, All,
}
use mathlib.Core.Option.{some-injective}
use steamstacks.Prelude.Bytes.{Bytes}
use steamstacks.SteamClient.Protocol.{get_eresult}
use steamstacks.SteamClient.Message.{Packet, header_or_empty}
use steamstacks.SteamClient.Session.{
  Channel, OnPacket, no_handler, user_handler, one_shot, CmClient, Services, response_of, try_send,
  pending, forget, answer_job,
}
use steamstacks.SteamClient.Session.Dispatch.{
  run_on_packet, handle_typed, switch_emsg, deliver, deliver_all,
}
use steamstacks.SteamClient.Session.Groups.{deliver_all-append}
use steamstacks.SteamClient.Session.Links.{handle_typed-SameLinks}
use steamstacks.SteamClient.Session.Matched.{
  Listens, Matched, same_links, pending-ForJob, answer_job-Matched, forget-ForJob,
}
use steamstacks.SteamClient.Session.Calls.Place.{
  target_of, mine, other_job, other_emsg, try_send-other, try_send-mine, try_send-kept,
  try_send-pending, pending-forget_other,
}
use steamstacks.SteamClient.Session.Send.{send_packet}
use steamstacks.SteamClient.Session.Calls.{
  response, expect_job_id, await_packet, job_header, exchange, call_service_method,
}
use steamstacks.SteamClient.Session.Links.Sends.{send_packet-SameLinks}
use steamstacks.SteamClient.Session.Matched.Delivered.{deliver-Matched}

module _ (n job : ℕ) where
  -- The call is registered and its channel is empty.
  pub record Waiting (c : CmClient) : Type 0 where
    pub is_pending : pending job c.pending_jobs ≡ some (mine n job)
    pub is_empty : response_of (mine n job) c.responses ≡ none

  abbrev Holds : Packet → CmClient → Type 0
  Holds p c = response_of (mine n job) c.responses ≡ some p

  answer_job-Waiting :
      (q : Packet) (c : CmClient)
      → target_of q ≢ job
      → Matched c
      → Waiting c
      → Waiting (answer_job q c)
  unfolding answer_job
  answer_job-Waiting q c ne h w = by_entry (pending (target_of q) c.pending_jobs) refl
    where
      by_entry :
          (o : Option Channel)
          → pending (target_of q) c.pending_jobs ≡ o
          → Waiting (elim o [
            | none ↦ c
            | some ch ↦
                try_send ch q (record c { pending_jobs = forget (target_of q) c.pending_jobs })
          ])
      by_entry none e = w
      by_entry (some ch) e =
          let for_q = pending-ForJob (target_of q) ch c.pending_jobs h.registered e in
          let c1 = record c { pending_jobs = forget (target_of q) c.pending_jobs } in
          record {
            is_pending =
                ap (pending job) (try_send-pending ch q c1)
                ∙ (pending-forget_other n job (target_of q) c.pending_jobs ne ∙ w.is_pending);
            is_empty =
                try_send-other n job ch q c1 (other_job n job (target_of q) ch for_q ne)
                ∙ w.is_empty;
          }

  answer_job-Holds : (p q : Packet) (c : CmClient) → Holds p c → Holds p (answer_job q c)
  unfolding answer_job
  answer_job-Holds p q c h = by_entry (pending (target_of q) c.pending_jobs)
    where
      by_entry :
          (o : Option Channel)
          → Holds p (elim o [
            | none ↦ c
            | some ch ↦
                try_send ch q (record c { pending_jobs = forget (target_of q) c.pending_jobs })
          ])
      by_entry none = h
      by_entry (some ch) =
          try_send-kept n job ch p q
            (record c { pending_jobs = forget (target_of q) c.pending_jobs }) h

  answer_job-answers :
      (p : Packet) (c : CmClient) → target_of p ≡ job → Waiting c → Holds p (answer_job p c)
  unfolding answer_job
  answer_job-answers p c e w = by_entry (pending (target_of p) c.pending_jobs) (rw e w.is_pending)
    where
      by_entry :
          (o : Option Channel)
          → o ≡ some (mine n job)
          → Holds p (elim o [
            | none ↦ c
            | some ch ↦
                try_send ch p (record c { pending_jobs = forget (target_of p) c.pending_jobs })
          ])
      by_entry none h = cc
      by_entry (some ch) h = rw (some-injective ch (mine n job) h) (
          try_send-mine n job p (record c { pending_jobs = forget (target_of p) c.pending_jobs })
            w.is_empty)

  -- A listener of `OnPacket` sends on another channel.
  run_on_packet-response :
      (o : OnPacket) (q : Packet) (c : CmClient)
      → Listens o
      → response_of (mine n job) (run_on_packet o q c).responses
        ≡ response_of (mine n job) c.responses
  unfolding run_on_packet
  run_on_packet-response no_handler q c l = refl
  run_on_packet-response user_handler q c l = refl
  run_on_packet-response (one_shot target ch prev) q c l =
      run_on_packet-response prev q _ l.1 ∙ by_type (q.emsg == target)
    where
      by_type :
          (b : Bool)
          → response_of
              (mine n job)
              (if b then record (try_send ch q c) { on_packet = prev } else c).responses
            ≡ response_of (mine n job) c.responses
      by_type true = try_send-other n job ch q c (other_emsg n job target ch l.0)
      by_type false = refl

  run_on_packet-pending :
      (o : OnPacket) (q : Packet) (c : CmClient)
      → (run_on_packet o q c).pending_jobs ≡ c.pending_jobs
  unfolding run_on_packet
  run_on_packet-pending no_handler q c = refl
  run_on_packet-pending user_handler q c = refl
  run_on_packet-pending (one_shot target ch prev) q c =
      run_on_packet-pending prev q _ ∙ by_type (q.emsg == target)
    where
      by_type :
          (b : Bool)
          → (if b then record (try_send ch q c) { on_packet = prev } else c).pending_jobs
            ≡ c.pending_jobs
      by_type true = try_send-pending ch q c
      by_type false = refl

  run_on_packet-Waiting :
      (q : Packet) (c : CmClient) → Matched c → Waiting c → Waiting (run_on_packet c.on_packet q c)
  run_on_packet-Waiting q c h w = record {
    is_pending = ap (pending job) (run_on_packet-pending c.on_packet q c) ∙ w.is_pending;
    is_empty = run_on_packet-response c.on_packet q c h.listening ∙ w.is_empty;
  }

pending-first :
    (job : ℕ) (ch : Channel) (es : List (ℕ × Channel)) → pending job ((job, ch) ∷ es) ≡ some ch
unfolding pending
pending-first job ch es = rw (==_refl job) refl

module _ (s : Services) where
  -- A packet that is no logoff, handled.
  abbrev handled : Packet → CmClient → CmClient
  handled q c = handle_typed s q (answer_job q c)

  deliver-handled :
      (q : Packet) (c : CmClient)
      → q.emsg ≢ 757
      → deliver s q c ≡ ok (run_on_packet (handled q c).on_packet q (handled q c))
  unfolding deliver switch_emsg
  deliver-handled q c ne = rw (==_ne q.emsg 757 ne) refl

  handled-Matched : (q : Packet) (c : CmClient) → Matched c → Matched (handled q c)
  handled-Matched q c h =
      same_links (answer_job q c) _ (handle_typed-SameLinks s q (answer_job q c))
        (answer_job-Matched q c h)

  module _ (n job : ℕ) where
    handled-Waiting :
        (q : Packet) (c : CmClient)
        → target_of q ≢ job
        → Matched c
        → Waiting n job c
        → Waiting n job (handled q c)
    handled-Waiting q c ne h w =
        let links = handle_typed-SameLinks s q (answer_job q c) in
        let w1 = answer_job-Waiting n job q c ne h w in
        record {
          is_pending = ap (pending job) links.1 ∙ w1.is_pending;
          is_empty = ap (response_of (mine n job)) links.0 ∙ w1.is_empty;
        }

    -- The packets before the response leave the call waiting.
    others-Waiting :
        (qs : List Packet) (c : CmClient)
        → All (λ q. (target_of q ≢ job) × (q.emsg ≢ 757)) qs
        → Matched c
        → Waiting n job c
        → (c' : CmClient) × (deliver_all s qs c ≡ ok c') × Matched c' × Waiting n job c'
    others-Waiting [] c a h w = (c, refl, h, w)
    others-Waiting (q ∷ qs) c a h w =
        let e = deliver-handled q c a.0.1 in
        let h1 = handled-Matched q c h in
        let w1 = handled-Waiting q c a.0.0 h w in
        let (c', e', h', w') =
          others-Waiting qs _ a.1 (deliver-Matched s q c _ e h)
            (run_on_packet-Waiting n job q (handled q c) h1 w1) in
        (c', rw e e', h', w')

    handled-Holds :
        (p q : Packet) (c : CmClient)
        → Holds n job p (answer_job q c)
        → Matched c
        → Holds n job p (run_on_packet (handled q c).on_packet q (handled q c))
    handled-Holds p q c k h =
        run_on_packet-response n job (handled q c).on_packet q (handled q c)
          (handled-Matched q c h).listening
        ∙ (ap (response_of (mine n job)) (handle_typed-SameLinks s q (answer_job q c)).0 ∙ k)

    -- Those behind it leave it on its channel.
    later-Holds :
        (p : Packet) (qs : List Packet) (c : CmClient)
        → All (λ q. q.emsg ≢ 757) qs
        → Matched c
        → Holds n job p c
        → (c' : CmClient) × (deliver_all s qs c ≡ ok c') × Holds n job p c'
    later-Holds p [] c a h k = (c, refl, k)
    later-Holds p (q ∷ qs) c a h k =
        let e = deliver-handled q c a.0 in
        let (c', e', k') =
          later-Holds p qs _ a.1 (deliver-Matched s q c _ e h)
            (handled-Holds p q c (answer_job-Holds n job p q c k) h) in
        (c', rw e e', k')

    response_arrives :
        (before after : List Packet) (p : Packet) (c : CmClient)
        → All (λ q. (target_of q ≢ job) × (q.emsg ≢ 757)) before
        → target_of p ≡ job
        → All (λ q. q.emsg ≢ 757) (p ∷ after)
        → Matched c
        → Waiting n job c
        → (c' : CmClient) × (deliver_all s (before ++ (p ∷ after)) c ≡ ok c') × Holds n job p c'
    response_arrives before after p c a t l h w =
        let (c1, e1, h1, w1) = others-Waiting before c a h w in
        let e2 = deliver-handled p c1 l.0 in
        let (c', e3, k) =
          later-Holds p after _ l.1 (deliver-Matched s p c1 _ e2 h1)
            (handled-Holds p p c1 (answer_job-answers n job p c1 t w1) h1) in
        (c', rw (deliver_all-append s before (p ∷ after) c, e1, e2) e3, k)

  exchange-answered :
      (method body : Bytes) (ps : List Packet) (job : ℕ) (ch : Channel) (c c1 c2 : CmClient)
      (p : Packet)
      → send_packet s 151 (some (job_header method job)) body c ≡ ok c1
      → deliver_all s ps c1 ≡ ok c2
      → response_of ch c2.responses ≡ some p
      → get_eresult (header_or_empty p.header) ≡ 1
      → (exchange s method body ps response job ch c).outcome ≡ ok p
  unfolding exchange await_packet response_of
  exchange-answered method body ps job ch c c1 c2 p e1 e2 k one = rw (e1, e2, k) (rw one refl)

  -- Take a client whose channels hold only what was meant for them and whose registrations and
  -- listeners are those of such channels (`Matched`, as after any steps of a new client). Let the
  -- request be sent, let its channel be new, and let the server then send any packets but logoffs,
  -- among them a response with result 1 and the job of the call as its target, the first with this
  -- target. Then a call whose wait takes the response returns it.
  pub call_service_method-answered :
      (method body : Bytes) (before after : List Packet) (p : Packet) (c c1 : CmClient)
      → let job = suc c.next_job_id % 2 ^ 64 in
        let r = expect_job_id job (record c { next_job_id = job }) in
        Matched c
        → response_of r.0 c.responses ≡ none
        → send_packet s 151 (some (job_header method job)) body r.1 ≡ ok c1
        → All (λ q. (target_of q ≢ job) × (q.emsg ≢ 757)) before
        → target_of p ≡ job
        → get_eresult (header_or_empty p.header) ≡ 1
        → All (λ q. q.emsg ≢ 757) (p ∷ after)
        → (call_service_method s method body (before ++ (p ∷ after)) response c).outcome ≡ ok p
  unfolding call_service_method expect_job_id
  call_service_method-answered method body before after p c c1 h new sent a t one l =
      let job = suc c.next_job_id % 2 ^ 64 in
      let registered : CmClient = record c {
        next_job_id = job;
        pending_jobs = (job, mine c.made job) ∷ forget job c.pending_jobs;
        made = suc c.made;
      } in
      let links =
        send_packet-SameLinks s 151 (some (job_header method job)) body registered c1 sent in
      let h0 : Matched registered = record {
        sent = h.sent;
        registered = (refl, forget-ForJob job c.pending_jobs h.registered);
        listening = h.listening;
      } in
      let w : Waiting c.made job c1 = record {
        is_pending =
            ap (pending job) links.1
            ∙ pending-first job (mine c.made job) (forget job c.pending_jobs);
        is_empty = ap (response_of (mine c.made job)) links.0 ∙ new;
      } in
      let (c2, e, k) =
        response_arrives c.made job before after p c1 a t l (same_links registered c1 links h0) w in
      exchange-answered method body (before ++ (p ∷ after)) job (mine c.made job) registered c1 c2 p
        sent e k one
