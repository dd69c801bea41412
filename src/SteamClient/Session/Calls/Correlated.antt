-- ===== src/SteamClient/Session/Calls/Correlated.antt =====
-- A service method returns the response to its own call, and leaves no registration behind.
use steamstacks.Prelude.{
  ℕ, suc, ◌%◌, ◌^◌, ◌≡◌, refl, sym, Bool, true, false, List, [], ◌∷◌, Option, none, some, Result,
  ok, err, panic, stuck, ◌==◌, ==_iff, if◌then◌else◌, ok-injective,
}
use steamstacks.Prelude.Bytes.{Bytes}
use steamstacks.SteamClient.Protocol.{get_jobid_target, get_eresult}
use steamstacks.SteamClient.Message.{Packet, header_or_empty}
use steamstacks.SteamClient.Session.{
  Channel, job_channel, Done, nil_done, open_done, closed_done, CmClient, Services, response_of,
  pending, forget,
}
use steamstacks.SteamClient.Session.Dispatch.{deliver_all}
use steamstacks.SteamClient.Session.Send.{send_packet}
use steamstacks.SteamClient.Session.Run.{commit, then_run-ok, commit-ok}
use steamstacks.SteamClient.Session.Calls.{
  Case, response, expired, disconnect, AwaitError, disconnected, CallError, send, eresult_not_ok,
  wait, expect_job_id, await_packet, await_run, read_meanwhile, check_eresult, job_header, exchange,
  call_service_method,
}
use steamstacks.SteamClient.Session.Links.Sends.{send_packet-SameLinks}
use steamstacks.SteamClient.Session.Matched.{Fits, Matched, same_links, forget-ForJob}
use steamstacks.SteamClient.Session.Matched.Delivered.{deliver_all-Matched}
use steamstacks.SteamClient.Session.Matched.Steps.{found-Fits}

pub pending-forget : (job : ℕ) (es : List (ℕ × Channel)) → pending job (forget job es) ≡ none
unfolding pending forget
pending-forget job [] = refl
pending-forget job (e ∷ es) = by_key (pending-forget job es) (e.0 == job) refl
  where
    by_key :
        pending job (forget job es) ≡ none
        → (b : Bool) → (e.0 == job) ≡ b
        → pending job (if b then forget job es else e ∷ forget job es) ≡ none
    by_key ih true k = ih
    by_key ih false k = rw k ih

pub await_packet-response :
    (ch : Channel) (case : Case) (c : CmClient) (p : Packet)
    → await_packet ch case c ≡ ok p
    → response_of ch c.responses ≡ some p
unfolding await_packet
await_packet-response ch response c p e = by_place (response_of ch c.responses) e
  where
    by_place :
        (o : Option Packet)
        → ◌≡◌ {A = Result AwaitError Packet} (elim o [ none ↦ stuck | some q ↦ ok q ]) (ok p)
        → o ≡ some p
    by_place none q = cc
    by_place (some r) q = cc
await_packet-response ch expired c p e = cc
await_packet-response ch disconnect c p e = by_done c.done e
  where
    by_done :
        (d : Done)
        → ◌≡◌ {A = Result AwaitError Packet}
            (elim d [ nil_done ↦ stuck | open_done ↦ stuck | closed_done ↦ err disconnected ])
            (ok p)
        → response_of ch c.responses ≡ some p
    by_done nil_done q = cc
    by_done open_done q = cc
    by_done closed_done q = cc

await_run-response :
    {E : Type 0} (note : AwaitError → E) (ch : Channel) (case : Case) (c : CmClient) (p : Packet)
    → (await_run note ch case c).outcome ≡ ok p
    → response_of ch c.responses ≡ some p
await_run-response {E} note ch case c p e =
    await_packet-response ch case c p (by_result (await_packet ch case c) e)
  where
    by_result :
        (r : Result AwaitError Packet)
        → ◌≡◌ {A = Result E Packet}
            (elim r [ ok q ↦ ok q | err x ↦ err (note x) | panic ↦ panic | stuck ↦ stuck ])
            (ok p)
        → r ≡ ok p
    by_result (ok q) h = cc
    by_result (err x) h = cc
    by_result panic h = cc
    by_result stuck h = cc

check_eresult-ok :
    (p q : Packet) (c : CmClient)
    → (check_eresult p c).outcome ≡ ok q
    → (p ≡ q) × (get_eresult (header_or_empty p.header) ≡ 1)
check_eresult-ok p q c e = by_result (get_eresult (header_or_empty p.header) == 1) refl e
  where
    by_result :
        (b : Bool)
        → (get_eresult (header_or_empty p.header) == 1) ≡ b
        → ◌≡◌ {A = Result CallError Packet} (if b then ok p else err (eresult_not_ok p)) (ok q)
        → (p ≡ q) × (get_eresult (header_or_empty p.header) ≡ 1)
    by_result true k r = (ok-injective r, (==_iff _ 1).0 k)
    by_result false k r = cc

module _ (s : Services) where
  exchange-Fits :
      (method body : Bytes) (ps : List Packet) (case : Case) (job : ℕ) (ch : Channel) (c : CmClient)
      (p : Packet)
      → Matched c
      → (exchange s method body ps case job ch c).outcome ≡ ok p
      → Fits ch p × (get_eresult (header_or_empty p.header) ≡ 1)
  unfolding exchange
  exchange-Fits method body ps case job ch c p h e =
      let sending = send_packet s 151 (some (job_header method job)) body c in
      let (u1, e1, r1) = then_run-ok (commit send sending c) _ p e in
      let c1 = (commit {E = CallError} send sending c).after in
      let (u2, e2, r2) = then_run-ok (read_meanwhile s ps c1) _ p r1 in
      let c2 = (read_meanwhile {E = CallError} s ps c1).after in
      let (q, e3, r3) = then_run-ok (await_run wait ch case c2) _ p r2 in
      let (same, one) = check_eresult-ok q p c2 r3 in
      let h1 =
        same_links c c1 (send_packet-SameLinks s 151 _ body c c1 (commit-ok send sending c u1 e1))
          h in
      let h2 =
        deliver_all-Matched s ps c1 c2 (commit-ok (λ e. absurd e) (deliver_all s ps c1) c1 u2 e2)
          h1 in
      let fits = found-Fits ch q c2.responses h2.sent (await_run-response wait ch case c2 q e3) in
      rw (sym same) (fits, one)

  -- A call that starts from a client with its responses in place never returns another call's
  -- packet: if it returns a packet without an error, whatever was delivered meanwhile and whichever
  -- case of the wait was taken, the packet's target is the job of the call, one above the job
  -- before in 64 bits, its result is 1, and the job is no longer registered.
  pub call_service_method-correlated :
      (method body : Bytes) (ps : List Packet) (case : Case) (c : CmClient) (p : Packet)
      → Matched c
      → (call_service_method s method body ps case c).outcome ≡ ok p
      → (get_jobid_target (header_or_empty p.header) ≡ suc c.next_job_id % 2 ^ 64)
        × (get_eresult (header_or_empty p.header) ≡ 1)
        × (pending
              (suc c.next_job_id % 2 ^ 64)
              (call_service_method s method body ps case c).after.pending_jobs
            ≡ none)
  unfolding call_service_method expect_job_id
  call_service_method-correlated method body ps case c p h e =
      let (target, one) =
        exchange-Fits method body ps case job (job_channel c.made job) registered p ready e in
      (target, one, pending-forget job _)
    where
      job : ℕ
      job = suc c.next_job_id % 2 ^ 64

      registered : CmClient
      registered = record c {
        next_job_id = job;
        pending_jobs = (job, job_channel c.made job) ∷ forget job c.pending_jobs;
        made = suc c.made;
      }

      ready : Matched registered
      ready = record {
        sent = h.sent;
        registered = (refl, forget-ForJob job c.pending_jobs h.registered);
        listening = h.listening;
      }
