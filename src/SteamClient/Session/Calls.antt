-- ===== src/SteamClient/Session/Calls.antt =====
-- steamclient/steamclient.go: `expectEMsg`, `expectJobID`, `awaitPacket` and `callServiceMethod`.
pub mod Correlated
pub mod Place
pub mod Answered
pub mod Listeners
use steamstacks.Prelude.{
  ℕ, suc, ◌+◌, ◌%◌, ◌^◌, Bool, true, false, List, [], ◌∷◌, Option, none, some, Result, ok, err,
  panic, stuck, ◌==◌, if◌then◌else◌,
}
use steamstacks.Prelude.Bytes.{Bytes}
use steamstacks.SteamClient.Protocol.{Header, empty_header, get_eresult}
use steamstacks.SteamClient.Message.{Packet, header_or_empty, or_fail}
use steamstacks.SteamClient.Session.{
  Channel, job_channel, emsg_channel, one_shot, nil_done, open_done, closed_done, CmClient,
  Services, response_of, forget,
}
use steamstacks.SteamClient.Session.Dispatch.{deliver_all}
use steamstacks.SteamClient.Session.Send.{SendError, send_packet}
use steamstacks.SteamClient.Session.Run.{Run, commit, then_run, and_finally}

unfoldable pub expect_emsg : ℕ → CmClient → Channel × CmClient
expect_emsg target c =
    let ch = emsg_channel c.made target in
    (ch, record c { on_packet = one_shot target ch c.on_packet; made = suc c.made })

-- The entry of another channel for the same job is overwritten.
unfoldable pub expect_job_id : ℕ → CmClient → Channel × CmClient
expect_job_id job c =
    let ch = job_channel c.made job in
    (ch, record c { pending_jobs = (job, ch) ∷ forget job c.pending_jobs; made = suc c.made })

-- The cases of the `select`. One that is ready is taken; `stuck` is one that is not.
pub data Case : Type 0 where
  response : Case
  expired : Case
  disconnect : Case

pub data AwaitError : Type 0 where
  context_done : AwaitError
  disconnected : AwaitError

unfoldable pub await_packet : Channel → Case → CmClient → Result AwaitError Packet
await_packet ch response c = elim (response_of ch c.responses) [ none ↦ stuck | some pkt ↦ ok pkt ]
await_packet ch expired c = err context_done
await_packet ch disconnect c = elim c.done [
  | nil_done ↦ stuck
  | open_done ↦ stuck
  | closed_done ↦ err disconnected
]

pub data CallError : Type 0 where
  send : SendError → CallError
  wait : AwaitError → CallError
  eresult_not_ok : Packet → CallError

abbrev pub await_run : {E : Type 0} → (AwaitError → E) → Channel → Case → CmClient → Run E Packet
await_run note ch case c = record {
  outcome = elim (await_packet ch case c) [
    | ok pkt ↦ ok pkt
    | err e ↦ err (note e)
    | panic ↦ panic
    | stuck ↦ stuck
  ];
  after = c;
}

-- What the read loop does while the caller waits: it delivers packets.
abbrev pub read_meanwhile : {E : Type 0} → Services → List Packet → CmClient → Run E Unit
read_meanwhile s packets c = commit (λ e. absurd e) (deliver_all s packets c) c

abbrev pub check_eresult : Packet → CmClient → Run CallError Packet
check_eresult pkt c = record {
  outcome =
      if get_eresult (header_or_empty pkt.header) == 1 then ok pkt else err (eresult_not_ok pkt);
  after = c;
}

abbrev pub job_header : Bytes → ℕ → Header
job_header method job = record empty_header {
  target_job_name = some method;
  jobid_source = some job;
}

module _ (s : Services) where
  -- The call between the registration of its channel and the deferred deletion.
  unfoldable pub exchange :
      Bytes → Bytes → List Packet → Case → ℕ → Channel → CmClient → Run CallError Packet
  exchange method body packets case job ch c =
      then_run (commit send (send_packet s 151 (some (job_header method job)) body c) c) (λ _ c1.
        then_run (read_meanwhile s packets c1)
          (λ _ c2. then_run (await_run wait ch case c2) check_eresult))

  -- `packets` are those that arrive before the response is awaited with `case`.
  unfoldable pub call_service_method :
      Bytes → Bytes → List Packet → Case → CmClient → Run CallError Packet
  call_service_method method body packets case c =
      let job = suc c.next_job_id % 2 ^ 64 in
      let r = expect_job_id job (record c { next_job_id = job }) in
      and_finally (exchange method body packets case job r.0 r.1)
        (λ c'. record c' { pending_jobs = forget job c'.pending_jobs })
