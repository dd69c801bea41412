-- ===== src/SteamClient/Session/Matched.antt =====
-- Whom a response reaches: a channel that was made for a job holds only a packet for that job, and
-- one that was made for a type only a packet of that type.
pub mod Delivered
pub mod Steps
use steamstacks.Prelude.{
  ℕ, ◌≡◌, refl, sym, Bool, true, false, ◌&&◌, ◌||◌, List, [], ◌∷◌, Option, none, some, Result, ok,
  err, panic, stuck, ◌>>=◌, ◌==◌, ==_iff, if◌then◌else◌, >>=-eq-ok, ok-injective, All,
}
use mathlib.Core.Option.{some-injective}
use steamstacks.SteamClient.Protocol.{get_jobid_target}
use steamstacks.SteamClient.Message.{Packet, header_or_empty}
use steamstacks.SteamClient.Events.{DisconnectEvent}
use steamstacks.SteamClient.Session.{
  Channel, job_channel, emsg_channel, same_channel, OnPacket, no_handler, user_handler, one_shot,
  Event, Done, nil_done, open_done, closed_done, CmClient, Services, emit, response_of, try_send,
  pending, forget, answer_job, fire_disconnect, close_done, close_conn, packet, disconnected,
}
use steamstacks.SteamClient.Session.Dispatch.{
  run_on_packet, emit_decoded, handle_friends_list, handle_persona_state,
  handle_friend_msg_incoming, handle_user_notifications, handle_item_announcements, handle_gc,
  handle_logged_off, handle_typed, switch_emsg, deliver, deliver_all,
}
use steamstacks.SteamClient.Session.Links.{SameLinks}

abbrev pub Fits : Channel → Packet → Type 0
Fits (job_channel n job) p = get_jobid_target (header_or_empty p.header) ≡ job
Fits (emsg_channel n target) p = p.emsg ≡ target

abbrev pub ForJob : ℕ → Channel → Type 0
ForJob job (job_channel n made_for) = made_for ≡ job
ForJob job (emsg_channel n target) = ⊥

abbrev pub ForEmsg : ℕ → Channel → Type 0
ForEmsg target (job_channel n job) = ⊥
ForEmsg target (emsg_channel n made_for) = made_for ≡ target

abbrev pub Listens : OnPacket → Type 0
Listens no_handler = Unit {0}
Listens user_handler = Unit {0}
Listens (one_shot target ch prev) = ForEmsg target ch × Listens prev

-- What is sent fits, and what is registered for a job or a type was made for it.
pub record Matched (c : CmClient) : Type 0 where
  pub sent : All (λ (r : Channel × Packet). Fits r.0 r.1) c.responses
  pub registered : All (λ (e : ℕ × Channel). ForJob e.0 e.1) c.pending_jobs
  pub listening : Listens c.on_packet

pub same_links : (c c' : CmClient) → SameLinks c c' → Matched c → Matched c'
same_links c c' e h = record {
  sent = rw e.0 h.sent;
  registered = rw e.1 h.registered;
  listening = rw e.2 h.listening;
}

ForJob-Fits :
    (job : ℕ) (ch : Channel) (p : Packet)
    → ForJob job ch
    → get_jobid_target (header_or_empty p.header) ≡ job
    → Fits ch p
ForJob-Fits job (job_channel n made_for) p h e = cc
ForJob-Fits job (emsg_channel n target) p h e = absurd h

ForEmsg-Fits :
    (target : ℕ) (ch : Channel) (p : Packet) → ForEmsg target ch → p.emsg ≡ target → Fits ch p
ForEmsg-Fits target (job_channel n job) p h e = absurd h
ForEmsg-Fits target (emsg_channel n made_for) p h e = cc

try_send-Matched :
    (ch : Channel) (p : Packet) (c : CmClient) → Fits ch p → Matched c → Matched (try_send ch p c)
unfolding try_send
try_send-Matched ch p c f h = by_place (response_of ch c.responses)
  where
    by_place :
        (o : Option Packet)
        → Matched (elim o [ none ↦ record c { responses = (ch, p) ∷ c.responses } | some q ↦ c ])
    by_place none = record {
      sent = (f, h.sent);
      registered = h.registered;
      listening = h.listening;
    }
    by_place (some q) = h

pub pending-ForJob :
    (job : ℕ) (ch : Channel) (es : List (ℕ × Channel))
    → All (λ (e : ℕ × Channel). ForJob e.0 e.1) es
    → pending job es ≡ some ch
    → ForJob job ch
unfolding pending
pending-ForJob job ch [] h q = cc
pending-ForJob job ch (e ∷ es) h q =
    by_key (λ r. pending-ForJob job ch es h.1 r) (e.0 == job) refl q
  where
    by_key :
        (pending job es ≡ some ch → ForJob job ch)
        → (b : Bool) → (e.0 == job) ≡ b
        → (if b then some e.1 else pending job es) ≡ some ch
        → ForJob job ch
    by_key ih true k r =
        let same : e.1 ≡ ch = some-injective e.1 ch r in
        let key : e.0 ≡ job = (==_iff e.0 job).0 k in rw (sym same, sym key) h.0
    by_key ih false k r = ih r

pub forget-ForJob :
    (job : ℕ) (es : List (ℕ × Channel))
    → All (λ (e : ℕ × Channel). ForJob e.0 e.1) es
    → All (λ (e : ℕ × Channel). ForJob e.0 e.1) (forget job es)
unfolding forget
forget-ForJob job [] h = tt
forget-ForJob job (e ∷ es) h = by_key (forget-ForJob job es h.1) (e.0 == job)
  where
    by_key :
        All (λ (x : ℕ × Channel). ForJob x.0 x.1) (forget job es)
        → (b : Bool)
        → All (λ (x : ℕ × Channel). ForJob x.0 x.1) (if b then forget job es else e ∷ forget job es)
    by_key rest true = rest
    by_key rest false = (h.0, rest)

pub answer_job-Matched : (p : Packet) (c : CmClient) → Matched c → Matched (answer_job p c)
unfolding answer_job
answer_job-Matched p c h = by_entry (pending job c.pending_jobs) refl
  where
    job : ℕ
    job = get_jobid_target (header_or_empty p.header)

    by_entry :
        (o : Option Channel)
        → pending job c.pending_jobs ≡ o
        → Matched (elim o [
          | none ↦ c
          | some ch ↦ try_send ch p (record c { pending_jobs = forget job c.pending_jobs })
        ])
    by_entry none e = h
    by_entry (some ch) e =
        try_send-Matched ch p (record c { pending_jobs = forget job c.pending_jobs })
          (ForJob-Fits job ch p (pending-ForJob job ch c.pending_jobs h.registered e) refl)
          (record {
            sent = h.sent;
            registered = forget-ForJob job c.pending_jobs h.registered;
            listening = h.listening;
          })

pub run_on_packet-Matched :
    (o : OnPacket) (p : Packet) (c : CmClient)
    → Listens o
    → Matched c
    → Matched (run_on_packet o p c)
unfolding run_on_packet
run_on_packet-Matched no_handler p c l h = h
run_on_packet-Matched user_handler p c l h = same_links c _ (refl, refl, refl) h
run_on_packet-Matched (one_shot target ch prev) p c l h =
    run_on_packet-Matched prev p _ l.1 (by_type (p.emsg == target) refl)
  where
    by_type :
        (b : Bool)
        → (p.emsg == target) ≡ b
        → Matched (if b then record (try_send ch p c) { on_packet = prev } else c)
    by_type true e =
        let after =
          try_send-Matched ch p c (ForEmsg-Fits target ch p l.0 ((==_iff p.emsg target).0 e)) h in
        record { sent = after.sent; registered = after.registered; listening = l.1 }
    by_type false e = h
