-- ===== src/SteamClient/Session/Calls/Place.antt =====
-- What the sends on the other channels change for the channel of a call, and what they do not.
use steamstacks.Prelude.{
  ℕ, ◌≡◌, ◌≢◌, refl, ◌∙◌, Bool, true, false, List, [], ◌∷◌, Option, none, Option-cases, Bool-cases,
  ◌⊎◌, inl, inr, some, ◌==◌, ==_iff, ==_refl, ==_ne, if◌then◌else◌, arith,
}
use steamstacks.SteamClient.Protocol.{get_jobid_target}
use steamstacks.SteamClient.Message.{Packet, header_or_empty}
use steamstacks.SteamClient.Session.{
  Channel, job_channel, emsg_channel, same_channel, CmClient, response_of, try_send, pending,
  forget,
}
use steamstacks.SteamClient.Session.Matched.{ForJob, ForEmsg}
use steamstacks.SteamClient.Session.Matched.Steps.{same_channel-eq}

abbrev pub target_of : Packet → ℕ
target_of p = get_jobid_target (header_or_empty p.header)

try_send-placed :
    (ch : Channel) (q : Packet) (c : CmClient)
    → response_of ch c.responses ≡ none
    → (try_send ch q c).responses ≡ ((ch, q) ∷ c.responses)
unfolding try_send
try_send-placed ch q c e = by_place (response_of ch c.responses) e
  where
    by_place :
        (o : Option Packet)
        → o ≡ none
        → (elim o as (λ _. CmClient) [
          | none ↦ record c { responses = (ch, q) ∷ c.responses }
          | some p ↦ c
        ]).responses
          ≡ ((ch, q) ∷ c.responses)
    by_place none h = refl
    by_place (some p) h = cc

try_send-full :
    (ch : Channel) (p q : Packet) (c : CmClient)
    → response_of ch c.responses ≡ some p
    → (try_send ch q c).responses ≡ c.responses
unfolding try_send
try_send-full ch p q c e = by_place (response_of ch c.responses) e
  where
    by_place :
        (o : Option Packet)
        → o ≡ some p
        → (elim o as (λ _. CmClient) [
          | none ↦ record c { responses = (ch, q) ∷ c.responses }
          | some r ↦ c
        ]).responses
          ≡ c.responses
    by_place none h = cc
    by_place (some r) h = refl

pub try_send-pending :
    (ch : Channel) (q : Packet) (c : CmClient) → (try_send ch q c).pending_jobs ≡ c.pending_jobs
unfolding try_send
try_send-pending ch q c = by_place (response_of ch c.responses)
  where
    by_place :
        (o : Option Packet)
        → (elim o as (λ _. CmClient) [
          | none ↦ record c { responses = (ch, q) ∷ c.responses }
          | some r ↦ c
        ]).pending_jobs
          ≡ c.pending_jobs
    by_place none = refl
    by_place (some r) = refl

response_of-cons :
    (a b : Channel) (q : Packet) (rs : List (Channel × Packet)) (v : Bool)
    → same_channel b a ≡ v
    → response_of a ((b, q) ∷ rs) ≡ (if v then some q else response_of a rs)
unfolding response_of
response_of-cons a b q rs v e = rw e refl

-- Another channel's packet does not change what is on this one.
pub send_other :
    (this ch : Channel) (q : Packet) (c : CmClient)
    → same_channel ch this ≡ false
    → response_of this (try_send ch q c).responses ≡ response_of this c.responses
send_other this ch q c ne = by_place (Option-cases (response_of ch c.responses))
  where
    by_place :
        (response_of ch c.responses ≡ none) ⊎ ((p : Packet) × (response_of ch c.responses ≡ some p))
        → response_of this (try_send ch q c).responses ≡ response_of this c.responses
    by_place (inl e) =
        rw (try_send-placed ch q c e) (response_of-cons this ch q c.responses false ne)
    by_place (inr (p, e)) = rw (try_send-full ch p q c e) refl

pub send_own :
    (this : Channel) (q : Packet) (c : CmClient)
    → same_channel this this ≡ true
    → response_of this c.responses ≡ none
    → response_of this (try_send this q c).responses ≡ some q
send_own this q c same e =
    rw (try_send-placed this q c e) (response_of-cons this this q c.responses true same)

-- The channel of a call that waits.
module _ (n job : ℕ) where
  abbrev pub mine : Channel
  mine = job_channel n job

  pub same_as_mine : same_channel mine mine ≡ true
  same_as_mine = rw (==_refl n, ==_refl job) refl

  pub other_job : (k : ℕ) (ch : Channel) → ForJob k ch → k ≢ job → same_channel ch mine ≡ false
  other_job k (job_channel m made_for) h ne = ground arith
  other_job k (emsg_channel m target) h ne = refl

  pub other_emsg : (target : ℕ) (ch : Channel) → ForEmsg target ch → same_channel ch mine ≡ false
  other_emsg target (job_channel m j) h = absurd h
  other_emsg target (emsg_channel m made_for) h = refl

  pub try_send-other :
      (ch : Channel) (q : Packet) (c : CmClient)
      → same_channel ch mine ≡ false
      → response_of mine (try_send ch q c).responses ≡ response_of mine c.responses
  try_send-other = send_other mine

  pub try_send-mine :
      (q : Packet) (c : CmClient)
      → response_of mine c.responses ≡ none
      → response_of mine (try_send mine q c).responses ≡ some q
  try_send-mine q c e = send_own mine q c same_as_mine e

  -- What is on the channel stays, whatever is sent.
  pub try_send-kept :
      (ch : Channel) (p q : Packet) (c : CmClient)
      → response_of mine c.responses ≡ some p
      → response_of mine (try_send ch q c).responses ≡ some p
  try_send-kept ch p q c e = by_channel (Bool-cases (same_channel ch mine))
    where
      by_channel :
          (same_channel ch mine ≡ true) ⊎ (same_channel ch mine ≡ false)
          → response_of mine (try_send ch q c).responses ≡ some p
      by_channel (inl k) =
          let full : response_of ch c.responses ≡ some p = rw (same_channel-eq ch mine k) e in
          rw (try_send-full ch p q c full) e
      by_channel (inr k) = try_send-other ch q c k ∙ e

  pub pending-forget_other :
      (k : ℕ) (es : List (ℕ × Channel)) → k ≢ job → pending job (forget k es) ≡ pending job es
  unfolding pending forget
  pending-forget_other k [] ne = refl
  pending-forget_other k (e ∷ es) ne = by_keys (pending-forget_other k es ne) (e.0 == k) refl
    where
      by_keys :
          pending job (forget k es) ≡ pending job es
          → (b : Bool) → (e.0 == k) ≡ b
          → pending job (if b then forget k es else e ∷ forget k es)
            ≡ (if e.0 == job then some e.1 else pending job es)
      by_keys ih true h =
          let key : e.0 ≡ k = (==_iff e.0 k).0 h in
          let ne' : e.0 ≢ job = rw key ne in rw (==_ne e.0 job ne') ih
      by_keys ih false h = rw ih refl
