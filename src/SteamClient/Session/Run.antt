-- ===== src/SteamClient/Session/Run.antt =====
-- A call in several steps: how it ended, and the client that it left, also where it failed.
use steamstacks.Prelude.{◌≡◌, refl, Result, ok, err, panic, stuck}
use steamstacks.SteamClient.Session.{CmClient}

pub record Run (E : Type 0) (A : Type 0) : Type 0 where
  pub outcome : Result E A
  pub after : CmClient

module _ {E : Type 0} where
  -- A step that changes the client only where it succeeds.
  abbrev pub commit : {F : Type 0} → (F → E) → Result F CmClient → CmClient → Run E Unit
  commit note (ok c') c = record { outcome = ok tt; after = c' }
  commit note (err e) c = record { outcome = err (note e); after = c }
  commit note panic c = record { outcome = panic; after = c }
  commit note stuck c = record { outcome = stuck; after = c }

  abbrev resume : {A B : Type 0} → Result E A → CmClient → (A → CmClient → Run E B) → Run E B
  resume (ok a) c next = next a c
  resume (err e) c next = record { outcome = err e; after = c }
  resume panic c next = record { outcome = panic; after = c }
  resume stuck c next = record { outcome = stuck; after = c }

  -- The next step starts from the client that the first one left.
  abbrev pub then_run : {A B : Type 0} → Run E A → (A → CmClient → Run E B) → Run E B
  then_run r next = resume r.outcome r.after next

  -- `defer`
  abbrev pub and_finally : {A : Type 0} → Run E A → (CmClient → CmClient) → Run E A
  and_finally r f = record { outcome = r.outcome; after = f r.after }

  pub then_run-ok :
      {A B : Type 0} (r : Run E A) (next : A → CmClient → Run E B) (b : B)
      → (then_run r next).outcome ≡ ok b
      → (a : A) × (r.outcome ≡ ok a) × ((next a r.after).outcome ≡ ok b)
  then_run-ok {A} {B} r next b e = by_outcome r.outcome e
    where
      by_outcome :
          (o : Result E A)
          → (resume o r.after next).outcome ≡ ok b
          → (a : A) × (o ≡ ok a) × ((next a r.after).outcome ≡ ok b)
      by_outcome (ok a) q = (a, refl, q)
      by_outcome (err x) q = cc
      by_outcome panic q = cc
      by_outcome stuck q = cc

  pub commit-ok :
      {F : Type 0} (note : F → E) (r : Result F CmClient) (c : CmClient) (u : Unit {0})
      → (commit note r c).outcome ≡ ok u
      → r ≡ ok (commit note r c).after
  commit-ok note (ok c') c u e = refl
  commit-ok note (err x) c u e = cc
  commit-ok note panic c u e = cc
  commit-ok note stuck c u e = cc
