-- ===== src/SteamClient/Session/Lifecycle/Close.antt =====
-- When `close(c.done)` succeeds and when it panics.
use steamstacks.Prelude.{◌≡◌, ◌≢◌, refl, Bool, true, false, Result, ok, panic, if◌then◌else◌}
use steamstacks.SteamClient.Session.{Done, nil_done, open_done, closed_done, CmClient, close_done}

module _ {E : Type 0} (c : CmClient) where
  -- The call behind the two tests.
  abbrev closing : Bool → Done → Result E CmClient
  closing once d = if once then ok c else elim d [
    | nil_done ↦ panic
    | open_done ↦ ok (record c { done = closed_done; close_once = true })
    | closed_done ↦ panic
  ]

  pub close_done-open :
      c.close_once ≡ false
      → c.done ≡ open_done
      → close_done {E = E} c ≡ ok (record c { done = closed_done; close_once = true })
  unfolding close_done
  close_done-open h k = go c.close_once c.done h k
    where
      go :
          (once : Bool) (d : Done)
          → once ≡ false
          → d ≡ open_done
          → closing once d ≡ ok (record c { done = closed_done; close_once = true })
      go true d e q = cc
      go false nil_done e q = cc
      go false open_done e q = refl
      go false closed_done e q = cc

  pub close_done-again : c.close_once ≡ true → close_done {E = E} c ≡ ok c
  unfolding close_done
  close_done-again h = go c.close_once c.done h
    where
      go : (once : Bool) (d : Done) → once ≡ true → closing once d ≡ ok c
      go true d e = refl
      go false d e = cc

  pub close_done-panics : c.close_once ≡ false → c.done ≢ open_done → close_done {E = E} c ≡ panic
  unfolding close_done
  close_done-panics h k = go c.close_once c.done h k
    where
      go : (once : Bool) (d : Done) → once ≡ false → d ≢ open_done → closing once d ≡ panic
      go true d e q = cc
      go false nil_done e q = refl
      go false open_done e q = absurd (q refl)
      go false closed_done e q = refl
