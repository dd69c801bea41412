-- ===== src/SteamClient/Session/Matched/Delivered.antt =====
-- A packet that is delivered reaches only a channel that it fits.
use steamstacks.Prelude.{
  ◌≡◌, refl, sym, Bool, true, false, List, [], ◌∷◌, ok, ◌==◌, if◌then◌else◌, >>=-eq-ok,
  ok-injective,
}
use steamstacks.SteamClient.Message.{Packet}
use steamstacks.SteamClient.Events.{logged_off}
use steamstacks.SteamClient.Session.{CmClient, Services, answer_job, fire_disconnect, close_done}
use steamstacks.SteamClient.Session.Dispatch.{
  handle_logged_off, handle_typed, logoff_reason, switch_emsg, deliver, deliver_all,
}
use steamstacks.SteamClient.Session.Links.{
  handle_typed-SameLinks, fire_disconnect-SameLinks, close_done-SameLinks,
}
use steamstacks.SteamClient.Session.Matched.{
  Matched, same_links, answer_job-Matched, run_on_packet-Matched,
}

module _ (s : Services) where
  switch_emsg-Matched :
      (p : Packet) (c c' : CmClient) → switch_emsg s p c ≡ ok c' → Matched c → Matched c'
  unfolding switch_emsg handle_logged_off
  switch_emsg-Matched p c c' e h = by_type (p.emsg == 757) e
    where
      by_type :
          (b : Bool)
          → (if b then handle_logged_off s p c else ok (handle_typed s p c)) ≡ ok c'
          → Matched c'
      by_type true q =
          let fired = fire_disconnect (logged_off (logoff_reason s p)) c in
          let (closed, e1, e2) = >>=-eq-ok (close_done fired) _ q in
          rw (sym (ok-injective e2)) (
            same_links closed _ (refl, refl, refl)
              (same_links fired closed (close_done-SameLinks fired closed e1)
                (same_links c fired (fire_disconnect-SameLinks _ c) h)))
      by_type false q = rw (sym (ok-injective q)) (same_links c _ (handle_typed-SameLinks s p c) h)

  pub deliver-Matched :
      (p : Packet) (c c' : CmClient) → deliver s p c ≡ ok c' → Matched c → Matched c'
  unfolding deliver
  deliver-Matched p c c' e h =
      let (handled, e1, e2) = >>=-eq-ok (switch_emsg s p (answer_job p c)) _ e in
      let kept = switch_emsg-Matched p (answer_job p c) handled e1 (answer_job-Matched p c h) in
      rw (sym (ok-injective e2))
        (run_on_packet-Matched handled.on_packet p handled kept.listening kept)

  pub deliver_all-Matched :
      (ps : List Packet) (c c' : CmClient) → deliver_all s ps c ≡ ok c' → Matched c → Matched c'
  deliver_all-Matched [] c c' e h = rw (sym (ok-injective e)) h
  deliver_all-Matched (p ∷ ps) c c' e h =
      let (c1, e1, e2) = >>=-eq-ok (deliver s p c) _ e in
      deliver_all-Matched ps c1 c' e2 (deliver-Matched p c c1 e1 h)
