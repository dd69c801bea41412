-- ===== src/SteamClient/Session/Links.antt =====
-- The steps of a session that leave its channels and its listeners as they are.
pub mod Sends
use steamstacks.Prelude.{
  ℕ, ◌≡◌, refl, sym, Bool, true, false, ◌&&◌, ◌||◌, List, [], ◌∷◌, Option, none, some, Result, ok,
  err, panic, stuck, ◌>>=◌, ◌==◌, ==_iff, if◌then◌else◌, >>=-eq-ok, ok-injective, All,
}
use mathlib.Core.Option.{some-injective}
use steamstacks.SteamClient.Protocol.{get_jobid_target}
use steamstacks.SteamClient.Message.{Packet, header_or_empty}
use steamstacks.SteamClient.Events.{DisconnectEvent}
use steamstacks.SteamClient.Session.{
  Channel, job_channel, emsg_channel, same_channel, OnPacket, no_handler, user_handler, one_shot,
  Event, Done, nil_done, open_done, closed_done, CmClient, Services, emit, response_of, try_send,
  pending, forget, answer_job, fire_disconnect, close_done, close_conn, packet, disconnected,
}
use steamstacks.SteamClient.Session.Dispatch.{
  run_on_packet, emit_decoded, handle_friends_list, handle_persona_state,
  handle_friend_msg_incoming, handle_user_notifications, handle_item_announcements, handle_gc,
  handle_logged_off, handle_typed, switch_emsg, deliver, deliver_all,
}

-- The channels that were answered, those that are registered, and `OnPacket`.
abbrev pub SameLinks : CmClient → CmClient → Type 0
SameLinks c c' =
    (c'.responses ≡ c.responses) × (c'.pending_jobs ≡ c.pending_jobs) × (c'.on_packet ≡ c.on_packet)

emit_decoded-SameLinks :
    {M : Type 0} (o : Option M) (b : Bool) (events : M → List Event) (c : CmClient)
    → SameLinks c (emit_decoded o b events c)
emit_decoded-SameLinks none b events c = (refl, refl, refl)
emit_decoded-SameLinks (some m) true events c = (refl, refl, refl)
emit_decoded-SameLinks (some m) false events c = (refl, refl, refl)

if_SameLinks :
    (b : Bool) (c x y : CmClient) → SameLinks c x → SameLinks c y → SameLinks c (if b then x else y)
if_SameLinks true c x y h k = h
if_SameLinks false c x y h k = k

pub handle_typed-SameLinks :
    (s : Services) (p : Packet) (c : CmClient) → SameLinks c (handle_typed s p c)
unfolding handle_typed handle_friends_list handle_persona_state handle_friend_msg_incoming
    handle_user_notifications handle_item_announcements handle_gc
handle_typed-SameLinks s p c = if_SameLinks (p.emsg == 767) c _ _ (emit_decoded-SameLinks _ _ _ c) (
    if_SameLinks (p.emsg == 766) c _ _ (emit_decoded-SameLinks _ _ _ c) (
      if_SameLinks (p.emsg == 5427 || p.emsg == 5578) c _ _ (emit_decoded-SameLinks _ _ _ c) (
        if_SameLinks (p.emsg == 5599) c _ _ (emit_decoded-SameLinks _ _ _ c) (
          if_SameLinks (p.emsg == 5576) c _ _ (emit_decoded-SameLinks _ _ _ c) (
            if_SameLinks (p.emsg == 5453) c _ _ (emit_decoded-SameLinks _ _ _ c)
              (refl, refl, refl))))))

pub fire_disconnect-SameLinks :
    (ev : DisconnectEvent) (c : CmClient) → SameLinks c (fire_disconnect ev c)
unfolding fire_disconnect
fire_disconnect-SameLinks ev c =
    if_SameLinks c.disconnect_once c c _ (refl, refl, refl)
      (if_SameLinks c.callbacks.on_disconnect c _ _ (refl, refl, refl) (refl, refl, refl))

pub close_done-SameLinks :
    {E : Type 0} (c c' : CmClient) → close_done {E = E} c ≡ ok c' → SameLinks c c'
unfolding close_done
close_done-SameLinks {E} c c' e = by_flag c.close_once c.done e
  where
    by_flag :
        (b : Bool) (d : Done)
        → ◌≡◌ {A = Result E CmClient}
            (if b then ok c else elim d [
              | nil_done ↦ panic
              | open_done ↦ ok (record c { done = closed_done; close_once = true })
              | closed_done ↦ panic
            ])
            (ok c')
        → SameLinks c c'
    by_flag true d q = rw (sym (ok-injective q)) (refl, refl, refl)
    by_flag false nil_done q = cc
    by_flag false open_done q = rw (sym (ok-injective q)) (refl, refl, refl)
    by_flag false closed_done q = cc
