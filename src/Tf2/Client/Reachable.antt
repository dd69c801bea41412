-- ===== src/Tf2/Client/Reachable.antt =====
-- What holds of the client and of its loops after any steps.
use steamstacks.Prelude.{
  ℕ, suc, ◌≤◌, ◌<◌, ◌≡◌, sym, true, false, List, [], ◌∷◌, Option, none, some, Result, ok, err,
  panic, stuck, inl, inr, ◌==◌, arith, All,
}
use mathlib.Core.Option.{some-injective}
use steamstacks.Prelude.Bytes.{Bytes}
use steamstacks.SteamClient.Gc.{GcMessage}
use steamstacks.Tf2.Wire.{Protowire, DecodeError}
use steamstacks.Tf2.Messages.{
  SubscribedType, SingleObject, WelcomeEvent, GoodbyeEvent, CraftEvent, decode_cache_subscribed,
  decode_multiple_objects, parse_welcome, parse_goodbye, decode_craft_response,
}
use steamstacks.Tf2.Cache.{new_so_cache}
use steamstacks.Tf2.Cache.Keys.{Keyed-empty}
use steamstacks.Tf2.Client.{Client, call, stop_hello, craft_completed, connected, disconnected}
use steamstacks.Tf2.Client.Objects.{
  subscribe_objects, handle_so_cache_subscribed, create_object, apply_single_update, destroy_object,
  handle_so_create, handle_so_update, handle_so_destroy, apply_updates, handle_so_update_multiple,
}
use steamstacks.Tf2.Client.Dispatch.{
  handle_so_cache_subscription_check, handle_craft_response, handle_welcome, handle_goodbye,
  handle_gc_message,
}
use steamstacks.Tf2.Client.Hello.{
  Session, begin_connect, start_loop, Closed, Step, receive, stop, begin, hello_sent, hello_failed,
  loop_started, hello_resent, resend_failed, loop_stopped, Reachable, here, next,
}
use steamstacks.Tf2.Client.Sound.{
  Sound, call-Sound, if_Sound, stop_hello-Sound, disconnect-Sound, with_object-Sound,
}
use steamstacks.Tf2.Client.Sound.Objects.{
  subscribe_objects-Sound, create_object-Sound, apply_single_update-Sound, destroy_object-Sound,
  apply_updates-Sound,
}

module _ (w : Protowire) where
  handle_so_cache_subscribed-Sound :
      (body : Bytes) (c : Client) → Sound c → Sound (handle_so_cache_subscribed w body c)
  unfolding handle_so_cache_subscribed
  handle_so_cache_subscribed-Sound body c h = go (decode_cache_subscribed w body)
    where
      go :
          (r : Result DecodeError (ℕ × List SubscribedType))
          → Sound (elim r [
            | ok (owner, objects) ↦ subscribe_objects w objects c
            | err e ↦ c
            | panic ↦ c
            | stuck ↦ c
          ])
      go (ok (owner, objects)) = subscribe_objects-Sound w objects c h
      go (err e) = h
      go panic = h
      go stuck = h

  handle_so_update_multiple-Sound :
      (body : Bytes) (c : Client) → Sound c → Sound (handle_so_update_multiple w body c)
  unfolding handle_so_update_multiple
  handle_so_update_multiple-Sound body c h = go (decode_multiple_objects w body)
    where
      go :
          (r : Result DecodeError (List SingleObject))
          → Sound (elim r [
            | ok objects ↦ apply_updates w objects c
            | err e ↦ c
            | panic ↦ c
            | stuck ↦ c
          ])
      go (ok objects) = apply_updates-Sound w objects c h
      go (err e) = h
      go panic = h
      go stuck = h

  handle_craft_response-Sound :
      (b : Bytes) (c : Client) → Sound c → Sound (handle_craft_response w b c)
  unfolding handle_craft_response
  handle_craft_response-Sound b c h = go (decode_craft_response b)
    where
      go :
          (o : Option CraftEvent)
          → Sound (elim o [
            | none ↦ c
            | some ev ↦ call c.handlers.on_craft_completed (craft_completed ev) c
          ])
      go none = h
      go (some ev) = call-Sound c.handlers.on_craft_completed _ c h

  handle_welcome-Sound : (body : Bytes) (c : Client) → Sound c → Sound (handle_welcome w body c)
  unfolding handle_welcome
  handle_welcome-Sound body c h = go (parse_welcome w body)
    where
      go :
          (o : Option WelcomeEvent)
          → Sound (elim o [
            | none ↦ c
            | some ev ↦
                call c.handlers.on_connected
                  (connected ev)
                  (stop_hello (record c { is_connected = true; cache = new_so_cache }))
          ])
      go none = h
      go (some ev) = call-Sound c.handlers.on_connected _ _ (
          stop_hello-Sound (record c { is_connected = true; cache = new_so_cache })
            (Keyed-empty, h.1))

  handle_goodbye-Sound : (body : Bytes) (c : Client) → Sound c → Sound (handle_goodbye w body c)
  unfolding handle_goodbye
  handle_goodbye-Sound body c h = go (parse_goodbye w body)
    where
      go :
          (o : Option GoodbyeEvent)
          → Sound (elim o [
            | none ↦ c
            | some ev ↦
                call c.handlers.on_disconnected
                  (disconnected ev)
                  (record c { is_connected = false; cache = new_so_cache })
          ])
      go none = h
      go (some ev) =
          call-Sound c.handlers.on_disconnected _
            (record c { is_connected = false; cache = new_so_cache }) (Keyed-empty, h.1)

  handle_gc_message-Sound :
      (msg : GcMessage) (c : Client) → Sound c → Sound (handle_gc_message w msg c)
  unfolding handle_gc_message handle_so_cache_subscription_check handle_so_create handle_so_update
      handle_so_destroy
  handle_gc_message-Sound msg c h =
      if_Sound (msg.msg_type == 4004) _ _ (handle_welcome-Sound msg.body c h) (
        if_Sound (msg.msg_type == 4008) _ _ (handle_goodbye-Sound msg.body c h) (
          if_Sound (msg.msg_type == 27) _ _ h (
            if_Sound (msg.msg_type == 24) _ _ (handle_so_cache_subscribed-Sound msg.body c h) (
              if_Sound (msg.msg_type == 21) _ _
                (with_object-Sound w msg.body (create_object w) c
                  (λ so. create_object-Sound w so c h) h)
                (if_Sound (msg.msg_type == 22) _ _
                  (with_object-Sound w msg.body (apply_single_update w) c
                    (λ so. apply_single_update-Sound w so c h) h)
                  (if_Sound (msg.msg_type == 23) _ _
                    (with_object-Sound w msg.body (destroy_object w) c
                      (λ so. destroy_object-Sound w so c h) h)
                    (if_Sound (msg.msg_type == 26) _ _
                      (handle_so_update_multiple-Sound msg.body c h)
                      (if_Sound (msg.msg_type == 1003) _ _
                        (handle_craft_response-Sound msg.body c h)
                        (call-Sound c.handlers.on_gc_message _ c h)))))))))

Closed-not_made :
    (k : ℕ) (made : ℕ) (closed : List ℕ)
    → All (λ j. j < made) closed
    → made ≤ k
    → Closed k closed
    → ⊥
Closed-not_made k made [] h n q = q
Closed-not_made k made (j ∷ js) h n (inl q) = omega arith
Closed-not_made k made (j ∷ js) h n (inr q) = Closed-not_made k made js h.1 n q

All-suc : (made : ℕ) (closed : List ℕ) → All (λ j. j < made) closed → All (λ j. j < suc made) closed
All-suc made [] h = tt
All-suc made (j ∷ js) h = (omega arith, All-suc made js h.1)

client_eq : (a b : Client) → ◌≡◌ {A = Option Client} (some a) (some b) → a ≡ b
client_eq a b q = some-injective a b q

begin_connect-Sound : (c c' : Client) → begin_connect c ≡ some c' → Sound c → Sound c'
unfolding begin_connect
begin_connect-Sound c c' e h = go c.hello_stop e
  where
    go :
        (o : Option ℕ)
        → (elim o [
          | none ↦ some (record c { hello_stop = some c.made; made = suc c.made })
          | some ch ↦ none
        ])
          ≡ some c'
        → Sound c'
    go none q = rw (sym (client_eq _ c' q)) (
      h.0,
      (
        h.1.0,
        All-suc c.made c.closed h.1.1,
        (omega arith, Closed-not_made c.made c.made c.closed h.1.1 (omega arith)),
      ),
    )
    go (some ch) q = cc

pub Step-Sound : (w : Protowire) (s s' : Session) → Step w s s' → Sound s.client → Sound s'.client
unfolding start_loop
Step-Sound w _ _ (receive s msg) h = handle_gc_message-Sound w msg s.client h
Step-Sound w _ _ (stop s) h = disconnect-Sound s.client h
Step-Sound w _ _ (begin s c e) h = begin_connect-Sound s.client c e h
Step-Sound w _ _ (hello_sent s n e) h = h
Step-Sound w _ _ (hello_failed s n e) h = h
Step-Sound w _ _ (loop_started s n e) h = h
Step-Sound w _ _ (hello_resent s before after l e) h = h
Step-Sound w _ _ (resend_failed s before after l e) h = h
Step-Sound w _ _ (loop_stopped s before after ch e k) h = h

-- From a client whose cache holds each item under its own ID, once, and whose channels are in
-- order, every interleaving of messages, calls of `Connect` and `Disconnect` and steps of the
-- hello loops leads to such a client again: so no channel is ever closed twice, which would panic,
-- and the one that `helloStop` holds is not closed.
pub Reachable-Sound :
    (w : Protowire) (s s' : Session) → Sound s.client → Reachable w s s' → Sound s'.client
Reachable-Sound w s _ h here = h
Reachable-Sound w s _ h (next m n r e) = Step-Sound w m n e (Reachable-Sound w s m h r)
