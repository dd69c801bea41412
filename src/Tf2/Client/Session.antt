-- ===== src/Tf2/Client/Session.antt =====
-- The session with the game's coordinator: `Connect`, its welcome and its end.
use steamstacks.Prelude.{
  ℕ, suc, ◌≡◌, refl, ap, Bool, true, false, List, [], ◌∷◌, ◌++◌, Option, none, some, ◌⊎◌, inl, inr,
}
use steamstacks.Prelude.Bytes.{Bytes}
use steamstacks.SteamClient.Gc.{GcMessage}
use steamstacks.Tf2.Wire.{Protowire}
use steamstacks.Tf2.Wire.Fields.{Progress}
use steamstacks.Tf2.Wire.Ends.{lenient_message_total}
use steamstacks.Tf2.Messages.{
  WelcomeEvent, GoodbyeEvent, welcome_cases, welcome_bytes, goodbye_cases, parse_welcome,
  parse_goodbye,
}
use steamstacks.Tf2.Cache.{new_so_cache}
use steamstacks.Tf2.Client.{Client, Event, call, stop_hello, connected, disconnected, disconnect}
use steamstacks.Tf2.Client.Dispatch.{handle_welcome, handle_goodbye, handle_gc_message}
use steamstacks.Tf2.Client.Hello.{
  Session, begin_connect, start_loop, send_hello, connect, Step, receive, stop, begin, hello_sent,
  hello_failed, loop_started, hello_resent, resend_failed, loop_stopped,
}

-- The session has begun: nothing is stored yet, and no hello is due.
abbrev pub Fresh : Client → Type 0
Fresh c = (c.is_connected ≡ true) × (c.cache ≡ new_so_cache) × (c.hello_stop ≡ none)

-- The session has ended.
abbrev pub Over : Client → Type 0
Over c = (c.is_connected ≡ false) × (c.cache ≡ new_so_cache)

call-Fresh : (b : Bool) (e : Event) (c : Client) → Fresh c → Fresh (call b e c)
call-Fresh true e c h = h
call-Fresh false e c h = h

call-Over : (b : Bool) (e : Event) (c : Client) → Over c → Over (call b e c)
call-Over true e c h = h
call-Over false e c h = h

call-hello_stop : (b : Bool) (e : Event) (c : Client) → (call b e c).hello_stop ≡ c.hello_stop
call-hello_stop true e c = refl
call-hello_stop false e c = refl

stop_hello-Fresh :
    (c : Client) → c.is_connected ≡ true → c.cache ≡ new_so_cache → Fresh (stop_hello c)
stop_hello-Fresh c h k = go c.hello_stop refl
  where
    go :
        (o : Option ℕ)
        → c.hello_stop ≡ o
        → Fresh
            (elim o [ none ↦ c | some ch ↦ record c { hello_stop = none; closed = ch ∷ c.closed } ])
    go none e = (h, k, e)
    go (some ch) e = (h, k, refl)

module _ (w : Protowire) (progress : Progress w) where
  parse_welcome_total : (body : Bytes) → (ev : WelcomeEvent) × (parse_welcome w body ≡ some ev)
  unfolding parse_welcome
  parse_welcome_total body =
      lenient_message_total w progress welcome_cases (λ num v ev. unfold welcome_bytes in tt) _ body

  parse_goodbye_total : (body : Bytes) → (ev : GoodbyeEvent) × (parse_goodbye w body ≡ some ev)
  unfolding parse_goodbye
  parse_goodbye_total body = lenient_message_total w progress goodbye_cases tt _ body

  handle_welcome-Fresh : (body : Bytes) (c : Client) → Fresh (handle_welcome w body c)
  unfolding handle_welcome
  handle_welcome-Fresh body c =
      let (ev, e) = parse_welcome_total body in
      rw (e, handle_welcome)
        (call-Fresh c.handlers.on_connected (connected ev) _
          (stop_hello-Fresh (record c { is_connected = true; cache = new_so_cache }) refl refl))

  handle_goodbye-Over :
      (body : Bytes) (c : Client)
      → Over (handle_goodbye w body c) × ((handle_goodbye w body c).hello_stop ≡ c.hello_stop)
  unfolding handle_goodbye
  handle_goodbye-Over body c =
      let (ev, e) = parse_goodbye_total body in
      let over : Client = record c { is_connected = false; cache = new_so_cache } in
      rw (e, handle_goodbye)
        (
          call-Over c.handlers.on_disconnected (disconnected ev) over (refl, refl),
          call-hello_stop c.handlers.on_disconnected (disconnected ev) over,
        )

  -- If a tag of protowire takes a byte at least, then a welcome, whatever its body, makes the
  -- client connected with an empty cache and clears `helloStop`, and a goodbye makes it
  -- disconnected with an empty cache and leaves `helloStop` as it is.
  pub welcome_and_goodbye :
      (msg : GcMessage) (c : Client)
      → (msg.msg_type ≡ 4004 → Fresh (handle_gc_message w msg c))
        × (msg.msg_type ≡ 4008
            → Over (handle_gc_message w msg c)
              × ((handle_gc_message w msg c).hello_stop ≡ c.hello_stop))
  unfolding handle_gc_message
  welcome_and_goodbye msg c =
      ((λ t. rw t (handle_welcome-Fresh msg.body c)), (λ t. rw t (handle_goodbye-Over msg.body c)))

  -- If a tag of protowire takes a byte at least, then a hello loop that is started right after a
  -- welcome was handled has no channel.
  pub late_loop :
      (s : Session) (msg : GcMessage)
      → msg.msg_type ≡ 4004
      → (start_loop (record s { client = handle_gc_message w msg s.client })).loops ≡ none ∷ s.loops
  unfolding start_loop
  late_loop s msg t = rw ((welcome_and_goodbye msg s.client).0 t).2 refl

connect_busy :
    (w : Protowire) (is_sent : Bool) (s : Session) (ch : ℕ)
    → s.client.hello_stop ≡ some ch
    → connect w is_sent s ≡ (s, false)
unfolding connect begin_connect
connect_busy w is_sent s ch e = rw (e, begin_connect) refl

connect_idle :
    (w : Protowire) (is_sent : Bool) (s : Session)
    → s.client.hello_stop ≡ none
    → connect w is_sent s
      ≡ send_hello w is_sent (record s {
        client = record s.client { hello_stop = some s.client.made; made = suc s.client.made };
      })
unfolding connect begin_connect
connect_idle w is_sent s e = rw (e, begin_connect) refl

disconnect_idle : (c : Client) → (disconnect c).hello_stop ≡ none
unfolding disconnect
disconnect_idle c = go c.hello_stop refl
  where
    go :
        (o : Option ℕ)
        → c.hello_stop ≡ o
        → (elim o as (λ _. Client) [
          | none ↦ record c { is_connected = false; cache = new_so_cache }
          | some ch ↦ record c {
            is_connected = false;
            hello_stop = none;
            closed = ch ∷ c.closed;
            cache = new_so_cache;
          }
        ]).hello_stop
          ≡ none
    go none e = e
    go (some ch) e = refl

-- After a call of `Connect` whose send fails, or that is refused, the next call returns an error
-- and changes nothing, whether or not its own send would fail; after `Disconnect` a call whose
-- send does not fail returns no error.
pub connect-failed :
    (w : Protowire) (s : Session) (is_sent : Bool)
    → (connect w is_sent (connect w false s).0 ≡ ((connect w false s).0, false))
      × ((connect w true (record s { client = disconnect s.client })).1 ≡ true)
connect-failed w s is_sent = (
  again s.client.hello_stop refl,
  unfold send_hello in
      ap (λ (r : Session × Bool). r.1) (connect_idle w true _ (disconnect_idle s.client)),
)
  where
    again :
        (o : Option ℕ)
        → s.client.hello_stop ≡ o
        → connect w is_sent (connect w false s).0 ≡ ((connect w false s).0, false)
    again none e =
        rw (connect_idle w false s e)
          (connect_busy w is_sent _ s.client.made (unfold send_hello in refl))
    again (some ch) e = rw (connect_busy w false s ch e) (connect_busy w is_sent s ch e)

abbrev pub Orphan : List (Option ℕ) → Type 0
Orphan [] = ⊥
Orphan (l ∷ ls) = (l ≡ none) ⊎ Orphan ls

-- The step is not a resend that failed.
abbrev pub Delivered : {w : Protowire} {s s' : Session} → Step w s s' → Type 0
Delivered (resend_failed q before after l e) = ⊥
Delivered (receive q msg) = Unit {0}
Delivered (stop q) = Unit {0}
Delivered (begin q c e) = Unit {0}
Delivered (hello_sent q n e) = Unit {0}
Delivered (hello_failed q n e) = Unit {0}
Delivered (loop_started q n e) = Unit {0}
Delivered (hello_resent q before after l e) = Unit {0}
Delivered (loop_stopped q before after ch e k) = Unit {0}

Orphan-remove :
    (before after : List (Option ℕ)) (ch : ℕ)
    → Orphan (before ++ (some ch ∷ after))
    → Orphan (before ++ after)
Orphan-remove [] after ch (inl q) = cc
Orphan-remove [] after ch (inr q) = q
Orphan-remove (l ∷ before) after ch (inl q) = inl q
Orphan-remove (l ∷ before) after ch (inr q) = inr (Orphan-remove before after ch q)

-- A hello loop without a channel is still there after every step but a resend that fails: no
-- message and no call of `Disconnect` ends it.
pub Step-Orphan :
    (w : Protowire) (s s' : Session) (e : Step w s s')
    → Delivered e
    → Orphan s.loops
    → Orphan s'.loops
unfolding start_loop
Step-Orphan w _ _ (receive s msg) d h = h
Step-Orphan w _ _ (stop s) d h = h
Step-Orphan w _ _ (begin s c e) d h = h
Step-Orphan w _ _ (hello_sent s n e) d h = h
Step-Orphan w _ _ (hello_failed s n e) d h = h
Step-Orphan w _ _ (loop_started s n e) d h = inr h
Step-Orphan w _ _ (hello_resent s before after l e) d h = h
Step-Orphan w _ _ (resend_failed s before after l e) d h = elim d [ ]
Step-Orphan w _ _ (loop_stopped s before after ch e k) d h =
    Orphan-remove before after ch (rw e at h)
