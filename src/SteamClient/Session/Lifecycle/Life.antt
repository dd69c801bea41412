-- ===== src/SteamClient/Session/Lifecycle/Life.antt =====
-- What the delivery of a packet changes of the life of a connection: only a logoff ends it.
use steamstacks.Prelude.{
  ℕ, suc, ◌+◌, ◌≡◌, refl, ◌∙◌, Bool, true, false, ◌||◌, List, [], ◌∷◌, ◌++◌, map, Option, none,
  some, ◌==◌, if◌then◌else◌, arith,
}
use steamstacks.SteamClient.Message.{Packet, header_or_empty}
use steamstacks.SteamClient.Protocol.{get_jobid_target}
use steamstacks.SteamClient.Events.{relationship_events, persona_state_events, trade_counts}
use steamstacks.SteamClient.Session.{
  Channel, OnPacket, no_handler, user_handler, one_shot, Event, relationship, persona_state,
  friend_msg, trade_notification, item_notification, gc_message, disconnected, packet, CmClient,
  Services, response_of, try_send, pending, forget, answer_job,
}
use steamstacks.SteamClient.Session.Dispatch.{
  run_on_packet, emit_decoded, handle_friends_list, handle_persona_state,
  handle_friend_msg_incoming, handle_user_notifications, handle_item_announcements, handle_gc,
  handle_typed,
}

-- How often `OnDisconnect` was called.
abbrev pub disconnects : List Event → ℕ
disconnects [] = 0
disconnects (disconnected d ∷ es) = suc (disconnects es)
disconnects (relationship e ∷ es) = disconnects es
disconnects (persona_state e ∷ es) = disconnects es
disconnects (friend_msg e ∷ es) = disconnects es
disconnects (trade_notification n ∷ es) = disconnects es
disconnects (item_notification n ∷ es) = disconnects es
disconnects (gc_message m ∷ es) = disconnects es
disconnects (packet p ∷ es) = disconnects es

pub disconnects-append :
    (xs ys : List Event) → disconnects (xs ++ ys) ≡ disconnects xs + disconnects ys
disconnects-append [] ys = omega arith
disconnects-append (disconnected d ∷ xs) ys = omega (arith, disconnects-append xs ys)
disconnects-append (relationship e ∷ xs) ys = disconnects-append xs ys
disconnects-append (persona_state e ∷ xs) ys = disconnects-append xs ys
disconnects-append (friend_msg e ∷ xs) ys = disconnects-append xs ys
disconnects-append (trade_notification n ∷ xs) ys = disconnects-append xs ys
disconnects-append (item_notification n ∷ xs) ys = disconnects-append xs ys
disconnects-append (gc_message m ∷ xs) ys = disconnects-append xs ys
disconnects-append (packet p ∷ xs) ys = disconnects-append xs ys

-- The constructor makes no event of a disconnection.
abbrev Silent : {M : Type 0} → (M → Event) → Type 0
Silent {M} f = (m : M) (es : List Event) → disconnects (f m ∷ es) ≡ disconnects es

disconnects-map : {M : Type 0} (f : M → Event) (ms : List M) → Silent f → disconnects (map f ms) ≡ 0
disconnects-map f [] h = refl
disconnects-map f (m ∷ ms) h = h m (map f ms) ∙ disconnects-map f ms h

-- The parts of a client that its life consists of.
pub record SameLife (c c' : CmClient) : Type 0 where
  pub conn : c'.conn ≡ c.conn
  pub done : c'.done ≡ c.done
  pub close_once : c'.close_once ≡ c.close_once
  pub disconnect_once : c'.disconnect_once ≡ c.disconnect_once
  pub callbacks : c'.callbacks ≡ c.callbacks
  pub logged_in : c'.logged_in ≡ c.logged_in
  pub count : disconnects c'.events ≡ disconnects c.events

pub SameLife-refl : (c : CmClient) → SameLife c c
SameLife-refl c = record {
  conn = refl;
  done = refl;
  close_once = refl;
  disconnect_once = refl;
  callbacks = refl;
  logged_in = refl;
  count = refl;
}

pub SameLife-trans : (a b c : CmClient) → SameLife a b → SameLife b c → SameLife a c
SameLife-trans a b c h k = record {
  conn = k.conn ∙ h.conn;
  done = k.done ∙ h.done;
  close_once = k.close_once ∙ h.close_once;
  disconnect_once = k.disconnect_once ∙ h.disconnect_once;
  callbacks = k.callbacks ∙ h.callbacks;
  logged_in = k.logged_in ∙ h.logged_in;
  count = k.count ∙ h.count;
}

-- Events without a disconnection.
emitted-SameLife :
    (es : List Event) (c : CmClient)
    → disconnects es ≡ 0
    → SameLife c (record c { events = c.events ++ es })
emitted-SameLife es c h = record {
  conn = refl;
  done = refl;
  close_once = refl;
  disconnect_once = refl;
  callbacks = refl;
  logged_in = refl;
  count = omega (arith, h, disconnects-append c.events es);
}

emit_decoded-SameLife :
    {M : Type 0} (o : Option M) (b : Bool) (events : M → List Event) (c : CmClient)
    → ((m : M) → disconnects (events m) ≡ 0)
    → SameLife c (emit_decoded o b events c)
emit_decoded-SameLife none b events c h = SameLife-refl c
emit_decoded-SameLife (some m) true events c h = emitted-SameLife (events m) c (h m)
emit_decoded-SameLife (some m) false events c h = SameLife-refl c

if_SameLife :
    (b : Bool) (c x y : CmClient) → SameLife c x → SameLife c y → SameLife c (if b then x else y)
if_SameLife true c x y h k = h
if_SameLife false c x y h k = k

pub handle_typed-SameLife :
    (s : Services) (p : Packet) (c : CmClient) → SameLife c (handle_typed s p c)
unfolding handle_typed handle_friends_list handle_persona_state handle_friend_msg_incoming
    handle_user_notifications handle_item_announcements handle_gc
handle_typed-SameLife s p c =
    if_SameLife (p.emsg == 767) c _ _
      (emit_decoded-SameLife _ _ _ c
        (λ m. disconnects-map (λ e. relationship e) (relationship_events m) (λ x es. refl)))
      (if_SameLife (p.emsg == 766) c _ _
        (emit_decoded-SameLife _ _ _ c
          (λ m. disconnects-map (λ e. persona_state e) (persona_state_events m) (λ x es. refl)))
        (if_SameLife (p.emsg == 5427 || p.emsg == 5578) c _ _
          (emit_decoded-SameLife _ _ _ c (λ m. refl))
          (if_SameLife (p.emsg == 5599) c _ _
            (emit_decoded-SameLife _ _ _ c
              (λ m. disconnects-map (λ n. trade_notification n) (trade_counts m) (λ x es. refl)))
            (if_SameLife (p.emsg == 5576) c _ _ (emit_decoded-SameLife _ _ _ c (λ m. refl)) (
              if_SameLife (p.emsg == 5453) c _ _ (emit_decoded-SameLife _ _ _ c (λ m. refl))
                (SameLife-refl c))))))

try_send-SameLife : (ch : Channel) (p : Packet) (c : CmClient) → SameLife c (try_send ch p c)
unfolding try_send
try_send-SameLife ch p c = by_place (response_of ch c.responses)
  where
    by_place :
        (o : Option Packet)
        → SameLife c (elim o [ none ↦ record c { responses = (ch, p) ∷ c.responses } | some q ↦ c ])
    by_place none = record {
      conn = refl;
      done = refl;
      close_once = refl;
      disconnect_once = refl;
      callbacks = refl;
      logged_in = refl;
      count = refl;
    }
    by_place (some q) = SameLife-refl c

pub answer_job-SameLife : (p : Packet) (c : CmClient) → SameLife c (answer_job p c)
unfolding answer_job
answer_job-SameLife p c = by_entry (pending job c.pending_jobs)
  where
    job : ℕ
    job = get_jobid_target (header_or_empty p.header)

    by_entry :
        (o : Option Channel)
        → SameLife c (elim o [
          | none ↦ c
          | some ch ↦ try_send ch p (record c { pending_jobs = forget job c.pending_jobs })
        ])
    by_entry none = SameLife-refl c
    by_entry (some ch) =
        SameLife-trans c (record c { pending_jobs = forget job c.pending_jobs }) _
          (record {
            conn = refl;
            done = refl;
            close_once = refl;
            disconnect_once = refl;
            callbacks = refl;
            logged_in = refl;
            count = refl;
          })
          (try_send-SameLife ch p (record c { pending_jobs = forget job c.pending_jobs }))

pub run_on_packet-SameLife :
    (o : OnPacket) (p : Packet) (c : CmClient) → SameLife c (run_on_packet o p c)
unfolding run_on_packet
run_on_packet-SameLife no_handler p c = SameLife-refl c
run_on_packet-SameLife user_handler p c = emitted-SameLife (packet p ∷ []) c refl
run_on_packet-SameLife (one_shot target ch prev) p c =
    SameLife-trans c _ _ (by_type (p.emsg == target)) (run_on_packet-SameLife prev p _)
  where
    by_type :
        (b : Bool) → SameLife c (if b then record (try_send ch p c) { on_packet = prev } else c)
    by_type true =
        let h = try_send-SameLife ch p c in
        record {
          conn = h.conn;
          done = h.done;
          close_once = h.close_once;
          disconnect_once = h.disconnect_once;
          callbacks = h.callbacks;
          logged_in = h.logged_in;
          count = h.count;
        }
    by_type false = SameLife-refl c
