-- ===== src/SteamClient/Session/Dispatch.antt =====
-- steamclient/steamclient.go: `handlePacket`, with the handlers of steamclient/friends.go,
-- steamclient/persona.go and steamclient/notifications.go that it calls.
use steamstacks.Prelude.{
  ℕ, zero, suc, Bool, ◌||◌, List, [], ◌∷◌, map, Option, none, some, Result, ok, err, panic, stuck,
  ◌>>=◌, ◌==◌, if◌then◌else◌,
}
use steamstacks.SteamClient.Protocol.{get_default}
use steamstacks.SteamClient.Message.{Packet}
use steamstacks.SteamClient.Message.Multi.{decode_multi}
use steamstacks.SteamClient.Gc.{handle_gc_message}
use steamstacks.SteamClient.Events.{
  logged_off, relationship_events, persona_state_events, friend_message, trade_counts,
}
use steamstacks.SteamClient.Session.{
  OnPacket, no_handler, user_handler, one_shot, Event, relationship, persona_state, friend_msg,
  trade_notification, item_notification, gc_message, packet, CmClient, Services, emit, emit_all,
  try_send, answer_job, fire_disconnect, close_done, close_conn,
}

-- The call of a function that was in `OnPacket`. A listener that matches sends the packet, puts the
-- function that was before it back, and calls it.
unfoldable pub run_on_packet : OnPacket → Packet → CmClient → CmClient
run_on_packet no_handler pkt c = c
run_on_packet user_handler pkt c = emit (packet pkt) c
run_on_packet (one_shot target ch prev) pkt c =
    run_on_packet prev pkt
      (if pkt.emsg == target then record (try_send ch pkt c) { on_packet = prev } else c)

-- The events of a message that was decoded, where the callback is set. A failure is only logged.
abbrev pub emit_decoded : {M : Type 0} → Option M → Bool → (M → List Event) → CmClient → CmClient
emit_decoded none is_set events c = c
emit_decoded (some m) is_set events c = if is_set then emit_all (events m) c else c

module _ (s : Services) where
  unfoldable pub handle_friends_list : Packet → CmClient → CmClient
  handle_friends_list pkt c =
      emit_decoded (s.friends_list pkt.body) c.callbacks.on_relationship
        (λ msg. map (λ e. relationship e) (relationship_events msg)) c

  unfoldable pub handle_persona_state : Packet → CmClient → CmClient
  handle_persona_state pkt c =
      emit_decoded (s.persona_states pkt.body) c.callbacks.on_persona_state
        (λ msg. map (λ e. persona_state e) (persona_state_events msg)) c

  unfoldable pub handle_friend_msg_incoming : Packet → CmClient → CmClient
  handle_friend_msg_incoming pkt c =
      emit_decoded (s.friend_msg_incoming pkt.body) c.callbacks.on_friend_message
        (λ msg. friend_msg (friend_message pkt.emsg msg) ∷ []) c

  unfoldable pub handle_user_notifications : Packet → CmClient → CmClient
  handle_user_notifications pkt c =
      emit_decoded (s.user_notifications pkt.body) c.callbacks.on_trade_notification
        (λ msg. map (λ n. trade_notification n) (trade_counts msg)) c

  unfoldable pub handle_item_announcements : Packet → CmClient → CmClient
  handle_item_announcements pkt c =
      emit_decoded (s.item_announcements pkt.body) c.callbacks.on_item_notification
        (λ msg. item_notification (get_default 0 msg) ∷ []) c

  unfoldable pub handle_gc : Packet → CmClient → CmClient
  handle_gc pkt c =
      emit_decoded (handle_gc_message s.gc pkt.body) c.callbacks.on_gc_message
        (λ msg. gc_message msg ∷ []) c

  -- The reason is 2 where the body cannot be read or does not say it.
  unfoldable pub logoff_reason : Packet → ℕ
  logoff_reason pkt = elim (s.logged_off_reason pkt.body) [ none ↦ 2 | some r ↦ get_default 2 r ]

  unfoldable pub handle_logged_off : Packet → CmClient → Result ⊥ CmClient
  handle_logged_off pkt c = do
    closed ← close_done (fire_disconnect (logged_off (logoff_reason pkt)) c)
    ok (close_conn closed)

  -- The handlers by type, without those that can panic.
  unfoldable pub handle_typed : Packet → CmClient → CmClient
  handle_typed pkt c =
      if pkt.emsg == 767
      then handle_friends_list pkt c
      else if pkt.emsg == 766
      then handle_persona_state pkt c
      else if pkt.emsg == 5427 || pkt.emsg == 5578
      then handle_friend_msg_incoming pkt c
      else if pkt.emsg == 5599
      then handle_user_notifications pkt c
      else if pkt.emsg == 5576
      then handle_item_announcements pkt c
      else if pkt.emsg == 5453
      then handle_gc pkt c
      else c

  unfoldable pub switch_emsg : Packet → CmClient → Result ⊥ CmClient
  switch_emsg pkt c = if pkt.emsg == 757 then handle_logged_off pkt c else ok (handle_typed pkt c)

  -- A packet that is not a group: its job is answered, its handler called, and then `OnPacket`.
  unfoldable pub deliver : Packet → CmClient → Result ⊥ CmClient
  deliver pkt c = do
    handled ← switch_emsg pkt (answer_job pkt c)
    ok (run_on_packet handled.on_packet pkt handled)

  -- The packets of a group, none where it cannot be decoded: the failure is only logged.
  unfoldable pub packets_of : Packet → Result ⊥ (List Packet)
  packets_of pkt = elim (s.multi pkt.body) [
    | none ↦ ok []
    | some m ↦
        elim (decode_multi s.header s.gunzip m.message_body (get_default 0 m.size_unzipped)) [
          | ok packets ↦ ok packets
          | err e ↦ ok []
          | panic ↦ panic
          | stuck ↦ stuck
        ]
  ]

  abbrev pub fold_packets :
      (Packet → CmClient → Result ⊥ CmClient) → List Packet → CmClient → Result ⊥ CmClient
  fold_packets f [] c = ok c
  fold_packets f (p ∷ ps) c = f p c >>= λ c'. fold_packets f ps c'

  abbrev pub deliver_all : List Packet → CmClient → Result ⊥ CmClient
  deliver_all = fold_packets deliver

  -- `fuel` bounds how deep groups nest in groups.
  unfoldable pub handle_packet : ℕ → Packet → CmClient → Result ⊥ CmClient
  handle_packet zero pkt c = stuck
  handle_packet (suc fuel) pkt c =
      let group = packets_of pkt >>= λ packets. fold_packets (handle_packet fuel) packets c in
      if pkt.emsg == 1 then group else deliver pkt c
