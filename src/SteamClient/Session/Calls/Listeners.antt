-- ===== src/SteamClient/Session/Calls/Listeners.antt =====
-- Two listeners of `expectEMsg` at once: the order in which the responses come matters.
use steamstacks.Prelude.{
  ℕ, suc, ◌≡◌, ◌≢◌, refl, sym, ap, ◌∙◌, true, false, none, some, ==_ne, ==_refl, ==_iff, arith,
}
use steamstacks.SteamClient.Message.{Packet}
use steamstacks.SteamClient.Session.{
  Channel, emsg_channel, same_channel, OnPacket, user_handler, one_shot, packet, CmClient, emit,
  response_of, try_send,
}
use steamstacks.SteamClient.Session.Dispatch.{run_on_packet}
use steamstacks.SteamClient.Session.Calls.{expect_emsg}
use steamstacks.SteamClient.Session.Calls.Place.{send_other, send_own}

-- The call of the function that is in `OnPacket`.
abbrev pub receive : Packet → CmClient → CmClient
receive p c = run_on_packet c.on_packet p c

run_hit :
    (t : ℕ) (ch : Channel) (prev : OnPacket) (p : Packet) (c : CmClient)
    → p.emsg ≡ t
    → run_on_packet (one_shot t ch prev) p c
      ≡ run_on_packet prev p (record (try_send ch p c) { on_packet = prev })
unfolding run_on_packet
run_hit t ch prev p c e = rw ((==_iff p.emsg t).1 e) refl

run_miss :
    (t : ℕ) (ch : Channel) (prev : OnPacket) (p : Packet) (c : CmClient)
    → p.emsg ≢ t
    → run_on_packet (one_shot t ch prev) p c ≡ run_on_packet prev p c
unfolding run_on_packet
run_miss t ch prev p c ne = rw (==_ne p.emsg t ne) refl

module _ (a b : ℕ) (older newer : Channel) (p q : Packet) (c : CmClient) (is_a : p.emsg ≡ a)
    (is_b : q.emsg ≡ b) (differ : a ≢ b) where
  -- The client with the two listeners: the newer one is in front.
  abbrev listening : CmClient
  listening = record c { on_packet = one_shot b newer (one_shot a older user_handler) }

  older_first :
      receive q (receive p listening)
      ≡ emit
          (packet q)
          (emit (packet p) (record (try_send older p listening) { on_packet = user_handler }))
  unfolding run_on_packet
  older_first = ap (receive q) (
      run_miss b newer (one_shot a older user_handler) p listening (λ e. differ (sym is_a ∙ e))
      ∙ run_hit a older user_handler p listening is_a)

  abbrev newer_done : CmClient
  newer_done =
      emit (packet q)
        (record (try_send newer q listening) { on_packet = one_shot a older user_handler })

  newer_first :
      receive p (receive q listening)
      ≡ emit (packet p) (record (try_send older p newer_done) { on_packet = user_handler })
  unfolding run_on_packet
  newer_first =
      ap (receive p) (
        run_hit b newer (one_shot a older user_handler) q listening is_b
        ∙ run_miss a older user_handler q _ (λ e. differ (sym e ∙ is_b)))
      ∙ run_hit a older user_handler p newer_done is_a

-- Let two listeners be installed on a client whose `OnPacket` is the program's function, for types
-- that differ, on channels that are empty, and let one packet of each type come. If the packet of
-- the listener installed last comes first, both listeners get theirs. If it comes second, only the
-- older listener does: the newer one was dropped with it, and its channel stays empty.
pub expect_emsg-order :
    (a b : ℕ) (p q : Packet) (k : CmClient)
    → p.emsg ≡ a
    → q.emsg ≡ b
    → a ≢ b
    → let c = record k { on_packet = user_handler } in
      let r1 = expect_emsg a c in
      let r2 = expect_emsg b r1.1 in
      response_of r1.0 c.responses ≡ none
      → response_of r2.0 c.responses ≡ none
      → (response_of r1.0 (receive p (receive q r2.1)).responses ≡ some p)
        × (response_of r2.0 (receive p (receive q r2.1)).responses ≡ some q)
        × (response_of r1.0 (receive q (receive p r2.1)).responses ≡ some p)
        × (response_of r2.0 (receive q (receive p r2.1)).responses ≡ none)
unfolding expect_emsg
expect_emsg-order a b p q k is_a is_b differ empty1 empty2 =
    let c = record k { on_packet = user_handler; made = suc (suc k.made) } in
    let older = emsg_channel k.made a in
    let newer = emsg_channel (suc k.made) b in
    let on_older : same_channel older older ≡ true = rw (==_refl k.made, ==_refl a) refl in
    let on_newer : same_channel newer newer ≡ true = rw (==_refl (suc k.made), ==_refl b) refl in
    let apart : same_channel newer older ≡ false =
      rw (==_ne (suc k.made) k.made (omega arith)) refl in
    let apart' : same_channel older newer ≡ false =
      rw (==_ne k.made (suc k.made) (omega arith)) refl in
    let l = listening a b older newer p q c is_a is_b differ in
    let n = newer_done a b older newer p q c is_a is_b differ in
    let first = newer_first a b older newer p q c is_a is_b differ in
    let second = older_first a b older newer p q c is_a is_b differ in
    (
      ap (λ (x : CmClient). response_of older x.responses) first
          ∙ send_own older p n on_older (send_other older newer q l apart ∙ empty1),
      ap (λ (x : CmClient). response_of newer x.responses) first
          ∙ (send_other newer older p n apart' ∙ send_own newer q l on_newer empty2),
      ap (λ (x : CmClient). response_of older x.responses) second
          ∙ send_own older p l on_older empty1,
      ap (λ (x : CmClient). response_of newer x.responses) second
          ∙ (send_other newer older p l apart' ∙ empty2),
    )
