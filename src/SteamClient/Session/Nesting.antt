-- ===== src/SteamClient/Session/Nesting.antt =====
-- Groups in groups end: how deep they nest is bounded by the size of the outer one, where none is
-- compressed.
use steamstacks.Prelude.{
  ℕ, zero, suc, ◌≤◌, ◌<◌, ◌≡◌, ◌≢◌, refl, sym, ap, Bool, true, false, List, [], ◌∷◌, Option, none,
  some, Result, ok, err, panic, stuck, ◌>>=◌, ◌==◌, if◌then◌else◌, ok-injective, arith, length, All,
}
use steamstacks.Prelude.Bytes.{Bytes}
use steamstacks.SteamClient.Protocol.{get_default}
use steamstacks.SteamClient.Message.{Packet}
use steamstacks.SteamClient.Message.Multi.{MultiError, decode_multi}
use steamstacks.SteamClient.Message.Multi.Frames.{decode_multi-ne-stuck}
use steamstacks.SteamClient.Message.Multi.Sizes.{decode_multi-sizes}
use steamstacks.SteamClient.Session.{
  CmClient, Done, nil_done, open_done, closed_done, MultiMessage, Services, close_done,
}
use steamstacks.SteamClient.Session.Dispatch.{
  handle_logged_off, switch_emsg, deliver, packets_of, fold_packets, handle_packet, handle_typed,
}

-- The server compresses no group, and a field of a message is no longer than the message.
abbrev pub Uncompressed : Services → Type 0
Uncompressed s =
    (b : Bytes) (m : MultiMessage)
    → s.multi b ≡ some m
    → (length m.message_body ≤ length b) × (get_default 0 m.size_unzipped ≡ 0)

close_done-ne-stuck : {E : Type 0} (c : CmClient) → close_done {E = E} c ≢ stuck
unfolding close_done
close_done-ne-stuck c = by_flag c.close_once c.done
  where
    by_flag :
        {E : Type 0} (b : Bool) (d : Done)
        → ◌≢◌ {A = Result E CmClient}
            (if b then ok c else elim d [
              | nil_done ↦ panic
              | open_done ↦ ok (record c { done = closed_done; close_once = true })
              | closed_done ↦ panic
            ])
            stuck
    by_flag true d = λ e. cc
    by_flag false nil_done = λ e. cc
    by_flag false open_done = λ e. cc
    by_flag false closed_done = λ e. cc

>>=-ne-stuck :
    {E : Type 0} {A : Type 0} {B : Type 0} (r : Result E A) (f : A → Result E B)
    → r ≢ stuck
    → ((a : A) → r ≡ ok a → f a ≢ stuck)
    → (r >>= f) ≢ stuck
>>=-ne-stuck (ok a) f h k = k a refl
>>=-ne-stuck (err e) f h k = λ q. cc
>>=-ne-stuck panic f h k = λ q. cc
>>=-ne-stuck stuck f h k = λ q. h refl

module _ (s : Services) where
  switch_emsg-ne-stuck : (pkt : Packet) (c : CmClient) → switch_emsg s pkt c ≢ stuck
  unfolding switch_emsg handle_logged_off
  switch_emsg-ne-stuck pkt c = by_type (pkt.emsg == 757)
    where
      by_type :
          (b : Bool) → (if b then handle_logged_off s pkt c else ok (handle_typed s pkt c)) ≢ stuck
      by_type true = >>=-ne-stuck (close_done _) _ (close_done-ne-stuck _) (λ a q e. cc)
      by_type false = λ e. cc

  pub deliver-ne-stuck : (pkt : Packet) (c : CmClient) → deliver s pkt c ≢ stuck
  unfolding deliver
  deliver-ne-stuck pkt c =
      >>=-ne-stuck (switch_emsg s pkt _) _ (switch_emsg-ne-stuck pkt _) (λ a q e. cc)

  -- A logged failure is an empty group.
  abbrev tolerated : Result MultiError (List Packet) → Result ⊥ (List Packet)
  tolerated (ok packets) = ok packets
  tolerated (err e) = ok []
  tolerated panic = panic
  tolerated stuck = stuck

  shorter_than :
      (n k : ℕ) (ps : List Packet)
      → n ≤ k
      → All (λ (p : Packet). length p.body < n) ps
      → All (λ (p : Packet). length p.body < k) ps
  shorter_than n k [] le h = tt
  shorter_than n k (p ∷ ps) le h = (omega (arith, h.0), shorter_than n k ps le h.1)

  -- The loop over a group starts, and its packets have bodies of less than `n` bytes.
  abbrev Bounded : ℕ → Result ⊥ (List Packet) → Type 0
  Bounded n r =
      (r ≢ stuck) × ((ps : List Packet) → r ≡ ok ps → All (λ (p : Packet). length p.body < n) ps)

  -- What `decodeMulti` gives to the loop, and how long the packets are.
  packets_of-sizes : (pkt : Packet) → Uncompressed s → Bounded (length pkt.body) (packets_of s pkt)
  unfolding packets_of
  packets_of-sizes pkt plain = by_message (s.multi pkt.body) refl
    where
      by_message :
          (o : Option MultiMessage)
          → s.multi pkt.body ≡ o
          → Bounded (length pkt.body) (elim o [
            | none ↦ ok []
            | some m ↦
                elim (decode_multi s.header s.gunzip m.message_body
                  (get_default 0 m.size_unzipped)) [
                    | ok packets ↦ ok packets
                    | err e ↦ ok []
                    | panic ↦ panic
                    | stuck ↦ stuck
                  ]
          ])
      by_message none e = ((λ q. cc), (λ ps q. cc))
      by_message (some m) e =
          let (small, zero_size) = plain pkt.body m e in
          rw zero_size (
            by_result (decode_multi s.header s.gunzip m.message_body 0)
              (decode_multi-ne-stuck s.header s.gunzip m.message_body 0)
              (λ ps q.
                shorter_than (length m.message_body) (length pkt.body) ps small
                  (decode_multi-sizes s.header s.gunzip m.message_body ps q)))
        where
          by_result :
              (r : Result MultiError (List Packet))
              → r ≢ stuck
              → ((ps : List Packet)
                  → r ≡ ok ps
                  → All (λ (p : Packet). length p.body < length pkt.body) ps)
              → Bounded (length pkt.body) (tolerated r)
          by_result (ok packets) h k = ((λ q. cc), (λ ps q. k ps (ap ok (ok-injective q))))
          by_result (err x) h k = ((λ q. cc), (λ ps q. rw (sym (ok-injective q)) tt))
          by_result panic h k = ((λ q. cc), (λ ps q. cc))
          by_result stuck h k = absurd (h refl)

  fold_packets-ne-stuck :
      (h : Packet → CmClient → Result ⊥ CmClient) (n : ℕ) (ps : List Packet) (c : CmClient)
      → ((p : Packet) (c' : CmClient) → length p.body < n → h p c' ≢ stuck)
      → All (λ (p : Packet). length p.body < n) ps
      → fold_packets s h ps c ≢ stuck
  fold_packets-ne-stuck h n [] c each small = λ q. cc
  fold_packets-ne-stuck h n (p ∷ ps) c each small =
      >>=-ne-stuck (h p c) _ (each p c small.0)
        (λ c' q. fold_packets-ne-stuck h n ps c' each small.1)

  -- If no group is compressed and no field of a `CMsgMulti` is longer than the message, one more
  -- round than the body has bytes is enough for `handlePacket`: it ends on every packet.
  pub handle_packet-ne-stuck :
      (fuel : ℕ) (pkt : Packet) (c : CmClient)
      → Uncompressed s
      → length pkt.body < fuel
      → handle_packet s fuel pkt c ≢ stuck
  unfolding handle_packet
  handle_packet-ne-stuck zero pkt c plain h = absurd (omega arith)
  handle_packet-ne-stuck (suc fuel) pkt c plain h =
      by_type (λ p c' small. handle_packet-ne-stuck fuel p c' plain (omega arith)) (pkt.emsg == 1)
    where
      by_type :
          ((p : Packet) (c' : CmClient)
            → length p.body < length pkt.body
            → handle_packet s fuel p c' ≢ stuck)
          → (b : Bool)
          → (if b
              then (packets_of s pkt >>= λ packets. fold_packets s (handle_packet s fuel) packets c)
              else deliver s pkt c)
            ≢ stuck
      by_type ih true =
          let (ends, sizes) = packets_of-sizes pkt plain in
          >>=-ne-stuck (packets_of s pkt) _ ends (λ ps q.
            fold_packets-ne-stuck (handle_packet s fuel) (length pkt.body) ps c ih (sizes ps q))
      by_type ih false = deliver-ne-stuck pkt c
