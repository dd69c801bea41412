-- ===== src/SteamClient/Session/Groups.antt =====
-- `handlePacket` on groups: the packets inside them, groups in groups included, are delivered one
-- after the other as if they had come alone.
use steamstacks.Prelude.{
  ℕ, zero, suc, ◌≡◌, refl, ◌∙◌, sym, Bool, true, false, List, [], ◌∷◌, ◌++◌, Result, ok, err, panic,
  stuck, ◌>>=◌, ◌==◌, if◌then◌else◌, >>=-eq-ok, >>=-assoc, >>=-cong, ok-injective,
}
use steamstacks.SteamClient.Message.{Packet}
use steamstacks.SteamClient.Session.{CmClient, Services}
use steamstacks.SteamClient.Session.Dispatch.{
  deliver, packets_of, fold_packets, deliver_all, handle_packet,
}

-- The results of the members, joined; the first that is not `ok` is the result.
abbrev pub concat_results : (Packet → Result ⊥ (List Packet)) → List Packet → Result ⊥ (List Packet)
concat_results f [] = ok []
concat_results f (p ∷ ps) = f p >>= λ xs. concat_results f ps >>= λ ys. ok (xs ++ ys)

module _ (s : Services) where
  -- The packets that are no groups, in the order in which they stand, group by group.
  unfoldable pub leaves : ℕ → Packet → Result ⊥ (List Packet)
  leaves zero pkt = stuck
  leaves (suc fuel) pkt =
      let group = packets_of s pkt >>= concat_results (leaves fuel) in
      if pkt.emsg == 1 then group else ok (pkt ∷ [])

  pub deliver_all-append :
      (xs ys : List Packet) (c : CmClient)
      → deliver_all s (xs ++ ys) c ≡ (deliver_all s xs c >>= deliver_all s ys)
  deliver_all-append [] ys c = refl
  deliver_all-append (x ∷ xs) ys c =
      >>=-cong (deliver s x c) _ _ (λ c'. deliver_all-append xs ys c')
      ∙ sym (>>=-assoc (deliver s x c) (deliver_all s xs) (deliver_all s ys))

  fold_packets-leaves :
      (f : Packet → Result ⊥ (List Packet)) (h : Packet → CmClient → Result ⊥ CmClient)
      → ((p : Packet) (xs : List Packet) (c : CmClient) → f p ≡ ok xs → h p c ≡ deliver_all s xs c)
      → (ps xs : List Packet) (c : CmClient) → concat_results f ps ≡ ok xs
      → fold_packets s h ps c ≡ deliver_all s xs c
  fold_packets-leaves f h each [] xs c e = rw (sym (ok-injective e)) refl
  fold_packets-leaves f h each (p ∷ ps) xs c e =
      let (ys, e1, e2) = >>=-eq-ok (f p) _ e in
      let (zs, e3, e4) = >>=-eq-ok (concat_results f ps) _ e2 in
      rw (sym (ok-injective e4), each p ys c e1)
        (>>=-cong (deliver_all s ys c) _ _ (λ c'. fold_packets-leaves f h each ps zs c' e3)
          ∙ sym (deliver_all-append ys zs c))

  one_delivery : (p : Packet) (c : CmClient) → deliver s p c ≡ deliver_all s (p ∷ []) c
  one_delivery p c = go (deliver s p c)
    where
      go : (r : Result ⊥ CmClient) → r ≡ (r >>= λ c'. ok c')
      go (ok c') = refl
      go (err e) = refl
      go panic = refl
      go stuck = refl

  -- A packet whose groups nest less than `fuel` deep, with what is in them, is handled as the
  -- packets in it that are no groups, delivered one after the other in order: on the packets, the
  -- jobs, the callbacks and `OnPacket` alike, a panic included.
  pub handle_packet-leaves :
      (fuel : ℕ) (pkt : Packet) (xs : List Packet) (c : CmClient)
      → leaves fuel pkt ≡ ok xs
      → handle_packet s fuel pkt c ≡ deliver_all s xs c
  unfolding leaves handle_packet
  handle_packet-leaves zero pkt xs c e = cc
  handle_packet-leaves (suc fuel) pkt xs c e =
      by_type (λ p ys c' r. handle_packet-leaves fuel p ys c' r) (pkt.emsg == 1) e
    where
      by_type :
          ((p : Packet) (ys : List Packet) (c' : CmClient)
            → leaves fuel p ≡ ok ys
            → handle_packet s fuel p c' ≡ deliver_all s ys c')
          → (b : Bool)
          → (if b then packets_of s pkt >>= concat_results (leaves fuel) else ok (pkt ∷ [])) ≡ ok xs
          → (if b
              then (packets_of s pkt >>= λ packets. fold_packets s (handle_packet s fuel) packets c)
              else deliver s pkt c)
            ≡ deliver_all s xs c
      by_type ih true q =
          let (packets, e1, e2) = >>=-eq-ok (packets_of s pkt) _ q in
          rw e1 (fold_packets-leaves (leaves fuel) (handle_packet s fuel) ih packets xs c e2)
      by_type ih false q = rw (sym (ok-injective q)) (one_delivery pkt c)
