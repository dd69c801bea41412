-- ===== src/SteamApi/Json/Ordered.antt =====
-- An object that is keyed by numbers becomes the list of its values in the order of the numbers.
use steamstacks.Prelude.{
  ℕ, zero, suc, ◌+◌, ◌-◌, ◌^◌, ◌≤◌, ◌≡◌, refl, sym, ap, ◌≢◌, ◌∙◌, Bool, true, false, List, [], ◌∷◌,
  length, Option, none, some, ok, ◌==◌, if◌then◌else◌, arith, All, get_elem?, drop,
}
use steamstacks.Prelude.Ints.{pos}
use steamstacks.Prelude.Decimal.{
  format_uint, parse_uint, parse_uint-format_uint, format_uint-IsDigit, IsDigit,
}
use steamstacks.SteamCommunity.Texts.{Text}
use steamstacks.SteamApi.Json.{
  TextMap, sort_ints, atoi, index_keys, int_eq, at_index, values_at, map_by_index_key,
}
use steamstacks.SteamApi.Json.Reordered.{
  Reordered, All-Reordered, All-Reordered_back, numbered_from, indices, sort_ints-Reordered,
  sort_ints_numbered,
}

atoi-digits :
    (i c : ℕ) (s : Text)
    → IsDigit c
    → parse_uint (2 ^ 63 - 1) (c ∷ s) ≡ ok i
    → atoi (c ∷ s) ≡ some (pos i)
unfolding atoi
atoi-digits i c s d e = rw e (ground arith)

-- The entries of an object whose keys are these numbers.
abbrev pub keyed {ℓ} : {V : Type ℓ} → List (ℕ × V) → TextMap V
keyed [] = []
keyed ((i, v) ∷ ps) = (format_uint i, v) ∷ keyed ps

atoi-format_uint : (i : ℕ) → i ≤ 2 ^ 63 - 1 → atoi (format_uint i) ≡ some (pos i)
unfolding parse_uint
atoi-format_uint i h = by_digits (format_uint i) refl (format_uint-IsDigit i)
  where
    by_digits : (s : Text) → format_uint i ≡ s → All IsDigit s → atoi s ≡ some (pos i)
    by_digits [] e d = cc (rw e at (parse_uint-format_uint i i (omega arith)))
    by_digits (c ∷ s) e d =
        atoi-digits i c s d.0 (rw e at (parse_uint-format_uint i (2 ^ 63 - 1) h))

-- Every index of the entries can be read.
index_keys-keyed {ℓ} :
    {V : Type ℓ} (ps : List (ℕ × V))
    → All (λ (p : ℕ × V). p.0 ≤ 2 ^ 63 - 1) ps
    → index_keys (keyed ps) ≡ indices ps
unfolding index_keys
index_keys-keyed [] h = refl
index_keys-keyed ((i, v) ∷ ps) h =
    rw (index_keys, atoi-format_uint i h.0) (ap (λ l. pos i ∷ l) (index_keys-keyed ps h.1))

abbrev or_else {ℓ} : {V : Type ℓ} → Option V → Option V → Option V
or_else none o = o
or_else (some w) o = some w

at_index-keyed {ℓ} :
    {V : Type ℓ} (i j : ℕ) (v : V) (ps : List (ℕ × V))
    → j ≤ 2 ^ 63 - 1
    → at_index (pos i) (keyed ((j, v) ∷ ps))
      ≡ or_else (at_index (pos i) (keyed ps)) (if j == i then some v else none)
unfolding at_index int_eq
at_index-keyed {V} i j v ps h = by_rest (at_index (pos i) (keyed ps))
  where
    by_rest :
        (o : Option V)
        → ◌≡◌ {A = Option V}
            (elim o [
              | some w ↦ some w
              | none ↦ elim (atoi (format_uint j)) [
                | none ↦ none
                | some k ↦ if int_eq k (pos i) then some v else none
              ]
            ])
            (or_else o (if j == i then some v else none))
    by_rest (some w) = refl
    by_rest none = rw (atoi-format_uint j h) refl

-- What is found is one of the entries.
at_index-some {ℓ} :
    {V : Type ℓ} (vs : List V) (i : ℕ) (w : V) (ps : List (ℕ × V))
    → All (λ (p : ℕ × V). p.0 ≤ 2 ^ 63 - 1) ps
    → All (λ (p : ℕ × V). get_elem? vs p.0 ≡ some p.1) ps
    → at_index (pos i) (keyed ps) ≡ some w
    → get_elem? vs i ≡ some w
unfolding at_index
at_index-some vs i w [] h k e = cc
at_index-some {V} vs i w ((j, v) ∷ ps) h k e =
    by_rest (at_index (pos i) (keyed ps)) (λ q. at_index-some vs i w ps h.1 k.1 q)
      (sym (at_index-keyed i j v ps h.0) ∙ e)
  where
    here :
        (b : Bool)
        → (j == i) ≡ b
        → ◌≡◌ {A = Option V} (if b then some v else none) (some w)
        → get_elem? vs i ≡ some w
    here true q r = let same : j ≡ i = ground arith in rw (← same) (k.0 ∙ r)
    here false q r = cc

    by_rest :
        (o : Option V)
        → (o ≡ some w → get_elem? vs i ≡ some w)
        → or_else o (if j == i then some v else none) ≡ some w
        → get_elem? vs i ≡ some w
    by_rest (some x) ih q = ih q
    by_rest none ih q = here (j == i) refl q

at_index-none {ℓ} :
    {V : Type ℓ} (i : ℕ) (ps : List (ℕ × V))
    → All (λ (p : ℕ × V). p.0 ≤ 2 ^ 63 - 1) ps
    → at_index (pos i) (keyed ps) ≡ none
    → All (λ (p : ℕ × V). p.0 ≢ i) ps
at_index-none i [] h e = tt
at_index-none {V} i ((j, v) ∷ ps) h e =
    by_rest (at_index (pos i) (keyed ps)) (λ q. at_index-none i ps h.1 q)
      (sym (at_index-keyed i j v ps h.0) ∙ e)
  where
    here : (b : Bool) → (j == i) ≡ b → ◌≡◌ {A = Option V} (if b then some v else none) none → j ≢ i
    here true q r = cc
    here false q r = λ same. ground arith

    by_rest :
        (o : Option V)
        → (o ≡ none → All (λ (p : ℕ × V). p.0 ≢ i) ps)
        → or_else o (if j == i then some v else none) ≡ none
        → All (λ (p : ℕ × V). p.0 ≢ i) ((j, v) ∷ ps)
    by_rest (some x) ih q = cc
    by_rest none ih q = (here (j == i) refl q, ih refl)

values_at_numbered {ℓ} :
    {V : Type ℓ} (m : TextMap V) (ws : List V) (n : ℕ)
    → All (λ (p : ℕ × V). at_index (pos p.0) m ≡ some p.1) (numbered_from n ws)
    → values_at (indices (numbered_from n ws)) m ≡ ws
unfolding values_at
values_at_numbered m [] n h = refl
values_at_numbered m (w ∷ ws) n h =
    rw (values_at, h.0) (ap (λ l. w ∷ l) (values_at_numbered m ws (suc n) h.1))

numbered_bounded {ℓ} :
    {V : Type ℓ} (vs : List V) (n : ℕ)
    → n + length vs ≤ 2 ^ 63
    → All (λ (p : ℕ × V). p.0 ≤ 2 ^ 63 - 1) (numbered_from n vs)
numbered_bounded [] n h = tt
numbered_bounded (v ∷ vs) n h = (omega arith, numbered_bounded vs (suc n) (omega arith))

get_elem?-drop {ℓ} :
    {V : Type ℓ} (vs : List V) (n : ℕ) (w : V) (ws : List V)
    → drop n vs ≡ w ∷ ws
    → (get_elem? vs n ≡ some w) × (drop (suc n) vs ≡ ws)
get_elem?-drop [] zero w ws e = cc
get_elem?-drop [] (suc n) w ws e = cc
get_elem?-drop (v ∷ vs) zero w ws e = (cc, cc)
get_elem?-drop (v ∷ vs) (suc n) w ws e = get_elem?-drop vs n w ws e

numbered_held {ℓ} :
    {V : Type ℓ} (vs ws : List V) (n : ℕ)
    → drop n vs ≡ ws
    → All (λ (p : ℕ × V). get_elem? vs p.0 ≡ some p.1) (numbered_from n ws)
numbered_held vs [] n e = tt
numbered_held vs (w ∷ ws) n e =
    let (here, later) = get_elem?-drop vs n w ws e in (here, numbered_held vs ws (suc n) later)

numbered_present {ℓ} :
    {V : Type ℓ} (vs : List V) (n i m : ℕ) (v : V)
    → m ≡ n + i
    → get_elem? vs i ≡ some v
    → All (λ (p : ℕ × V). p.0 ≢ m) (numbered_from n vs)
    → ⊥
numbered_present [] n i m v e k h = cc
numbered_present (w ∷ vs) n zero m v e k h = h.0 (omega (arith, e))
numbered_present (w ∷ vs) n (suc i) m v e k h =
    numbered_present vs (suc n) i m v (omega (arith, e)) k h.1

module _ {ℓ} {V : Type ℓ} (vs : List V) (ps : List (ℕ × V)) where
  at_index_found :
      (i : ℕ) (v : V)
      → length vs ≤ 2 ^ 63
      → Reordered (numbered_from 0 vs) ps
      → get_elem? vs i ≡ some v
      → at_index (pos i) (keyed ps) ≡ some v
  at_index_found i v h r k = by_found (at_index (pos i) (keyed ps)) refl
    where
      bounded : All (λ (p : ℕ × V). p.0 ≤ 2 ^ 63 - 1) ps
      bounded = All-Reordered _ _ ps r (numbered_bounded vs 0 (omega arith))

      by_found : (o : Option V) → at_index (pos i) (keyed ps) ≡ o → o ≡ some v
      by_found (some w) e =
          sym (
            at_index-some vs i w ps bounded (All-Reordered _ _ ps r (numbered_held vs vs 0 refl)) e)
          ∙ k
      by_found none e = absurd (
          numbered_present vs 0 i i v (omega arith) k
            (All-Reordered_back _ _ ps r (at_index-none i ps bounded e)))

  each_found :
      (qs : List (ℕ × V))
      → length vs ≤ 2 ^ 63
      → Reordered (numbered_from 0 vs) ps
      → All (λ (p : ℕ × V). get_elem? vs p.0 ≡ some p.1) qs
      → All (λ (p : ℕ × V). at_index (pos p.0) (keyed ps) ≡ some p.1) qs
  each_found [] h r k = tt
  each_found (q ∷ qs) h r k = (at_index_found q.0 q.1 h r k.0, each_found qs h r k.1)

  -- An object whose keys are the numbers 0, 1 and so on in decimal, of at most 2 ^ 63 values, becomes
  -- the list of its values in the order of the numbers, in whatever order its entries are gone
  -- through.
  pub map_by_index_key-Reordered :
      length vs ≤ 2 ^ 63 → Reordered (numbered_from 0 vs) ps → map_by_index_key (keyed ps) ≡ vs
  unfolding map_by_index_key
  map_by_index_key-Reordered h r =
      ap (λ l. values_at l (keyed ps)) in_order
      ∙ values_at_numbered (keyed ps) vs 0 (each_found _ h r (numbered_held vs vs 0 refl))
    where
      bounded : All (λ (p : ℕ × V). p.0 ≤ 2 ^ 63 - 1) ps
      bounded = All-Reordered _ _ ps r (numbered_bounded vs 0 (omega arith))

      in_order : sort_ints (index_keys (keyed ps)) ≡ indices (numbered_from 0 vs)
      in_order =
          ap sort_ints (index_keys-keyed ps bounded)
          ∙ (sym (sort_ints-Reordered _ ps r) ∙ sort_ints_numbered vs 0)
