-- ===== src/Tf2/Wire/Ends.antt =====
-- The loop over the fields of a message ends on every input.
use steamstacks.Prelude.{
  ℕ, zero, suc, ◌≤◌, ◌≡◌, refl, [], ◌∷◌, Option, none, some, Result, ok, err, panic, stuck, ◌>>=◌,
  arith, length, drop, length-drop, Returns,
}
use steamstacks.Prelude.Bytes.{Bytes}
use steamstacks.SteamClient.Message.{or_fail}
use steamstacks.Tf2.Wire.{
  WireType, varint_type, fixed32_type, fixed64_type, bytes_type, start_group_type, end_group_type,
  reserved_type, number_field, bytes_field, Protowire, DecodeError, invalid_tag, invalid_value,
  cannot_skip, Cases, skip_field, field_value, decode_field, decode_loop, decode_message,
  lenient_loop, lenient_message,
}
use steamstacks.Tf2.Wire.Fields.{Progress}

module _ (w : Protowire) (progress : Progress w) {S : Type 0} (cases : Cases S) where
  -- What a round gives: less to read, or an error of the decoder.
  abbrev Advances : ℕ → Result DecodeError (S × Bytes) → Type 0
  Advances n (ok r) = length r.1 ≤ n
  Advances n (err e) = Unit {0}
  Advances n panic = ⊥
  Advances n stuck = ⊥

  -- The field functions of the decoder return.
  abbrev pub CasesReturn : Option (ℕ → Bytes → S → Result DecodeError S) → Type 0
  CasesReturn none = Unit {0}
  CasesReturn (some f) = (num : ℕ) (v : Bytes) (s : S) → Returns (f num v s)

  skip_field-Advances :
      (s : S) (num : ℕ) (t : WireType) (b : Bytes)
      → Advances (length b) (skip_field w cases num t s b)
  unfolding skip_field
  skip_field-Advances s num t b = go (w.consume_field_value num t b)
    where
      go :
          (o : Option ℕ)
          → Advances (length b) (or_fail o (cannot_skip num) >>= λ n. ok (s, drop n b))
      go none = tt
      go (some n) = omega (arith, length-drop n b)

  number_field-Advances :
      (consume : Bytes → Option (ℕ × ℕ)) (o : Option (ℕ → ℕ → S → S)) (s : S) (num : ℕ)
      (t : WireType) (b : Bytes)
      → Advances (length b) (number_field w cases consume o num t s b)
  number_field-Advances consume none s num t b = skip_field-Advances s num t b
  number_field-Advances consume (some f) s num t b = go (consume b)
    where
      go :
          (o : Option (ℕ × ℕ))
          → Advances
              (length b)
              (or_fail o (invalid_value num) >>= λ r. ok (f num r.0 s, drop r.1 b))
      go none = tt
      go (some r) = omega (arith, length-drop r.1 b)

  bytes_field-Advances :
      (o : Option (ℕ → Bytes → S → Result DecodeError S))
      → CasesReturn o
      → (s : S) (num : ℕ) (b : Bytes)
      → Advances (length b) (bytes_field w cases o num bytes_type s b)
  bytes_field-Advances none h s num b = skip_field-Advances s num bytes_type b
  bytes_field-Advances (some f) h s num b = go (w.consume_bytes b)
    where
      done :
          (n : ℕ) (r : Result DecodeError S)
          → Returns r
          → Advances (length b) (r >>= λ s'. ok (s', drop n b))
      done n (ok s') q = omega (arith, length-drop n b)
      done n (err e) q = tt
      done n panic q = q
      done n stuck q = q

      go :
          (o : Option (Bytes × ℕ))
          → Advances
              (length b)
              (or_fail o (invalid_value num) >>= λ r. f num r.0 s >>= λ s'. ok (s', drop r.1 b))
      go none = tt
      go (some (v, n)) = done n (f num v s) (h num v s)

  decode_field-Advances :
      CasesReturn cases.on_bytes
      → (s : S) (c : ℕ) (b : Bytes) → Advances (length b) (decode_field w cases s (c ∷ b))
  unfolding decode_field field_value
  decode_field-Advances h s c b = go (w.consume_tag (c ∷ b)) refl
    where
      value :
          (num n : ℕ) (t : WireType)
          → Advances (length (drop n (c ∷ b))) (field_value w cases num t s (drop n (c ∷ b)))
      value num n varint_type =
          number_field-Advances w.consume_varint cases.on_varint s num varint_type _
      value num n fixed32_type =
          number_field-Advances w.consume_fixed32 cases.on_fixed32 s num fixed32_type _
      value num n fixed64_type =
          number_field-Advances w.consume_fixed64 cases.on_fixed64 s num fixed64_type _
      value num n bytes_type = bytes_field-Advances cases.on_bytes h s num _
      value num n start_group_type = skip_field-Advances s num start_group_type _
      value num n end_group_type = skip_field-Advances s num end_group_type _
      value num n (reserved_type k) = skip_field-Advances s num (reserved_type k) _

      weaken : (m n : ℕ) (r : Result DecodeError (S × Bytes)) → m ≤ n → Advances m r → Advances n r
      weaken m n (ok r) k a = omega arith
      weaken m n (err e) k a = tt
      weaken m n panic k a = a
      weaken m n stuck k a = a

      go :
          (o : Option (ℕ × WireType × ℕ))
          → w.consume_tag (c ∷ b) ≡ o
          → Advances
              (length b)
              (or_fail o invalid_tag >>= λ t. field_value w cases t.0 t.1 s (drop t.2 (c ∷ b)))
      go none e = tt
      go (some (num, t, n)) e =
          weaken (length (drop n (c ∷ b))) (length b) _
            (omega (arith, progress (c ∷ b) num n t e, length-drop n (c ∷ b))) (value num n t)

  decode_loop-Returns :
      CasesReturn cases.on_bytes
      → (fuel : ℕ) (s : S) (b : Bytes) → length b ≤ fuel
      → Returns (decode_loop w cases fuel s b)
  unfolding decode_loop
  decode_loop-Returns h fuel s [] k = tt
  decode_loop-Returns h zero s (c ∷ b) k = absurd (omega arith)
  decode_loop-Returns h (suc fuel) s (c ∷ b) k =
      next (decode_field w cases s (c ∷ b)) (decode_field-Advances h s c b)
        (λ s' b' q. decode_loop-Returns h fuel s' b' (omega arith))
    where
      next :
          (r : Result DecodeError (S × Bytes))
          → Advances (length b) r
          → ((s' : S) (b' : Bytes)
              → length b' ≤ length b
              → Returns (decode_loop w cases fuel s' b'))
          → Returns (r >>= λ q. decode_loop w cases fuel q.0 q.1)
      next (ok (s', b')) a f = f s' b' a
      next (err e) a f = tt
      next panic a f = a
      next stuck a f = a

  -- On any bytes a decoder comes to a value or an error.
  pub decode_message-Returns :
      CasesReturn cases.on_bytes → (s : S) (b : Bytes) → Returns (decode_message w cases s b)
  decode_message-Returns h s b = decode_loop-Returns h (length b) s b (omega arith)

  lenient_loop_total :
      CasesReturn cases.on_bytes
      → (fuel : ℕ) (s : S) (b : Bytes) → length b ≤ fuel
      → (s' : S) × (lenient_loop w cases fuel s b ≡ some s')
  unfolding lenient_loop
  lenient_loop_total h fuel s [] k = (s, refl)
  lenient_loop_total h zero s (c ∷ b) k = absurd (omega arith)
  lenient_loop_total h (suc fuel) s (c ∷ b) k =
      next (decode_field w cases s (c ∷ b)) (decode_field-Advances h s c b)
        (λ s' b' q. lenient_loop_total h fuel s' b' (omega arith))
    where
      next :
          (r : Result DecodeError (S × Bytes))
          → Advances (length b) r
          → ((s' : S) (b' : Bytes)
              → length b' ≤ length b
              → (t : S) × (lenient_loop w cases fuel s' b' ≡ some t))
          → (t : S) × ((elim r [
            | ok (s', b') ↦ lenient_loop w cases fuel s' b'
            | err e ↦ some s
            | panic ↦ none
            | stuck ↦ none
          ])
              ≡ some t)
      next (ok (s', b')) a f = f s' b' a
      next (err e) a f = (s, refl)
      next panic a f = elim a [ ]
      next stuck a f = elim a [ ]

  pub lenient_message_total :
      CasesReturn cases.on_bytes
      → (s : S) (b : Bytes) → (s' : S) × (lenient_message w cases s b ≡ some s')
  lenient_message_total h s b = lenient_loop_total h (length b) s b (omega arith)
