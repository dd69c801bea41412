-- ===== src/Tf2/Wire/Invariant.antt =====
-- What every field keeps holds of what the loop over the fields of a message gives.
use steamstacks.Prelude.{
  ℕ, zero, suc, [], ◌∷◌, Option, none, some, Result, ok, err, panic, stuck, ◌>>=◌, length, drop,
}
use steamstacks.Prelude.Bytes.{Bytes}
use steamstacks.SteamClient.Message.{or_fail}
use steamstacks.Tf2.Wire.{
  WireType, varint_type, fixed32_type, fixed64_type, bytes_type, start_group_type, end_group_type,
  reserved_type, Protowire, DecodeError, invalid_tag, invalid_value, cannot_skip, Cases, skip_field,
  number_field, bytes_field, field_value, decode_field, decode_loop, decode_message,
}

module _ {S : Type 0} (P : S → Type 0) where
  -- The value of a result, if it has one, satisfies P.
  abbrev pub Holds : Result DecodeError S → Type 0
  Holds (ok s) = P s
  Holds (err e) = Unit {0}
  Holds panic = Unit {0}
  Holds stuck = Unit {0}

  abbrev HoldsFirst : Result DecodeError (S × Bytes) → Type 0
  HoldsFirst (ok r) = P r.0
  HoldsFirst (err e) = Unit {0}
  HoldsFirst panic = Unit {0}
  HoldsFirst stuck = Unit {0}

  abbrev pub NumberKeeps : Option (ℕ → ℕ → S → S) → Type 0
  NumberKeeps none = Unit {0}
  NumberKeeps (some f) = (num v : ℕ) (s : S) → P s → P (f num v s)

  abbrev pub BytesKeep : Option (ℕ → Bytes → S → Result DecodeError S) → Type 0
  BytesKeep none = Unit {0}
  BytesKeep (some f) = (num : ℕ) (v : Bytes) (s : S) → P s → Holds (f num v s)

  pub record CasesKeep (cases : Cases S) : Type 0 where
    pub on_varint : NumberKeeps cases.on_varint
    pub on_fixed32 : NumberKeeps cases.on_fixed32
    pub on_fixed64 : NumberKeeps cases.on_fixed64
    pub on_bytes : BytesKeep cases.on_bytes

  module _ (w : Protowire) (cases : Cases S) (keeps : CasesKeep cases) where
    skip_field-Holds :
        (num : ℕ) (t : WireType) (s : S) (b : Bytes)
        → P s
        → HoldsFirst (skip_field w cases num t s b)
    unfolding skip_field
    skip_field-Holds num t s b p = go (w.consume_field_value num t b)
      where
        go : (o : Option ℕ) → HoldsFirst (or_fail o (cannot_skip num) >>= λ n. ok (s, drop n b))
        go none = tt
        go (some n) = p

    number_field-Holds :
        (consume : Bytes → Option (ℕ × ℕ)) (o : Option (ℕ → ℕ → S → S))
        → NumberKeeps o
        → (num : ℕ) (t : WireType) (s : S) (b : Bytes) → P s
        → HoldsFirst (number_field w cases consume o num t s b)
    number_field-Holds consume none k num t s b p = skip_field-Holds num t s b p
    number_field-Holds consume (some f) k num t s b p = go (consume b)
      where
        go :
            (o : Option (ℕ × ℕ))
            → HoldsFirst (or_fail o (invalid_value num) >>= λ r. ok (f num r.0 s, drop r.1 b))
        go none = tt
        go (some r) = k num r.0 s p

    bytes_field-Holds :
        (o : Option (ℕ → Bytes → S → Result DecodeError S))
        → BytesKeep o
        → (num : ℕ) (s : S) (b : Bytes) → P s
        → HoldsFirst (bytes_field w cases o num bytes_type s b)
    bytes_field-Holds none k num s b p = skip_field-Holds num bytes_type s b p
    bytes_field-Holds (some f) k num s b p = go (w.consume_bytes b)
      where
        done :
            (n : ℕ) (r : Result DecodeError S)
            → Holds r
            → HoldsFirst (r >>= λ s'. ok (s', drop n b))
        done n (ok s') q = q
        done n (err e) q = tt
        done n panic q = tt
        done n stuck q = tt

        go :
            (o : Option (Bytes × ℕ))
            → HoldsFirst
                (or_fail o (invalid_value num) >>= λ r. f num r.0 s >>= λ s'. ok (s', drop r.1 b))
        go none = tt
        go (some (v, n)) = done n (f num v s) (k num v s p)

    decode_field-Holds : (s : S) (b : Bytes) → P s → HoldsFirst (decode_field w cases s b)
    unfolding decode_field field_value
    decode_field-Holds s b p = go (w.consume_tag b)
      where
        value : (num n : ℕ) (t : WireType) → HoldsFirst (field_value w cases num t s (drop n b))
        value num n varint_type =
            number_field-Holds w.consume_varint cases.on_varint keeps.on_varint num varint_type s _
              p
        value num n fixed32_type =
            number_field-Holds w.consume_fixed32 cases.on_fixed32 keeps.on_fixed32 num fixed32_type
              s _ p
        value num n fixed64_type =
            number_field-Holds w.consume_fixed64 cases.on_fixed64 keeps.on_fixed64 num fixed64_type
              s _ p
        value num n bytes_type = bytes_field-Holds cases.on_bytes keeps.on_bytes num s _ p
        value num n start_group_type = skip_field-Holds num start_group_type s _ p
        value num n end_group_type = skip_field-Holds num end_group_type s _ p
        value num n (reserved_type k) = skip_field-Holds num (reserved_type k) s _ p

        go :
            (o : Option (ℕ × WireType × ℕ))
            → HoldsFirst (or_fail o invalid_tag >>= λ t. field_value w cases t.0 t.1 s (drop t.2 b))
        go none = tt
        go (some (num, t, n)) = value num n t

    decode_loop-Holds : (fuel : ℕ) (s : S) (b : Bytes) → P s → Holds (decode_loop w cases fuel s b)
    unfolding decode_loop
    decode_loop-Holds fuel s [] p = p
    decode_loop-Holds zero s (c ∷ b) p = tt
    decode_loop-Holds (suc fuel) s (c ∷ b) p =
        next (decode_field w cases s (c ∷ b)) (decode_field-Holds s (c ∷ b) p)
          (λ s' b' q. decode_loop-Holds fuel s' b' q)
      where
        next :
            (r : Result DecodeError (S × Bytes))
            → HoldsFirst r
            → ((s' : S) (b' : Bytes) → P s' → Holds (decode_loop w cases fuel s' b'))
            → Holds (r >>= λ q. decode_loop w cases fuel q.0 q.1)
        next (ok (s', b')) q f = f s' b' q
        next (err e) q f = tt
        next panic q f = tt
        next stuck q f = tt

    pub decode_message-Holds : (s : S) (b : Bytes) → P s → Holds (decode_message w cases s b)
    decode_message-Holds s b p = decode_loop-Holds (length b) s b p
