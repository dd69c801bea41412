-- ===== src/Tf2/Wire.antt =====
-- The package protowire as a parameter, and the loop over the fields of a message that every decoder
-- of the package tf2 is built on: a tag, a value by its wire type, and what the field does.
pub mod Fields
pub mod Loop
pub mod Ends
pub mod Invariant
use steamstacks.Prelude.{
  ℕ, zero, suc, ◌≤◌, ◌<◌, ◌^◌, ◌≡◌, List, [], ◌∷◌, ◌++◌, Option, none, some, Result, ok, err, panic,
  stuck, ◌>>=◌, length, drop,
}
use steamstacks.Prelude.Bytes.{Bytes}
use steamstacks.SteamClient.Message.{or_fail}

pub data WireType : Type 0 where
  varint_type fixed32_type fixed64_type bytes_type start_group_type end_group_type : WireType
  reserved_type : ℕ → WireType

-- A `Consume…` gives what it read and how many bytes that took; `none` is a negative count.
pub record Protowire : Type 0 where
  pub consume_tag : Bytes → Option (ℕ × WireType × ℕ)
  pub consume_varint : Bytes → Option (ℕ × ℕ)
  pub consume_fixed32 : Bytes → Option (ℕ × ℕ)
  pub consume_fixed64 : Bytes → Option (ℕ × ℕ)
  pub consume_bytes : Bytes → Option (Bytes × ℕ)
  pub consume_field_value : ℕ → WireType → Bytes → Option ℕ
  pub append_tag : Bytes → ℕ → WireType → Bytes
  pub append_varint : Bytes → ℕ → Bytes
  pub append_fixed32 : Bytes → ℕ → Bytes
  pub append_fixed64 : Bytes → ℕ → Bytes
  pub append_bytes : Bytes → Bytes → Bytes

pub data DecodeError : Type 0 where
  invalid_tag : DecodeError
  invalid_value : ℕ → DecodeError
  cannot_skip : ℕ → DecodeError
  inside : ℕ → DecodeError → DecodeError

-- The cases of a decoder's `switch wtype`: what a field of each type does to the value that is being
-- decoded. A type without a case falls to `default`, which skips the field.
pub record Cases (S : Type 0) : Type 0 where
  pub on_varint : Option (ℕ → ℕ → S → S)
  pub on_fixed32 : Option (ℕ → ℕ → S → S)
  pub on_fixed64 : Option (ℕ → ℕ → S → S)
  pub on_bytes : Option (ℕ → Bytes → S → Result DecodeError S)

module _ (w : Protowire) {S : Type 0} (cases : Cases S) where
  -- `default`
  unfoldable pub skip_field : ℕ → WireType → S → Bytes → Result DecodeError (S × Bytes)
  skip_field num wtype s b =
      or_fail (w.consume_field_value num wtype b) (cannot_skip num) >>= λ n. ok (s, drop n b)

  abbrev pub number_field :
      (Bytes → Option (ℕ × ℕ))
      → Option (ℕ → ℕ → S → S)
      → ℕ
      → WireType
      → S
      → Bytes
      → Result DecodeError (S × Bytes)
  number_field consume none num wtype s b = skip_field num wtype s b
  number_field consume (some f) num wtype s b =
      or_fail (consume b) (invalid_value num) >>= λ r. ok (f num r.0 s, drop r.1 b)

  abbrev pub bytes_field :
      Option (ℕ → Bytes → S → Result DecodeError S)
      → ℕ
      → WireType
      → S
      → Bytes
      → Result DecodeError (S × Bytes)
  bytes_field none num wtype s b = skip_field num wtype s b
  bytes_field (some f) num wtype s b = or_fail (w.consume_bytes b) (invalid_value num) >>= λ r.
      f num r.0 s >>= λ s'. ok (s', drop r.1 b)

  unfoldable pub field_value : ℕ → WireType → S → Bytes → Result DecodeError (S × Bytes)
  field_value num varint_type s b =
      number_field w.consume_varint cases.on_varint num varint_type s b
  field_value num fixed32_type s b =
      number_field w.consume_fixed32 cases.on_fixed32 num fixed32_type s b
  field_value num fixed64_type s b =
      number_field w.consume_fixed64 cases.on_fixed64 num fixed64_type s b
  field_value num bytes_type s b = bytes_field cases.on_bytes num bytes_type s b
  field_value num start_group_type s b = skip_field num start_group_type s b
  field_value num end_group_type s b = skip_field num end_group_type s b
  field_value num (reserved_type t) s b = skip_field num (reserved_type t) s b

  -- The body of `for len(b) > 0`.
  unfoldable pub decode_field : S → Bytes → Result DecodeError (S × Bytes)
  decode_field s b =
      or_fail (w.consume_tag b) invalid_tag >>= λ t. field_value t.0 t.1 s (drop t.2 b)

  unfoldable pub decode_loop : ℕ → S → Bytes → Result DecodeError S
  decode_loop fuel s [] = ok s
  decode_loop zero s (c ∷ b) = stuck
  decode_loop (suc fuel) s (c ∷ b) = decode_field s (c ∷ b) >>= λ r. decode_loop fuel r.0 r.1

  -- A tag takes a byte at least, so as many rounds as bytes are enough.
  abbrev pub decode_message : S → Bytes → Result DecodeError S
  decode_message s b = decode_loop (length b) s b

  -- The loop of a parser that keeps what it has when a field is malformed.
  unfoldable pub lenient_loop : ℕ → S → Bytes → Option S
  lenient_loop fuel s [] = some s
  lenient_loop zero s (c ∷ b) = none
  lenient_loop (suc fuel) s (c ∷ b) = elim (decode_field s (c ∷ b)) [
    | ok (s', b') ↦ lenient_loop fuel s' b'
    | err e ↦ some s
    | panic ↦ none
    | stuck ↦ none
  ]

  abbrev pub lenient_message : S → Bytes → Option S
  lenient_message s b = lenient_loop (length b) s b
