-- ===== src/Tf2/Wire/Fields.antt =====
-- A message as a list of fields, and how protowire writes it: the description that the decoders are
-- compared with.
use steamstacks.Prelude.{
  ℕ, ◌≤◌, ◌<◌, ◌^◌, ◌≡◌, List, [], ◌∷◌, ◌++◌, Option, none, some, Result, ok, ◌>>=◌, length,
}
use steamstacks.Prelude.Bytes.{Bytes, IsU32, IsU64}
use steamstacks.Tf2.Wire.{
  WireType, varint_type, fixed32_type, fixed64_type, bytes_type, reserved_type, Protowire,
  DecodeError, Cases,
}

-- A field with its number. Groups are left out: no encoder has written them for years.
pub data Field : Type 0 where
  varint : ℕ → ℕ → Field
  fixed32 : ℕ → ℕ → Field
  fixed64 : ℕ → ℕ → Field
  bytes : ℕ → Bytes → Field

abbrev pub IsNumber : ℕ → Type 0
IsNumber num = (1 ≤ num) × (num < 2 ^ 29)

-- The field numbers and values that protobuf allows.
abbrev pub IsField : Field → Type 0
IsField (varint num v) = IsNumber num × IsU64 v
IsField (fixed32 num v) = IsNumber num × IsU32 v
IsField (fixed64 num v) = IsNumber num × IsU64 v
IsField (bytes num v) = IsNumber num × (length v < 2 ^ 63)

module _ (w : Protowire) where
  unfoldable pub encode_field : Field → Bytes
  encode_field (varint num v) = w.append_varint (w.append_tag [] num varint_type) v
  encode_field (fixed32 num v) = w.append_fixed32 (w.append_tag [] num fixed32_type) v
  encode_field (fixed64 num v) = w.append_fixed64 (w.append_tag [] num fixed64_type) v
  encode_field (bytes num v) = w.append_bytes (w.append_tag [] num bytes_type) v

  unfoldable pub encode_fields : List Field → Bytes
  encode_fields [] = []
  encode_fields (f ∷ fs) = encode_field f ++ encode_fields fs

-- What protowire documents of its lengths: a tag is not empty.
abbrev pub Progress : Protowire → Type 0
Progress w =
    (b : Bytes) (num n : ℕ) (t : WireType)
    → w.consume_tag b ≡ some (num, t, n)
    → (1 ≤ n) × (n ≤ length b)

-- What it documents of each pair of functions: an `Append…` adds to the end of the slice, and a
-- `Consume…` reads back the value with the length that was added, whatever follows.
pub record Documented (w : Protowire) : Type 0 where
  pub progress : Progress w
  pub varint_appends : (b : Bytes) (v : ℕ) → w.append_varint b v ≡ b ++ w.append_varint [] v
  pub fixed32_appends : (b : Bytes) (v : ℕ) → w.append_fixed32 b v ≡ b ++ w.append_fixed32 [] v
  pub fixed64_appends : (b : Bytes) (v : ℕ) → w.append_fixed64 b v ≡ b ++ w.append_fixed64 [] v
  pub bytes_appends : (b v : Bytes) → w.append_bytes b v ≡ b ++ w.append_bytes [] v
  pub tag_read :
      (num : ℕ) (t : WireType) (rest : Bytes)
      → IsNumber num
      → ((k : ℕ) → t ≡ reserved_type k → ⊥)
      → w.consume_tag (w.append_tag [] num t ++ rest)
        ≡ some (num, t, length (w.append_tag [] num t))
  pub varint_read :
      (v : ℕ) (rest : Bytes)
      → IsU64 v
      → w.consume_varint (w.append_varint [] v ++ rest) ≡ some (v, length (w.append_varint [] v))
  pub fixed32_read :
      (v : ℕ) (rest : Bytes)
      → IsU32 v
      → w.consume_fixed32 (w.append_fixed32 [] v ++ rest) ≡ some (v, length (w.append_fixed32 [] v))
  pub fixed64_read :
      (v : ℕ) (rest : Bytes)
      → IsU64 v
      → w.consume_fixed64 (w.append_fixed64 [] v ++ rest) ≡ some (v, length (w.append_fixed64 [] v))
  pub bytes_read :
      (v rest : Bytes)
      → length v < 2 ^ 63
      → w.consume_bytes (w.append_bytes [] v ++ rest) ≡ some (v, length (w.append_bytes [] v))
  pub varint_skipped :
      (num v : ℕ) (rest : Bytes)
      → IsU64 v
      → w.consume_field_value num varint_type (w.append_varint [] v ++ rest)
        ≡ some (length (w.append_varint [] v))
  pub fixed32_skipped :
      (num v : ℕ) (rest : Bytes)
      → IsU32 v
      → w.consume_field_value num fixed32_type (w.append_fixed32 [] v ++ rest)
        ≡ some (length (w.append_fixed32 [] v))
  pub fixed64_skipped :
      (num v : ℕ) (rest : Bytes)
      → IsU64 v
      → w.consume_field_value num fixed64_type (w.append_fixed64 [] v ++ rest)
        ≡ some (length (w.append_fixed64 [] v))
  pub bytes_skipped :
      (num : ℕ) (v rest : Bytes)
      → length v < 2 ^ 63
      → w.consume_field_value num bytes_type (w.append_bytes [] v ++ rest)
        ≡ some (length (w.append_bytes [] v))

module _ {S : Type 0} (cases : Cases S) where
  abbrev pub apply_number : Option (ℕ → ℕ → S → S) → ℕ → ℕ → S → Result DecodeError S
  apply_number none num v s = ok s
  apply_number (some f) num v s = ok (f num v s)

  abbrev pub apply_bytes :
      Option (ℕ → Bytes → S → Result DecodeError S) → ℕ → Bytes → S → Result DecodeError S
  apply_bytes none num v s = ok s
  apply_bytes (some f) num v s = f num v s

  -- What one field means to a decoder with these cases.
  unfoldable pub apply_field : S → Field → Result DecodeError S
  apply_field s (varint num v) = apply_number cases.on_varint num v s
  apply_field s (fixed32 num v) = apply_number cases.on_fixed32 num v s
  apply_field s (fixed64 num v) = apply_number cases.on_fixed64 num v s
  apply_field s (bytes num v) = apply_bytes cases.on_bytes num v s

  -- The fields from left to right, up to the first that fails.
  unfoldable pub apply_fields : S → List Field → Result DecodeError S
  apply_fields s [] = ok s
  apply_fields s (f ∷ fs) = apply_field s f >>= λ s'. apply_fields s' fs
