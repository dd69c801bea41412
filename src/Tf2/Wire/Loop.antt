-- ===== src/Tf2/Wire/Loop.antt =====
-- The loop over the bytes of a message against its list of fields.
use steamstacks.Prelude.{
  ℕ, zero, suc, ◌≤◌, ◌≡◌, refl, ◌∙◌, List, [], ◌∷◌, ◌++◌, Option, none, some, Result, ok, err,
  panic, stuck, ◌>>=◌, arith, length, All, length-append, drop-append, append_assoc, append-nil,
}
use steamstacks.Prelude.Bytes.{Bytes}
use steamstacks.Tf2.Wire.{
  WireType, varint_type, fixed32_type, fixed64_type, bytes_type, reserved_type, number_field,
  bytes_field, Protowire, DecodeError, Cases, skip_field, field_value, decode_field, decode_loop,
  decode_message,
}
use steamstacks.Tf2.Wire.Fields.{
  Field, varint, fixed32, fixed64, bytes, IsField, IsNumber, encode_field, encode_fields,
  Documented, apply_number, apply_bytes, apply_field, apply_fields,
}

-- The result with what is left to read.
abbrev with_rest : {S : Type 0} → Bytes → Result DecodeError S → Result DecodeError (S × Bytes)
with_rest rest r = r >>= λ s. ok (s, rest)

module _ (w : Protowire) (laws : Documented w) {S : Type 0} (cases : Cases S) where
  tag_field :
      (s : S) (num : ℕ) (t : WireType) (value rest : Bytes)
      → IsNumber num
      → ((k : ℕ) → t ≡ reserved_type k → ⊥)
      → decode_field w cases s ((w.append_tag [] num t ++ value) ++ rest)
        ≡ field_value w cases num t s (value ++ rest)
  unfolding decode_field
  tag_field s num t value rest h plain = rw (
    append_assoc (w.append_tag [] num t) value rest,
    laws.tag_read num t (value ++ rest) h plain,
    drop-append (w.append_tag [] num t) (value ++ rest) (length (w.append_tag [] num t)) refl,
  )

  skip_field_lem :
      (s : S) (num : ℕ) (t : WireType) (e rest : Bytes)
      → w.consume_field_value num t (e ++ rest) ≡ some (length e)
      → skip_field w cases num t s (e ++ rest) ≡ ok (s, rest)
  unfolding skip_field
  skip_field_lem s num t e rest h = rw (h, drop-append e rest (length e) refl)

  number_field_lem :
      (consume : Bytes → Option (ℕ × ℕ)) (o : Option (ℕ → ℕ → S → S)) (s : S) (num v : ℕ)
      (t : WireType) (e rest : Bytes)
      → consume (e ++ rest) ≡ some (v, length e)
      → w.consume_field_value num t (e ++ rest) ≡ some (length e)
      → number_field w cases consume o num t s (e ++ rest)
        ≡ with_rest rest (apply_number cases o num v s)
  number_field_lem consume none s num v t e rest h k = skip_field_lem s num t e rest k
  number_field_lem consume (some f) s num v t e rest h k =
      rw (h, drop-append e rest (length e) refl)

  bytes_field_lem :
      (o : Option (ℕ → Bytes → S → Result DecodeError S)) (s : S) (num : ℕ) (v e rest : Bytes)
      → w.consume_bytes (e ++ rest) ≡ some (v, length e)
      → w.consume_field_value num bytes_type (e ++ rest) ≡ some (length e)
      → bytes_field w cases o num bytes_type s (e ++ rest)
        ≡ with_rest rest (apply_bytes cases o num v s)
  bytes_field_lem none s num v e rest h k = skip_field_lem s num bytes_type e rest k
  bytes_field_lem (some f) s num v e rest h k = rw (h, drop-append e rest (length e) refl)

  tag_not_empty :
      (num : ℕ) (t : WireType) (value rest : Bytes)
      → IsNumber num
      → ((k : ℕ) → t ≡ reserved_type k → ⊥)
      → 1 ≤ length ((w.append_tag [] num t ++ value) ++ rest)
  tag_not_empty num t value rest h plain =
      let read = laws.tag_read num t [] h plain in
      omega (
        arith,
        laws.progress _ num (length (w.append_tag [] num t)) t read,
        length-append (w.append_tag [] num t ++ value) rest,
        length-append (w.append_tag [] num t) value,
      )

  -- One round over a written field does what the field means.
  decode_field-encode_field :
      (s : S) (f : Field) (rest : Bytes)
      → IsField f
      → decode_field w cases s (encode_field w f ++ rest) ≡ with_rest rest (apply_field cases s f)
  unfolding encode_field apply_field field_value
  decode_field-encode_field s (varint num v) rest h =
      rw (laws.varint_appends (w.append_tag [] num varint_type) v) (
        tag_field s num varint_type (w.append_varint [] v) rest h.0 (λ k q. cc)
        ∙ number_field_lem w.consume_varint cases.on_varint s num v varint_type _ rest
            (laws.varint_read v rest h.1) (laws.varint_skipped num v rest h.1))
  decode_field-encode_field s (fixed32 num v) rest h =
      rw (laws.fixed32_appends (w.append_tag [] num fixed32_type) v) (
        tag_field s num fixed32_type (w.append_fixed32 [] v) rest h.0 (λ k q. cc)
        ∙ number_field_lem w.consume_fixed32 cases.on_fixed32 s num v fixed32_type _ rest
            (laws.fixed32_read v rest h.1) (laws.fixed32_skipped num v rest h.1))
  decode_field-encode_field s (fixed64 num v) rest h =
      rw (laws.fixed64_appends (w.append_tag [] num fixed64_type) v) (
        tag_field s num fixed64_type (w.append_fixed64 [] v) rest h.0 (λ k q. cc)
        ∙ number_field_lem w.consume_fixed64 cases.on_fixed64 s num v fixed64_type _ rest
            (laws.fixed64_read v rest h.1) (laws.fixed64_skipped num v rest h.1))
  decode_field-encode_field s (bytes num v) rest h =
      rw (laws.bytes_appends (w.append_tag [] num bytes_type) v) (
        tag_field s num bytes_type (w.append_bytes [] v) rest h.0 (λ k q. cc)
        ∙ bytes_field_lem cases.on_bytes s num v _ rest (laws.bytes_read v rest h.1)
            (laws.bytes_skipped num v rest h.1))

  -- A written field is not empty.
  length-encode_field :
      (f : Field) (rest : Bytes) → IsField f → 1 ≤ length (encode_field w f ++ rest)
  unfolding encode_field
  length-encode_field (varint num v) rest h =
      rw (laws.varint_appends (w.append_tag [] num varint_type) v)
        (tag_not_empty num varint_type (w.append_varint [] v) rest h.0 (λ k q. cc))
  length-encode_field (fixed32 num v) rest h =
      rw (laws.fixed32_appends (w.append_tag [] num fixed32_type) v)
        (tag_not_empty num fixed32_type (w.append_fixed32 [] v) rest h.0 (λ k q. cc))
  length-encode_field (fixed64 num v) rest h =
      rw (laws.fixed64_appends (w.append_tag [] num fixed64_type) v)
        (tag_not_empty num fixed64_type (w.append_fixed64 [] v) rest h.0 (λ k q. cc))
  length-encode_field (bytes num v) rest h =
      rw (laws.bytes_appends (w.append_tag [] num bytes_type) v)
        (tag_not_empty num bytes_type (w.append_bytes [] v) rest h.0 (λ k q. cc))

  decode_loop_step :
      (fuel : ℕ) (s : S) (b : Bytes)
      → 1 ≤ length b
      → decode_loop w cases (suc fuel) s b
        ≡ (decode_field w cases s b >>= λ r. decode_loop w cases fuel r.0 r.1)
  unfolding decode_loop
  decode_loop_step fuel s [] h = absurd (omega arith)
  decode_loop_step fuel s (c ∷ b) h = refl

  then_loop :
      (fuel : ℕ) (fs : List Field) (r : Result DecodeError S)
      → ((s : S) → decode_loop w cases fuel s (encode_fields w fs) ≡ apply_fields cases s fs)
      → (with_rest (encode_fields w fs) r >>= λ q. decode_loop w cases fuel q.0 q.1)
        ≡ (r >>= λ s. apply_fields cases s fs)
  then_loop fuel fs (ok s) ih = ih s
  then_loop fuel fs (err e) ih = refl
  then_loop fuel fs panic ih = refl
  then_loop fuel fs stuck ih = refl

  decode_loop-encode_fields :
      (fs : List Field) (fuel : ℕ) (s : S)
      → All IsField fs
      → length (encode_fields w fs) ≤ fuel
      → decode_loop w cases fuel s (encode_fields w fs) ≡ apply_fields cases s fs
  unfolding apply_fields encode_fields
  decode_loop-encode_fields [] fuel s h k = unfold decode_loop in refl
  decode_loop-encode_fields (f ∷ fs) zero s h k =
      absurd (omega (arith, length-encode_field f (encode_fields w fs) h.0))
  decode_loop-encode_fields (f ∷ fs) (suc fuel) s h k =
      decode_loop_step fuel s _ (length-encode_field f (encode_fields w fs) h.0)
      ∙ rw (decode_field-encode_field s f (encode_fields w fs) h.0) (
          then_loop fuel fs (apply_field cases s f) (λ s'.
            decode_loop-encode_fields fs fuel s' h.1
              (omega (arith, shorter, length-append (encode_field w f) (encode_fields w fs)))))
    where
      shorter : 1 ≤ length (encode_field w f)
      shorter = rw append-nil at (length-encode_field f [] h.0)

  -- With protowire as documented, on the bytes that it writes for a list of valid fields a decoder
  -- computes what the fields mean, from left to right, up to the first that fails.
  pub decode_message-encode_fields :
      (fs : List Field) (s : S)
      → All IsField fs
      → decode_message w cases s (encode_fields w fs) ≡ apply_fields cases s fs
  decode_message-encode_fields fs s h =
      decode_loop-encode_fields fs (length (encode_fields w fs)) s h (omega arith)
