-- ===== src/Tests/Words.antt =====
-- A protowire whose varint is one number: it has the laws that the package documents.
use steamstacks.Prelude.{
  ℕ, suc, ◌+◌, ◌-◌, ◌≡◌, refl, ap, false, [], ◌∷◌, ◌++◌, Option, none, some, ltb, ◌==◌, le→ltb,
  if◌then◌else◌, arith, length, take, length-append, take-append,
}
use steamstacks.Prelude.Bytes.{Bytes}
use steamstacks.Tf2.Wire.{
  WireType, varint_type, fixed32_type, fixed64_type, bytes_type, start_group_type, end_group_type,
  reserved_type, Protowire,
}
use steamstacks.Tf2.Wire.Fields.{Documented, Progress}

abbrev code_of : WireType → ℕ
code_of varint_type = 0
code_of fixed64_type = 1
code_of bytes_type = 2
code_of start_group_type = 3
code_of end_group_type = 4
code_of fixed32_type = 5
code_of (reserved_type k) = 6 + k

abbrev type_at : ℕ → WireType
type_at n =
    if n == 0
    then varint_type
    else if n == 1
    then fixed64_type
    else if n == 2
    then bytes_type
    else if n == 3
    then start_group_type
    else if n == 4
    then end_group_type
    else if n == 5
    then fixed32_type
    else reserved_type (n - 6)

abbrev read_tag : Bytes → Option (ℕ × WireType × ℕ)
read_tag [] = none
read_tag (num ∷ []) = none
read_tag (num ∷ (t ∷ rest)) = some (num, type_at t, 2)

abbrev read_number : Bytes → Option (ℕ × ℕ)
read_number [] = none
read_number (v ∷ rest) = some (v, 1)

abbrev read_bytes : Bytes → Option (Bytes × ℕ)
read_bytes [] = none
read_bytes (n ∷ rest) = if ltb (length rest) n then none else some (take n rest, 1 + n)

abbrev skip_number : Bytes → Option ℕ
skip_number [] = none
skip_number (v ∷ rest) = some 1

abbrev skip_bytes : Bytes → Option ℕ
skip_bytes [] = none
skip_bytes (n ∷ rest) = if ltb (length rest) n then none else some (1 + n)

abbrev skip_value : ℕ → WireType → Bytes → Option ℕ
skip_value num varint_type b = skip_number b
skip_value num fixed32_type b = skip_number b
skip_value num fixed64_type b = skip_number b
skip_value num bytes_type b = skip_bytes b
skip_value num start_group_type b = none
skip_value num end_group_type b = none
skip_value num (reserved_type k) b = none

abbrev pub words : Protowire
words = record {
  consume_tag = read_tag;
  consume_varint = read_number;
  consume_fixed32 = read_number;
  consume_fixed64 = read_number;
  consume_bytes = read_bytes;
  consume_field_value = skip_value;
  append_tag = λ b num t. b ++ (num ∷ (code_of t ∷ []));
  append_varint = λ b v. b ++ (v ∷ []);
  append_fixed32 = λ b v. b ++ (v ∷ []);
  append_fixed64 = λ b v. b ++ (v ∷ []);
  append_bytes = λ b v. b ++ (length v ∷ v);
}

read_tag-Progress : Progress words
read_tag-Progress [] num n t e = cc
read_tag-Progress (x ∷ []) num n t e = cc
read_tag-Progress (x ∷ (y ∷ rest)) num n t e = let two : 2 ≡ n = cc in omega (arith, two)

tag_read : (t : WireType) → ((k : ℕ) → t ≡ reserved_type k → ⊥) → type_at (code_of t) ≡ t
tag_read varint_type h = refl
tag_read fixed32_type h = refl
tag_read fixed64_type h = refl
tag_read bytes_type h = refl
tag_read start_group_type h = refl
tag_read end_group_type h = refl
tag_read (reserved_type k) h = absurd (h k refl)

bytes_fit : (v rest : Bytes) → ltb (length (v ++ rest)) (length v) ≡ false
bytes_fit v rest = le→ltb (length (v ++ rest)) (length v) (omega (arith, length-append v rest))

one_more : (n : ℕ) → 1 + n ≡ suc n
one_more n = omega arith

pub words-Documented : Documented words
words-Documented = record {
  progress = read_tag-Progress;
  varint_appends = λ b v. refl;
  fixed32_appends = λ b v. refl;
  fixed64_appends = λ b v. refl;
  bytes_appends = λ b v. refl;
  tag_read = λ num t rest h plain. ap (λ (q : WireType). some (num, q, 2)) (tag_read t plain);
  varint_read = λ v rest h. refl;
  fixed32_read = λ v rest h. refl;
  fixed64_read = λ v rest h. refl;
  bytes_read = λ v rest h.
      rw (bytes_fit v rest, take-append v rest (length v) refl, one_more (length v)) refl;
  varint_skipped = λ num v rest h. refl;
  fixed32_skipped = λ num v rest h. refl;
  fixed64_skipped = λ num v rest h. refl;
  bytes_skipped = λ num v rest h. rw (bytes_fit v rest, one_more (length v)) refl;
}
