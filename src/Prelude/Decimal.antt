-- ===== src/Prelude/Decimal.antt =====
-- `strconv.FormatUint(n, 10)` and `strconv.ParseUint(s, 10, 64)`, over the bytes of the text.
use mathlib.Core.Path.{◌≡◌, refl, ◌∙◌}
use mathlib.Core.Logic.{inl, inr}
use mathlib.Core.Bool.{Bool, true, false, ◌&&◌}
use mathlib.Core.List.{[], ◌∷◌, ◌++◌, append_assoc}
use Prim.Native.Nat.{ℕ, zero, suc, ◌+◌, ◌-◌, ◌*◌, ◌/◌, ◌%◌, ◌≤◌, ◌<◌}
use native.Mathlib.Omega.{arith}
use steamstacks.Prelude.Tests.{ltb, leb, if◌then◌else◌, Bool-cases}
use steamstacks.Prelude.Lists.{All, All-append}
use steamstacks.Prelude.Bytes.{Bytes}
use steamstacks.Prelude.Results.{Result, ok, err}

abbrev pub is_digit : ℕ → Bool
is_digit c = leb b'0' c && leb c b'9'

-- Digit by digit from the right. Each round divides by ten, so `n + 1` rounds are enough.
digits : ℕ → ℕ → Bytes
digits zero n = []
digits (suc f) n =
    let rest = digits f (n / 10) ++ ((b'0' + n % 10) ∷ []) in
    if ltb n 10 then (b'0' + n) ∷ [] else rest

unfoldable pub format_uint : ℕ → Bytes
unfolding digits
format_uint n = digits (suc n) n

pub data NumError : Type 0 where
  syntax range : NumError

-- `ParseUint` with the bit size's largest value; the first bad character decides the error.
unfoldable pub parse_loop : ℕ → ℕ → Bytes → Result NumError ℕ
parse_loop top n [] = ok n
parse_loop top n (c ∷ s) =
    let n' = n * 10 + (c - b'0') in
    let rest = parse_loop top n' s in
    if is_digit c then (if ltb top n' then err range else rest) else err syntax

unfoldable pub parse_uint : ℕ → Bytes → Result NumError ℕ
unfolding parse_loop
parse_uint top [] = err syntax
parse_uint top (c ∷ s) = parse_loop top 0 (c ∷ s)

-- The longest run of digits in front, and what follows it.
unfoldable pub span_digits : Bytes → Bytes × Bytes
span_digits [] = ([], [])
span_digits (c ∷ s) = if is_digit c then (c ∷ (span_digits s).0, (span_digits s).1) else ([], c ∷ s)

parse_loop-digits :
    (f n top : ℕ) (t : Bytes)
    → n < f
    → n ≤ top
    → parse_loop top 0 (digits f n ++ t) ≡ parse_loop top n t
unfolding parse_loop digits
parse_loop-digits zero n top t h k = absurd (omega arith)
parse_loop-digits (suc f) n top t h k = elim (Bool-cases (ltb n 10)) [
  | inl small ↦ ground arith
  | inr big ↦
      rw (big, append_assoc)
        (parse_loop-digits f (n / 10) top (_ ∷ t) (ground arith) (omega arith) ∙ ground arith)
]

-- Digits alone, and at least one.
abbrev pub IsDigit : ℕ → Type 0
IsDigit c = is_digit c ≡ true

digits-IsDigit : (f n : ℕ) → All IsDigit (digits f n)
unfolding digits
digits-IsDigit zero n = tt
digits-IsDigit (suc f) n = elim (Bool-cases (ltb n 10)) [
  | inl small ↦ rw small (ground arith, tt)
  | inr big ↦
      rw big
        (All-append IsDigit (digits f (n / 10)) _ (digits-IsDigit f (n / 10)) (ground arith, tt))
]

pub format_uint-IsDigit : (n : ℕ) → All IsDigit (format_uint n)
unfolding format_uint
format_uint-IsDigit n = digits-IsDigit (suc n) n

parse_uint-snoc :
    (top : ℕ) (s : Bytes) (c : ℕ) (t : Bytes)
    → parse_uint top (s ++ (c ∷ t)) ≡ parse_loop top 0 (s ++ (c ∷ t))
unfolding parse_uint
parse_uint-snoc top [] c t = refl
parse_uint-snoc top (x ∷ s) c t = refl

-- A number that fits is read back from its text.
pub parse_uint-format_uint : (n top : ℕ) → n ≤ top → parse_uint top (format_uint n) ≡ ok n
unfolding format_uint
parse_uint-format_uint n top h = elim (Bool-cases (ltb n 10)) [
  | inl small ↦ rw small (unfold parse_uint in ground arith)
  | inr big ↦
      rw (big, parse_uint-snoc top (digits n (n / 10)) (b'0' + n % 10) [])
        (rw (parse_loop-digits n (n / 10) top ((b'0' + n % 10) ∷ []) (ground arith) (omega arith))
          (unfold parse_loop in ground arith))
]

-- The run stops where the digits do.
pub span_digits-append :
    (s t : Bytes) (c : ℕ)
    → All IsDigit s
    → is_digit c ≡ false
    → span_digits (s ++ (c ∷ t)) ≡ (s, c ∷ t)
unfolding span_digits
span_digits-append [] t c h k = rw k
span_digits-append (x ∷ s) t c h k = rw (h.0, span_digits-append s t c h.1 k)

pub span_digits-All : (s : Bytes) → All IsDigit s → span_digits s ≡ (s, [])
unfolding span_digits
span_digits-All [] h = refl
span_digits-All (x ∷ s) h = rw (h.0, span_digits-All s h.1)
