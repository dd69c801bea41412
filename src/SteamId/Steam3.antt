-- ===== src/SteamId/Steam3.antt =====
-- Identifiers in the Steam3 format, printed and read back.
use steamstacks.Prelude.{
  ℕ, ◌%◌, ◌^◌, ◌<◌, ◌≡◌, refl, bit_and, true, false, [], ◌∷◌, ◌++◌, ok, arith, All, All-append,
}
use steamstacks.Prelude.Bytes.{Bytes}
use steamstacks.Prelude.Bits.{bit_and_mask}
use steamstacks.Prelude.Decimal.{
  format_uint, parse_uint, parse_uint-format_uint, format_uint-IsDigit, IsDigit, is_digit,
}
use steamstacks.SteamId.Text.{
  to_steam3_id, from_steam3_id, max_u64, atoi_u64, trim, split_colon, trim_left, is_bracket,
}
use steamstacks.SteamId.Fields.{pack}
use steamstacks.SteamId.RoundTrip.{format_uint-cons, individual-pack}
use mathlib.Core.List.{reverse, reverse-cons, reverse-append, reverse-reverse}

-- Text with no bracket is left alone by `strings.Trim(s, "[]")`.
NoBracket : ℕ → Type 0
NoBracket c = is_bracket c ≡ false

trim_left_id : (s : Bytes) → All NoBracket s → trim_left s ≡ s
unfolding trim_left NoBracket
trim_left_id [] h = refl
trim_left_id (c ∷ s) h = rw h.0

All-reverse : (s : Bytes) → All NoBracket s → All NoBracket (reverse s)
All-reverse [] h = tt
All-reverse (c ∷ s) h =
    rw (reverse-cons c s) (All-append NoBracket (reverse s) (c ∷ []) (All-reverse s h.1) (h.0, tt))

trim_front : (c : ℕ) (s : Bytes) → NoBracket c → trim_left (b'[' ∷ (c ∷ s)) ≡ c ∷ s
unfolding trim_left NoBracket
trim_front c s h = rw h

trim_back : (s : Bytes) → trim_left (b']' ∷ s) ≡ trim_left s
unfolding trim_left
trim_back s = refl

-- Only the brackets at the two ends go.
trim-bracketed :
    (c : ℕ) (s : Bytes) → All NoBracket (c ∷ s) → trim (b'[' ∷ (c ∷ (s ++ (b']' ∷ [])))) ≡ c ∷ s
unfolding trim
trim-bracketed c s h =
    rw (trim_front c (s ++ (b']' ∷ [])) h.0, reverse-append (c ∷ s) (b']' ∷ []), trim_back)
      (rw (trim_left_id _ (All-reverse (c ∷ s) h)) (reverse-reverse (c ∷ s)))

digits_NoBracket : (s : Bytes) → All IsDigit s → All NoBracket s
unfolding NoBracket
digits_NoBracket [] h = tt
digits_NoBracket (c ∷ s) h =
    let first : is_digit c ≡ true = h.0 in (ground arith, digits_NoBracket s h.1)

-- Digits hold no colon.
split_colon-digits : (s : Bytes) → All IsDigit s → split_colon s ≡ s ∷ []
unfolding split_colon
split_colon-digits [] h = refl
split_colon-digits (c ∷ s) h =
    let first : is_digit c ≡ true = h.0 in rw (split_colon-digits s h.1) (ground arith)

atoi_u64-format_uint : (n : ℕ) → n < 2 ^ 32 → atoi_u64 (format_uint n) ≡ n
unfolding atoi_u64
atoi_u64-format_uint n h =
    let (d, ds, e) = format_uint-cons n in
    let first : is_digit d ≡ true = (rw e at (format_uint-IsDigit n)).0 in
    let value : parse_uint max_u64 (d ∷ ds) ≡ ok n =
      rw e at (parse_uint-format_uint n max_u64 (omega arith)) in
    rw e (ground arith)

-- The three parts of a printed text; the last is the number's digits.
parts :
    (n : ℕ)
    → split_colon (trim (b'[' ∷ (b'U' ∷ ((b':' ∷ (b'1' ∷ (b':' ∷ format_uint n))) ++ (b']' ∷ [])))))
      ≡ (b'U' ∷ []) ∷ ((b'1' ∷ []) ∷ (format_uint n ∷ []))
unfolding NoBracket
parts n =
    rw
      (trim-bracketed b'U' (b':' ∷ (b'1' ∷ (b':' ∷ format_uint n)))
        (refl, (refl, (refl, (refl, digits_NoBracket (format_uint n) (format_uint-IsDigit n))))))
      (unfold split_colon in rw (split_colon-digits (format_uint n) (format_uint-IsDigit n)))

-- `FromSteam3ID` of the Steam3 text of an identifier keeps the account and sets the other parts to
-- those of an individual in the public universe.
pub from_steam3_id-to_steam3_id :
    (s : ℕ) → from_steam3_id (to_steam3_id s) ≡ pack 1 1 1 (s % 2 ^ 32)
unfolding to_steam3_id from_steam3_id
from_steam3_id-to_steam3_id s =
    let account : bit_and s 0xFFFFFFFF % 2 ^ 32 ≡ s % 2 ^ 32 = ground (arith, bit_and_mask 32 s) in
    rw account (
      rw (parts (s % 2 ^ 32), from_steam3_id)
        (rw (atoi_u64-format_uint (s % 2 ^ 32) (omega arith))
          (individual-pack 1 (s % 2 ^ 32) (omega arith) (omega arith))))
