-- ===== src/SteamId/RoundTrip.antt =====
-- Identifiers printed and read back.
use steamstacks.Prelude.{
  ℕ, ◌+◌, ◌*◌, ◌/◌, ◌%◌, ◌^◌, ◌<◌, ◌≡◌, refl, bit_and, true, false, [], ◌∷◌, ◌++◌, some, ok, ◌==◌,
  if◌then◌else◌, arith, All, lt→ltb, ==_refl, append-nil,
}
use steamstacks.Prelude.Bytes.{Bytes}
use steamstacks.Prelude.Bits.{bit_and_mask, bit_or_split, bit_or_disjoint, bit_or-zero}
use steamstacks.Prelude.Decimal.{
  format_uint, parse_uint, parse_uint-format_uint, format_uint-IsDigit, IsDigit, is_digit,
  span_digits-append, span_digits-All,
}
use steamstacks.SteamId.Text.{
  to_steam2_id, to_string, from_string, from_steam2_id, scan_steam2, steam2_value, max_u64,
  skip_space, scanned, scan_uint32, scan_field, match_literal, individual, steam_prefix,
}
use steamstacks.SteamId.Fields.{pack}

-- `FromString` reads every 64-bit identifier back from its `String`.
pub from_string-to_string : (s : ℕ) → s < 2 ^ 64 → from_string (to_string s) ≡ ok s
unfolding from_string to_string
from_string-to_string s h = parse_uint-format_uint s max_u64 (omega arith)

-- The parts that the constructors from text put together.
pub individual-pack : (u a : ℕ) → u < 2 ^ 32 → a < 2 ^ 32 → individual u a ≡ pack (u % 256) 1 1 a
individual-pack u a hu ha = ground (
  arith,
  bit_or_split 56 (u % 256) 0 0 (2 ^ 52),
  bit_or-zero (u % 256),
  bit_or_split 52 (u % 256 * 16 + 1) 0 0 (2 ^ 32),
  bit_or-zero (u % 256 * 16 + 1),
  bit_or_disjoint 32 ((u % 256 * 16 + 1) * 2 ^ 20 + 1) a,
)

head_digit : (ds : Bytes) → All IsDigit ds → skip_space ds ≡ ds
unfolding skip_space
head_digit [] h = refl
head_digit (d ∷ ds) h = ground arith

pub format_uint-cons : (n : ℕ) → (d : ℕ) × (ds : Bytes) × (format_uint n ≡ d ∷ ds)
unfolding parse_uint
format_uint-cons n = go (format_uint n) refl
  where
    go : (l : Bytes) → format_uint n ≡ l → (d : ℕ) × (ds : Bytes) × (format_uint n ≡ d ∷ ds)
    go [] e = cc (rw e at (parse_uint-format_uint n n (omega arith)))
    go (d ∷ ds) e = (d, ds, e)

-- What a field's run of digits gives.
scanned-format_uint :
    (n : ℕ) (rest : Bytes) → n < 2 ^ 32 → scanned (format_uint n, rest) ≡ some (n, rest)
unfolding scanned
scanned-format_uint n rest h =
    let (d, ds, e) = format_uint-cons n in
    rw e (
      rw (rw e at (parse_uint-format_uint n max_u64 (omega arith)), scanned)
        (rw (lt→ltb n (2 ^ 32) h)))

skip_space-format_uint : (n : ℕ) (t : Bytes) → skip_space (format_uint n ++ t) ≡ format_uint n ++ t
skip_space-format_uint n t =
    let (d, ds, e) = format_uint-cons n in
    let first : is_digit d ≡ true = (rw e at (format_uint-IsDigit n)).0 in
    rw e (unfold skip_space in ground arith)

-- A field in front of a character that is no digit, and a field at the end.
scan_uint32-format_uint :
    (n c : ℕ) (t : Bytes)
    → n < 2 ^ 32
    → is_digit c ≡ false
    → scan_uint32 (format_uint n ++ (c ∷ t)) ≡ some (n, c ∷ t)
unfolding scan_uint32
scan_uint32-format_uint n c t h k =
    rw
      (
        skip_space-format_uint n (c ∷ t),
        span_digits-append (format_uint n) t c (format_uint-IsDigit n) k,
      )
      (scanned-format_uint n (c ∷ t) h)

scan_uint32-format_uint_end : (n : ℕ) → n < 2 ^ 32 → scan_uint32 (format_uint n) ≡ some (n, [])
unfolding scan_uint32
scan_uint32-format_uint_end n h = rw (← append-nil (format_uint n)) (
    rw (skip_space-format_uint n []) (
      rw append-nil (
        rw (span_digits-All (format_uint n) (format_uint-IsDigit n)) (scanned-format_uint n [] h))))

-- A literal in front is taken off.
match_literal-append : (l s : Bytes) → match_literal l (l ++ s) ≡ some s
unfolding match_literal
match_literal-append [] s = refl
match_literal-append (c ∷ l) s = rw (==_refl c) (match_literal-append l s)

scan_field-some :
    (lit s s' : Bytes) (n : ℕ) (rest : Bytes)
    → match_literal lit s ≡ some s'
    → scan_uint32 s' ≡ some (n, rest)
    → scan_field lit (some s) ≡ (n, some rest)
unfolding scan_field
scan_field-some lit s s' n rest e f = rw (e, scan_field) (rw (f, scan_field))

scan_field-printed :
    (lit : Bytes) (n c : ℕ) (t : Bytes)
    → n < 2 ^ 32
    → is_digit c ≡ false
    → scan_field lit (some (lit ++ (format_uint n ++ (c ∷ t)))) ≡ (n, some (c ∷ t))
scan_field-printed lit n c t h k =
    scan_field-some lit _ (format_uint n ++ (c ∷ t)) n (c ∷ t) (match_literal-append lit _)
      (scan_uint32-format_uint n c t h k)

scan_field-printed_end :
    (lit : Bytes) (n : ℕ) → n < 2 ^ 32 → scan_field lit (some (lit ++ format_uint n)) ≡ (n, some [])
scan_field-printed_end lit n h =
    scan_field-some lit _ (format_uint n) n [] (match_literal-append lit _)
      (scan_uint32-format_uint_end n h)

scan_steam2-printed :
    (u m a : ℕ)
    → u < 2 ^ 32
    → m < 2 ^ 32
    → a < 2 ^ 32
    → scan_steam2
        (steam_prefix ++ (format_uint u ++ (b':' ∷ (format_uint m ++ (b':' ∷ format_uint a)))))
      ≡ (u, m, a)
unfolding scan_steam2
scan_steam2-printed u m a hu hm ha =
    let tail : Bytes = format_uint m ++ (b':' ∷ format_uint a) in
    rw (scan_field-printed steam_prefix u b':' tail hu refl) (
      rw (scan_field-printed (b':' ∷ []) m b':' (format_uint a) hm refl)
        (rw (scan_field-printed_end (b':' ∷ []) a ha)))

steam2_value-pack :
    (u a : ℕ)
    → u < 256
    → a < 2 ^ 32
    → steam2_value (u, a % 2, a / 2) ≡ pack (if u == 0 then 1 else u) 1 1 a
steam2_value-pack u a hu ha = ground (arith, individual-pack 1 a, individual-pack u a)

-- For every 64-bit identifier, `FromSteam2ID` of its Steam2 text keeps its universe and its
-- account, save that universe 0 is read as 1, and sets type and instance to 1.
pub from_steam2_id-to_steam2_id :
    (s : ℕ)
    → s < 2 ^ 64
    → from_steam2_id (to_steam2_id s)
      ≡ pack (if s / 2 ^ 56 == 0 then 1 else s / 2 ^ 56) 1 1 (s % 2 ^ 32)
unfolding to_steam2_id from_steam2_id
from_steam2_id-to_steam2_id s h =
    let low : bit_and s 0xFFFFFFFF % 2 ^ 32 ≡ s % 2 ^ 32 = ground (arith, bit_and_mask 32 s) in
    rw low (
      rw
        (scan_steam2-printed (s / 2 ^ 56) (s % 2 ^ 32 % 2) (s % 2 ^ 32 / 2) (omega arith)
          (omega arith) (omega arith))
        (steam2_value-pack (s / 2 ^ 56) (s % 2 ^ 32) (omega arith) (omega arith)))
