-- ===== src/Prelude/Bits.antt =====
-- `bit_and` and `bit_or` at variables: the laws for the lowest digit and, from them, for a number
-- split at any bit.
use Prim.Native.Nat.{
  ℕ, zero, suc, ◌+◌, ◌-◌, ◌*◌, ◌/◌, ◌%◌, ◌^◌, ◌≤◌, ◌<◌, min, max, bit_and, bit_or, digits,
  bit_and-bitwise, bit_or-bitwise,
}
use mathlib.Core.Path.{◌≡◌, refl, sym, ap, ◌∙◌}
use mathlib.Core.Logic.{inl, inr}
use steamstacks.Prelude.Tests.{◌==◌, ==_iff, Bool-cases}
use native.Mathlib.Omega.{arith}
use native.Mathlib.Nat.{pow-suc, one-le-pow}

-- The native operations stand for a recursion on digits whose fuel is the first number.
module _ (base : ℕ → ℕ) (op : ℕ → ℕ → ℕ) where
  spare_fuel : (n x y : ℕ) → x ≤ n → digits base op (suc n) x y ≡ digits base op n x y
  spare_fuel zero (suc x) y h = absurd (omega arith)
  spare_fuel zero zero y h = refl
  spare_fuel (suc n) zero y h = refl
  spare_fuel (suc n) (suc x) y h = omega (arith, spare_fuel n (suc x / 2) (y / 2) (omega arith))

  -- Fuel beyond the first number changes nothing.
  enough_fuel : (n x y : ℕ) → x ≤ n → digits base op n x y ≡ digits base op x x y
  enough_fuel zero (suc x) y h = absurd (omega arith)
  enough_fuel zero zero y h = refl
  enough_fuel (suc n) x y h = elim (Bool-cases (x == suc n)) [
    | inl same ↦ ap (λ (m : ℕ). digits base op m x y) (sym ((==_iff x (suc n)).0 same))
    | inr other ↦ spare_fuel n x y (ground arith) ∙ enough_fuel n x y (ground arith)
  ]

  -- The lowest digit, and the digits of the halves.
  pub digits_halves :
      (x y : ℕ)
      → digits base op (suc x) (suc x) y
        ≡ digits base op (suc x / 2) (suc x / 2) (y / 2) * 2 + op (suc x % 2) (y % 2)
  digits_halves x y = omega (arith, enough_fuel x (suc x / 2) (y / 2) (omega arith))

pub zero-bit_and : (y : ℕ) → bit_and 0 y ≡ 0
zero-bit_and y = bit_and-bitwise 0 y

pub bit_and_halves : (x y : ℕ) → bit_and x y ≡ min (x % 2) (y % 2) + 2 * bit_and (x / 2) (y / 2)
bit_and_halves zero y = omega (arith, zero-bit_and (y / 2), zero-bit_and y)
bit_and_halves (suc x) y = omega (
  arith,
  digits_halves (λ b. zero) min x y,
  bit_and-bitwise (suc x / 2) (y / 2),
  bit_and-bitwise (suc x) y,
)

pub zero-bit_or : (y : ℕ) → bit_or 0 y ≡ y
zero-bit_or y = bit_or-bitwise 0 y

pub bit_or_halves : (x y : ℕ) → bit_or x y ≡ max (x % 2) (y % 2) + 2 * bit_or (x / 2) (y / 2)
bit_or_halves zero y = omega (arith, zero-bit_or (y / 2), zero-bit_or y)
bit_or_halves (suc x) y = omega (
  arith,
  digits_halves (λ b. b) max x y,
  bit_or-bitwise (suc x / 2) (y / 2),
  bit_or-bitwise (suc x) y,
)

-- `x * 2 ^ (k + 1)` as twice `x * 2 ^ k`.
double : (q k : ℕ) → q * 2 ^ suc k ≡ 2 * (q * 2 ^ k)
double q k = omega (arith, ap (λ (t : ℕ). q * t) (pow-suc 2 k))

one_plus : (a : ℕ) → a * 1 + 0 ≡ a
one_plus a = omega arith

-- Both numbers split at bit `k`: the parts do not mix.
pub bit_and_split :
    (k a b c d : ℕ)
    → b < 2 ^ k
    → d < 2 ^ k
    → bit_and (a * 2 ^ k + b) (c * 2 ^ k + d) ≡ bit_and a c * 2 ^ k + bit_and b d
bit_and_split zero a zero c zero h i = omega (
  arith,
  ap (λ (t : ℕ). bit_and t (c * 1 + 0)) (one_plus a),
  ap (λ (t : ℕ). bit_and a t) (one_plus c),
)
bit_and_split zero a (suc b) c d h i = absurd (omega arith)
bit_and_split zero a zero c (suc d) h i = absurd (omega arith)
bit_and_split (suc k) a b c d h i = ground (
  arith,
  bit_and_halves (a * 2 ^ suc k + b) (c * 2 ^ suc k + d),
  double a k,
  double c k,
  double (bit_and a c) k,
  bit_and_halves b d,
  bit_and_split k a (b / 2) c (d / 2) (omega (arith, pow-suc 2 k)) (omega (arith, pow-suc 2 k)),
)

pub bit_or_split :
    (k a b c d : ℕ)
    → b < 2 ^ k
    → d < 2 ^ k
    → bit_or (a * 2 ^ k + b) (c * 2 ^ k + d) ≡ bit_or a c * 2 ^ k + bit_or b d
bit_or_split zero a zero c zero h i = omega (
  arith,
  ap (λ (t : ℕ). bit_or t (c * 1 + 0)) (one_plus a),
  ap (λ (t : ℕ). bit_or a t) (one_plus c),
)
bit_or_split zero a (suc b) c d h i = absurd (omega arith)
bit_or_split zero a zero c (suc d) h i = absurd (omega arith)
bit_or_split (suc k) a b c d h i = ground (
  arith,
  bit_or_halves (a * 2 ^ suc k + b) (c * 2 ^ suc k + d),
  double a k,
  double c k,
  double (bit_or a c) k,
  bit_or_halves b d,
  bit_or_split k a (b / 2) c (d / 2) (omega (arith, pow-suc 2 k)) (omega (arith, pow-suc 2 k)),
)

-- A number without ones in the second place, by the digits of the first.
no_ones : (n x : ℕ) → x ≤ n → (bit_and x 0 ≡ 0) × (bit_or x 0 ≡ x)
no_ones zero (suc x) h = absurd (omega arith)
no_ones n zero h = (zero-bit_and 0, zero-bit_or 0)
no_ones (suc n) (suc x) h =
    let half : (bit_and (suc x / 2) 0 ≡ 0) × (bit_or (suc x / 2) 0 ≡ suc x / 2) =
      no_ones n (suc x / 2) (omega arith) in
    (
      omega (arith, bit_and_halves (suc x) 0, half.0),
      omega (arith, bit_or_halves (suc x) 0, half.1),
    )

pub bit_and-zero : (x : ℕ) → bit_and x 0 ≡ 0
bit_and-zero x = (no_ones x x (omega arith)).0

pub bit_or-zero : (x : ℕ) → bit_or x 0 ≡ x
bit_or-zero x = (no_ones x x (omega arith)).1

-- A mask of `k` ones.
bit_and_ones : (k a : ℕ) → a < 2 ^ k → bit_and a (2 ^ k - 1) ≡ a
bit_and_ones zero zero h = refl
bit_and_ones zero (suc a) h = absurd (omega arith)
bit_and_ones (suc k) a h = ground (
  arith,
  pow-suc 2 k,
  one-le-pow k 2,
  bit_and_halves a (2 ^ suc k - 1),
  bit_and_ones k (a / 2) (omega (arith, pow-suc 2 k)),
)

-- Keeping the low `k` bits is the remainder by `2 ^ k`.
pub bit_and_mask : (k a : ℕ) → bit_and a (2 ^ k - 1) ≡ a % 2 ^ k
bit_and_mask k a = ground (
  arith,
  one-le-pow k 2,
  bit_and_split k (a / 2 ^ k) (a % 2 ^ k) 0 (2 ^ k - 1),
  bit_and-zero (a / 2 ^ k),
  bit_and_ones k (a % 2 ^ k),
)

-- Disjoint fields add up.
pub bit_or_disjoint : (k q r : ℕ) → r < 2 ^ k → bit_or (q * 2 ^ k) r ≡ q * 2 ^ k + r
bit_or_disjoint k q r h =
    ground (arith, one-le-pow k 2, bit_or_split k q 0 0 r, bit_or-zero q, zero-bit_or r)
