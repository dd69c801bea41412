-- ===== src/Prelude/Xor.antt =====
-- `bit_xor` at variables: it is undone by itself, and keeps bytes bytes.
use Prim.Native.Nat.{
  ℕ, zero, suc, ◌+◌, ◌*◌, ◌/◌, ◌%◌, ◌^◌, ◌≤◌, ◌<◌, bit_xor, differ, bit_xor-bitwise,
}
use mathlib.Core.Path.{◌≡◌, refl, ap}
use mathlib.Core.List.{[], ◌∷◌}
use native.Mathlib.Nat.{pow-suc}
use native.Mathlib.Omega.{arith}
use steamstacks.Prelude.Bits.{digits_halves}
use steamstacks.Prelude.Lists.{length, All}
use steamstacks.Prelude.Bytes.{Bytes, IsByte}

zero-bit_xor : (b : ℕ) → bit_xor 0 b ≡ b
zero-bit_xor b = bit_xor-bitwise 0 b

differ_bits : (x y : ℕ) → x < 2 → y < 2 → differ x y ≡ (x + y) % 2
differ_bits zero y h k = omega arith
differ_bits (suc zero) zero h k = refl
differ_bits (suc zero) (suc zero) h k = refl
differ_bits (suc zero) (suc (suc y)) h k = absurd (omega arith)
differ_bits (suc (suc x)) y h k = absurd (omega arith)

bit_xor_step : (a b : ℕ) → bit_xor a b ≡ bit_xor (a / 2) (b / 2) * 2 + (a % 2 + b % 2) % 2
bit_xor_step zero b = omega (arith, zero-bit_xor b, zero-bit_xor (b / 2))
bit_xor_step (suc a) b = omega (
  arith,
  bit_xor-bitwise (suc a) b,
  bit_xor-bitwise (suc a / 2) (b / 2),
  differ_bits (suc a % 2) (b % 2) (omega arith) (omega arith),
  digits_halves (λ c. c) differ a b,
)

-- By the digits of the first number.
bit_xor_twice_fuel : (n a b : ℕ) → a ≤ n → bit_xor a (bit_xor a b) ≡ b
bit_xor_twice_fuel n zero b h = rw (zero-bit_xor b, zero-bit_xor b)
bit_xor_twice_fuel zero (suc a) b h = absurd (omega arith)
bit_xor_twice_fuel (suc n) (suc a) b h =
    let inner = bit_xor (suc a) b in
    let half : inner / 2 ≡ bit_xor (suc a / 2) (b / 2) = omega (arith, bit_xor_step (suc a) b) in
    omega (
      arith,
      bit_xor_step (suc a) b,
      bit_xor_step (suc a) inner,
      ap (bit_xor (suc a / 2)) half,
      bit_xor_twice_fuel n (suc a / 2) (b / 2) (omega arith),
    )

pub bit_xor_twice : (a b : ℕ) → bit_xor a (bit_xor a b) ≡ b
bit_xor_twice a b = bit_xor_twice_fuel a a b (omega arith)

bit_xor_width : (k a b : ℕ) → a < 2 ^ k → b < 2 ^ k → bit_xor a b < 2 ^ k
bit_xor_width zero zero zero h i = omega (arith, zero-bit_xor 0)
bit_xor_width zero (suc a) b h i = absurd (omega arith)
bit_xor_width zero zero (suc b) h i = absurd (omega arith)
bit_xor_width (suc k) a b h i = omega (
  arith,
  pow-suc 2 k,
  bit_xor_step a b,
  bit_xor_width k (a / 2) (b / 2) (omega (arith, pow-suc 2 k)) (omega (arith, pow-suc 2 k)),
)

-- Two blocks, byte by byte; the shorter one decides the length.
unfoldable pub xor_bytes : Bytes → Bytes → Bytes
xor_bytes [] ys = []
xor_bytes (x ∷ xs) [] = []
xor_bytes (x ∷ xs) (y ∷ ys) = bit_xor x y ∷ xor_bytes xs ys

pub xor_bytes_twice : (xs ys : Bytes) → length xs ≡ length ys → xor_bytes xs (xor_bytes xs ys) ≡ ys
unfolding xor_bytes
xor_bytes_twice [] [] h = refl
xor_bytes_twice [] (y ∷ ys) h = absurd (omega arith)
xor_bytes_twice (x ∷ xs) [] h = absurd (omega arith)
xor_bytes_twice (x ∷ xs) (y ∷ ys) h = rw (bit_xor_twice x y, xor_bytes_twice xs ys (omega arith))

pub length-xor_bytes :
    (xs ys : Bytes) → length xs ≡ length ys → length (xor_bytes xs ys) ≡ length ys
unfolding xor_bytes
length-xor_bytes [] [] h = refl
length-xor_bytes [] (y ∷ ys) h = absurd (omega arith)
length-xor_bytes (x ∷ xs) [] h = absurd (omega arith)
length-xor_bytes (x ∷ xs) (y ∷ ys) h = omega (arith, length-xor_bytes xs ys (omega arith))

pub xor_bytes-IsByte :
    (xs ys : Bytes) → All IsByte xs → All IsByte ys → All IsByte (xor_bytes xs ys)
unfolding xor_bytes
xor_bytes-IsByte [] ys h i = tt
xor_bytes-IsByte (x ∷ xs) [] h i = tt
xor_bytes-IsByte (x ∷ xs) (y ∷ ys) h i =
    (bit_xor_width 8 x y h.0 i.0, xor_bytes-IsByte xs ys h.1 i.1)
