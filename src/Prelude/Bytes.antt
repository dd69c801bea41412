-- ===== src/Prelude/Bytes.antt =====
-- Byte slices as lists of numbers, and `encoding/binary`: fixed-width numbers in little-endian and
-- big-endian order.
use Prim.Native.Nat.{ℕ, zero, suc, ◌+◌, ◌*◌, ◌/◌, ◌%◌, ◌^◌, ◌<◌, ◌≤◌}
use mathlib.Core.Path.{◌≡◌, refl, ap}
use mathlib.Core.List.{List, [], ◌∷◌}
use native.Mathlib.Nat.{pow-suc, one-le-pow}
use native.Mathlib.Omega.{arith}
use steamstacks.Prelude.Lists.{
  length, take, drop, All, All-take, All-drop, length-take, length-drop,
}

abbrev pub Bytes : Type 0
Bytes = List ℕ

abbrev pub IsByte : ℕ → Type 0
IsByte b = b < 256

abbrev pub IsU32 : ℕ → Type 0
IsU32 v = v < 2 ^ 32

abbrev pub IsU64 : ℕ → Type 0
IsU64 v = v < 2 ^ 64

-- `b[lo:hi]`, for `lo ≤ hi ≤ len(b)`.
abbrev pub slice : Bytes → ℕ → ℕ → Bytes
slice b lo hi = drop lo (take hi b)

-- `binary.LittleEndian.PutUint…` over `k` bytes.
unfoldable pub put_le : ℕ → ℕ → Bytes
put_le zero v = []
put_le (suc k) v = (v % 256) ∷ put_le k (v / 256)

-- `binary.LittleEndian.Uint…` of a slice of the number's width.
unfoldable pub get_le : Bytes → ℕ
get_le [] = 0
get_le (b ∷ bs) = b + 256 * get_le bs

-- `binary.BigEndian.PutUint…` over `k` bytes.
unfoldable pub put_be : ℕ → ℕ → Bytes
put_be zero v = []
put_be (suc k) v = (v / 256 ^ k % 256) ∷ put_be k v

-- `binary.BigEndian.Uint…`, read on from `acc`.
unfoldable pub get_be : ℕ → Bytes → ℕ
get_be acc [] = acc
get_be acc (b ∷ bs) = get_be (acc * 256 + b) bs

pub length-put_le : (k v : ℕ) → length (put_le k v) ≡ k
unfolding put_le
length-put_le zero v = refl
length-put_le (suc k) v = ap suc (length-put_le k (v / 256))

-- A number that fits is read back.
pub get_le-put_le : (k v : ℕ) → v < 256 ^ k → get_le (put_le k v) ≡ v
unfolding put_le get_le
get_le-put_le zero v h = omega arith
get_le-put_le (suc k) v h = omega (arith, get_le-put_le k (v / 256) (omega (arith, pow-suc 256 k)))

pub length-put_be : (k v : ℕ) → length (put_be k v) ≡ k
unfolding put_be
length-put_be zero v = refl
length-put_be (suc k) v = ap suc (length-put_be k v)

pub put_le-IsByte : (k v : ℕ) → All IsByte (put_le k v)
unfolding put_le
put_le-IsByte zero v = tt
put_le-IsByte (suc k) v = (omega arith, put_le-IsByte k (v / 256))

pub put_be-IsByte : (k v : ℕ) → All IsByte (put_be k v)
unfolding put_be
put_be-IsByte zero v = tt
put_be-IsByte (suc k) v = (omega arith, put_be-IsByte k v)

-- A number of at most `k` bytes.
pub get_le_width : (k : ℕ) (bs : Bytes) → All IsByte bs → length bs ≤ k → get_le bs < 256 ^ k
unfolding get_le
get_le_width k [] h len = one-le-pow k 256 (omega arith)
get_le_width zero (b ∷ bs) h len = absurd (omega arith)
get_le_width (suc k) (b ∷ bs) h len =
    omega (arith, get_le_width k bs h.1 (omega arith), h.0, pow-suc 256 k)

-- `Uint32` of a slice of four bytes.
pub get_le-take_u32 : (frame : Bytes) → All IsByte frame → get_le (take 4 frame) < 2 ^ 32
get_le-take_u32 frame h =
    get_le_width 4 (take 4 frame) (All-take IsByte 4 frame h) (omega (arith, length-take 4 frame))

pub get_le-slice_u32 :
    (lo : ℕ) (frame : Bytes) → All IsByte frame → get_le (slice frame lo (lo + 4)) < 2 ^ 32
get_le-slice_u32 lo frame h =
    get_le_width 4 (slice frame lo (lo + 4))
      (All-drop IsByte lo (take (lo + 4) frame) (All-take IsByte (lo + 4) frame h))
      (omega (arith, length-drop lo (take (lo + 4) frame), length-take (lo + 4) frame))
