-- ===== src/SteamClient/Crypto/Padding.antt =====
-- PKCS7 padding: what is padded is unpadded, and nothing else is.
use steamstacks.Prelude.{
  ℕ, zero, suc, ◌+◌, ◌-◌, ◌*◌, ◌/◌, ◌%◌, ◌<◌, ◌≤◌, ◌≡◌, refl, ap, sym, ◌∙◌, true, [], ◌∷◌, ◌++◌, ok,
  le→ltb, ==_ne, ==_refl, arith, length, take, drop, get_or, replicate, length-append,
  length-replicate, length-drop, length-take, take-append, drop-append, take-append-drop,
}
use native.Mathlib.Nat.{mul-add-mod_self_left, div-add-mod}
use steamstacks.Prelude.Bytes.{Bytes}
use steamstacks.SteamClient.Crypto.{pkcs7_pad, pkcs7_unpad, all_equal}

get_or-append_last : (xs ys : Bytes) (i : ℕ) → get_or (xs ++ ys) (length xs + i) 0 ≡ get_or ys i 0
get_or-append_last [] ys i = ap (λ j. get_or ys j 0) (omega arith)
get_or-append_last (x ∷ xs) ys i =
    ap (λ j. get_or (x ∷ (xs ++ ys)) j 0) (shift (length xs) i) ∙ get_or-append_last xs ys i
  where
    shift : (n i : ℕ) → suc n + i ≡ suc (n + i)
    shift n i = omega arith

get_or-replicate : (n i v : ℕ) → i < n → get_or (replicate n v) i 0 ≡ v
get_or-replicate zero i v h = absurd (omega arith)
get_or-replicate (suc n) zero v h = refl
get_or-replicate (suc n) (suc i) v h = get_or-replicate n i v (omega arith)

all_equal-replicate : (n v : ℕ) → all_equal v (replicate n v) ≡ true
unfolding all_equal
all_equal-replicate zero v = refl
all_equal-replicate (suc n) v = rw (==_refl v) (all_equal-replicate n v)

replicate-all_equal : (v : ℕ) (bs : Bytes) → all_equal v bs ≡ true → bs ≡ replicate (length bs) v
unfolding all_equal
replicate-all_equal v [] h = refl
replicate-all_equal v (b ∷ bs) h = ground (arith, replicate-all_equal v bs)

unpad_padded :
    (m : Bytes) (size n : ℕ)
    → 1 ≤ n
    → n ≤ size
    → size < 256
    → (length m + n) % size ≡ 0
    → pkcs7_unpad (m ++ replicate n n) size ≡ ok m
unfolding pkcs7_unpad
unpad_padded m size n pos le small whole = rw (
  len,
  last,
  start,
  drop-append m (replicate n n) (length m) refl,
  take-append m (replicate n n) (length m) refl,
  byte,
  all_equal-replicate n n,
  whole,
  ==_ne (length m + n) 0 (omega arith),
  ==_ne n 0 (omega arith),
  le→ltb size n le,
)
  where
    len : length (m ++ replicate n n) ≡ length m + n
    len = omega (arith, length-append m (replicate n n), length-replicate n n)

    before : length m + n - 1 ≡ length m + (n - 1)
    before = omega arith

    last : get_or (m ++ replicate n n) (length m + n - 1) 0 ≡ n
    last =
        rw before (
          get_or-append_last m (replicate n n) (n - 1) ∙ get_or-replicate n (n - 1) n (omega arith))

    start : length m + n - n ≡ length m
    start = omega arith

    byte : n % 256 ≡ n
    byte = omega arith

-- The padding fills up the last block.
fill : (len size : ℕ) → 0 < size → (len + (size - len % size)) % size ≡ 0
fill len size h = grind arith

-- For a block size from 1 to 255, unpadding undoes padding.
pub pkcs7_unpad-pkcs7_pad :
    (m : Bytes) (size : ℕ) → 0 < size → size < 256 → pkcs7_unpad (pkcs7_pad m size) size ≡ ok m
unfolding pkcs7_pad
pkcs7_unpad-pkcs7_pad m size h k =
    let n = size - length m % size in
    let byte : n % 256 ≡ n = omega arith in
    rw byte (unpad_padded m size n (grind arith) (omega arith) k (fill (length m) size h))

-- What the tests of `pkcs7_unpad` say of an input that passes them.
unpad_tests :
    (d m : Bytes) (size : ℕ)
    → pkcs7_unpad d size ≡ ok m
    → let n = get_or d (length d - 1) 0 in
      (1 ≤ length d)
      × (length d % size ≡ 0)
      × (1 ≤ n)
      × (n ≤ size)
      × (all_equal (n % 256) (drop (length d - n) d) ≡ true)
      × (m ≡ take (length d - n) d)
unfolding pkcs7_unpad
unpad_tests d m size e = ground arith

-- A whole number of blocks without the last `n` bytes lacks `n` bytes to a whole number.
lack_blocks : (q n size : ℕ) → 1 ≤ n → n ≤ size → size - (size * suc q - n) % size ≡ n
lack_blocks q n size pos le =
    let short : size * suc q - n ≡ size * q + (size - n) = omega arith in
    rw (short, mul-add-mod_self_left size q (size - n)) (grind arith)

lack : (len n size : ℕ) → 1 ≤ len → len % size ≡ 0 → 1 ≤ n → n ≤ size → size - (len - n) % size ≡ n
lack len n size h w pos le = go (len / size) (omega (arith, div-add-mod len size, w))
  where
    go : (q : ℕ) → len ≡ size * q → size - (len - n) % size ≡ n
    go zero e = absurd (omega arith)
    go (suc q) e = rw e (lack_blocks q n size pos le)

-- For a block size below 256, whatever data unpads to a message is that message padded.
pub pkcs7_pad-pkcs7_unpad :
    (d m : Bytes) (size : ℕ) → size < 256 → pkcs7_unpad d size ≡ ok m → pkcs7_pad m size ≡ d
unfolding pkcs7_pad
pkcs7_pad-pkcs7_unpad d m size small e =
    let (long, whole, pos, le, same, front) = unpad_tests d m size e in
    let n = get_or d (length d - 1) 0 in
    let blocks : size ≤ length d = grind arith in
    let len : length m ≡ length d - n = ground (arith, length-take (length d - n) d) in
    let pad : size - length m % size ≡ n = rw len (lack (length d) n size long whole pos le) in
    let byte : n % 256 ≡ n = omega arith in
    let tail : length (drop (length d - n) d) ≡ n = omega (arith, length-drop (length d - n) d) in
    rw (pad, byte, front)
      (ap (λ t. take (length d - n) d ++ t)
          (sym (rw (tail, byte) at (replicate-all_equal (n % 256) (drop (length d - n) d) same)))
        ∙ take-append-drop (length d - n) d)
