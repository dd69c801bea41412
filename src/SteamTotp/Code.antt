-- ===== src/SteamTotp/Code.antt =====
-- steamtotp/steamtotp.go: what a code is, against RFC 4226.
use steamstacks.Prelude.{
  ℕ, zero, suc, ◌+◌, ◌*◌, ◌-◌, ◌/◌, ◌%◌, ◌^◌, ◌≤◌, ◌<◌, ◌≡◌, refl, sym, ap, ◌∙◌, Bool, true, false,
  ◌&&◌, [], ◌∷◌, some, ok, ◌==◌, ==_iff, le→ltb, if◌then◌else◌, arith, length, get_elem?, get_or,
  Bool-cases, inl, inr,
}
use native.Mathlib.Nat.{
  pow-suc, one-le-pow, mod-add-div, mul_assoc, mod-lt, mul-add-mod_self_left, mod-eq_of_lt,
}
use steamstacks.Prelude.Bits.{bit_and_mask}
use steamstacks.Prelude.Bytes.{Bytes, slice, put_be, get_be}
use steamstacks.SteamTotp.{
  Library, auth_code_chars, decode_secret, interval_of, truncate, code_chars, generate_auth_code,
}

-- The place of a character in the alphabet, and the number that a code spells in base 26, its first
-- character the lowest digit.
abbrev index_in : Bytes → ℕ → ℕ
index_in [] c = 0
index_in (x ∷ xs) c = if x == c then 0 else suc (index_in xs c)

abbrev pub spelled : Bytes → ℕ
spelled [] = 0
spelled (c ∷ cs) = index_in auth_code_chars c + 26 * spelled cs

abbrev below : ℕ → (ℕ → Bool) → Bool
below zero p = true
below (suc n) p = p n && below n p

below_lem : (n : ℕ) (p : ℕ → Bool) (i : ℕ) → below n p ≡ true → i < n → p i ≡ true
below_lem zero p i h k = absurd (omega arith)
below_lem (suc n) p i h k = elim (Bool-cases (i == n)) [
  | inl e ↦ rw ((==_iff i n).0 e) (first (p n) (below n p) h)
  | inr e ↦ below_lem n p i (second (p n) (below n p) h) (ground arith)
]
  where
    first : (a b : Bool) → (a && b) ≡ true → a ≡ true
    first true b q = refl
    first false b q = q

    second : (a b : Bool) → (a && b) ≡ true → b ≡ true
    second true b q = q
    second false b q = cc

index_in-get_or : (i : ℕ) → i < 26 → index_in auth_code_chars (get_or auth_code_chars i 0) ≡ i
index_in-get_or i h =
    (==_iff _ i).0
      (below_lem 26 (λ j. index_in auth_code_chars (get_or auth_code_chars j 0) == j) i refl h)

low_digit : (m n : ℕ) → 1 ≤ m → n % 26 + 26 * (n / 26 % m) ≡ n % (26 * m)
low_digit m n h = sym (
    ap (λ t. t % (26 * m)) whole
    ∙ (mul-add-mod_self_left (26 * m) (n / 26 / m) low ∙ mod-eq_of_lt fits))
  where
    low : ℕ
    low = n % 26 + 26 * (n / 26 % m)

    whole : n ≡ 26 * m * (n / 26 / m) + low
    whole = omega (arith, mod-add-div (n / 26) m, mul_assoc 26 m (n / 26 / m))

    fits : low < 26 * m
    fits = omega (arith, mod-lt (n / 26) {m = m} h)

power : (k : ℕ) → 26 * 26 ^ k ≡ 26 ^ suc k
power k = omega (arith, pow-suc 26 k)

spelled-code_chars : (k n : ℕ) → spelled (code_chars k n) ≡ n % 26 ^ k
unfolding code_chars
spelled-code_chars zero n = omega arith
spelled-code_chars (suc k) n =
    rw (index_in-get_or (n % 26) (omega arith), spelled-code_chars k (n / 26))
      (low_digit (26 ^ k) n (one-le-pow k 26 (omega arith)) ∙ ap (λ t. n % t) (power k))

length-code_chars : (k n : ℕ) → length (code_chars k n) ≡ k
unfolding code_chars
length-code_chars zero n = refl
length-code_chars (suc k) n = ap suc (length-code_chars k (n / 26))

-- The truncated value of RFC 4226: four bytes at the offset that the low four bits of the last byte
-- give, without the top bit.
abbrev pub truncated : Bytes → ℕ
truncated hash =
    let offset = get_or hash (length hash - 1) 0 % 16 in
    get_be 0 (slice hash offset (offset + 4)) % 2 ^ 31

get_elem?-last :
    (hash : Bytes) (i : ℕ) → i < length hash → get_elem? hash i ≡ some (get_or hash i 0)
get_elem?-last [] i h = absurd (omega arith)
get_elem?-last (b ∷ bs) zero h = refl
get_elem?-last (b ∷ bs) (suc i) h = get_elem?-last bs i (omega arith)

truncate_lem : (hash : Bytes) → length hash ≡ 20 → truncate hash ≡ ok (truncated hash)
unfolding truncate
truncate_lem hash h =
    rw (get_elem?-last hash (length hash - 1) (omega arith), truncate)
      (rw
        (
          bit_and_mask 4 (get_or hash (length hash - 1) 0),
          le→ltb (length hash) (get_or hash (length hash - 1) 0 % 16 + 4) (omega arith),
        )
        (ap ok (bit_and_mask 31 _)))

-- If the secret decodes and HMAC-SHA1 gives 20 bytes, a code is returned whatever the clock: it
-- has five characters, and spells in base 26, the lowest digit first, the truncated HMAC of the
-- interval modulo 26 ^ 5.
pub generate_auth_code-spelled :
    (lib : Library) (now : ℕ) (shared_secret secret : Bytes) (time_offset : ℕ)
    → ((key message : Bytes) → length (lib.hmac_sha1 key message) ≡ 20)
    → decode_secret lib shared_secret ≡ ok secret
    → (code : Bytes) × (generate_auth_code lib now shared_secret time_offset ≡ ok code)
      × (length code ≡ 5)
      × (spelled code
          ≡ truncated (lib.hmac_sha1 secret (put_be 8 (interval_of ((now + time_offset) % 2 ^ 64))))
            % 26 ^ 5)
unfolding generate_auth_code
generate_auth_code-spelled lib now shared_secret secret time_offset h k = (
  code_chars 5 (truncated hash),
  rw (k, truncate_lem hash (h secret _), generate_auth_code) refl,
  length-code_chars 5 (truncated hash),
  spelled-code_chars 5 (truncated hash),
)
  where
    hash : Bytes
    hash = lib.hmac_sha1 secret (put_be 8 (interval_of ((now + time_offset) % 2 ^ 64)))
