-- ===== src/SteamId/Fields.antt =====
-- The setters and getters against the layout of an identifier: universe (8 bits), type (4),
-- instance (20) and account (32).
use steamstacks.Prelude.{ℕ, ◌+◌, ◌-◌, ◌*◌, ◌/◌, ◌%◌, ◌^◌, ◌<◌, ◌≡◌, bit_and, bit_or, arith}
use steamstacks.Prelude.Bits.{
  bit_and_split, bit_or_split, bit_and_mask, bit_and-zero, bit_or-zero, zero-bit_or,
}
use steamstacks.SteamId.{
  set_universe, universe, set_type, type_of, set_instance, set_account_id, account_id,
}

-- The identifier with the given parts.
abbrev pub pack : ℕ → ℕ → ℕ → ℕ → ℕ
pack u t i a = ((u * 16 + t) * 2 ^ 20 + i) * 2 ^ 32 + a

-- `set_universe` takes the low eight bits of its argument and leaves the other parts alone.
pub set_universe-pack :
    (u t i a v : ℕ)
    → u < 256
    → t < 16
    → i < 2 ^ 20
    → a < 2 ^ 32
    → v < 2 ^ 32
    → set_universe (pack u t i a) v ≡ pack (v % 256) t i a
unfolding set_universe
set_universe-pack u t i a v hu ht hi ha hv = ground (
  arith,
  bit_and_mask 56 (pack u t i a),
  bit_or_split 56 0 (pack 0 t i a) (v % 256) 0,
  zero-bit_or (v % 256),
  bit_or-zero (pack 0 t i a),
)

-- Clearing bits 52 to 55.
clear_type :
    (u t r : ℕ)
    → u < 256
    → t < 16
    → r < 2 ^ 52
    → bit_and ((u * 16 + t) * 2 ^ 52 + r) (0xFF0 * 2 ^ 52 + (2 ^ 52 - 1)) ≡ u * 16 * 2 ^ 52 + r
clear_type u t r hu ht hr = ground (
  arith,
  bit_and_split 52 (u * 16 + t) r 0xFF0 (2 ^ 52 - 1),
  bit_and_split 4 u t 0xFF 0,
  bit_and_mask 8 u,
  bit_and-zero t,
  bit_and_mask 52 r,
)

-- On an identifier put together from its parts, `SetType` with a 32-bit argument writes its low
-- four bits as the type, and the eight bits beyond them are added to the universe by a bitwise or.
pub set_type-pack :
    (u t i a v : ℕ)
    → u < 256
    → t < 16
    → i < 2 ^ 20
    → a < 2 ^ 32
    → v < 2 ^ 32
    → set_type (pack u t i a) v ≡ pack (bit_or u (v / 16 % 256)) (v % 16) i a
unfolding set_type
set_type-pack u t i a v hu ht hi ha hv = ground (
  arith,
  clear_type u t (pack 0 0 i a),
  bit_or_split 52 (u * 16) (pack 0 0 i a) (v % 4096) 0,
  bit_or-zero (pack 0 0 i a),
  bit_or_split 4 u 0 (v / 16 % 256) (v % 16),
  zero-bit_or (v % 16),
)

-- On an identifier put together from its parts, `SetInstance` with a 32-bit argument writes its
-- low twenty bits as the instance, and the bits beyond them are added to type and universe by a
-- bitwise or.
pub set_instance-pack :
    (u t i a v : ℕ)
    → u < 256
    → t < 16
    → i < 2 ^ 20
    → a < 2 ^ 32
    → v < 2 ^ 32
    → set_instance (pack u t i a) v
      ≡ (bit_or (u * 16 + t) (v / 2 ^ 20) * 2 ^ 20 + v % 2 ^ 20) * 2 ^ 32 + a
unfolding set_instance
set_instance-pack u t i a v hu ht hi ha hv = ground (
  arith,
  bit_and_split 32 ((u * 16 + t) * 2 ^ 20 + i) a (0xFFF * 2 ^ 20) (2 ^ 32 - 1),
  bit_and_split 20 (u * 16 + t) i 0xFFF 0,
  bit_and_mask 12 (u * 16 + t),
  bit_and-zero i,
  bit_and_mask 32 a,
  bit_or_split 32 ((u * 16 + t) * 2 ^ 20) a v 0,
  bit_or-zero a,
  bit_or_split 20 (u * 16 + t) 0 (v / 2 ^ 20) (v % 2 ^ 20),
  zero-bit_or (v % 2 ^ 20),
)

pub set_account_id-pack :
    (u t i a v : ℕ)
    → u < 256
    → t < 16
    → i < 2 ^ 20
    → a < 2 ^ 32
    → v < 2 ^ 32
    → set_account_id (pack u t i a) v ≡ pack u t i v
unfolding set_account_id
set_account_id-pack u t i a v hu ht hi ha hv = ground (
  arith,
  bit_and_split 32 ((u * 16 + t) * 2 ^ 20 + i) a (2 ^ 32 - 1) 0,
  bit_and_mask 32 ((u * 16 + t) * 2 ^ 20 + i),
  bit_and-zero a,
  bit_or_split 32 ((u * 16 + t) * 2 ^ 20 + i) 0 0 v,
  bit_or-zero ((u * 16 + t) * 2 ^ 20 + i),
  zero-bit_or v,
)

-- The getters read the parts of any identifier.
pub getters-pack :
    (u t i a : ℕ)
    → u < 256
    → t < 16
    → i < 2 ^ 20
    → a < 2 ^ 32
    → (universe (pack u t i a) ≡ u) × (type_of (pack u t i a) ≡ t) × (account_id (pack u t i a) ≡ a)
unfolding universe type_of account_id
getters-pack u t i a hu ht hi ha =
    ground (arith, bit_and_mask 4 (pack u t i a / 2 ^ 52), bit_and_mask 32 (pack u t i a))

pub account_id-mod : (s : ℕ) → account_id s ≡ s % 2 ^ 32
unfolding account_id
account_id-mod s = ground (arith, bit_and_mask 32 s)

-- On an identifier put together from its parts, with a 32-bit argument, `SetType` writes its low
-- four bits as the type and `SetInstance` its low twenty bits as the instance; the bits beyond them
-- are added, by a bitwise or, to the universe, and to type and universe.
pub setters-pack :
    (u t i a v : ℕ)
    → u < 256
    → t < 16
    → i < 2 ^ 20
    → a < 2 ^ 32
    → v < 2 ^ 32
    → (set_type (pack u t i a) v ≡ pack (bit_or u (v / 16 % 256)) (v % 16) i a)
      × (set_instance (pack u t i a) v
          ≡ (bit_or (u * 16 + t) (v / 2 ^ 20) * 2 ^ 20 + v % 2 ^ 20) * 2 ^ 32 + a)
setters-pack u t i a v hu ht hi ha hv =
    (set_type-pack u t i a v hu ht hi ha hv, set_instance-pack u t i a v hu ht hi ha hv)
