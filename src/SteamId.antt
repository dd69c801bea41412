-- ===== src/SteamId.antt =====
-- steamid/steamid.go: the fields of a 64-bit identifier. An `int32` argument is its bit pattern, a
-- number below 2 ^ 32.
pub mod Text
pub mod Fields
pub mod RoundTrip
pub mod Steam3
pub mod Formats
use steamstacks.Prelude.{ℕ, ◌+◌, ◌-◌, ◌*◌, ◌/◌, ◌%◌, ◌^◌, bit_and, bit_or, ltb, if◌then◌else◌}

-- `uint64(x)` of an `int32`: the sign is extended.
abbrev pub sign_extend : ℕ → ℕ
sign_extend x = if ltb x (2 ^ 31) then x else x + (2 ^ 64 - 2 ^ 32)

-- `x << k` and `^x` of a `uint64`.
abbrev pub shl64 : ℕ → ℕ → ℕ
shl64 x k = x * 2 ^ k % 2 ^ 64

abbrev pub not64 : ℕ → ℕ
not64 x = 2 ^ 64 - 1 - x

unfoldable pub set_universe : ℕ → ℕ → ℕ
set_universe s u = bit_or (bit_and s (not64 (0xFF * 2 ^ 56))) (shl64 (sign_extend u) 56)

unfoldable pub universe : ℕ → ℕ
universe s = s / 2 ^ 56 % 2 ^ 32

unfoldable pub set_type : ℕ → ℕ → ℕ
set_type s t = bit_or (bit_and s (not64 (0xF * 2 ^ 52))) (shl64 (sign_extend t) 52)

unfoldable pub type_of : ℕ → ℕ
type_of s = bit_and (s / 2 ^ 52) 0xF % 2 ^ 32

unfoldable pub set_instance : ℕ → ℕ → ℕ
set_instance s i = bit_or (bit_and s (not64 (0xFFFFF * 2 ^ 32))) (shl64 (sign_extend i) 32)

unfoldable pub set_account_id : ℕ → ℕ → ℕ
set_account_id s a = bit_or (bit_and s (not64 0xFFFFFFFF)) a

unfoldable pub account_id : ℕ → ℕ
account_id s = bit_and s 0xFFFFFFFF % 2 ^ 32
