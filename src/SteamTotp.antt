-- ===== src/SteamTotp.antt =====
-- steamtotp/steamtotp.go: codes of the mobile authenticator, keys of confirmations and device IDs.
-- Strings are lists of bytes; an `int64` is kept as its 64 bits.
pub mod Code
pub mod DeviceId
use steamstacks.Prelude.{
  ℕ, zero, suc, ◌+◌, ◌-◌, ◌/◌, ◌%◌, ◌^◌, bit_and, Bool, true, false, List, [], ◌∷◌, ◌++◌, map,
  Option, none, some, Result, ok, err, panic, stuck, ◌>>=◌, ◌==◌, ltb, if◌then◌else◌, length, take,
  drop, get_elem?, get_or,
}
use steamstacks.Prelude.Bytes.{Bytes, slice, put_be, get_be}
use steamstacks.Prelude.Decimal.{format_uint}

-- The packages crypto/hmac, crypto/sha1, encoding/hex and encoding/base64.
pub record Library : Type 0 where
  pub hmac_sha1 : Bytes → Bytes → Bytes
  pub sha1 : Bytes → Bytes
  pub hex_decode : Bytes → Option Bytes
  pub base64_decode : Bytes → Option Bytes
  pub base64_encode : Bytes → Bytes

pub data SecretError : Type 0 where
  invalid_secret : SecretError

-- "23456789BCDFGHJKMNPQRTVWXY"
abbrev pub auth_code_chars : Bytes
auth_code_chars =
    50
    ∷ (51
        ∷ (52
            ∷ (53
                ∷ (54
                    ∷ (55
                        ∷ (56
                            ∷ (57
                                ∷ (66
                                    ∷ (67
                                        ∷ (68
                                            ∷ (70
                                                ∷ (71
                                                    ∷ (72
                                                        ∷ (74
                                                            ∷ (75
                                                            ∷ (77
                                                            ∷ (78
                                                            ∷ (80
                                                            ∷ (81
                                                            ∷ (82
                                                            ∷ (84
                                                            ∷ (86
                                                            ∷ (87
                                                            ∷ (88
                                                            ∷ (89 ∷ [])))))))))))))))))))))))))

-- A secret of 40 characters that is not hexadecimal is tried as base64.
unfoldable pub decode_secret : Library → Bytes → Result SecretError Bytes
decode_secret lib secret = elim (if length secret == 40 then lib.hex_decode secret else none) [
  | some b ↦ ok b
  | none ↦ elim (lib.base64_decode secret) [ some b ↦ ok b | none ↦ err invalid_secret ]
]

-- `timestamp / 30` as a `uint64`; division of a negative number rounds towards zero.
unfoldable pub interval_of : ℕ → ℕ
interval_of timestamp =
    if ltb timestamp (2 ^ 63) then timestamp / 30 else (2 ^ 64 - (2 ^ 64 - timestamp) / 30) % 2 ^ 64

-- RFC 4226's dynamic truncation; an index out of range panics.
unfoldable pub truncate : Bytes → Result SecretError ℕ
truncate hash = elim (get_elem? hash (length hash - 1)) [
  | none ↦ panic
  | some last ↦
      let offset = bit_and last 0x0f in
      if ltb (length hash) (offset + 4)
      then panic
      else ok (bit_and (get_be 0 (slice hash offset (offset + 4))) 0x7fffffff)
]

-- `for i := range result`
unfoldable pub code_chars : ℕ → ℕ → Bytes
code_chars zero code = []
code_chars (suc n) code = get_or auth_code_chars (code % 26) 0 ∷ code_chars n (code / 26)

-- `now` is what the clock answers.
unfoldable pub generate_auth_code : Library → ℕ → Bytes → ℕ → Result SecretError Bytes
generate_auth_code lib now shared_secret time_offset = do
  secret ← decode_secret lib shared_secret
  code ← truncate (lib.hmac_sha1 secret (put_be 8 (interval_of ((now + time_offset) % 2 ^ 64))))
  ok (code_chars 5 code)

unfoldable pub generate_confirmation_key : Library → Bytes → ℕ → Bytes → Bytes
generate_confirmation_key lib identity_secret timestamp tag =
    lib.base64_encode (lib.hmac_sha1 identity_secret (put_be 8 timestamp ++ tag))

abbrev hex_digit : ℕ → ℕ
hex_digit n = if ltb n 10 then 48 + n else 87 + n

-- `%x`
unfoldable pub hex : Bytes → Bytes
hex [] = []
hex (b ∷ bs) = hex_digit (b / 16) ∷ (hex_digit (b % 16) ∷ hex bs)

abbrev pub dash : Bytes
dash = 45 ∷ []

-- "android:"
abbrev pub android : Bytes
android = 97 ∷ (110 ∷ (100 ∷ (114 ∷ (111 ∷ (105 ∷ (100 ∷ (58 ∷ [])))))))

unfoldable pub get_device_id : Library → ℕ → Bytes
get_device_id lib steam_id64 =
    let s = hex (lib.sha1 (format_uint steam_id64)) in
    android
    ++ (slice s 0 8
        ++ (dash
            ++ (slice s 8 12
                ++ (dash
                    ++ (slice s 12 16 ++ (dash ++ (slice s 16 20 ++ (dash ++ slice s 20 32))))))))
