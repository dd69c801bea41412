-- ===== src/Tests/Codes.antt =====
-- Codes and device IDs at concrete inputs.
use steamstacks.Prelude.{◌+◌, ◌%◌, ◌^◌, ◌≡◌, refl, [], ◌∷◌, none, some, ok, length, replicate}
use steamstacks.Prelude.Bytes.{Bytes, put_be}
use steamstacks.SteamTotp.{Library, decode_secret, interval_of, generate_auth_code}
use steamstacks.SteamTotp.Code.{spelled, truncated, generate_auth_code-spelled}

-- Digests of twenty bytes 171, and a base64 that leaves its text as it is.
abbrev library : Library
library = record {
  hmac_sha1 = λ key m. replicate 20 171;
  sha1 = λ b. replicate 20 171;
  hex_decode = λ b. none;
  base64_decode = λ b. some b;
  base64_encode = λ b. b;
}

abbrev secret : Bytes
secret = 1 ∷ (2 ∷ [])

secret_decoded : decode_secret library secret ≡ ok secret
unfolding decode_secret
secret_decoded = refl

generate_auth_code-spelled_example :
    (code : Bytes) × (generate_auth_code library 1700000000 secret 3 ≡ ok code)
    × (length code ≡ 5)
    × (spelled code
        ≡ truncated (library.hmac_sha1 secret (put_be 8 (interval_of ((1700000000 + 3) % 2 ^ 64))))
          % 26 ^ 5)
generate_auth_code-spelled_example =
    generate_auth_code-spelled library 1700000000 secret secret 3 (λ key m. refl) secret_decoded
