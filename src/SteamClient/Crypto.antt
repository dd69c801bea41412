-- ===== src/SteamClient/Crypto.antt =====
-- steamclient/crypto.go: the cipher of a TCP channel, and PKCS7 padding. AES, HMAC-SHA1 and the
-- random source are parameters; the CBC mode of `crypto/cipher` is written out.
pub mod Padding
pub mod Cbc
pub mod Channel
pub mod Authentic
use steamstacks.Prelude.{
  ℕ, zero, suc, ◌+◌, ◌-◌, ◌/◌, ◌%◌, ◌≡◌, Bool, true, false, ◌&&◌, ◌||◌, not, List, [], ◌∷◌, ◌++◌,
  Option, none, some, Result, ok, err, panic, stuck, ◌>>=◌, wrap_err, ltb, ◌==◌, if◌then◌else◌,
  length, take, drop, get_or, replicate, All,
}
use steamstacks.Prelude.Bytes.{Bytes, IsByte}
use steamstacks.Prelude.Xor.{xor_bytes}
use steamstacks.SteamClient.Message.{or_fail}

-- The primitives of Go's crypto packages. `random n` is what `rand.Read` fills `n` bytes with.
pub record Primitives : Type 0 where
  pub aes_encrypt : Bytes → Bytes → Bytes
  pub aes_decrypt : Bytes → Bytes → Bytes
  pub hmac_sha1 : Bytes → Bytes → Bytes
  pub random : ℕ → Option Bytes

-- A block of sixteen bytes.
pub record IsBlock (b : Bytes) : Type 0 where
  pub of_bytes : All IsByte b
  pub sixteen : length b ≡ 16

-- What is documented of them: AES maps blocks to blocks and back, a SHA1 digest has twenty bytes,
-- and a read of the random source fills the slice.
pub record Documented (p : Primitives) : Type 0 where
  pub encrypt_block : (key b : Bytes) → IsBlock b → IsBlock (p.aes_encrypt key b)
  pub decrypt-encrypt_block :
      (key b : Bytes) → IsBlock b → p.aes_decrypt key (p.aes_encrypt key b) ≡ b
  pub digest_bytes : (key m : Bytes) → All IsByte (p.hmac_sha1 key m)
  pub digest_length : (key m : Bytes) → length (p.hmac_sha1 key m) ≡ 20
  pub random_bytes : (n : ℕ) (b : Bytes) → p.random n ≡ some b → All IsByte b
  pub random_length : (n : ℕ) (b : Bytes) → p.random n ≡ some b → length b ≡ n

pub data CryptoError : Type 0 where
  session_key_length : CryptoError
  rand_read : CryptoError
  ciphertext_too_short : CryptoError
  not_block_aligned : CryptoError
  invalid_length : CryptoError
  invalid_padding_value : CryptoError
  invalid_padding_byte : CryptoError
  hmac_failed : CryptoError

unfoldable pub pkcs7_pad : Bytes → ℕ → Bytes
pkcs7_pad bytes block_size =
    let padding = block_size - length bytes % block_size in
    bytes ++ replicate padding (padding % 256)

-- The test of each byte of the padding.
unfoldable pub all_equal : ℕ → Bytes → Bool
all_equal v [] = true
all_equal v (b ∷ bs) = b == v && all_equal v bs

unfoldable pub pkcs7_unpad : Bytes → ℕ → Result CryptoError Bytes
pkcs7_unpad bytes block_size =
    let padding = get_or bytes (length bytes - 1) 0 in
    let start = length bytes - padding in
    if length bytes == 0 || not (length bytes % block_size == 0)
    then err invalid_length
    else if padding == 0 || ltb block_size padding
    then err invalid_padding_value
    else if all_equal (padding % 256) (drop start bytes)
    then ok (take start bytes)
    else err invalid_padding_byte

pub record ChannelCipher : Type 0 where
  pub key : Bytes
  pub hmac_secret : Bytes
  pub use_hmac : Bool

unfoldable pub new_channel_cipher : Bytes → Bool → Result CryptoError ChannelCipher
new_channel_cipher session_key use_hmac =
    if not (length session_key == 32)
    then err session_key_length
    else ok (record {
      key = session_key;
      hmac_secret = if use_hmac then take 16 session_key else [];
      use_hmac = use_hmac;
    })

-- `hmac.Equal`
unfoldable pub bytes_equal : Bytes → Bytes → Bool
bytes_equal [] [] = true
bytes_equal [] (y ∷ ys) = false
bytes_equal (x ∷ xs) [] = false
bytes_equal (x ∷ xs) (y ∷ ys) = x == y && bytes_equal xs ys

module _ (p : Primitives) where
  -- `CryptBlocks` over the given number of blocks; `iv` is the block that the next one is mixed with.
  unfoldable pub cbc_encrypt : Bytes → ℕ → Bytes → Bytes → Bytes
  cbc_encrypt key zero iv text = []
  cbc_encrypt key (suc n) iv text =
      let c = p.aes_encrypt key (xor_bytes iv (take 16 text)) in
      c ++ cbc_encrypt key n c (drop 16 text)

  unfoldable pub cbc_decrypt : Bytes → ℕ → Bytes → Bytes → Bytes
  cbc_decrypt key zero iv text = []
  cbc_decrypt key (suc n) iv text =
      xor_bytes iv (p.aes_decrypt key (take 16 text))
      ++ cbc_decrypt key n (take 16 text) (drop 16 text)

  -- With HMAC, the three random bytes stand behind the first thirteen of the digest.
  unfoldable pub choose_iv : ChannelCipher → Bytes → Result CryptoError Bytes
  choose_iv c plaintext =
      if c.use_hmac
      then (or_fail (p.random 3) rand_read >>= λ random3.
          ok (take 13 (p.hmac_sha1 c.hmac_secret (random3 ++ plaintext)) ++ random3))
      else or_fail (p.random 16) rand_read

  unfoldable pub encrypt : ChannelCipher → Bytes → Result CryptoError Bytes
  encrypt c plaintext = choose_iv c plaintext >>= λ iv.
      let padded = pkcs7_pad plaintext 16 in
      ok (p.aes_encrypt c.key iv ++ cbc_encrypt c.key (length padded / 16) iv padded)

  -- The check of the digest in the IV.
  unfoldable pub verify : ChannelCipher → Bytes → Bytes → Result CryptoError Bytes
  verify c iv plaintext =
      if c.use_hmac
        && not (
            bytes_equal (take 13 iv)
              (take 13 (p.hmac_sha1 c.hmac_secret (drop 13 iv ++ plaintext))))
      then err hmac_failed
      else ok plaintext

  unfoldable pub decrypt : ChannelCipher → Bytes → Result CryptoError Bytes
  decrypt c bytes =
      let iv = p.aes_decrypt c.key (take 16 bytes) in
      let cbc = drop 16 bytes in
      if ltb (length bytes) 32
      then err ciphertext_too_short
      else if not (length cbc % 16 == 0)
      then err not_block_aligned
      else pkcs7_unpad (cbc_decrypt c.key (length cbc / 16) iv cbc) 16 >>= verify c iv
