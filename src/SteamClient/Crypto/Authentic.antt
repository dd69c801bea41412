-- ===== src/SteamClient/Crypto/Authentic.antt =====
-- With HMAC the cipher decrypts only what carries the digest of its own plaintext.
use steamstacks.Prelude.{
  ◌/◌, ◌%◌, ◌≡◌, refl, Bool, true, false, [], ◌∷◌, ◌++◌, Result, ok, err, if◌then◌else◌, arith,
  length, take, drop, >>=-eq-ok, ltb, not, ◌==◌, ◌>>=◌,
}
use steamstacks.Prelude.Bytes.{Bytes}
use steamstacks.SteamClient.Crypto.{
  Primitives, CryptoError, ChannelCipher, pkcs7_unpad, bytes_equal, cbc_decrypt, verify, decrypt,
  ciphertext_too_short, not_block_aligned,
}

bytes_equal→eq : (xs ys : Bytes) → bytes_equal xs ys ≡ true → xs ≡ ys
unfolding bytes_equal
bytes_equal→eq [] [] h = refl
bytes_equal→eq [] (y ∷ ys) h = cc
bytes_equal→eq (x ∷ xs) [] h = cc
bytes_equal→eq (x ∷ xs) (y ∷ ys) h = ground (arith, bytes_equal→eq xs ys)

guarded :
    (e f : CryptoError) (a b : Bool) (r : Result CryptoError Bytes) {m : Bytes}
    → (if a then err e else if b then err f else r) ≡ ok m
    → r ≡ ok m
guarded e f true b r h = cc
guarded e f false true r h = cc
guarded e f false false r h = h

module _ (p : Primitives) where
  verify_sound :
      (c : ChannelCipher) (iv m m' : Bytes)
      → c.use_hmac ≡ true
      → verify p c iv m ≡ ok m'
      → (m ≡ m') × (take 13 iv ≡ take 13 (p.hmac_sha1 c.hmac_secret (drop 13 iv ++ m)))
  unfolding verify
  verify_sound c iv m m' mode e =
      ground
        (arith, bytes_equal→eq (take 13 iv) (take 13 (p.hmac_sha1 c.hmac_secret (drop 13 iv ++ m))))

  -- With HMAC in use, `decrypt` returns a plaintext only if the first thirteen bytes of the
  -- decrypted IV are those of the digest of its last three and that plaintext.
  pub decrypt_authentic :
      (c : ChannelCipher) (d m : Bytes)
      → c.use_hmac ≡ true
      → decrypt p c d ≡ ok m
      → let iv = p.aes_decrypt c.key (take 16 d) in
        take 13 iv ≡ take 13 (p.hmac_sha1 c.hmac_secret (drop 13 iv ++ m))
  unfolding decrypt
  decrypt_authentic c d m mode e =
      let iv = p.aes_decrypt c.key (take 16 d) in
      let cbc = drop 16 d in
      let unpadded = pkcs7_unpad (cbc_decrypt p c.key (length cbc / 16) iv cbc) 16 in
      let passed =
        guarded ciphertext_too_short not_block_aligned (ltb (length d) 32)
          (not (length cbc % 16 == 0)) (unpadded >>= verify p c iv) e in
      let (plain, unpadded_ok, checked) = >>=-eq-ok unpadded (verify p c iv) passed in
      let (same, digest) = verify_sound c iv plain m mode checked in rw (← same) digest
