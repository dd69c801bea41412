-- ===== src/SteamClient/Crypto/Channel.antt =====
-- What the channel cipher encrypts it decrypts.
use steamstacks.Prelude.{
  ℕ, zero, suc, ◌+◌, ◌-◌, ◌*◌, ◌/◌, ◌%◌, ◌<◌, ◌≡◌, refl, sym, true, false, [], ◌∷◌, ◌++◌, Option,
  none, some, ok, le→ltb, ==_refl, arith, length, take, replicate, length-append, length-replicate,
  length-take, take-append, drop-append, All, All-append, All-take, >>=-eq-ok, Bool-cases, ◌⊎◌, inl,
  inr,
}
use steamstacks.Prelude.Bytes.{Bytes, IsByte}
use steamstacks.SteamClient.Message.{or_fail}
use steamstacks.SteamClient.Crypto.{
  Primitives, IsBlock, Documented, CryptoError, ChannelCipher, pkcs7_pad, bytes_equal, cbc_encrypt,
  cbc_decrypt, choose_iv, encrypt, verify, decrypt, rand_read,
}
use steamstacks.SteamClient.Crypto.Cbc.{cbc_decrypt-cbc_encrypt}
use steamstacks.SteamClient.Crypto.Padding.{pkcs7_unpad-pkcs7_pad}

bytes_equal_refl : (xs : Bytes) → bytes_equal xs xs ≡ true
unfolding bytes_equal
bytes_equal_refl [] = refl
bytes_equal_refl (x ∷ xs) = rw (==_refl x) (bytes_equal_refl xs)

or_fail-eq-ok :
    {A : Type 0} (o : Option A) (e : CryptoError) {a : A} → or_fail o e ≡ ok a → o ≡ some a
or_fail-eq-ok none e h = cc
or_fail-eq-ok (some b) e h = cc

module _ (p : Primitives) (laws : Documented p) where
  -- The two ways to an IV.
  choose_iv_cases :
      (c : ChannelCipher) (m iv : Bytes)
      → choose_iv p c m ≡ ok iv
      → ((r : Bytes) × (c.use_hmac ≡ true)
          × (p.random 3 ≡ some r)
          × (iv ≡ take 13 (p.hmac_sha1 c.hmac_secret (r ++ m)) ++ r))
        ⊎ ((c.use_hmac ≡ false) × (p.random 16 ≡ some iv))
  unfolding choose_iv
  choose_iv_cases c m iv e = elim (Bool-cases c.use_hmac) [
    | inl mode ↦
        let (r, drawn, made) = >>=-eq-ok (or_fail (p.random 3) rand_read) _ (rw mode at e) in
        inl (r, mode, or_fail-eq-ok (p.random 3) rand_read drawn, cc)
    | inr mode ↦ inr (mode, or_fail-eq-ok (p.random 16) rand_read (rw mode at e))
  ]

  digest_prefix : (key m : Bytes) → length (take 13 (p.hmac_sha1 key m)) ≡ 13
  digest_prefix key m = omega (arith, length-take 13 (p.hmac_sha1 key m), laws.digest_length key m)

  choose_iv-IsBlock : (c : ChannelCipher) (m iv : Bytes) → choose_iv p c m ≡ ok iv → IsBlock iv
  choose_iv-IsBlock c m iv e = elim (choose_iv_cases c m iv e) [
    | inl (r, mode, drawn, made) ↦ rw made (record {
      of_bytes =
          All-append IsByte (take 13 (p.hmac_sha1 c.hmac_secret (r ++ m))) r
            (All-take IsByte 13 (p.hmac_sha1 c.hmac_secret (r ++ m))
              (laws.digest_bytes c.hmac_secret (r ++ m)))
            (laws.random_bytes 3 r drawn);
      sixteen = omega (
        arith,
        length-append (take 13 (p.hmac_sha1 c.hmac_secret (r ++ m))) r,
        digest_prefix c.hmac_secret (r ++ m),
        laws.random_length 3 r drawn,
      );
    })
    | inr (mode, drawn) ↦ record {
      of_bytes = laws.random_bytes 16 iv drawn;
      sixteen = laws.random_length 16 iv drawn;
    }
  ]

  -- The check that `decrypt` makes holds of the IV that `encrypt` chose.
  verify-choose_iv :
      (c : ChannelCipher) (m iv : Bytes) → choose_iv p c m ≡ ok iv → verify p c iv m ≡ ok m
  unfolding verify
  verify-choose_iv c m iv e = elim (choose_iv_cases c m iv e) [
    | inl (r, mode, drawn, made) ↦
        let hash = take 13 (p.hmac_sha1 c.hmac_secret (r ++ m)) in
        let len : 13 ≡ length hash = sym (digest_prefix c.hmac_secret (r ++ m)) in
        rw (mode, made, take-append hash r 13 len, drop-append hash r 13 len, bytes_equal_refl hash)
    | inr (mode, drawn) ↦ rw mode
  ]

  length-pad : (m : Bytes) → length (pkcs7_pad m 16) ≡ 16 * (length m / 16 + 1)
  unfolding pkcs7_pad
  length-pad m = omega (
    arith,
    length-append m (replicate (16 - length m % 16) ((16 - length m % 16) % 256)),
    length-replicate (16 - length m % 16) ((16 - length m % 16) % 256),
  )

  pad-IsByte : (m : Bytes) → All IsByte m → All IsByte (pkcs7_pad m 16)
  unfolding pkcs7_pad
  pad-IsByte m h =
      All-append IsByte m _ h (fill (16 - length m % 16) ((16 - length m % 16) % 256) (omega arith))
    where
      fill : (n v : ℕ) → v < 256 → All IsByte (replicate n v)
      fill zero v k = tt
      fill (suc n) v k = (k, fill n v k)

  decrypt_sent :
      (c : ChannelCipher) (m iv : Bytes)
      → All IsByte m
      → choose_iv p c m ≡ ok iv
      → decrypt p c (
          p.aes_encrypt c.key iv
          ++ cbc_encrypt p c.key (length (pkcs7_pad m 16) / 16) iv (pkcs7_pad m 16))
        ≡ ok m
  unfolding decrypt
  decrypt_sent c m iv h chosen =
      rw
        (
          take-append head body 16 (sym head_block.sixteen),
          drop-append head body 16 (sym head_block.sixteen),
          laws.decrypt-encrypt_block c.key iv iv_block,
          le→ltb (length (head ++ body)) 32 (
              omega
                (arith, length-append head body, head_block.sixteen, cbc.0, blocks, length-pad m)),
          aligned,
          count,
          cbc.1,
          pkcs7_unpad-pkcs7_pad m 16 (omega arith) (omega arith),
        )
        (verify-choose_iv c m iv chosen)
    where
      n : ℕ
      n = length (pkcs7_pad m 16) / 16

      blocks : length (pkcs7_pad m 16) ≡ 16 * n
      blocks = omega (arith, length-pad m)

      iv_block : IsBlock iv
      iv_block = choose_iv-IsBlock c m iv chosen

      head : Bytes
      head = p.aes_encrypt c.key iv

      head_block : IsBlock head
      head_block = laws.encrypt_block c.key iv iv_block

      body : Bytes
      body = cbc_encrypt p c.key n iv (pkcs7_pad m 16)

      cbc : (length body ≡ 16 * n) × (cbc_decrypt p c.key n iv body ≡ pkcs7_pad m 16)
      cbc =
          cbc_decrypt-cbc_encrypt p laws c.key n iv (pkcs7_pad m 16) iv_block (pad-IsByte m h)
            blocks

      aligned : length body % 16 ≡ 0
      aligned = omega (arith, cbc.0)

      count : length body / 16 ≡ n
      count = omega (arith, cbc.0)

  -- With primitives as documented and a plaintext of bytes, what `encrypt` returns is decrypted to
  -- the plaintext by the same cipher, whatever random bytes were drawn, with HMAC and without.
  pub decrypt-encrypt :
      (c : ChannelCipher) (m d : Bytes) → All IsByte m → encrypt p c m ≡ ok d → decrypt p c d ≡ ok m
  unfolding encrypt
  decrypt-encrypt c m d h e =
      let (iv, chosen, out) = >>=-eq-ok (choose_iv p c m) _ e in
      let sent : p.aes_encrypt c.key iv
            ++ cbc_encrypt p c.key (length (pkcs7_pad m 16) / 16) iv (pkcs7_pad m 16)
          ≡ d =
        cc in
      rw (← sent) (decrypt_sent c m iv h chosen)
