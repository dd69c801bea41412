-- ===== src/SteamClient/Crypto/Cbc.antt =====
-- Blocks, and the CBC mode over an abstract block cipher.
use steamstacks.Prelude.{
  ℕ, zero, suc, ◌*◌, ◌≡◌, refl, sym, ◌∙◌, [], ◌∷◌, arith, length, take, drop, length-append,
  length-take, length-drop, take-append, drop-append, take-append-drop, All, All-take, All-drop,
}
use steamstacks.Prelude.Bytes.{Bytes, IsByte}
use steamstacks.Prelude.Xor.{xor_bytes, xor_bytes_twice, length-xor_bytes, xor_bytes-IsByte}
use steamstacks.SteamClient.Crypto.{Primitives, IsBlock, Documented, cbc_encrypt, cbc_decrypt}

take-IsBlock : (n : ℕ) (t : Bytes) → All IsByte t → length t ≡ 16 * suc n → IsBlock (take 16 t)
take-IsBlock n t h len = record {
  of_bytes = All-take IsByte 16 t h;
  sixteen = omega (arith, length-take 16 t);
}

xor-IsBlock : (iv b : Bytes) → IsBlock iv → IsBlock b → IsBlock (xor_bytes iv b)
xor-IsBlock iv b h k = record {
  of_bytes = xor_bytes-IsByte iv b h.of_bytes k.of_bytes;
  sixteen = length-xor_bytes iv b (omega (arith, h.sixteen, k.sixteen)) ∙ k.sixteen;
}

module _ (p : Primitives) (laws : Documented p) where
  -- CBC, block by block.
  pub cbc_decrypt-cbc_encrypt :
      (key : Bytes) (n : ℕ) (iv t : Bytes)
      → IsBlock iv
      → All IsByte t
      → length t ≡ 16 * n
      → (length (cbc_encrypt p key n iv t) ≡ 16 * n)
        × (cbc_decrypt p key n iv (cbc_encrypt p key n iv t) ≡ t)
  unfolding cbc_encrypt cbc_decrypt
  cbc_decrypt-cbc_encrypt key zero iv [] hiv h len = (refl, refl)
  cbc_decrypt-cbc_encrypt key zero iv (b ∷ t) hiv h len = absurd (omega arith)
  cbc_decrypt-cbc_encrypt key (suc n) iv t hiv h len =
      let rest : (length (cbc_encrypt p key n c (drop 16 t)) ≡ 16 * n)
          × (cbc_decrypt p key n c (cbc_encrypt p key n c (drop 16 t)) ≡ drop 16 t) =
        cbc_decrypt-cbc_encrypt key n c (drop 16 t) block (All-drop IsByte 16 t h)
          (omega (arith, length-drop 16 t)) in
      (
        omega (arith, length-append c (cbc_encrypt p key n c (drop 16 t)), block.sixteen, rest.0),
        rw
            (
              take-append c (cbc_encrypt p key n c (drop 16 t)) 16 (sym block.sixteen),
              drop-append c (cbc_encrypt p key n c (drop 16 t)) 16 (sym block.sixteen),
              laws.decrypt-encrypt_block key (xor_bytes iv (take 16 t)) mixed,
              xor_bytes_twice iv (take 16 t) (omega (arith, hiv.sixteen, first.sixteen)),
              rest.1,
            )
            (take-append-drop 16 t),
      )
    where
      first : IsBlock (take 16 t)
      first = take-IsBlock n t h len

      mixed : IsBlock (xor_bytes iv (take 16 t))
      mixed = xor-IsBlock iv (take 16 t) hiv first

      c : Bytes
      c = p.aes_encrypt key (xor_bytes iv (take 16 t))

      block : IsBlock c
      block = laws.encrypt_block key (xor_bytes iv (take 16 t)) mixed
