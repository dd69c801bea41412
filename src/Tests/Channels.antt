-- ===== src/Tests/Channels.antt =====
-- The cipher of a channel, frames and the handshake at concrete inputs.
use steamstacks.Prelude.{◌≡◌, refl, true, [], ◌∷◌, ◌++◌, some, ok, drop, take, replicate, arith}
use steamstacks.Prelude.Bytes.{Bytes, put_le, get_le}
use steamstacks.Prelude.Xor.{xor_bytes}
use steamstacks.SteamClient.Crypto.{
  pkcs7_pad, ChannelCipher, choose_iv, cbc_encrypt, encrypt, decrypt,
}
use steamstacks.SteamClient.Crypto.Channel.{decrypt-encrypt}
use steamstacks.SteamClient.Crypto.Authentic.{decrypt_authentic}
use steamstacks.SteamClient.Tcp.{
  write, read, encrypt_response, rsa_encrypt_session_key, check_request, check_result, challenge_of,
  perform_encryption_handshake,
}
use steamstacks.SteamClient.Tcp.Frames.{read-write}
use steamstacks.SteamClient.Tcp.Handshake.{
  plain, agreed, Checked, perform-completes, perform-Checked,
}
use steamstacks.Tests.Codecs.{constant_primitives, constant_primitives-Documented, open_exchange}

abbrev session_cipher : ChannelCipher
session_cipher = record { key = replicate 32 5; hmac_secret = replicate 16 5; use_hmac = true }

abbrev message : Bytes
message = 1 ∷ (2 ∷ (3 ∷ []))

-- The IV, and the block mixed with it.
abbrev encrypted : Bytes
encrypted =
    (replicate 13 7 ++ replicate 3 5) ++ (6 ∷ (5 ∷ (4 ∷ (replicate 10 10 ++ replicate 3 8))))

sent_by_cipher : encrypt constant_primitives session_cipher message ≡ ok encrypted
unfolding encrypt choose_iv pkcs7_pad cbc_encrypt xor_bytes
sent_by_cipher = refl

received_by_cipher : decrypt constant_primitives session_cipher encrypted ≡ ok message
received_by_cipher =
    decrypt-encrypt constant_primitives constant_primitives-Documented session_cipher message
      encrypted (omega arith) sent_by_cipher

decrypt-encrypt_example : decrypt constant_primitives session_cipher encrypted ≡ ok message
decrypt-encrypt_example =
    decrypt-encrypt constant_primitives constant_primitives-Documented session_cipher message
      encrypted (omega arith) sent_by_cipher

decrypt_authentic_example :
    let iv = constant_primitives.aes_decrypt session_cipher.key (take 16 encrypted) in
    take 13 iv
    ≡ take 13 (constant_primitives.hmac_sha1 session_cipher.hmac_secret (drop 13 iv ++ message))
decrypt_authentic_example =
    decrypt_authentic constant_primitives session_cipher encrypted message refl received_by_cipher

abbrev written : Bytes
written = put_le 4 32 ++ (put_le 4 0x31305456 ++ encrypted)

sent_as_frame : write constant_primitives (some session_cipher) message ≡ ok written
unfolding write encrypt choose_iv pkcs7_pad cbc_encrypt xor_bytes
sent_as_frame = refl

read-write_example :
    read constant_primitives (some session_cipher) (written ++ (9 ∷ [])) ≡ ok (message, 9 ∷ [])
read-write_example =
    read-write constant_primitives constant_primitives-Documented (some session_cipher) message
      encrypted written (9 ∷ []) (omega arith) sent_by_cipher (omega arith) sent_as_frame

-- A request with a challenge, and a positive result.
abbrev request : Bytes
request = put_le 4 1303 ++ (replicate 16 0 ++ (put_le 4 1 ++ (put_le 4 1 ++ replicate 16 3)))

abbrev result : Bytes
result = put_le 4 1305 ++ (replicate 16 0 ++ put_le 4 1)

abbrev key : Bytes
key = replicate 32 5

abbrev blob : Bytes
blob = replicate 32 5 ++ replicate 16 3

handshake_done :
    perform_encryption_handshake constant_primitives open_exchange (plain request (plain result []))
    ≡ ok (record {
      cipher = agreed key (some (replicate 16 3));
      sent = plain (encrypt_response open_exchange blob) [];
      left = [];
    })
handshake_done =
    perform-completes constant_primitives open_exchange request result [] key blob
      (some (replicate 16 3)) (unfold put_le in omega arith) (unfold put_le in omega arith)
      (unfold check_request challenge_of put_le get_le in refl)
      (unfold check_result put_le get_le in refl) refl refl (unfold rsa_encrypt_session_key in refl)
      (unfold encrypt_response put_le in omega arith)

perform-completes_example :
    perform_encryption_handshake constant_primitives open_exchange (plain request (plain result []))
    ≡ ok (record {
      cipher = agreed key (some (replicate 16 3));
      sent = plain (encrypt_response open_exchange blob) [];
      left = [];
    })
perform-completes_example =
    perform-completes constant_primitives open_exchange request result [] key blob
      (some (replicate 16 3)) (unfold put_le in omega arith) (unfold put_le in omega arith)
      (unfold check_request challenge_of put_le get_le in refl)
      (unfold check_result put_le get_le in refl) refl refl (unfold rsa_encrypt_session_key in refl)
      (unfold encrypt_response put_le in omega arith)

perform-Checked_example : Checked constant_primitives (plain request (plain result [])) (record {
  cipher = agreed key (some (replicate 16 3));
  sent = plain (encrypt_response open_exchange blob) [];
  left = [];
})
perform-Checked_example =
    perform-Checked constant_primitives open_exchange (plain request (plain result [])) _
      handshake_done
