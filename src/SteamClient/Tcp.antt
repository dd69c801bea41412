-- ===== src/SteamClient/Tcp.antt =====
-- steamclient/transport_tcp.go: VT01 frames and the encryption handshake. The socket is the list of
-- the bytes that arrive, after which reads fail; a write is the bytes that it sends.
pub mod Frames
pub mod Handshake
use steamstacks.Prelude.{
  ℕ, suc, ◌+◌, ◌%◌, ◌^◌, Bool, true, false, not, List, [], ◌∷◌, ◌++◌, Option, none, some, Result,
  ok, err, panic, stuck, ◌>>=◌, wrap_err, ltb, leb, ◌==◌, if◌then◌else◌, length, take, drop,
}
use steamstacks.Prelude.Bytes.{Bytes, slice, put_le, get_le}
use steamstacks.SteamClient.Message.{or_fail}
use steamstacks.SteamClient.Crypto.{
  Primitives, CryptoError, ChannelCipher, encrypt, decrypt, new_channel_cipher,
}

-- "VT01"
abbrev pub tcp_magic : ℕ
tcp_magic = 0x31305456

pub data TcpError : Type 0 where
  read_header : TcpError
  invalid_magic : TcpError
  read_payload : TcpError
  cipher_error : CryptoError → TcpError

module _ (p : Primitives) where
  abbrev pub encrypt_payload : Option ChannelCipher → Bytes → Result CryptoError Bytes
  encrypt_payload none bytes = ok bytes
  encrypt_payload (some c) bytes = encrypt p c bytes

  abbrev pub decrypt_payload : Option ChannelCipher → Bytes → Result CryptoError Bytes
  decrypt_payload none bytes = ok bytes
  decrypt_payload (some c) bytes = decrypt p c bytes

  unfoldable pub write : Option ChannelCipher → Bytes → Result TcpError Bytes
  write cipher bytes = wrap_err cipher_error (encrypt_payload cipher bytes) >>= λ payload.
      ok (put_le 4 (length payload % 2 ^ 32) ++ (put_le 4 tcp_magic ++ payload))

  -- The message, and what is left on the socket.
  unfoldable pub read : Option ChannelCipher → Bytes → Result TcpError (Bytes × Bytes)
  read cipher socket =
      let payload_len = get_le (slice socket 0 4) in
      let rest = drop 8 socket in
      if ltb (length socket) 8
      then err read_header
      else if not (get_le (slice socket 4 8) == tcp_magic)
      then err invalid_magic
      else if ltb (length rest) payload_len
      then err read_payload
      else wrap_err cipher_error (decrypt_payload cipher (take payload_len rest)) >>= λ m.
          ok (m, drop payload_len rest)

pub data HandshakeError : Type 0 where
  transport : TcpError → HandshakeError
  request_too_short : HandshakeError
  unexpected_request : HandshakeError
  session_key : HandshakeError
  rsa_encrypt : HandshakeError
  result_too_short : HandshakeError
  unexpected_result : HandshakeError
  handshake_failed : HandshakeError
  init_cipher : CryptoError → HandshakeError

-- `rsa.EncryptOAEP` under Steam's key, and `crc32.ChecksumIEEE`.
pub record KeyExchange : Type 0 where
  pub rsa_encrypt_oaep : Bytes → Option Bytes
  pub checksum_ieee : Bytes → ℕ

-- The sixteen bytes behind the version and the universe, if they are there.
unfoldable pub challenge_of : Bytes → Option Bytes
challenge_of request =
    let body = drop 20 request in if leb 24 (length body) then some (slice body 8 24) else none

abbrev pub is_some : Option Bytes → Bool
is_some none = false
is_some (some b) = true

-- `rsaEncryptSessionKey`: the key alone, or with the challenge behind it.
unfoldable pub rsa_encrypt_session_key : KeyExchange → Bytes → Option Bytes → Option Bytes
rsa_encrypt_session_key x key none = x.rsa_encrypt_oaep key
rsa_encrypt_session_key x key (some challenge) = x.rsa_encrypt_oaep (key ++ challenge)

-- `ChannelEncryptResponse` behind a plain message header.
unfoldable pub encrypt_response : KeyExchange → Bytes → Bytes
encrypt_response x blob =
    put_le 4 1304
    ++ (put_le 8 0xFFFFFFFFFFFFFFFF
        ++ (put_le 8 0xFFFFFFFFFFFFFFFF
            ++ (put_le 4 1
                ++ (put_le 4 128 ++ (blob ++ (put_le 4 (x.checksum_ieee blob) ++ put_le 4 0))))))

unfoldable pub check_request : Bytes → Result HandshakeError (Option Bytes)
check_request request =
    if ltb (length request) 28
    then err request_too_short
    else if not (get_le (take 4 request) == 1303)
    then err unexpected_request
    else ok (challenge_of request)

unfoldable pub check_result : Bytes → Result HandshakeError (Unit {0})
check_result result =
    if ltb (length result) 24
    then err result_too_short
    else if not (get_le (take 4 result) == 1305)
    then err unexpected_result
    else if not (get_le (slice result 20 24) == 1)
    then err handshake_failed
    else ok tt

-- What the handshake leaves: the cipher, the bytes sent, and what is left on the socket.
pub record Secured : Type 0 where
  pub cipher : ChannelCipher
  pub sent : Bytes
  pub left : Bytes

module _ (p : Primitives) (x : KeyExchange) where
  unfoldable pub perform_encryption_handshake : Bytes → Result HandshakeError Secured
  perform_encryption_handshake socket = do
    (request, socket1) ← wrap_err transport (read p none socket)
    challenge ← check_request request
    key ← or_fail (p.random 32) session_key
    blob ← or_fail (rsa_encrypt_session_key x key challenge) rsa_encrypt
    sent ← wrap_err transport (write p none (encrypt_response x blob))
    (result, socket2) ← wrap_err transport (read p none socket1)
    passed ← check_result result
    cipher ← wrap_err init_cipher (new_channel_cipher key (is_some challenge))
    ok (record { cipher = cipher; sent = sent; left = socket2 })
