-- ===== src/SteamClient/Tcp/Handshake.antt =====
-- The encryption handshake: when it completes, and what a completed one has checked.
use steamstacks.Prelude.{
  ◌%◌, ◌^◌, ◌<◌, ◌≡◌, ap, sym, ◌∙◌, Bool, [], ◌++◌, Option, none, some, Result, ok, err,
  if◌then◌else◌, arith, length, take, >>=-eq-ok, wrap_err, ok-injective, panic, stuck, append-nil,
  leb, length-drop,
}
use steamstacks.Prelude.Bytes.{Bytes, put_le, get_le, slice}
use steamstacks.SteamClient.Message.{or_fail}
use steamstacks.SteamClient.Crypto.{Primitives, ChannelCipher, new_channel_cipher}
use steamstacks.SteamClient.Tcp.{
  tcp_magic, read, write, KeyExchange, challenge_of, is_some, rsa_encrypt_session_key,
  encrypt_response, check_request, check_result, Secured, perform_encryption_handshake, init_cipher,
  transport, session_key, rsa_encrypt,
}
use steamstacks.SteamClient.Tcp.Frames.{read-frame}

-- A frame of plain text.
abbrev pub plain : Bytes → Bytes → Bytes
plain payload rest = put_le 4 (length payload) ++ (put_le 4 tcp_magic ++ (payload ++ rest))

-- The cipher that the two sides agree on.
abbrev pub agreed : Bytes → Option Bytes → ChannelCipher
agreed key challenge = record {
  key = key;
  hmac_secret = if is_some challenge then take 16 key else [];
  use_hmac = is_some challenge;
}

new_channel_cipher-agreed :
    (key : Bytes) (challenge : Option Bytes)
    → length key ≡ 32
    → new_channel_cipher key (is_some challenge) ≡ ok (agreed key challenge)
unfolding new_channel_cipher
new_channel_cipher-agreed key challenge h = rw (h, new_channel_cipher)

-- Against a server that sends a request and a result that pass their checks, in frames whose
-- lengths fit 32 bits, and with 32 random bytes drawn and RSA not failing, the handshake ends with
-- the agreed cipher, in HMAC mode exactly if the request held a challenge, has sent the response,
-- and leaves the socket behind the result.
pub perform-completes :
    (p : Primitives) (x : KeyExchange) (request result rest key blob : Bytes)
    (challenge : Option Bytes)
    → length request < 2 ^ 32
    → length result < 2 ^ 32
    → check_request request ≡ ok challenge
    → check_result result ≡ ok tt
    → p.random 32 ≡ some key
    → length key ≡ 32
    → rsa_encrypt_session_key x key challenge ≡ some blob
    → length (encrypt_response x blob) < 2 ^ 32
    → perform_encryption_handshake p x (plain request (plain result rest))
      ≡ ok (record {
        cipher = agreed key challenge;
        sent = plain (encrypt_response x blob) [];
        left = rest;
      })
unfolding perform_encryption_handshake write
perform-completes p x request result rest key blob challenge h i rq rs k len b small =
    let size : length (encrypt_response x blob) % 2 ^ 32 ≡ length (encrypt_response x blob) =
      omega arith in
    rw (
      read-frame p none request (plain result rest) h,
      rq,
      k,
      b,
      read-frame p none result rest i,
      rs,
      new_channel_cipher-agreed key challenge len,
      size,
      append-nil (encrypt_response x blob),
    )

wrap_err-eq-ok :
    {E F A : Type 0} (f : E → F) (r : Result E A) {a : A} → wrap_err f r ≡ ok a → r ≡ ok a
wrap_err-eq-ok f (ok b) h = cc
wrap_err-eq-ok f (err e) h = cc
wrap_err-eq-ok f panic h = cc
wrap_err-eq-ok f stuck h = cc

new_channel_cipher-eq-ok :
    (key : Bytes) (mode : Bool) (c : ChannelCipher)
    → new_channel_cipher key mode ≡ ok c
    → (c.key ≡ key) × (c.use_hmac ≡ mode) × (length key ≡ 32)
unfolding new_channel_cipher
new_channel_cipher-eq-ok key mode c e = ground arith

-- What a completed handshake has checked.
pub record Checked (p : Primitives) (socket : Bytes) (s : Secured) : Type 0 where
  pub request : Bytes
  pub result : Bytes
  pub after_request : Bytes
  pub request_read : read p none socket ≡ ok (request, after_request)
  pub request_type : get_le (take 4 request) ≡ 1303
  pub result_read : read p none after_request ≡ ok (result, s.left)
  pub result_type : get_le (take 4 result) ≡ 1305
  pub eresult : get_le (slice result 20 24) ≡ 1
  pub mode : s.cipher.use_hmac ≡ leb 44 (length request)
  pub key_length : length s.cipher.key ≡ 32

check_request-eq-ok :
    (request : Bytes) (challenge : Option Bytes)
    → check_request request ≡ ok challenge
    → (get_le (take 4 request) ≡ 1303) × (is_some challenge ≡ leb 44 (length request))
unfolding check_request challenge_of
check_request-eq-ok request challenge e = ground (arith, length-drop 20 request)

check_result-eq-ok :
    (result : Bytes)
    → check_result result ≡ ok tt
    → (get_le (take 4 result) ≡ 1305) × (get_le (slice result 20 24) ≡ 1)
unfolding check_result
check_result-eq-ok result e = ground arith

-- Whatever arrives on the socket, a handshake that returns a cipher has read a request and then a
-- positive result, uses HMAC exactly if the request had 44 bytes or more, and has a key of 32
-- bytes.
pub perform-Checked :
    (p : Primitives) (x : KeyExchange) (socket : Bytes) (s : Secured)
    → perform_encryption_handshake p x socket ≡ ok s
    → Checked p socket s
unfolding perform_encryption_handshake
perform-Checked p x socket s e =
    let (first, got, e1) = >>=-eq-ok (wrap_err transport (read p none socket)) _ e in
    let (challenge, asked, e2) = >>=-eq-ok (check_request first.0) _ e1 in
    let (key, drawn, e3) = >>=-eq-ok (or_fail (p.random 32) session_key) _ e2 in
    let (blob, sealed, e4) =
      >>=-eq-ok (or_fail (rsa_encrypt_session_key x key challenge) rsa_encrypt) _ e3 in
    let (sent, written, e5) =
      >>=-eq-ok (wrap_err transport (write p none (encrypt_response x blob))) _ e4 in
    let (second, answered, e6) = >>=-eq-ok (wrap_err transport (read p none first.1)) _ e5 in
    let (passed, positive, e7) = >>=-eq-ok (check_result second.0) _ e6 in
    let (cipher, made, e8) =
      >>=-eq-ok (wrap_err init_cipher (new_channel_cipher key (is_some challenge))) _ e7 in
    let (same_key, mode, len) =
      new_channel_cipher-eq-ok key (is_some challenge) cipher
        (wrap_err-eq-ok init_cipher (new_channel_cipher key (is_some challenge)) made) in
    let (type, room) = check_request-eq-ok first.0 challenge asked in
    let (type', positive') = check_result-eq-ok second.0 positive in
    let whole : record { cipher = cipher; sent = sent; left = second.1 } ≡ s = ok-injective e8 in
    let cipher_same : cipher ≡ s.cipher = ap (λ (t : Secured). t.cipher) whole in
    let left_same : second.1 ≡ s.left = ap (λ (t : Secured). t.left) whole in
    record {
      request = first.0;
      result = second.0;
      after_request = first.1;
      request_read = wrap_err-eq-ok transport (read p none socket) got;
      request_type = type;
      result_read =
          wrap_err-eq-ok transport (read p none first.1) answered
          ∙ ap (λ (t : Bytes). ok (second.0, t)) left_same;
      result_type = type';
      eresult = positive';
      mode = ap (λ (c : ChannelCipher). c.use_hmac) (sym cipher_same) ∙ mode ∙ room;
      key_length =
          ap (λ (c : ChannelCipher). length c.key) (sym cipher_same) ∙ ap length same_key ∙ len;
    }
