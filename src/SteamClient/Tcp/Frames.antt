-- ===== src/SteamClient/Tcp/Frames.antt =====
-- A message written to the socket and read from it.
use steamstacks.Prelude.{
  ◌+◌, ◌%◌, ◌^◌, ◌<◌, ◌≡◌, refl, ap, sym, ◌∙◌, [], ◌++◌, Option, none, some, ok, le→ltb, arith,
  length, drop, length-append, take-append, drop-append, append_assoc, ◌>>=◌, All, wrap_err,
}
use steamstacks.Prelude.Bytes.{Bytes, IsByte, slice, put_le, get_le, length-put_le}
use steamstacks.SteamClient.Message.RoundTrip.{get_slice}
use steamstacks.SteamClient.Crypto.{Primitives, Documented, ChannelCipher}
use steamstacks.SteamClient.Crypto.Channel.{decrypt-encrypt}
use steamstacks.SteamClient.Tcp.{
  tcp_magic, cipher_error, encrypt_payload, decrypt_payload, write, read,
}

-- `read` at a whole frame, with anything behind it.
pub read-frame :
    (p : Primitives) (cipher : Option ChannelCipher) (payload rest : Bytes)
    → length payload < 2 ^ 32
    → read p cipher (put_le 4 (length payload) ++ (put_le 4 tcp_magic ++ (payload ++ rest)))
      ≡ (wrap_err cipher_error (decrypt_payload p cipher payload) >>= λ m. ok (m, rest))
unfolding read
read-frame p cipher payload rest small = rw (
  len,
  magic,
  behind,
  take-append payload rest (length payload) refl,
  drop-append payload rest (length payload) refl,
  le→ltb (length frame) 8 (omega (arith, size)),
  le→ltb (length (payload ++ rest)) (length payload) (omega (arith, length-append payload rest)),
)
  where
    tail : Bytes
    tail = put_le 4 tcp_magic ++ (payload ++ rest)

    frame : Bytes
    frame = put_le 4 (length payload) ++ tail

    len : get_le (slice frame 0 4) ≡ length payload
    len = get_slice [] tail 4 (length payload) 0 refl small

    magic : get_le (slice frame 4 8) ≡ tcp_magic
    magic =
        get_slice (put_le 4 (length payload)) (payload ++ rest) 4 tcp_magic 4
          (sym (length-put_le 4 (length payload))) (omega arith)

    header : length (put_le 4 (length payload) ++ put_le 4 tcp_magic) ≡ 8
    header = omega (
      arith,
      length-append (put_le 4 (length payload)) (put_le 4 tcp_magic),
      length-put_le 4 (length payload),
      length-put_le 4 tcp_magic,
    )

    split : frame ≡ (put_le 4 (length payload) ++ put_le 4 tcp_magic) ++ (payload ++ rest)
    split = sym (append_assoc (put_le 4 (length payload)) (put_le 4 tcp_magic) (payload ++ rest))

    behind : drop 8 frame ≡ payload ++ rest
    behind = rw split (drop-append _ (payload ++ rest) 8 (sym header))

    size : length frame ≡ 8 + length (payload ++ rest)
    size = omega (
      arith,
      ap length split,
      length-append (put_le 4 (length payload) ++ put_le 4 tcp_magic) (payload ++ rest),
      header,
    )

decrypt-encrypt_payload :
    (p : Primitives)
    → Documented p
    → (cipher : Option ChannelCipher) (m payload : Bytes) → All IsByte m
    → encrypt_payload p cipher m ≡ ok payload
    → decrypt_payload p cipher payload ≡ ok m
decrypt-encrypt_payload p laws none m payload h e = sym e
decrypt-encrypt_payload p laws (some c) m payload h e = decrypt-encrypt p laws c m payload h e

-- With primitives as documented, if the message is bytes and its payload, encrypted or not, is
-- shorter than 2 ^ 32, then the receiver with the same cipher reads the message from what `Write`
-- sent, and nothing of what follows it.
pub read-write :
    (p : Primitives)
    → Documented p
    → (cipher : Option ChannelCipher) (m payload out rest : Bytes) → All IsByte m
    → encrypt_payload p cipher m ≡ ok payload
    → length payload < 2 ^ 32
    → write p cipher m ≡ ok out
    → read p cipher (out ++ rest) ≡ ok (m, rest)
unfolding write
read-write p laws cipher m payload out rest h enc small e =
    let len : length payload % 2 ^ 32 ≡ length payload = omega arith in
    let sent : put_le 4 (length payload) ++ (put_le 4 tcp_magic ++ payload) ≡ out =
      cc (enc, len, e) in
    rw (← sent, append_assoc (put_le 4 (length payload)), append_assoc (put_le 4 tcp_magic))
      (read-frame p cipher payload rest small
        ∙ rw (decrypt-encrypt_payload p laws cipher m payload h enc))
