-- ===== src/SteamClient/Message/Multi/Frames.antt =====
-- `decodeMulti` against a description of its input: a list of messages, each behind its size.
use steamstacks.Prelude.{
  ℕ, zero, suc, ◌+◌, ◌^◌, ◌<◌, ◌≡◌, ◌≢◌, refl, ap, ◌∙◌, Bool, true, ◌&&◌, List, [], ◌∷◌, ◌++◌,
  Option, none, some, Result, ok, err, panic, stuck, ◌>>=◌, wrap_err, le→ltb, lt→ltb, ◌==◌, ==_ne,
  if◌then◌else◌, arith, length, take, drop, length-append, length-drop, take-append, drop-append,
  append_assoc, append-nil, All,
}
use steamstacks.Prelude.Bytes.{Bytes, put_le, get_le, length-put_le, get_le-put_le}
use steamstacks.SteamClient.Protocol.{Codec, Header}
use steamstacks.SteamClient.Message.{Packet, decode_packet, or_fail}
use steamstacks.SteamClient.Message.RoundTrip.{take-put_le, drop-put_le}
use steamstacks.SteamClient.Message.Safety.{decode_packet-ne-stuck}
use steamstacks.SteamClient.Message.Multi.{
  Stream, MultiError, sub_message, read_sub_message, multi_loop, read_multi, decode_multi,
  gzip_open,
}

abbrev pub frame : Bytes → Bytes
frame d = put_le 4 (length d) ++ d

abbrev pub frames : List Bytes → Bytes
frames [] = []
frames (d ∷ ds) = put_le 4 (length d) ++ (d ++ frames ds)

module _ (codec : Codec Header) where
  -- The messages decoded one after the other; the first failure is the result.
  abbrev pub decode_each : List Bytes → Result MultiError (List Packet)
  decode_each [] = ok []
  decode_each (d ∷ ds) =
      wrap_err sub_message (decode_packet codec d) >>= λ p. decode_each ds >>= λ ps. ok (p ∷ ps)

  read_sub_message-frame :
      (d t : Bytes)
      → length d < 2 ^ 32
      → read_sub_message codec (put_le 4 (length d) ++ (d ++ t))
        ≡ (wrap_err sub_message (decode_packet codec d) >>= λ p. ok (p, t))
  unfolding read_sub_message
  read_sub_message-frame d t h = rw (
    take-put_le 4 (length d) (d ++ t),
    drop-put_le 4 (length d) (d ++ t),
    get_le-put_le 4 (length d) h,
    take-append d t (length d) refl,
    drop-append d t (length d) refl,
    le→ltb (length (put_le 4 (length d) ++ (d ++ t))) 4
        (omega (arith, length-append (put_le 4 (length d)) (d ++ t), length-put_le 4 (length d))),
    le→ltb (length (d ++ t)) (length d) (omega (arith, length-append d t)),
  )

  -- What the messages give, behind those that were read before.
  abbrev then_append :
      List Packet → Result MultiError (List Packet) → Result MultiError (List Packet)
  then_append before r = r >>= λ ps. ok (before ++ ps)

  then_append-cons :
      (before : List Packet) (p : Packet) (r : Result MultiError (List Packet))
      → then_append (before ++ (p ∷ [])) r ≡ then_append before (r >>= λ ps. ok (p ∷ ps))
  then_append-cons before p (ok ps) = ap ok (append_assoc before (p ∷ []) ps)
  then_append-cons before p (err e) = refl
  then_append-cons before p panic = refl
  then_append-cons before p stuck = refl

  abbrev with_rest : Bytes → Packet → Result MultiError (Packet × Bytes)
  with_rest t p = ok (p, t)

  -- One round, if the rest of the loop does what it should.
  round :
      (r : Result MultiError Packet) (ds : List Bytes) (before : List Packet)
      (loop : Bytes → List Packet → Result MultiError (List Packet))
      → ((p : Packet)
          → loop (frames ds) (before ++ (p ∷ []))
            ≡ then_append (before ++ (p ∷ [])) (decode_each ds))
      → ((r >>= with_rest (frames ds)) >>= λ q. loop q.1 (before ++ (q.0 ∷ [])))
        ≡ then_append before (r >>= λ p. decode_each ds >>= λ ps. ok (p ∷ ps))
  round (ok p) ds before loop ih = ih p ∙ then_append-cons before p (decode_each ds)
  round (err e) ds before loop ih = refl
  round panic ds before loop ih = refl
  round stuck ds before loop ih = refl

  multi_loop-frames :
      (ds : List Bytes) (fuel : ℕ) (before : List Packet)
      → All (λ d. length d < 2 ^ 32) ds
      → length (frames ds) < fuel
      → multi_loop codec fuel (frames ds) true before ≡ then_append before (decode_each ds)
  unfolding multi_loop
  multi_loop-frames [] zero before h f = absurd (omega arith)
  multi_loop-frames [] (suc fuel) before h f = rw (append-nil before)
  multi_loop-frames (d ∷ ds) zero before h f = absurd (omega arith)
  multi_loop-frames (d ∷ ds) (suc fuel) before h f =
      rw
        (
          ==_ne (length (frames (d ∷ ds))) 0 (omega (arith, len)),
          read_sub_message-frame d (frames ds) h.0,
        )
        (round _ ds before (λ content. multi_loop codec fuel content true)
          (λ p. multi_loop-frames ds fuel (before ++ (p ∷ [])) h.1 (omega (arith, len))))
    where
      len : length (frames (d ∷ ds)) ≡ 4 + length d + length (frames ds)
      len = omega (
        arith,
        length-append (put_le 4 (length d)) (d ++ frames ds),
        length-append d (frames ds),
        length-put_le 4 (length d),
      )

  then_append-nil : (r : Result MultiError (List Packet)) → then_append [] r ≡ r
  then_append-nil (ok ps) = refl
  then_append-nil (err e) = refl
  then_append-nil panic = refl
  then_append-nil stuck = refl

  read_multi-frames :
      (ds : List Bytes)
      → All (λ d. length d < 2 ^ 32) ds
      → read_multi codec (record { content = frames ds; ends = true }) ≡ decode_each ds
  read_multi-frames ds h =
      multi_loop-frames ds (suc (length (frames ds))) [] h (omega arith)
      ∙ then_append-nil (decode_each ds)

  -- If the body, or what gzip reads from it where `sizeUnzipped` is not 0, is a list of messages
  -- shorter than 2 ^ 32 bytes, each behind its length, `decodeMulti` decodes them one by one in
  -- order, and fails as the first that fails.
  pub decode_multi-frames :
      (gunzip : Bytes → Option Stream) (body : Bytes) (size_unzipped : ℕ) (ds : List Bytes)
      → All (λ d. length d < 2 ^ 32) ds
      → (if size_unzipped == 0 then some (record { content = body; ends = true }) else gunzip body)
        ≡ some (record { content = frames ds; ends = true })
      → decode_multi codec gunzip body size_unzipped ≡ decode_each ds
  unfolding decode_multi
  decode_multi-frames gunzip body zero ds h e =
      let b : body ≡ frames ds = cc in rw b (read_multi-frames ds h)
  decode_multi-frames gunzip body (suc n) ds h e =
      let g : gunzip body ≡ some (record { content = frames ds; ends = true }) = ground arith in
      rw (lt→ltb 0 (suc n) (omega arith), g) (read_multi-frames ds h)

  -- A round that succeeds leaves less to read.
  read_sub_message-shorter :
      (content rest : Bytes) (p : Packet)
      → read_sub_message codec content ≡ ok (p, rest)
      → length rest < length content
  unfolding read_sub_message
  read_sub_message-shorter content rest p e =
      ground (arith, length-drop 4 content, length-drop (get_le (take 4 content)) (drop 4 content))

  read_sub_message-ne-stuck : (content : Bytes) → read_sub_message codec content ≢ stuck
  unfolding read_sub_message
  read_sub_message-ne-stuck content =
      ground (arith, decode_packet-ne-stuck codec (take (get_le (take 4 content)) (drop 4 content)))

  multi_loop-ne-stuck :
      (fuel : ℕ) (content : Bytes) (ends : Bool) (before : List Packet)
      → length content < fuel
      → multi_loop codec fuel content ends before ≢ stuck
  unfolding multi_loop
  multi_loop-ne-stuck zero content ends before h = absurd (omega arith)
  multi_loop-ne-stuck (suc fuel) content ends before h =
      round-ne-stuck (read_sub_message codec content) (read_sub_message-ne-stuck content)
        (λ p rest e.
          multi_loop-ne-stuck fuel rest ends (before ++ (p ∷ []))
            (omega (arith, read_sub_message-shorter content rest p e)))
    where
      round-ne-stuck :
          (r : Result MultiError (Packet × Bytes))
          → r ≢ stuck
          → ((p : Packet) (rest : Bytes)
              → r ≡ ok (p, rest)
              → multi_loop codec fuel rest ends (before ++ (p ∷ [])) ≢ stuck)
          → (if length content == 0 && ends
              then ok before
              else r >>= λ q. multi_loop codec fuel q.1 ends (before ++ (q.0 ∷ [])))
            ≢ stuck
      round-ne-stuck (ok (p, rest)) h k = ground (arith, k p rest refl)
      round-ne-stuck (err e) h k = ground arith
      round-ne-stuck panic h k = ground arith
      round-ne-stuck stuck h k = absurd (h refl)

  -- The loop of `decodeMulti` ends on every body, compressed or not.
  pub decode_multi-ne-stuck :
      (gunzip : Bytes → Option Stream) (body : Bytes) (size_unzipped : ℕ)
      → decode_multi codec gunzip body size_unzipped ≢ stuck
  unfolding decode_multi
  decode_multi-ne-stuck gunzip body zero =
      multi_loop-ne-stuck (suc (length body)) body true [] (omega arith)
  decode_multi-ne-stuck gunzip body (suc n) =
      rw (lt→ltb 0 (suc n) (omega arith)) (opened (gunzip body))
    where
      opened : (s : Option Stream) → (or_fail s gzip_open >>= read_multi codec) ≢ stuck
      opened none = λ e. cc
      opened (some s) =
          multi_loop-ne-stuck (suc (length s.content)) s.content s.ends [] (omega arith)
