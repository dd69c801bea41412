-- ===== src/SteamClient/Message/Multi.antt =====
-- steamclient/message.go: `decodeMulti`. `gzip.NewReader` is a parameter: it fails, or gives the
-- bytes that can be read and whether the stream then ends cleanly.
pub mod Frames
pub mod Sizes
use steamstacks.Prelude.{
  ℕ, zero, suc, ◌+◌, Bool, true, false, ◌&&◌, List, [], ◌∷◌, ◌++◌, Option, none, some, Result, ok,
  err, panic, stuck, ◌>>=◌, wrap_err, ltb, ◌==◌, if◌then◌else◌, length, take, drop,
}
use steamstacks.Prelude.Bytes.{Bytes, get_le}
use steamstacks.SteamClient.Protocol.{Codec, Header}
use steamstacks.SteamClient.Message.{Packet, PacketError, decode_packet, or_fail}

pub record Stream : Type 0 where
  pub content : Bytes
  pub ends : Bool

pub data MultiError : Type 0 where
  gzip_open : MultiError
  read_size : MultiError
  read_body : MultiError
  sub_message : PacketError → MultiError

module _ (codec : Codec Header) where
  -- One round reads a size, a message of that size, and decodes it.
  unfoldable pub read_sub_message : Bytes → Result MultiError (Packet × Bytes)
  read_sub_message content =
      let size = get_le (take 4 content) in
      let rest = drop 4 content in
      if ltb (length content) 4
      then err read_size
      else if ltb (length rest) size
      then err read_body
      else wrap_err sub_message (decode_packet codec (take size rest)) >>= λ pkt.
          ok (pkt, drop size rest)

  -- The loop ends where nothing is left and the stream says so.
  unfoldable pub multi_loop : ℕ → Bytes → Bool → List Packet → Result MultiError (List Packet)
  multi_loop zero content ends packets = stuck
  multi_loop (suc fuel) content ends packets =
      let next =
        read_sub_message content >>= λ r. multi_loop fuel r.1 ends (packets ++ (r.0 ∷ [])) in
      if length content == 0 && ends then ok packets else next

  -- Each round takes four bytes at least, so one more round than bytes is enough.
  abbrev pub read_multi : Stream → Result MultiError (List Packet)
  read_multi s = multi_loop (suc (length s.content)) s.content s.ends []

  unfoldable pub decode_multi :
      (Bytes → Option Stream) → Bytes → ℕ → Result MultiError (List Packet)
  decode_multi gunzip body size_unzipped =
      if ltb 0 size_unzipped
      then or_fail (gunzip body) gzip_open >>= read_multi
      else read_multi (record { content = body; ends = true })
