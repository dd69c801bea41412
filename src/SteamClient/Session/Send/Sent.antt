-- ===== src/SteamClient/Session/Send/Sent.antt =====
-- How a send on a connection ends: with an error that leaves the client as it is, or with one more
-- message written.
use steamstacks.Prelude.{
  ℕ, ◌≡◌, ◌≢◌, refl, Bool, true, false, [], ◌∷◌, ◌++◌, Option, none, some, Result, ok, err, panic,
  ◌>>=◌, wrap_err, if◌then◌else◌, inl, inr, ◌⊎◌,
}
use steamstacks.Prelude.Bytes.{Bytes}
use steamstacks.SteamClient.Protocol.{Codec, Header}
use steamstacks.SteamClient.Message.{
  Packet, PacketError, encode_packet, encode_proto_packet, encode_non_proto_packet, or_fail,
}
use steamstacks.SteamClient.Session.{Conn, no_conn, open_conn, closed_conn, CmClient, Services}
use steamstacks.SteamClient.Session.Send.{
  SendError, encode, write, filled_header, conn_write, send_encoded, send_packet,
}

-- An error or a value: no panic.
abbrev pub Ends {ℓ} : {E A : Type ℓ} → Result E A → Type ℓ
Ends {E} {A} r = ((e : E) × (r ≡ err e)) ⊎ ((a : A) × (r ≡ ok a))

or_fail-Ends :
    {A : Type 0} (o : Option Bytes) (e : PacketError) (f : Bytes → A)
    → Ends (or_fail o e >>= λ b. ok (f b))
or_fail-Ends none e f = inl (e, refl)
or_fail-Ends (some b) e f = inr (f b, refl)

encode_packet-Ends : (codec : Codec Header) (p : Packet) → Ends (encode_packet codec p)
unfolding encode_packet encode_proto_packet encode_non_proto_packet
encode_packet-Ends codec p = by_kind p.is_proto
  where
    by_kind :
        (b : Bool)
        → Ends (if b then encode_proto_packet codec p else encode_non_proto_packet codec p)
    by_kind true = or_fail-Ends _ _ _
    by_kind false = inr (_, refl)

module _ (s : Services) where
  -- One more message was written, and nothing else has changed.
  abbrev pub after_write : CmClient → Bytes → CmClient
  after_write c d = record c { written = c.written ++ (d ∷ []) }

  conn_write-Sent :
      (d : Bytes) (c : CmClient)
      → c.conn ≢ no_conn
      → (conn_write s d c ≡ err write) ⊎ (conn_write s d c ≡ ok (after_write c d))
  unfolding conn_write
  conn_write-Sent d c h = by_conn c.conn (s.accepts c.written d) h
    where
      tried : Conn → Bool → Result SendError CmClient
      tried k b = elim k [
        | no_conn ↦ panic
        | open_conn ↦ if b then ok (after_write c d) else err write
        | closed_conn ↦ err write
      ]

      by_conn :
          (k : Conn) (b : Bool)
          → k ≢ no_conn
          → (tried k b ≡ err write) ⊎ (tried k b ≡ ok (after_write c d))
      by_conn no_conn b q = absurd (q refl)
      by_conn open_conn true q = inr refl
      by_conn open_conn false q = inl refl
      by_conn closed_conn b q = inl refl

  pub send_packet-Sent :
      (emsg : ℕ) (hdr : Option Header) (body : Bytes) (c : CmClient)
      → c.conn ≢ no_conn
      → ((e : SendError) × (send_packet s emsg hdr body c ≡ err e))
        ⊎ ((d : Bytes) × (send_packet s emsg hdr body c ≡ ok (after_write c d)))
  unfolding send_packet send_encoded
  send_packet-Sent emsg hdr body c h = by_encoding (encode_packet-Ends s.header pkt)
    where
      pkt : Packet
      pkt = record {
        emsg = emsg;
        is_proto = true;
        header = some (filled_header hdr c);
        body = body;
      }

      sending : Result SendError CmClient
      sending = wrap_err encode (encode_packet s.header pkt) >>= λ d. conn_write s d c

      by_write :
          (d : Bytes)
          → encode_packet s.header pkt ≡ ok d
          → (conn_write s d c ≡ err write) ⊎ (conn_write s d c ≡ ok (after_write c d))
          → ((e : SendError) × (sending ≡ err e)) ⊎ ((d : Bytes) × (sending ≡ ok (after_write c d)))
      by_write d q (inl r) = inl (write, rw q r)
      by_write d q (inr r) = inr (d, rw q r)

      by_encoding :
          Ends (encode_packet s.header pkt)
          → ((e : SendError) × (sending ≡ err e)) ⊎ ((d : Bytes) × (sending ≡ ok (after_write c d)))
      by_encoding (inl (e, q)) = inl (encode e, rw q refl)
      by_encoding (inr (d, q)) = by_write d q (conn_write-Sent d c h)
