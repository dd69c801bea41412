-- ===== src/Tf2/Client/Hello.antt =====
-- tf2/tf2.go: `Connect`, `sendHello` and the goroutines of `helloLoop`, whose steps interleave with the
-- handlers of messages. A loop waits on the channel that `sendHello` read, which is nil when another
-- goroutine has cleared `helloStop` by then. The outcome of a call of `SendGCMessage` is an argument.
use steamstacks.Prelude.{
  ℕ, suc, ◌≡◌, Bool, true, false, List, [], ◌∷◌, ◌++◌, Option, none, some, ◌⊎◌,
}
use steamstacks.Prelude.Bytes.{Bytes}
use steamstacks.SteamClient.Gc.{GcMessage}
use steamstacks.Tf2.Wire.{Protowire, varint_type}
use steamstacks.Tf2.Client.{Client, send_message, disconnect}
use steamstacks.Tf2.Client.Dispatch.{handle_gc_message}

-- The client, the calls of `Connect` that hold a new channel and have not sent yet, those that have
-- sent and have not started their loop, and the channels of the running loops.
pub record Session : Type 0 where
  pub client : Client
  pub connecting : ℕ
  pub greeted : ℕ
  pub loops : List (Option ℕ)

-- The locked section of `Connect`; `none` is "already connecting".
unfoldable pub begin_connect : Client → Option Client
begin_connect c = elim c.hello_stop [
  | none ↦ some (record c { hello_stop = some c.made; made = suc c.made })
  | some ch ↦ none
]

-- CMsgClientHello, with `client_launcher` 0.
unfoldable pub hello_body : Protowire → Bytes
hello_body w = w.append_varint (w.append_tag [] 1 varint_type) 0

abbrev pub send_hello_message : Protowire → Client → Client
send_hello_message w c = send_message 4006 true (hello_body w) c

-- `stop := c.helloStop` and `go c.helloLoop(stop, body)`
unfoldable pub start_loop : Session → Session
start_loop s = record s { loops = s.client.hello_stop ∷ s.loops }

-- `sendHello`
unfoldable pub send_hello : Protowire → Bool → Session → Session × Bool
send_hello w true s = (start_loop (record s { client = send_hello_message w s.client }), true)
send_hello w false s = (record s { client = send_hello_message w s.client }, false)

-- `Connect` with no other goroutine in between: the session, and whether it returned no error.
unfoldable pub connect : Protowire → Bool → Session → Session × Bool
connect w is_sent s = elim (begin_connect s.client) [
  | none ↦ (s, false)
  | some c ↦ send_hello w is_sent (record s { client = c })
]

abbrev pub Closed : ℕ → List ℕ → Type 0
Closed ch [] = ⊥
Closed ch (k ∷ ks) = (ch ≡ k) ⊎ Closed ch ks

-- One step of one goroutine.
pub data Step (w : Protowire) : Session → Session → Type 0 where
  receive :
      (s : Session) (msg : GcMessage)
      → Step w s (record s { client = handle_gc_message w msg s.client })
  stop : (s : Session) → Step w s (record s { client = disconnect s.client })
  begin :
      (s : Session) (c : Client)
      → begin_connect s.client ≡ some c
      → Step w s (record s { client = c; connecting = suc s.connecting })
  hello_sent :
      (s : Session) (n : ℕ)
      → s.connecting ≡ suc n
      → Step w s (record s {
        client = send_hello_message w s.client;
        connecting = n;
        greeted = suc s.greeted;
      })
  hello_failed :
      (s : Session) (n : ℕ)
      → s.connecting ≡ suc n
      → Step w s (record s { client = send_hello_message w s.client; connecting = n })
  loop_started :
      (s : Session) (n : ℕ) → s.greeted ≡ suc n → Step w s (start_loop (record s { greeted = n }))
  hello_resent :
      (s : Session) (before after : List (Option ℕ)) (l : Option ℕ)
      → s.loops ≡ before ++ (l ∷ after)
      → Step w s (record s { client = send_hello_message w s.client })
  resend_failed :
      (s : Session) (before after : List (Option ℕ)) (l : Option ℕ)
      → s.loops ≡ before ++ (l ∷ after)
      → Step w s (record s { client = send_hello_message w s.client; loops = before ++ after })
  loop_stopped :
      (s : Session) (before after : List (Option ℕ)) (ch : ℕ)
      → s.loops ≡ before ++ (some ch ∷ after)
      → Closed ch s.client.closed
      → Step w s (record s { loops = before ++ after })

pub data Reachable (w : Protowire) (start : Session) : Session → Type 0 where
  here : Reachable w start start
  next : (s s' : Session) → Reachable w start s → Step w s s' → Reachable w start s'
