-- ===== src/SteamClient/Session/Lifecycle.antt =====
-- steamclient/steamclient.go and steamclient/reconnect.go: how a connection starts and ends, and the
-- loops that run in between.
pub mod Close
pub mod Life
pub mod Once
pub mod Ends
pub mod Renewed
use steamstacks.Prelude.{
  ℕ, zero, suc, Bool, true, false, List, [], ◌∷◌, Option, none, some, Result, ok, err, panic, stuck,
  ◌>>=◌, ◌==◌, if◌then◌else◌, length, get_elem?,
}
use steamstacks.Prelude.Bytes.{Bytes}
use steamstacks.SteamClient.Protocol.{Header, empty_header}
use steamstacks.SteamClient.Message.{Packet, PacketError, decode_packet}
use steamstacks.SteamClient.Events.{read_failed}
use steamstacks.SteamClient.Session.{
  CmClient, Conn, no_conn, open_conn, closed_conn, Done, nil_done, open_done, closed_done, Services,
  fire_disconnect, close_done, close_conn,
}
use steamstacks.SteamClient.Session.Dispatch.{handle_packet}
use steamstacks.SteamClient.Session.Send.{SendError, send_packet}
use steamstacks.SteamClient.Session.Run.{Run, commit, then_run}

pub data TransportType : Type 0 where
  web_socket : TransportType
  tcp : TransportType

-- `CMServer`; of its type, whether it is "websockets", "netfilter" or another.
pub data ServerType : Type 0 where
  websockets : ServerType
  netfilter : ServerType
  other_type : ServerType

pub record CmServer : Type 0 where
  pub addr : Bytes
  pub server_type : ServerType

pub data ConnectError : Type 0 where
  discover_servers : ConnectError
  no_servers_found : ConnectError
  dial : ConnectError

-- `s.Type == targetType`
abbrev pub serves : TransportType → ServerType → Bool
serves web_socket websockets = true
serves web_socket netfilter = false
serves web_socket other_type = false
serves tcp websockets = false
serves tcp netfilter = true
serves tcp other_type = false

unfoldable pub candidates : TransportType → List CmServer → List CmServer
candidates t [] = []
candidates t (s ∷ ss) =
    let rest = candidates t ss in if serves t s.server_type then s ∷ rest else rest

-- The world outside of `Connect`: the servers that are discovered, `rand.IntN`, and whether the
-- transport's dial (with its handshake) succeeds.
pub record Outside : Type 0 where
  pub discovered : Option (List CmServer)
  pub int_n : ℕ → ℕ
  pub dials : TransportType → CmServer → Bool

unfoldable pub connect : TransportType → Outside → CmClient → Result ConnectError CmClient
connect t o c = elim o.discovered [
  | none ↦ err discover_servers
  | some servers ↦
      let found = candidates t servers in
      if length found == 0
      then err no_servers_found
      else elim (get_elem? found (o.int_n (length found))) [
        | none ↦ panic
        | some server ↦
            if o.dials t server
            then ok (record c { conn = open_conn; done = open_done })
            else err dial
      ]
]

-- A send whose failure is ignored.
abbrev pub best_effort : Result SendError CmClient → CmClient → Result ⊥ CmClient
best_effort (ok c') c = ok c'
best_effort (err e) c = ok c
best_effort panic c = panic
best_effort stuck c = stuck

-- Both `sync.Once` are new.
abbrev pub reset_once : CmClient → CmClient
reset_once c = record c { close_once = false; disconnect_once = false }

-- `ok c` is nil, the only error that is returned.
unfoldable pub log_off : Services → CmClient → Result ⊥ CmClient
log_off s c =
    let off = record c { logged_in = false } in
    if c.logged_in
    then best_effort
        (send_packet s 706
          (some (record empty_header {
            steamid = some c.steam_id;
            client_sessionid = some c.session_id;
          }))
          [] off)
        off
    else ok c

unfoldable pub disconnect : Services → CmClient → Result ⊥ CmClient
disconnect s c = do off ← log_off s c; closed ← close_done off; ok (reset_once (close_conn closed))

-- Up to the call of `Connect`: the loops of the old connection end.
unfoldable pub tear_down : CmClient → Result ConnectError CmClient
tear_down c = do
  closed ← close_done c
  ok (record (reset_once (close_conn closed)) { done = open_done; logged_in = false })

unfoldable pub reconnect : TransportType → Outside → CmClient → Run ConnectError Unit
reconnect t o c =
    then_run (commit (λ e. e) (tear_down c) c) (λ _ c'. commit (λ e. e) (connect t o c') c')

-- One tick of `heartbeatLoop`: whether it goes on, and the client. The connection is closed where
-- the heartbeat, an empty message, cannot be sent.
unfoldable pub beat : Services → CmClient → Result ⊥ (Bool × CmClient)
beat s c = elim (send_packet s 703 none [] c) [
  | ok c' ↦ ok (true, c')
  | err e ↦ ok (false, close_conn c)
  | panic ↦ panic
  | stuck ↦ stuck
]

-- `readLoop` where a read fails.
unfoldable pub read_error : CmClient → CmClient
read_error c = elim c.done [
  | closed_done ↦ c
  | open_done ↦ fire_disconnect read_failed c
  | nil_done ↦ fire_disconnect read_failed c
]

module _ (s : Services) (fuel : ℕ) where
  abbrev pub handle_decoded : Result PacketError Packet → CmClient → Result ⊥ CmClient
  handle_decoded (ok pkt) c = handle_packet s fuel pkt c
  handle_decoded (err e) c = ok c
  handle_decoded panic c = panic
  handle_decoded stuck c = stuck

  abbrev pub is_open : Conn → Bool
  is_open no_conn = false
  is_open open_conn = true
  is_open closed_conn = false

  -- What the connection gives, message by message; behind the last, or once the connection is
  -- closed, a read fails. `fuel` bounds the groups in each message.
  unfoldable pub read_loop : List Bytes → CmClient → Result ⊥ CmClient
  read_loop [] c = ok (read_error c)
  read_loop (d ∷ ds) c =
      let go_on = handle_decoded (decode_packet s.header d) c >>= λ c'. read_loop ds c' in
      if is_open c.conn then go_on else ok (read_error c)
