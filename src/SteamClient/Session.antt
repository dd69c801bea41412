-- ===== src/SteamClient/Session.antt =====
-- steamclient/steamclient.go: the client of a CM server: its state, what it sends, and the dispatch
-- of the packets that it reads. Logging is left out.
pub mod Dispatch
pub mod Send
pub mod Run
pub mod Calls
pub mod Lifecycle
pub mod Login
pub mod Groups
pub mod Links
pub mod Matched
pub mod Nesting
use steamstacks.Prelude.{
  ℕ, zero, suc, ◌+◌, ◌%◌, ◌^◌, Bool, true, false, not, ◌&&◌, List, [], ◌∷◌, ◌++◌, map, Option, none,
  some, Result, ok, err, panic, stuck, ◌>>=◌, ◌==◌, if◌then◌else◌,
}
use steamstacks.Prelude.Bytes.{Bytes}
use steamstacks.SteamClient.Protocol.{Codec, Header, empty_header, get_default, get_jobid_target}
use steamstacks.SteamClient.Message.{Packet, PacketError, encode_packet, header_or_empty}
use steamstacks.SteamClient.Message.Multi.{Stream, decode_multi}
use steamstacks.SteamClient.Gc.{GcClient, GcMessage, handle_gc_message}
use steamstacks.SteamClient.Events.{
  FriendsList, PersonaStates, FriendMsgIncoming, UserNotification, RelationshipEvent,
  PersonaStateEvent, FriendMessage, DisconnectEvent, read_failed, logged_off, relationship_events,
  persona_state_events, friend_message, trade_counts,
}

-- A channel of one place that waits for one response, with what it was made for: a job, or the
-- next packet of a type. The number tells channels apart.
pub data Channel : Type 0 where
  job_channel : ℕ → ℕ → Channel
  emsg_channel : ℕ → ℕ → Channel

abbrev pub same_channel : Channel → Channel → Bool
same_channel (job_channel n job) (job_channel m job') = n == m && job == job'
same_channel (job_channel n job) (emsg_channel m target) = false
same_channel (emsg_channel n target) (job_channel m job) = false
same_channel (emsg_channel n target) (emsg_channel m target') = n == m && target == target'

-- The function in `OnPacket`: none, the one of the program, or a listener that `expectEMsg` put in
-- front of the function that was there.
pub data OnPacket : Type 0 where
  no_handler : OnPacket
  user_handler : OnPacket
  one_shot : ℕ → Channel → OnPacket → OnPacket

-- The other callbacks that are not nil.
pub record Callbacks : Type 0 where
  pub on_friend_message : Bool
  pub on_relationship : Bool
  pub on_persona_state : Bool
  pub on_trade_notification : Bool
  pub on_item_notification : Bool
  pub on_gc_message : Bool
  pub on_disconnect : Bool

-- The calls of the callbacks.
pub data Event : Type 0 where
  relationship : RelationshipEvent → Event
  persona_state : PersonaStateEvent → Event
  friend_msg : FriendMessage → Event
  trade_notification : ℕ → Event
  item_notification : ℕ → Event
  gc_message : GcMessage → Event
  disconnected : DisconnectEvent → Event
  packet : Packet → Event

pub data Conn : Type 0 where
  no_conn : Conn
  open_conn : Conn
  closed_conn : Conn

-- `c.done`
pub data Done : Type 0 where
  nil_done : Done
  open_done : Done
  closed_done : Done

-- `close_once` and `disconnect_once`: whether the `sync.Once` has run. `made` counts channels, and
-- `responses` holds what was sent on each of them. `events` and `written` are in order.
pub record CmClient : Type 0 where
  pub conn : Conn
  pub steam_id : ℕ
  pub session_id : ℕ
  pub callbacks : Callbacks
  pub on_packet : OnPacket
  pub next_job_id : ℕ
  pub pending_jobs : List (ℕ × Channel)
  pub done : Done
  pub logged_in : Bool
  pub close_once : Bool
  pub disconnect_once : Bool
  pub made : ℕ
  pub responses : List (Channel × Packet)
  pub events : List Event
  pub written : List Bytes

-- `New`, with the callbacks of its options.
abbrev pub new_client : Callbacks → OnPacket → CmClient
new_client callbacks on_packet = record {
  conn = no_conn;
  steam_id = 0;
  session_id = 0;
  callbacks = callbacks;
  on_packet = on_packet;
  next_job_id = 0;
  pending_jobs = [];
  done = nil_done;
  logged_in = false;
  close_once = false;
  disconnect_once = false;
  made = 0;
  responses = [];
  events = [];
  written = [];
}

-- `CMsgMulti`
pub record MultiMessage : Type 0 where
  pub message_body : Bytes
  pub size_unzipped : Option ℕ

-- What the client takes from other packages: `proto.Unmarshal` at each type (the reason of a
-- `CMsgClientLoggedOff`, the count of a `CMsgClientItemAnnouncements`), gzip, and whether the
-- transport takes a message, given those that were written before.
pub record Services : Type 0 where
  pub header : Codec Header
  pub gc : Codec GcClient
  pub multi : Bytes → Option MultiMessage
  pub logged_off_reason : Bytes → Option (Option ℕ)
  pub friends_list : Bytes → Option FriendsList
  pub persona_states : Bytes → Option PersonaStates
  pub friend_msg_incoming : Bytes → Option FriendMsgIncoming
  pub user_notifications : Bytes → Option (List UserNotification)
  pub item_announcements : Bytes → Option (Option ℕ)
  pub gunzip : Bytes → Option Stream
  pub accepts : List Bytes → Bytes → Bool

abbrev pub emit : Event → CmClient → CmClient
emit ev c = record c { events = c.events ++ (ev ∷ []) }

abbrev pub emit_all : List Event → CmClient → CmClient
emit_all evs c = record c { events = c.events ++ evs }

-- `select { case ch <- pkt: default: }`: dropped where the place is taken.
unfoldable pub response_of : Channel → List (Channel × Packet) → Option Packet
response_of ch [] = none
response_of ch (r ∷ rs) = if same_channel r.0 ch then some r.1 else response_of ch rs

unfoldable pub try_send : Channel → Packet → CmClient → CmClient
try_send ch pkt c = elim (response_of ch c.responses) [
  | none ↦ record c { responses = (ch, pkt) ∷ c.responses }
  | some p ↦ c
]

-- `c.pendingJobs[job]`
unfoldable pub pending : ℕ → List (ℕ × Channel) → Option Channel
pending job [] = none
pending job (e ∷ es) = if e.0 == job then some e.1 else pending job es

-- `delete(c.pendingJobs, job)`
unfoldable pub forget : ℕ → List (ℕ × Channel) → List (ℕ × Channel)
forget job [] = []
forget job (e ∷ es) = if e.0 == job then forget job es else e ∷ forget job es

unfoldable pub answer_job : Packet → CmClient → CmClient
answer_job pkt c =
    let job = get_jobid_target (header_or_empty pkt.header) in
    elim (pending job c.pending_jobs) [
      | none ↦ c
      | some ch ↦ try_send ch pkt (record c { pending_jobs = forget job c.pending_jobs })
    ]

unfoldable pub fire_disconnect : DisconnectEvent → CmClient → CmClient
fire_disconnect ev c =
    let fired = record c { disconnect_once = true; logged_in = false } in
    if c.disconnect_once
    then c
    else if c.callbacks.on_disconnect
    then emit (disconnected ev) fired
    else fired

-- `c.closeOnce.Do(func() { close(c.done) })`: closing a channel that is nil or closed panics.
unfoldable pub close_done {ℓ} : {E : Type ℓ} → CmClient → Result E CmClient
close_done c = if c.close_once then ok c else elim c.done [
  | nil_done ↦ panic
  | open_done ↦ ok (record c { done = closed_done; close_once = true })
  | closed_done ↦ panic
]

abbrev pub close_conn : CmClient → CmClient
close_conn c = record c {
  conn = elim c.conn [ no_conn ↦ no_conn | open_conn ↦ closed_conn | closed_conn ↦ closed_conn ];
}
