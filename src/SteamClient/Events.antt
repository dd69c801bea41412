-- ===== src/SteamClient/Events.antt =====
-- The messages that the server pushes, and the events that the handlers make of them:
-- steamclient/friends.go, steamclient/persona.go and steamclient/notifications.go.
use steamstacks.Prelude.{
  ℕ, ◌∷◌, Bool, false, List, [], map, Option, none, some, ◌==◌, if◌then◌else◌,
}
use steamstacks.Prelude.Bytes.{Bytes}
use steamstacks.SteamClient.Protocol.{get_default}

-- The messages, with the fields that the handlers read. An unset field is `none`.
pub record FriendEntry : Type 0 where
  pub ulfriendid : Option ℕ
  pub efriendrelationship : Option ℕ

pub record FriendsList : Type 0 where
  pub bincremental : Option Bool
  pub friends : List FriendEntry

pub record PersonaFriend : Type 0 where
  pub friendid : Option ℕ
  pub persona_state : Option ℕ
  pub player_name : Bytes
  pub game_played_app_id : Option ℕ
  pub game_name : Bytes
  pub last_logoff : Option ℕ
  pub last_logon : Option ℕ

pub record PersonaStates : Type 0 where
  pub status_flags : Option ℕ
  pub friends : List PersonaFriend

pub record FriendMsgIncoming : Type 0 where
  pub steamid_from : Option ℕ
  pub chat_entry_type : Option ℕ
  pub message : Bytes
  pub from_limited_account : Option Bool
  pub rtime32_server_timestamp : Option ℕ

pub record UserNotification : Type 0 where
  pub user_notification_type : Option ℕ
  pub count : Option ℕ

-- The events. A `SteamID` is its number, and `FromSteamID64` a conversion.
pub record RelationshipEvent : Type 0 where
  pub steam_id : ℕ
  pub relationship : ℕ
  pub incremental : Bool

pub record PersonaStateEvent : Type 0 where
  pub steam_id : ℕ
  pub status_flags : ℕ
  pub state : ℕ
  pub player_name : Bytes
  pub game_app_id : ℕ
  pub game_name : Bytes
  pub last_logoff : ℕ
  pub last_logon : ℕ

pub record FriendMessage : Type 0 where
  pub sender : ℕ
  pub entry_type : ℕ
  pub message : Bytes
  pub from_limited_account : Bool
  pub server_timestamp : ℕ
  pub echo : Bool

abbrev pub get_bool : Option Bool → Bool
get_bool none = false
get_bool (some b) = b

-- `strings.TrimRight(s, "\x00")`
unfoldable pub trim_right_nul : Bytes → Bytes
trim_right_nul [] = []
trim_right_nul (b ∷ bs) =
    let rest = trim_right_nul bs in
    elim rest [ [] ↦ if b == 0 then [] else b ∷ [] | x ∷ xs ↦ b ∷ (x ∷ xs) ]

-- One event for each friend of the list, in its order.
unfoldable pub relationship_events : FriendsList → List RelationshipEvent
relationship_events msg =
    map
      (λ (f : FriendEntry). record {
        steam_id = get_default 0 f.ulfriendid;
        relationship = get_default 0 f.efriendrelationship;
        incremental = get_bool msg.bincremental;
      })
      msg.friends

unfoldable pub persona_state_events : PersonaStates → List PersonaStateEvent
persona_state_events msg =
    map
      (λ (f : PersonaFriend). record {
        steam_id = get_default 0 f.friendid;
        status_flags = get_default 0 msg.status_flags;
        state = get_default 0 f.persona_state;
        player_name = f.player_name;
        game_app_id = get_default 0 f.game_played_app_id;
        game_name = f.game_name;
        last_logoff = get_default 0 f.last_logoff;
        last_logon = get_default 0 f.last_logon;
      })
      msg.friends

-- `echo`: whether the packet is an `EMsgClientFriendMsgEchoToSender`, number 5578.
unfoldable pub friend_message : ℕ → FriendMsgIncoming → FriendMessage
friend_message emsg msg = record {
  sender = get_default 0 msg.steamid_from;
  entry_type = get_default 0 msg.chat_entry_type;
  message = trim_right_nul msg.message;
  from_limited_account = get_bool msg.from_limited_account;
  server_timestamp = get_default 0 msg.rtime32_server_timestamp;
  echo = emsg == 5578;
}

-- The counts of the notifications of type 1, those of trade offers.
unfoldable pub trade_counts : List UserNotification → List ℕ
trade_counts [] = []
trade_counts (n ∷ ns) =
    if get_default 0 n.user_notification_type == 1
    then get_default 0 n.count ∷ trade_counts ns
    else trade_counts ns

-- `DisconnectEvent`: of a read that failed, or of a logoff by the server with its reason.
pub data DisconnectEvent : Type 0 where
  read_failed : DisconnectEvent
  logged_off : ℕ → DisconnectEvent
