-- ===== src/Tf2/Client.antt =====
-- tf2/tf2.go and tf2/socache.go: the client of the game's coordinator: its state, its
-- callbacks and what it sends. Logging is left out.
pub mod Objects
pub mod Dispatch
pub mod Hello
pub mod Sound
pub mod Reachable
pub mod Updates
pub mod Subscribed
pub mod Session
pub mod Craft
use steamstacks.Prelude.{
  ℕ, zero, suc, ◌+◌, ◌*◌, ◌%◌, ◌^◌, Bool, true, false, not, List, [], ◌∷◌, ◌++◌, Option, none, some,
  Result, ok, err, panic, stuck, ◌==◌, if◌then◌else◌, length,
}
use steamstacks.Prelude.Bytes.{Bytes, put_le}
use steamstacks.SteamClient.Gc.{GcMessage}
use steamstacks.Tf2.Wire.{Protowire, DecodeError, varint_type, fixed64_type}
use steamstacks.Tf2.Item.{Item, Account, decode_item, decode_account}
use steamstacks.Tf2.Messages.{
  SubscribedType, SingleObject, WelcomeEvent, GoodbyeEvent, CraftEvent, decode_cache_subscribed,
  decode_single_object, decode_multiple_objects, parse_welcome, parse_goodbye,
  decode_craft_response,
}
use steamstacks.Tf2.Cache.{SoCache, new_so_cache, lookup, insert, delete, store, not_loaded}

-- The callbacks that are not nil.
pub record Handlers : Type 0 where
  pub on_connected : Bool
  pub on_disconnected : Bool
  pub on_gc_message : Bool
  pub on_backpack_loaded : Bool
  pub on_account_loaded : Bool
  pub on_item_acquired : Bool
  pub on_item_changed : Bool
  pub on_item_removed : Bool
  pub on_account_update : Bool
  pub on_craft_completed : Bool

-- What the client does outside of its state: the calls of its callbacks and of `SendGCMessage`.
pub data Event : Type 0 where
  connected : WelcomeEvent → Event
  disconnected : GoodbyeEvent → Event
  gc_message : GcMessage → Event
  backpack_loaded : List Item → Event
  account_loaded : Account → Event
  item_acquired : Item → Event
  item_changed : Option Item → Item → Event
  item_removed : Item → Event
  account_update : Account → Event
  craft_completed : CraftEvent → Event
  sent : GcMessage → Event

-- A channel is a number; `made` counts those that were made, and `closed` lists those that were
-- closed. `steam_id` is what the CM client answers.
pub record Client : Type 0 where
  pub handlers : Handlers
  pub steam_id : ℕ
  pub is_connected : Bool
  pub hello_stop : Option ℕ
  pub made : ℕ
  pub closed : List ℕ
  pub cache : SoCache
  pub events : List Event

abbrev pub emit : Event → Client → Client
emit e c = record c { events = c.events ++ (e ∷ []) }

-- `if c.OnX != nil { c.OnX(…) }`
abbrev pub call : Bool → Event → Client → Client
call installed e c = if installed then emit e c else c

abbrev pub app_id : ℕ
app_id = 440

abbrev pub so_type_item : ℕ
so_type_item = 1

abbrev pub so_type_account : ℕ
so_type_account = 7

-- `SendMessage` and `sendRawMessage`
abbrev pub gc_message_of : ℕ → Bool → Bytes → GcMessage
gc_message_of msg_type is_proto body = record {
  app_id = app_id;
  msg_type = msg_type;
  is_proto = is_proto;
  body = body;
}

abbrev pub send_message : ℕ → Bool → Bytes → Client → Client
send_message msg_type is_proto body c = emit (sent (gc_message_of msg_type is_proto body)) c

-- The bodies of `UseItem`, `RemoveCrafterName` and `RemoveGifter`.
unfoldable pub item_request : Protowire → ℕ → Bytes
item_request w item_id = w.append_varint (w.append_tag [] 1 varint_type) item_id

unfoldable pub use_item : Protowire → ℕ → Client → Client
use_item w item_id c = send_message 1025 true (item_request w item_id) c

unfoldable pub remove_crafter_name : Protowire → ℕ → Client → Client
remove_crafter_name w item_id c = send_message 1053 true (item_request w item_id) c

unfoldable pub remove_gifter : Protowire → ℕ → Client → Client
remove_gifter w item_id c = send_message 2570 true (item_request w item_id) c

unfoldable pub delete_item : ℕ → Client → Client
delete_item item_id c = send_message 1004 false (put_le 8 item_id) c

unfoldable pub put_ids : List ℕ → Bytes
put_ids [] = []
put_ids (id ∷ ids) = put_le 8 id ++ put_ids ids

-- The count is cut to 16 bits, and the IDs are all written.
unfoldable pub craft_body : List ℕ → ℕ → Bytes
craft_body items recipe = put_le 2 recipe ++ (put_le 2 (length items % 2 ^ 16) ++ put_ids items)

unfoldable pub craft : List ℕ → ℕ → Client → Client
craft items recipe c = send_message 1002 false (craft_body items recipe) c

-- `close(c.helloStop); c.helloStop = nil`
abbrev pub stop_hello : Client → Client
stop_hello c = elim c.hello_stop [
  | none ↦ c
  | some ch ↦ record c { hello_stop = none; closed = ch ∷ c.closed }
]

unfoldable pub disconnect : Client → Client
disconnect c = stop_hello (record c { is_connected = false; cache = new_so_cache })
