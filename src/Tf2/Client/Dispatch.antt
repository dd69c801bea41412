-- ===== src/Tf2/Client/Dispatch.antt =====
-- tf2/tf2.go, `handleGCMessage`, and the callback that `New` installs on the CM client.
use steamstacks.Prelude.{true, false, [], Option, none, some, ◌==◌, if◌then◌else◌}
use steamstacks.Prelude.Bytes.{Bytes}
use steamstacks.SteamClient.Gc.{GcMessage}
use steamstacks.Tf2.Wire.{Protowire, fixed64_type}
use steamstacks.Tf2.Messages.{parse_welcome, parse_goodbye, decode_craft_response}
use steamstacks.Tf2.Cache.{new_so_cache}
use steamstacks.Tf2.Client.{
  connected, disconnected, gc_message, craft_completed, Client, call, app_id, send_message,
  stop_hello,
}
use steamstacks.Tf2.Client.Objects.{
  handle_so_cache_subscribed, handle_so_create, handle_so_update, handle_so_destroy,
  handle_so_update_multiple,
}

module _ (w : Protowire) where
  unfoldable pub handle_so_cache_subscription_check : Client → Client
  handle_so_cache_subscription_check c =
      send_message 28 true (w.append_fixed64 (w.append_tag [] 1 fixed64_type) c.steam_id) c

  unfoldable pub handle_craft_response : Bytes → Client → Client
  handle_craft_response b c = elim (decode_craft_response b) [
    | none ↦ c
    | some ev ↦ call c.handlers.on_craft_completed (craft_completed ev) c
  ]

  unfoldable pub handle_welcome : Bytes → Client → Client
  handle_welcome body c = elim (parse_welcome w body) [
    | none ↦ c
    | some ev ↦
        call c.handlers.on_connected (connected ev)
          (stop_hello (record c { is_connected = true; cache = new_so_cache }))
  ]

  unfoldable pub handle_goodbye : Bytes → Client → Client
  handle_goodbye body c = elim (parse_goodbye w body) [
    | none ↦ c
    | some ev ↦
        call c.handlers.on_disconnected (disconnected ev)
          (record c { is_connected = false; cache = new_so_cache })
  ]

  -- `handleGCMessage`, by the type of the message.
  unfoldable pub handle_gc_message : GcMessage → Client → Client
  handle_gc_message msg c =
      if msg.msg_type == 4004
      then handle_welcome msg.body c
      else if msg.msg_type == 4008
      then handle_goodbye msg.body c
      else if msg.msg_type == 27
      then handle_so_cache_subscription_check c
      else if msg.msg_type == 24
      then handle_so_cache_subscribed w msg.body c
      else if msg.msg_type == 21
      then handle_so_create w msg.body c
      else if msg.msg_type == 22
      then handle_so_update w msg.body c
      else if msg.msg_type == 23
      then handle_so_destroy w msg.body c
      else if msg.msg_type == 26
      then handle_so_update_multiple w msg.body c
      else if msg.msg_type == 1003
      then handle_craft_response msg.body c
      else call c.handlers.on_gc_message (gc_message msg) c

  -- What `New` installs on the CM client: the messages of the game, and the rest to `prev` if any.
  unfoldable pub on_gc_message : Option (GcMessage → Client → Client) → GcMessage → Client → Client
  on_gc_message prev msg c =
      if msg.app_id == app_id
      then handle_gc_message msg c
      else elim prev [ none ↦ c | some f ↦ f msg c ]
