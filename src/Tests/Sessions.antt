-- ===== src/Tests/Sessions.antt =====
-- The client of the game's coordinator at concrete inputs, over a protowire of words.
use steamstacks.Prelude.{
  ℕ, ◌≡◌, refl, true, false, List, [], ◌∷◌, ◌++◌, map, none, some, inr, arith,
}
use steamstacks.Prelude.Bytes.{Bytes, put_le}
use steamstacks.SteamClient.Gc.{GcMessage}
use steamstacks.Tf2.Wire.Fields.{encode_fields, encode_field}
use steamstacks.Tf2.Messages.{SubscribedType, SingleObject, decode_craft_response}
use steamstacks.Tf2.Messages.Wrapped.{single_fields, multiple_fields, cache_subscribed_fields}
use steamstacks.Tf2.Cache.{new_so_cache}
use steamstacks.Tf2.Cache.Keys.{Keyed-empty}
use steamstacks.Tf2.Client.{Handlers, Client, call, backpack_loaded, disconnect, put_ids}
use steamstacks.Tf2.Client.Objects.{handle_so_cache_subscribed, handle_so_update_multiple}
use steamstacks.Tf2.Client.Dispatch.{handle_gc_message}
use steamstacks.Tf2.Client.Hello.{
  Session, begin_connect, connect, start_loop, stop, begin, here, next,
}
use steamstacks.Tf2.Client.Sound.{Sound}
use steamstacks.Tf2.Client.Reachable.{Reachable-Sound}
use steamstacks.Tf2.Client.Subscribed.{store_all, item_object, handle_so_cache_subscribed-items}
use steamstacks.Tf2.Client.Updates.{one_by_one, handle_so_update_multiple-one_by_one}
use steamstacks.Tf2.Client.Session.{late_loop, connect-failed}
use steamstacks.Tf2.Client.Craft.{decode_craft_response-put_ids}
use steamstacks.Tests.Words.{words, words-Documented}
use steamstacks.Tests.Items.{hat, hat-IsScalars, hat_derived}

abbrev all_handlers : Handlers
all_handlers = record {
  on_connected = true;
  on_disconnected = true;
  on_gc_message = true;
  on_backpack_loaded = true;
  on_account_loaded = true;
  on_item_acquired = true;
  on_item_changed = true;
  on_item_removed = true;
  on_account_update = true;
  on_craft_completed = true;
}

abbrev new_client : Client
new_client = record {
  handlers = all_handlers;
  steam_id = 76561197960287930;
  is_connected = false;
  hello_stop = none;
  made = 0;
  closed = [];
  cache = new_so_cache;
  events = [];
}

abbrev connecting_client : Client
connecting_client = record new_client { hello_stop = some 0; made = 1 }

abbrev session_of : Client → Session
session_of c = record { client = c; connecting = 0; greeted = 0; loops = [] }

abbrev begun : Session
begun = record { client = connecting_client; connecting = 1; greeted = 0; loops = [] }

abbrev stopped : Session
stopped = record begun { client = disconnect connecting_client }

begin_new : begin_connect new_client ≡ some connecting_client
unfolding begin_connect
begin_new = refl

new_client-Sound : Sound new_client
new_client-Sound = (Keyed-empty, (tt, tt, tt))

-- A call of `Connect` that is overtaken by `Disconnect`.
Reachable-Sound_example : Sound stopped.client
Reachable-Sound_example = Reachable-Sound words (session_of new_client) stopped new_client-Sound (
    next begun stopped
      (next (session_of new_client) begun here
        (begin (session_of new_client) connecting_client begin_new))
      (stop begun))

abbrev welcome : GcMessage
welcome = record { app_id = 440; msg_type = 4004; is_proto = true; body = 1 ∷ (0 ∷ (9 ∷ [])) }

late_loop_example :
    (start_loop (record begun { client = handle_gc_message words welcome begun.client })).loops
    ≡ none ∷ begun.loops
late_loop_example = late_loop words words-Documented.progress begun welcome refl

connect-failed_example :
    (connect words true (connect words false (session_of new_client)).0
      ≡ ((connect words false (session_of new_client)).0, false))
    × ((connect words true (record (session_of new_client) { client = disconnect new_client })).1
        ≡ true)
connect-failed_example = connect-failed words (session_of new_client) true

abbrev hat_object : SingleObject
hat_object = record { type_id = 1; object_data = item_object words hat }

abbrev hat_body : Bytes
hat_body = encode_fields words (single_fields hat_object)

-- A client whose backpack holds the hat.
abbrev stocked_client : Client
stocked_client = record new_client { cache = record { items = (77, hat) ∷ []; account = none } }

handle_so_update_multiple-one_by_one_example :
    handle_so_update_multiple words
      (encode_fields words (multiple_fields words (hat_object ∷ [])))
      stocked_client
    ≡ one_by_one words (hat_object ∷ []) stocked_client
handle_so_update_multiple-one_by_one_example =
    handle_so_update_multiple-one_by_one words words-Documented (hat_object ∷ []) stocked_client
      (unfold encode_fields encode_field in omega arith)

abbrev hats : SubscribedType
hats = record { type_id = 1; object_data = map (item_object words) (hat ∷ []) }

handle_so_cache_subscribed-items_example :
    handle_so_cache_subscribed words
      (encode_fields words (cache_subscribed_fields words 76561197960287930 (hats ∷ [])))
      new_client
    ≡ call new_client.handlers.on_backpack_loaded
        (backpack_loaded (hat ∷ []))
        (record new_client { cache = store_all (hat ∷ []) new_client.cache })
handle_so_cache_subscribed-items_example =
    handle_so_cache_subscribed-items words words-Documented 76561197960287930 (hat ∷ []) new_client
      (omega arith)
      (
        (
          hat-IsScalars,
          (unfold encode_fields encode_field in omega arith),
          (unfold encode_fields encode_field in omega arith),
          hat_derived,
        ),
        tt,
      )
      (unfold encode_fields encode_field in omega arith)

abbrev ids : List ℕ
ids = 77 ∷ (78 ∷ [])

decode_craft_response-put_ids_example :
    decode_craft_response
      (put_le 2 23 ++ (put_le 4 0 ++ (put_le 2 3 ++ (put_ids ids ++ (1 ∷ (2 ∷ []))))))
    ≡ some (record { recipe = 23; item_ids = ids })
decode_craft_response-put_ids_example =
    decode_craft_response-put_ids 23 0 3 ids (1 ∷ (2 ∷ [])) (omega arith) (omega arith)
      (omega arith) (omega arith) (inr (omega arith))
