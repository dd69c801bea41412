-- ===== src/Tf2/Client/Objects.antt =====
-- tf2/socache.go: the handlers of the messages of the shared-object cache.
use steamstacks.Prelude.{
  Bool, true, false, not, List, [], ◌∷◌, ◌++◌, Option, none, some, ok, err, panic, stuck, ◌==◌,
  if◌then◌else◌,
}
use steamstacks.Prelude.Bytes.{Bytes}
use steamstacks.Tf2.Wire.{Protowire}
use steamstacks.Tf2.Item.{Item, decode_item, decode_account}
use steamstacks.Tf2.Messages.{
  SubscribedType, SingleObject, decode_cache_subscribed, decode_single_object,
  decode_multiple_objects,
}
use steamstacks.Tf2.Cache.{SoCache, lookup, delete, store, not_loaded}
use steamstacks.Tf2.Client.{
  backpack_loaded, account_loaded, item_acquired, item_changed, item_removed, account_update,
  Client, call, so_type_item, so_type_account,
}

module _ (w : Protowire) where
  -- The items of one subscribed type: the cache, and the items unless one was malformed.
  unfoldable pub load_items : SoCache → List Item → List Bytes → SoCache × Option (List Item)
  load_items cache items [] = (cache, some items)
  load_items cache items (object ∷ rest) = elim (decode_item w object) [
    | ok it ↦ load_items (store it cache) (items ++ (it ∷ [])) rest
    | err e ↦ (cache, none)
    | panic ↦ (cache, none)
    | stuck ↦ (cache, none)
  ]

  -- The item branch of the loop; the Boolean says whether the loop goes on.
  unfoldable pub subscribe_items : List Bytes → Client → Client × Bool
  subscribe_items object_data c =
      let (cache, loaded) = load_items c.cache [] object_data in
      elim loaded [
        | none ↦ (record c { cache = cache }, false)
        | some items ↦ (
          call c.handlers.on_backpack_loaded (backpack_loaded items) (record c { cache = cache }),
          true,
        )
      ]

  unfoldable pub subscribe_account : List Bytes → Client → Client × Bool
  subscribe_account [] c = (c, true)
  subscribe_account (object ∷ rest) c = elim (decode_account w object) [
    | ok acc ↦ (
      call c.handlers.on_account_loaded (account_loaded acc)
          (record c { cache = record c.cache { account = some acc } }),
      true,
    )
    | err e ↦ (c, false)
    | panic ↦ (c, false)
    | stuck ↦ (c, false)
  ]

  unfoldable pub subscribe_object : SubscribedType → Client → Client × Bool
  subscribe_object obj c =
      if obj.type_id == so_type_item
      then subscribe_items obj.object_data c
      else if obj.type_id == so_type_account
      then subscribe_account obj.object_data c
      else (c, true)

  unfoldable pub subscribe_objects : List SubscribedType → Client → Client
  subscribe_objects [] c = c
  subscribe_objects (obj ∷ objects) c =
      let (c', goes_on) = subscribe_object obj c in
      elim goes_on [ true ↦ subscribe_objects objects c' | false ↦ c' ]

  unfoldable pub handle_so_cache_subscribed : Bytes → Client → Client
  handle_so_cache_subscribed body c = elim (decode_cache_subscribed w body) [
    | ok (owner, objects) ↦ subscribe_objects objects c
    | err e ↦ c
    | panic ↦ c
    | stuck ↦ c
  ]

  -- What an item event does with its object, when it decodes.
  abbrev pub with_item : Bytes → (Item → Client → Client) → Client → Client
  with_item object f c = elim (decode_item w object) [
    | ok it ↦ f it c
    | err e ↦ c
    | panic ↦ c
    | stuck ↦ c
  ]

  abbrev pub acquire_item : Item → Client → Client
  acquire_item it c =
      call c.handlers.on_item_acquired (item_acquired it) (record c { cache = store it c.cache })

  unfoldable pub create_object : SingleObject → Client → Client
  create_object so c =
      if not (so.type_id == so_type_item)
      then c
      else if not_loaded c.cache
      then c
      else with_item so.object_data acquire_item c

  abbrev pub change_item : Item → Client → Client
  change_item it c =
      call c.handlers.on_item_changed (item_changed (lookup it.id c.cache.items) it)
        (record c { cache = store it c.cache })

  abbrev pub change_account : Bytes → Client → Client
  change_account object c = elim (decode_account w object) [
    | ok acc ↦
        call c.handlers.on_account_update (account_update acc)
          (record c { cache = record c.cache { account = some acc } })
    | err e ↦ c
    | panic ↦ c
    | stuck ↦ c
  ]

  unfoldable pub apply_single_update : SingleObject → Client → Client
  apply_single_update so c =
      if so.type_id == so_type_item
      then (if not_loaded c.cache then c else with_item so.object_data change_item c)
      else if so.type_id == so_type_account
      then change_account so.object_data c
      else c

  abbrev pub remove_item : Item → Client → Client
  remove_item it c = elim (lookup it.id c.cache.items) [
    | none ↦ c
    | some old ↦
        call c.handlers.on_item_removed (item_removed old)
          (record c { cache = record c.cache { items = delete it.id c.cache.items } })
  ]

  unfoldable pub destroy_object : SingleObject → Client → Client
  destroy_object so c =
      if not (so.type_id == so_type_item) then c else with_item so.object_data remove_item c

  -- The handlers of the messages that carry one object.
  abbrev pub with_object : Bytes → (SingleObject → Client → Client) → Client → Client
  with_object body f c = elim (decode_single_object w body) [
    | ok so ↦ f so c
    | err e ↦ c
    | panic ↦ c
    | stuck ↦ c
  ]

  unfoldable pub handle_so_create : Bytes → Client → Client
  handle_so_create body c = with_object body create_object c

  unfoldable pub handle_so_update : Bytes → Client → Client
  handle_so_update body c = with_object body apply_single_update c

  unfoldable pub handle_so_destroy : Bytes → Client → Client
  handle_so_destroy body c = with_object body destroy_object c

  unfoldable pub apply_updates : List SingleObject → Client → Client
  apply_updates [] c = c
  apply_updates (so ∷ objects) c = apply_updates objects (apply_single_update so c)

  unfoldable pub handle_so_update_multiple : Bytes → Client → Client
  handle_so_update_multiple body c = elim (decode_multiple_objects w body) [
    | ok objects ↦ apply_updates objects c
    | err e ↦ c
    | panic ↦ c
    | stuck ↦ c
  ]
