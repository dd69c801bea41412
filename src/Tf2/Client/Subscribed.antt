-- ===== src/Tf2/Client/Subscribed.antt =====
-- What a subscription to the shared-object cache comes to.
use steamstacks.Prelude.{
  ℕ, ◌≡◌, refl, ap, ◌∙◌, Bool, true, false, List, [], ◌∷◌, ◌++◌, map, Option, none, some, All,
  append-nil, append_assoc,
}
use steamstacks.Prelude.Bytes.{Bytes, IsU64}
use steamstacks.Tf2.Wire.{Protowire}
use steamstacks.Tf2.Wire.Fields.{encode_fields, Documented}
use steamstacks.Tf2.Item.{Item, derive_item}
use steamstacks.Tf2.Item.Fields.{IsScalars, Attributes, Equips, item_fields}
use steamstacks.Tf2.Item.RoundTrip.{decode_item-item_fields}
use steamstacks.Tf2.Messages.Wrapped.{
  cache_subscribed_fields, IsSubscription, decode_cache_subscribed-fields,
}
use steamstacks.Tf2.Cache.{SoCache, store}
use steamstacks.Tf2.Client.{Client, call, backpack_loaded}
use steamstacks.Tf2.Client.Objects.{
  load_items, subscribe_items, subscribe_object, subscribe_objects, handle_so_cache_subscribed,
}

-- The cache after the items of a list, in order.
abbrev pub store_all : List Item → SoCache → SoCache
store_all [] cache = cache
store_all (it ∷ its) cache = store_all its (store it cache)

abbrev pub IsItem : Protowire → Item → Type 0
IsItem w it =
    IsScalars it × Attributes w it.attributes × Equips w it.equip_state × (derive_item it ≡ it)

abbrev pub item_object : Protowire → Item → Bytes
item_object w it = encode_fields w (item_fields w it)

module _ (w : Protowire) (laws : Documented w) where
  load_items-item_objects :
      (its read : List Item) (cache : SoCache)
      → All (IsItem w) its
      → load_items w cache read (map (item_object w) its)
        ≡ (store_all its cache, some (read ++ its))
  unfolding load_items
  load_items-item_objects [] read cache h = rw append-nil refl
  load_items-item_objects (it ∷ its) read cache h =
      rw (decode_item-item_fields w laws it h.0.0 h.0.1 h.0.2 h.0.3, load_items)
        (load_items-item_objects its (read ++ (it ∷ [])) (store it cache) h.1
          ∙ rw (append_assoc read (it ∷ []) its) refl)

  subscribe_items-item_objects :
      (its : List Item) (c : Client)
      → All (IsItem w) its
      → subscribe_items w (map (item_object w) its) c ≡ (
        call c.handlers.on_backpack_loaded
            (backpack_loaded its)
            (record c { cache = store_all its c.cache }),
        true,
      )
  unfolding subscribe_items
  subscribe_items-item_objects its c k =
      ap
        (λ (r : SoCache × Option (List Item)). elim r.1 as (λ _. Client × Bool) [
          | none ↦ (record c { cache = r.0 }, false)
          | some items ↦ (
            call c.handlers.on_backpack_loaded (backpack_loaded items) (record c { cache = r.0 }),
            true,
          )
        ])
        (load_items-item_objects its [] c.cache k)

  -- With protowire as documented, a subscription whose only type is the items', with items that
  -- fit their fields, stores each of them in order, calls `OnBackpackLoaded`, if it is set, with
  -- all of them, and does nothing else.
  pub handle_so_cache_subscribed-items :
      (owner : ℕ) (its : List Item) (c : Client)
      → IsU64 owner
      → All (IsItem w) its
      → IsSubscription w (record { type_id = 1; object_data = map (item_object w) its })
      → handle_so_cache_subscribed w
          (encode_fields w (
            cache_subscribed_fields w owner
              (record { type_id = 1; object_data = map (item_object w) its } ∷ [])))
          c
        ≡ call c.handlers.on_backpack_loaded
            (backpack_loaded its)
            (record c { cache = store_all its c.cache })
  unfolding handle_so_cache_subscribed subscribe_objects subscribe_object subscribe_items
  handle_so_cache_subscribed-items owner its c h k sub =
      rw
        (
          decode_cache_subscribed-fields w laws owner
              (record { type_id = 1; object_data = map (item_object w) its } ∷ []) h (sub, tt),
          handle_so_cache_subscribed,
        )
        (ap (λ (r : Client × Bool). elim r.1 as (λ _. Client) [ true ↦ r.0 | false ↦ r.0 ])
          (subscribe_items-item_objects its c k))
