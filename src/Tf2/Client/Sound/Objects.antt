-- ===== src/Tf2/Client/Sound/Objects.antt =====
-- The same of the handlers of the cache's messages, part by part.
use steamstacks.Prelude.{
  Bool, true, false, not, List, [], ◌∷◌, ◌++◌, Option, none, some, Result, ok, err, panic, stuck,
  ◌==◌, if◌then◌else◌,
}
use steamstacks.Prelude.Bytes.{Bytes}
use steamstacks.Tf2.Wire.{Protowire, DecodeError}
use steamstacks.Tf2.Item.{Item, Account, decode_item, decode_account}
use steamstacks.Tf2.Messages.{SubscribedType, SingleObject}
use steamstacks.Tf2.Cache.{SoCache, lookup, delete, store, not_loaded}
use steamstacks.Tf2.Cache.Keys.{Keyed, insert-Keyed, delete-Keyed}
use steamstacks.Tf2.Client.{
  Client, call, backpack_loaded, account_loaded, item_removed, account_update,
}
use steamstacks.Tf2.Client.Objects.{
  load_items, subscribe_items, subscribe_account, subscribe_object, subscribe_objects, acquire_item,
  create_object, change_item, change_account, apply_single_update, remove_item, destroy_object,
  apply_updates,
}
use steamstacks.Tf2.Client.Sound.{Sound, call-Sound, if_Sound, with_item-Sound}

module _ (w : Protowire) where
  load_items-Keyed :
      (objects : List Bytes) (cache : SoCache) (items : List Item)
      → Keyed cache.items
      → Keyed (load_items w cache items objects).0.items
  unfolding load_items
  load_items-Keyed [] cache items h = h
  load_items-Keyed (object ∷ rest) cache items h =
      go (decode_item w object)
        (λ it. load_items-Keyed rest (store it cache) _ (insert-Keyed it cache.items h))
    where
      go :
          (r : Result DecodeError Item)
          → ((it : Item) → Keyed (load_items w (store it cache) (items ++ (it ∷ [])) rest).0.items)
          → Keyed
              (elim r as (λ _. SoCache × Option (List Item)) [
                | ok it ↦ load_items w (store it cache) (items ++ (it ∷ [])) rest
                | err e ↦ (cache, none)
                | panic ↦ (cache, none)
                | stuck ↦ (cache, none)
              ]).0.items
      go (ok it) f = f it
      go (err e) f = h
      go panic f = h
      go stuck f = h

  subscribe_items-Sound :
      (objects : List Bytes) (c : Client) → Sound c → Sound (subscribe_items w objects c).0
  unfolding subscribe_items
  subscribe_items-Sound objects c h =
      go (load_items w c.cache [] objects) (load_items-Keyed objects c.cache [] h.0)
    where
      go :
          (r : SoCache × Option (List Item))
          → Keyed r.0.items
          → Sound
              (elim r.1 as (λ _. Client × Bool) [
                | none ↦ (record c { cache = r.0 }, false)
                | some items ↦ (
                  call c.handlers.on_backpack_loaded
                      (backpack_loaded items)
                      (record c { cache = r.0 }),
                  true,
                )
              ]).0
      go (cache, none) k = (k, h.1)
      go (cache, some items) k =
          call-Sound c.handlers.on_backpack_loaded _ (record c { cache = cache }) (k, h.1)

  subscribe_account-Sound :
      (objects : List Bytes) (c : Client) → Sound c → Sound (subscribe_account w objects c).0
  unfolding subscribe_account
  subscribe_account-Sound [] c h = h
  subscribe_account-Sound (object ∷ rest) c h = go (decode_account w object)
    where
      go :
          (r : Result DecodeError Account)
          → Sound
              (elim r as (λ _. Client × Bool) [
                | ok acc ↦ (
                  call c.handlers.on_account_loaded
                      (account_loaded acc)
                      (record c { cache = record c.cache { account = some acc } }),
                  true,
                )
                | err e ↦ (c, false)
                | panic ↦ (c, false)
                | stuck ↦ (c, false)
              ]).0
      go (ok acc) =
          call-Sound c.handlers.on_account_loaded _
            (record c { cache = record c.cache { account = some acc } }) h
      go (err e) = h
      go panic = h
      go stuck = h

  if_first_Sound :
      (b : Bool) (r r' : Client × Bool) → Sound r.0 → Sound r'.0 → Sound (if b then r else r').0
  if_first_Sound true r r' h k = h
  if_first_Sound false r r' h k = k

  subscribe_object-Sound :
      (obj : SubscribedType) (c : Client) → Sound c → Sound (subscribe_object w obj c).0
  unfolding subscribe_object
  subscribe_object-Sound obj c h =
      if_first_Sound (obj.type_id == 1) _ _ (subscribe_items-Sound obj.object_data c h)
        (if_first_Sound (obj.type_id == 7) _ _ (subscribe_account-Sound obj.object_data c h) h)

  pub subscribe_objects-Sound :
      (objects : List SubscribedType) (c : Client) → Sound c → Sound (subscribe_objects w objects c)
  unfolding subscribe_objects
  subscribe_objects-Sound [] c h = h
  subscribe_objects-Sound (obj ∷ objects) c h =
      go (subscribe_object w obj c) (subscribe_object-Sound obj c h)
        (λ c' k. subscribe_objects-Sound objects c' k)
    where
      go :
          (r : Client × Bool)
          → Sound r.0
          → ((c' : Client) → Sound c' → Sound (subscribe_objects w objects c'))
          → Sound (elim r.1 [ true ↦ subscribe_objects w objects r.0 | false ↦ r.0 ])
      go (c', true) k f = f c' k
      go (c', false) k f = k

  pub create_object-Sound :
      (so : SingleObject) (c : Client) → Sound c → Sound (create_object w so c)
  unfolding create_object
  create_object-Sound so c h = if_Sound (not (so.type_id == 1)) _ _ h (
      if_Sound (not_loaded c.cache) _ _ h (
        with_item-Sound w so.object_data (acquire_item w) c
          (λ it.
            call-Sound c.handlers.on_item_acquired _ (record c { cache = store it c.cache })
              (insert-Keyed it c.cache.items h.0, h.1))
          h))

  change_account-Sound : (object : Bytes) (c : Client) → Sound c → Sound (change_account w object c)
  change_account-Sound object c h = go (decode_account w object)
    where
      go :
          (r : Result DecodeError Account)
          → Sound (elim r [
            | ok acc ↦
                call c.handlers.on_account_update
                  (account_update acc)
                  (record c { cache = record c.cache { account = some acc } })
            | err e ↦ c
            | panic ↦ c
            | stuck ↦ c
          ])
      go (ok acc) =
          call-Sound c.handlers.on_account_update _
            (record c { cache = record c.cache { account = some acc } }) h
      go (err e) = h
      go panic = h
      go stuck = h

  pub apply_single_update-Sound :
      (so : SingleObject) (c : Client) → Sound c → Sound (apply_single_update w so c)
  unfolding apply_single_update
  apply_single_update-Sound so c h =
      if_Sound (so.type_id == 1) _ _
        (if_Sound (not_loaded c.cache) _ _ h (
          with_item-Sound w so.object_data (change_item w) c
            (λ it.
              call-Sound c.handlers.on_item_changed _ (record c { cache = store it c.cache })
                (insert-Keyed it c.cache.items h.0, h.1))
            h))
        (if_Sound (so.type_id == 7) _ _ (change_account-Sound so.object_data c h) h)

  remove_item-Sound : (it : Item) (c : Client) → Sound c → Sound (remove_item w it c)
  remove_item-Sound it c h = go (lookup it.id c.cache.items)
    where
      go :
          (o : Option Item)
          → Sound (elim o [
            | none ↦ c
            | some old ↦
                call c.handlers.on_item_removed
                  (item_removed old)
                  (record c { cache = record c.cache { items = delete it.id c.cache.items } })
          ])
      go none = h
      go (some old) =
          call-Sound c.handlers.on_item_removed _
            (record c { cache = record c.cache { items = delete it.id c.cache.items } })
            (delete-Keyed it.id c.cache.items h.0, h.1)

  pub destroy_object-Sound :
      (so : SingleObject) (c : Client) → Sound c → Sound (destroy_object w so c)
  unfolding destroy_object
  destroy_object-Sound so c h =
      if_Sound (not (so.type_id == 1)) _ _ h
        (with_item-Sound w so.object_data (remove_item w) c (λ it. remove_item-Sound it c h) h)

  pub apply_updates-Sound :
      (objects : List SingleObject) (c : Client) → Sound c → Sound (apply_updates w objects c)
  unfolding apply_updates
  apply_updates-Sound [] c h = h
  apply_updates-Sound (so ∷ objects) c h =
      apply_updates-Sound objects _ (apply_single_update-Sound so c h)
