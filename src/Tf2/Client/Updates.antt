-- ===== src/Tf2/Client/Updates.antt =====
-- What the updates of the shared-object cache come to.
use steamstacks.Prelude.{
  ℕ, ◌≡◌, ◌≢◌, refl, ap, ◌∙◌, Bool, true, false, List, [], ◌∷◌, Option, none, some, Result, ok, err,
  panic, stuck, if◌then◌else◌, All,
}
use steamstacks.Prelude.Bytes.{Bytes}
use steamstacks.Tf2.Wire.{Protowire, DecodeError}
use steamstacks.Tf2.Wire.Fields.{encode_fields, Documented}
use steamstacks.Tf2.Item.{Item, decode_item}
use steamstacks.Tf2.Messages.{SingleObject, decode_single_object}
use steamstacks.Tf2.Messages.Wrapped.{
  single_fields, multiple_fields, IsEntry, decode_single_object-single_fields,
  decode_multiple_objects-multiple_fields,
}
use steamstacks.Tf2.Cache.{SoCache, lookup, delete, not_loaded}
use steamstacks.Tf2.Cache.Keys.{
  lookup-insert, lookup-insert_other, lookup-delete, lookup-delete_other,
}
use steamstacks.Tf2.Client.{Client, Event, call}
use steamstacks.Tf2.Client.Objects.{
  acquire_item, create_object, apply_single_update, apply_updates, remove_item, destroy_object,
  with_object, with_item, handle_so_create, handle_so_update, handle_so_destroy,
  handle_so_update_multiple,
}

call-cache : (b : Bool) (e : Event) (c : Client) → (call b e c).cache ≡ c.cache
call-cache true e c = refl
call-cache false e c = refl

-- The updates of one message that carries many, each sent in a message of its own.
abbrev pub one_by_one : Protowire → List SingleObject → Client → Client
one_by_one w [] c = c
one_by_one w (so ∷ sos) c =
    one_by_one w sos (handle_so_update w (encode_fields w (single_fields so)) c)

module _ (w : Protowire) where
  with_object_lem :
      (body : Bytes) (so : SingleObject) (f : SingleObject → Client → Client) (c : Client)
      → decode_single_object w body ≡ ok so
      → with_object w body f c ≡ f so c
  with_object_lem body so f c h =
      ap
        (λ (r : Result DecodeError SingleObject). elim r as (λ _. Client) [
          | ok q ↦ f q c
          | err e ↦ c
          | panic ↦ c
          | stuck ↦ c
        ])
        h

  with_item_lem :
      (object : Bytes) (it : Item) (f : Item → Client → Client) (c : Client)
      → decode_item w object ≡ ok it
      → with_item w object f c ≡ f it c
  with_item_lem object it f c h =
      ap
        (λ (r : Result DecodeError Item). elim r as (λ _. Client) [
          | ok q ↦ f q c
          | err e ↦ c
          | panic ↦ c
          | stuck ↦ c
        ])
        h

  handle_so_destroy_lem :
      (body : Bytes) (so : SingleObject) (it : Item) (c : Client)
      → decode_single_object w body ≡ ok so
      → so.type_id ≡ 1
      → decode_item w so.object_data ≡ ok it
      → handle_so_destroy w body c ≡ remove_item w it c
  unfolding handle_so_destroy destroy_object
  handle_so_destroy_lem body so it c h t k =
      with_object_lem body so (destroy_object w) c h
      ∙ rw t (with_item_lem so.object_data it (remove_item w) c k)

  handle_so_create_lem :
      (body : Bytes) (so : SingleObject) (it : Item) (c : Client)
      → decode_single_object w body ≡ ok so
      → so.type_id ≡ 1
      → decode_item w so.object_data ≡ ok it
      → handle_so_create w body c ≡ (if not_loaded c.cache then c else acquire_item w it c)
  unfolding handle_so_create create_object
  handle_so_create_lem body so it c h t k =
      with_object_lem body so (create_object w) c h
      ∙ rw t (
          ap (λ c'. if not_loaded c.cache then c else c')
            (with_item_lem so.object_data it (acquire_item w) c k))

  remove_item-lookup :
      (it : Item) (c : Client) → lookup it.id (remove_item w it c).cache.items ≡ none
  remove_item-lookup it c = go (lookup it.id c.cache.items) refl
    where
      go :
          (o : Option Item)
          → lookup it.id c.cache.items ≡ o
          → lookup it.id
              (elim o as (λ _. Client) [
                | none ↦ c
                | some old ↦
                    call c.handlers.on_item_removed
                      (Event.item_removed old)
                      (record c { cache = record c.cache { items = delete it.id c.cache.items } })
              ]).cache.items
            ≡ none
      go none e = e
      go (some old) e =
          ap (λ (s : SoCache). lookup it.id s.items) (call-cache c.handlers.on_item_removed _ _)
          ∙ lookup-delete it.id c.cache.items

  remove_item-lookup_other :
      (it : Item) (c : Client) (other : ℕ)
      → it.id ≢ other
      → lookup other (remove_item w it c).cache.items ≡ lookup other c.cache.items
  remove_item-lookup_other it c other n = go (lookup it.id c.cache.items)
    where
      go :
          (o : Option Item)
          → lookup other
              (elim o as (λ _. Client) [
                | none ↦ c
                | some old ↦
                    call c.handlers.on_item_removed
                      (Event.item_removed old)
                      (record c { cache = record c.cache { items = delete it.id c.cache.items } })
              ]).cache.items
            ≡ lookup other c.cache.items
      go none = refl
      go (some old) =
          ap (λ (s : SoCache). lookup other s.items) (call-cache c.handlers.on_item_removed _ _)
          ∙ lookup-delete_other it.id other c.cache.items n

  acquire_item-lookup :
      (it : Item) (c : Client) → lookup it.id (acquire_item w it c).cache.items ≡ some it
  acquire_item-lookup it c =
      ap (λ (s : SoCache). lookup it.id s.items) (call-cache c.handlers.on_item_acquired _ _)
      ∙ lookup-insert it.id it c.cache.items

  acquire_item-lookup_other :
      (it : Item) (c : Client) (other : ℕ)
      → it.id ≢ other
      → lookup other (acquire_item w it c).cache.items ≡ lookup other c.cache.items
  acquire_item-lookup_other it c other n =
      ap (λ (s : SoCache). lookup other s.items) (call-cache c.handlers.on_item_acquired _ _)
      ∙ lookup-insert_other it.id other it c.cache.items n

  -- After a destroy message whose object decodes to an item, no item has its ID in the cache, and
  -- an item with another ID is found as before.
  pub handle_so_destroy-lookup :
      (body : Bytes) (so : SingleObject) (it : Item) (c : Client) (other : ℕ)
      → decode_single_object w body ≡ ok so
      → so.type_id ≡ 1
      → decode_item w so.object_data ≡ ok it
      → it.id ≢ other
      → (lookup it.id (handle_so_destroy w body c).cache.items ≡ none)
        × (lookup other (handle_so_destroy w body c).cache.items ≡ lookup other c.cache.items)
  handle_so_destroy-lookup body so it c other h t k n =
      rw (handle_so_destroy_lem body so it c h t k)
        (remove_item-lookup it c, remove_item-lookup_other it c other n)

  -- A create message whose object decodes to an item puts it into a cache that is loaded, under
  -- its ID, and leaves what is found under another ID; while the cache is not loaded it changes
  -- nothing.
  pub handle_so_create-lookup :
      (body : Bytes) (so : SingleObject) (it : Item) (c : Client) (other : ℕ)
      → decode_single_object w body ≡ ok so
      → so.type_id ≡ 1
      → decode_item w so.object_data ≡ ok it
      → it.id ≢ other
      → (not_loaded c.cache ≡ false
          → (lookup it.id (handle_so_create w body c).cache.items ≡ some it)
            × (lookup other (handle_so_create w body c).cache.items ≡ lookup other c.cache.items))
        × (not_loaded c.cache ≡ true → handle_so_create w body c ≡ c)
  handle_so_create-lookup body so it c other h t k n =
      rw (handle_so_create_lem body so it c h t k) (
        (λ q. rw q (acquire_item-lookup it c, acquire_item-lookup_other it c other n)),
        (λ q. rw q refl),
      )

module _ (w : Protowire) (laws : Documented w) where
  handle_so_update-single_fields :
      (so : SingleObject) (c : Client)
      → IsEntry w so
      → handle_so_update w (encode_fields w (single_fields so)) c ≡ apply_single_update w so c
  unfolding handle_so_update
  handle_so_update-single_fields so c h =
      with_object_lem w (encode_fields w (single_fields so)) so (apply_single_update w) c
        (decode_single_object-single_fields w laws so h.0)

  apply_updates-one_by_one :
      (sos : List SingleObject) (c : Client)
      → All (IsEntry w) sos
      → apply_updates w sos c ≡ one_by_one w sos c
  unfolding apply_updates
  apply_updates-one_by_one [] c h = refl
  apply_updates-one_by_one (so ∷ sos) c h =
      rw (handle_so_update-single_fields so c h.0) (apply_updates-one_by_one sos _ h.1)

  -- With protowire as documented, a message with many updates that fit their fields does to the
  -- client, its calls of callbacks included, what the same updates do one after the other in
  -- messages of their own.
  pub handle_so_update_multiple-one_by_one :
      (sos : List SingleObject) (c : Client)
      → All (IsEntry w) sos
      → handle_so_update_multiple w (encode_fields w (multiple_fields w sos)) c ≡ one_by_one w sos c
  unfolding handle_so_update_multiple
  handle_so_update_multiple-one_by_one sos c h =
      rw (decode_multiple_objects-multiple_fields w laws sos h, handle_so_update_multiple)
        (apply_updates-one_by_one sos c h)
