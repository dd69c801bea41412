-- ===== src/Tf2/Messages/Wrapped.antt =====
-- The messages of the cache written with the fields of the game's definition, and decoded.
use steamstacks.Prelude.{
  ℕ, ◌%◌, ◌^◌, ◌<◌, ◌≡◌, refl, ◌∙◌, List, [], ◌∷◌, ◌++◌, map, ok, arith, All, length, append_assoc,
  append-nil,
}
use steamstacks.Prelude.Bytes.{Bytes, IsU32, IsU64}
use steamstacks.Tf2.Wire.{Protowire}
use steamstacks.Tf2.Wire.Fields.{
  Field, varint, fixed64, bytes, IsField, encode_fields, Documented, apply_field, apply_fields,
}
use steamstacks.Tf2.Wire.Loop.{decode_message-encode_fields}
use steamstacks.Tf2.Messages.{
  SubscribedType, SingleObject, zero_subscribed, zero_single, subscribed_cases, subscribed_varint,
  subscribed_bytes, object_cases, object_varint, object_bytes, owner_fixed64, owner_bytes,
  cache_subscribed_cases, multiple_bytes, multiple_cases, decode_subscribed_type,
  decode_single_object, decode_multiple_objects_entry, decode_cache_subscribed,
  decode_multiple_objects,
}

-- `CMsgSOSingleObject`
abbrev pub single_fields : SingleObject → List Field
single_fields so = varint 2 so.type_id ∷ (bytes 3 so.object_data ∷ [])

-- `CMsgSOMultipleObjects.SingleObject`
abbrev pub entry_fields : SingleObject → List Field
entry_fields so = varint 1 so.type_id ∷ (bytes 2 so.object_data ∷ [])

abbrev pub object_field : Bytes → Field
object_field object = bytes 2 object

-- `CMsgSOCacheSubscribed.SubscribedType`
abbrev pub subscribed_fields : SubscribedType → List Field
subscribed_fields st = varint 1 st.type_id ∷ map object_field st.object_data

abbrev pub IsObject : SingleObject → Type 0
IsObject so = IsU32 so.type_id × (length so.object_data < 2 ^ 63)

abbrev pub IsSubscribed : SubscribedType → Type 0
IsSubscribed st = IsU32 st.type_id × All (λ b. length b < 2 ^ 63) st.object_data

module _ (w : Protowire) where
  -- `CMsgSOMultipleObjects`
  abbrev pub multiple_fields : List SingleObject → List Field
  multiple_fields sos = map (λ so. bytes 2 (encode_fields w (entry_fields so))) sos

  -- `CMsgSOCacheSubscribed`
  abbrev pub cache_subscribed_fields : ℕ → List SubscribedType → List Field
  cache_subscribed_fields owner sts =
      fixed64 1 owner ∷ map (λ st. bytes 2 (encode_fields w (subscribed_fields st))) sts

  abbrev pub IsEntry : SingleObject → Type 0
  IsEntry so = IsObject so × (length (encode_fields w (entry_fields so)) < 2 ^ 63)

  abbrev pub IsSubscription : SubscribedType → Type 0
  IsSubscription st = IsSubscribed st × (length (encode_fields w (subscribed_fields st)) < 2 ^ 63)

module _ (w : Protowire) (laws : Documented w) where
  pub decode_single_object-single_fields :
      (so : SingleObject)
      → IsObject so
      → decode_single_object w (encode_fields w (single_fields so)) ≡ ok so
  unfolding decode_single_object
  decode_single_object-single_fields so h =
      decode_message-encode_fields w laws (object_cases 2 3) (single_fields so) zero_single
        (omega arith)
      ∙ (unfold apply_fields apply_field object_varint object_bytes in ground arith)

  decode_entry-entry_fields :
      (so : SingleObject)
      → IsObject so
      → decode_multiple_objects_entry w (encode_fields w (entry_fields so)) ≡ ok so
  unfolding decode_multiple_objects_entry
  decode_entry-entry_fields so h =
      decode_message-encode_fields w laws (object_cases 1 2) (entry_fields so) zero_single
        (omega arith)
      ∙ (unfold apply_fields apply_field object_varint object_bytes in ground arith)

  multiple_fields-apply :
      (sos read : List SingleObject)
      → All (IsEntry w) sos
      → apply_fields (multiple_cases w) read (multiple_fields w sos) ≡ ok (read ++ sos)
  unfolding apply_fields apply_field multiple_bytes
  multiple_fields-apply [] read h = rw append-nil refl
  multiple_fields-apply (so ∷ sos) read h = rw (decode_entry-entry_fields so h.0.0) (
      multiple_fields-apply sos (read ++ (so ∷ [])) h.1 ∙ rw (append_assoc read (so ∷ []) sos) refl)

  multiple_fields-IsField :
      (sos : List SingleObject) → All (IsEntry w) sos → All IsField (multiple_fields w sos)
  multiple_fields-IsField [] h = tt
  multiple_fields-IsField (so ∷ sos) h = ((omega arith, h.0.1), multiple_fields-IsField sos h.1)

  pub decode_multiple_objects-multiple_fields :
      (sos : List SingleObject)
      → All (IsEntry w) sos
      → decode_multiple_objects w (encode_fields w (multiple_fields w sos)) ≡ ok sos
  unfolding decode_multiple_objects
  decode_multiple_objects-multiple_fields sos h =
      decode_message-encode_fields w laws (multiple_cases w) (multiple_fields w sos) []
        (multiple_fields-IsField sos h)
      ∙ multiple_fields-apply sos [] h

  object_fields-apply :
      (objects : List Bytes) (st : SubscribedType)
      → apply_fields subscribed_cases st (map object_field objects)
        ≡ ok (record st { object_data = st.object_data ++ objects })
  unfolding apply_fields apply_field subscribed_bytes
  object_fields-apply [] st = rw append-nil refl
  object_fields-apply (b ∷ bs) st =
      object_fields-apply bs (record st { object_data = st.object_data ++ (b ∷ []) })
      ∙ rw (append_assoc st.object_data (b ∷ []) bs) refl

  object_fields-IsField :
      (objects : List Bytes)
      → All (λ b. length b < 2 ^ 63) objects
      → All IsField (map object_field objects)
  object_fields-IsField [] h = tt
  object_fields-IsField (b ∷ bs) h = ((omega arith, h.0), object_fields-IsField bs h.1)

  decode_subscribed_type-subscribed_fields :
      (st : SubscribedType)
      → IsSubscribed st
      → decode_subscribed_type w (encode_fields w (subscribed_fields st)) ≡ ok st
  unfolding decode_subscribed_type
  decode_subscribed_type-subscribed_fields st h =
      decode_message-encode_fields w laws subscribed_cases (subscribed_fields st) zero_subscribed
        (omega arith, object_fields-IsField st.object_data h.1)
      ∙ (unfold apply_fields apply_field subscribed_varint in
          (object_fields-apply st.object_data
              (record { type_id = st.type_id % 2 ^ 32; object_data = [] })
            ∙ ground arith))

  subscriptions-apply :
      (sts : List SubscribedType) (r : ℕ × List SubscribedType)
      → All (IsSubscription w) sts
      → apply_fields
          (cache_subscribed_cases w)
          r
          (map (λ st. bytes 2 (encode_fields w (subscribed_fields st))) sts)
        ≡ ok (r.0, r.1 ++ sts)
  unfolding apply_fields apply_field owner_bytes
  subscriptions-apply [] r h = rw append-nil refl
  subscriptions-apply (st ∷ sts) r h = rw (decode_subscribed_type-subscribed_fields st h.0.0) (
      subscriptions-apply sts (r.0, r.1 ++ (st ∷ [])) h.1
      ∙ rw (append_assoc r.1 (st ∷ []) sts) refl)

  subscriptions-IsField :
      (sts : List SubscribedType)
      → All (IsSubscription w) sts
      → All IsField (map (λ st. bytes 2 (encode_fields w (subscribed_fields st))) sts)
  subscriptions-IsField [] h = tt
  subscriptions-IsField (st ∷ sts) h = ((omega arith, h.0.1), subscriptions-IsField sts h.1)

  -- With protowire as documented, a subscription to the cache with an owner of 64 bits and any
  -- number of types and objects that fit their fields is decoded from the fields of the game's
  -- definition exactly as it was, in order.
  pub decode_cache_subscribed-fields :
      (owner : ℕ) (sts : List SubscribedType)
      → IsU64 owner
      → All (IsSubscription w) sts
      → decode_cache_subscribed w (encode_fields w (cache_subscribed_fields w owner sts))
        ≡ ok (owner, sts)
  unfolding decode_cache_subscribed
  decode_cache_subscribed-fields owner sts h k =
      decode_message-encode_fields w laws (cache_subscribed_cases w)
        (cache_subscribed_fields w owner sts) (0, [])
        ((omega arith, h), subscriptions-IsField sts k)
      ∙ (unfold apply_fields apply_field owner_fixed64 in subscriptions-apply sts (owner, []) k)
