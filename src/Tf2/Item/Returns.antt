-- ===== src/Tf2/Item/Returns.antt =====
-- The decoder of an item comes to an end.
use steamstacks.Prelude.{
  ℕ, Bool, true, false, Result, ok, err, panic, stuck, ◌>>=◌, wrap_err, ◌==◌, if◌then◌else◌,
  Returns,
}
use steamstacks.Prelude.Bytes.{Bytes}
use steamstacks.Tf2.Wire.{Protowire, DecodeError, inside, decode_message}
use steamstacks.Tf2.Wire.Fields.{Progress}
use steamstacks.Tf2.Wire.Ends.{decode_message-Returns}
use steamstacks.Tf2.Item.{
  ItemAttribute, Item, zero_attribute, zero_equipped, zero_item, attribute_cases, equipped_cases,
  item_cases, attribute_bytes, item_bytes, derive_item, decode_item_attribute, decode_item_equipped,
  decode_item,
}

module _ (w : Protowire) (progress : Progress w) where
  decode_item_attribute-Returns : (b : Bytes) → Returns (decode_item_attribute w b)
  unfolding decode_item_attribute
  decode_item_attribute-Returns b =
      decode_message-Returns w progress attribute_cases returns zero_attribute b
    where
      returns : (num : ℕ) (v : Bytes) (a : ItemAttribute) → Returns (attribute_bytes num v a)
      returns num v a = unfold attribute_bytes in tt

  decode_item_equipped-Returns : (b : Bytes) → Returns (decode_item_equipped w b)
  unfolding decode_item_equipped
  decode_item_equipped-Returns b =
      decode_message-Returns w progress equipped_cases tt zero_equipped b

  then-Returns :
      {A B : Type 0} (r : Result DecodeError A) (k : ℕ) (f : A → B)
      → Returns r
      → Returns (wrap_err (inside k) r >>= λ a. ok (f a))
  then-Returns (ok a) k f h = tt
  then-Returns (err e) k f h = tt
  then-Returns panic k f h = h
  then-Returns stuck k f h = h

  if_Returns :
      {A : Type 0} (b : Bool) (x y : Result DecodeError A)
      → Returns x
      → Returns y
      → Returns (if b then x else y)
  if_Returns true x y p q = p
  if_Returns false x y p q = q

  item_bytes-Returns : (num : ℕ) (v : Bytes) (it : Item) → Returns (item_bytes w num v it)
  unfolding item_bytes
  item_bytes-Returns num v it = if_Returns (num == 10) _ _ tt (
      if_Returns (num == 11) _ _ tt (
        if_Returns (num == 12) _ _
          (then-Returns (decode_item_attribute w v) 12 _ (decode_item_attribute-Returns v))
          (if_Returns (num == 18) _ _
            (then-Returns (decode_item_equipped w v) 18 _ (decode_item_equipped-Returns v)) tt)))

  -- If a tag of protowire takes a byte at least, the decoder of an item comes to an item or an
  -- error on every input.
  pub decode_item-Returns : (b : Bytes) → Returns (decode_item w b)
  unfolding decode_item
  decode_item-Returns b =
      finish (decode_message w (item_cases w) zero_item b)
        (decode_message-Returns w progress (item_cases w) item_bytes-Returns zero_item b)
    where
      finish : (r : Result DecodeError Item) → Returns r → Returns (r >>= λ it. ok (derive_item it))
      finish (ok it) h = tt
      finish (err e) h = tt
      finish panic h = h
      finish stuck h = h
