-- ===== src/Tests/Items.antt =====
-- Items, accounts and messages of the cache at concrete inputs, over a protowire of words.
use steamstacks.Prelude.{◌≡◌, refl, true, [], ◌∷◌, ok, arith}
use steamstacks.Tf2.Wire.Fields.{encode_fields, encode_field}
use steamstacks.Tf2.Item.{ItemAttribute, ItemEquipped, Item, zero_item, derive_item, decode_item}
use steamstacks.Tf2.Item.Fields.{IsScalars, item_fields}
use steamstacks.Tf2.Item.RoundTrip.{decode_item-item_fields}
use steamstacks.Tests.Words.{words, words-Documented}

abbrev painted : ItemAttribute
painted = record { def_index = 142; value = 1132462080; value_bytes = 1 ∷ (2 ∷ []) }

abbrev worn : ItemEquipped
worn = record { new_class = 3; new_slot = 7 }

-- An item at place 5 of the backpack.
abbrev pub hat : Item
hat = record zero_item {
  id = 77;
  account_id = 22202;
  inventory = 2147483653;
  def_index = 378;
  quantity = 1;
  level = 10;
  quality = 6;
  in_use = true;
  original_id = 70;
  position = 5;
  attributes = painted ∷ [];
  equip_state = worn ∷ [];
}

pub hat-IsScalars : IsScalars hat
hat-IsScalars = record {
  id = omega arith;
  account_id = omega arith;
  inventory = omega arith;
  def_index = omega arith;
  quantity = omega arith;
  level = omega arith;
  quality = omega arith;
  flags = omega arith;
  origin = omega arith;
  style = omega arith;
  original_id = omega arith;
  custom_name = omega arith;
  custom_desc = omega arith;
}

pub hat_derived : derive_item hat ≡ hat
unfolding derive_item
hat_derived = refl

pub hat_decoded : decode_item words (encode_fields words (item_fields words hat)) ≡ ok hat
hat_decoded =
    decode_item-item_fields words words-Documented hat hat-IsScalars
      (unfold encode_fields encode_field in omega arith)
      (unfold encode_fields encode_field in omega arith) hat_derived

decode_item-item_fields_example :
    decode_item words (encode_fields words (item_fields words hat)) ≡ ok hat
decode_item-item_fields_example =
    decode_item-item_fields words words-Documented hat hat-IsScalars
      (unfold encode_fields encode_field in omega arith)
      (unfold encode_fields encode_field in omega arith) hat_derived
