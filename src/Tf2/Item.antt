-- ===== src/Tf2/Item.antt =====
-- tf2/item.go: the items of the backpack and the account, decoded field by field.
pub mod Fields
pub mod RoundTrip
pub mod Words
pub mod Shape
pub mod Returns
use steamstacks.Prelude.{
  ℕ, ◌+◌, ◌/◌, ◌%◌, ◌^◌, bit_and, Bool, true, false, not, List, [], ◌∷◌, ◌++◌, Option, none, some,
  Result, ok, err, panic, stuck, ◌>>=◌, wrap_err, ◌==◌, if◌then◌else◌,
}
use steamstacks.Prelude.Bytes.{Bytes}
use steamstacks.Tf2.Wire.{Protowire, DecodeError, inside, Cases, decode_message}

pub record ItemAttribute : Type 0 where
  pub def_index : ℕ
  pub value : ℕ
  pub value_bytes : Bytes

pub record ItemEquipped : Type 0 where
  pub new_class : ℕ
  pub new_slot : ℕ

pub record Item : Type 0 where
  pub id : ℕ
  pub account_id : ℕ
  pub inventory : ℕ
  pub def_index : ℕ
  pub quantity : ℕ
  pub level : ℕ
  pub quality : ℕ
  pub flags : ℕ
  pub origin : ℕ
  pub custom_name : Bytes
  pub custom_desc : Bytes
  pub style : ℕ
  pub original_id : ℕ
  pub in_use : Bool
  pub position : ℕ
  pub is_new : Bool
  pub attributes : List ItemAttribute
  pub equip_state : List ItemEquipped

pub record Account : Type 0 where
  pub additional_backpack_slots : ℕ
  pub trial_account : Bool
  pub premium : Bool
  pub backpack_slots : ℕ
  pub need_to_choose_most_helpful_friend : Bool
  pub in_coaches_list : Bool
  pub trade_ban_expiration : ℕ
  pub duel_ban_expiration : ℕ
  pub phone_verified : Bool
  pub competitive_access : Bool

-- The zero values that the decoders start from.
abbrev pub zero_attribute : ItemAttribute
zero_attribute = record { def_index = 0; value = 0; value_bytes = [] }

abbrev pub zero_equipped : ItemEquipped
zero_equipped = record { new_class = 0; new_slot = 0 }

abbrev pub zero_item : Item
zero_item = record {
  id = 0;
  account_id = 0;
  inventory = 0;
  def_index = 0;
  quantity = 0;
  level = 0;
  quality = 0;
  flags = 0;
  origin = 0;
  custom_name = [];
  custom_desc = [];
  style = 0;
  original_id = 0;
  in_use = false;
  position = 0;
  is_new = false;
  attributes = [];
  equip_state = [];
}

abbrev pub zero_account : Account
zero_account = record {
  additional_backpack_slots = 0;
  trial_account = false;
  premium = false;
  backpack_slots = 0;
  need_to_choose_most_helpful_friend = false;
  in_coaches_list = false;
  trade_ban_expiration = 0;
  duel_ban_expiration = 0;
  phone_verified = false;
  competitive_access = false;
}

-- `uint32(v)` and `v != 0`
abbrev pub to_uint32 : ℕ → ℕ
to_uint32 v = v % 2 ^ 32

abbrev pub non_zero : ℕ → Bool
non_zero v = not (v == 0)

unfoldable pub attribute_varint : ℕ → ℕ → ItemAttribute → ItemAttribute
attribute_varint num v a =
    if num == 1
    then record a { def_index = to_uint32 v }
    else if num == 2
    then record a { value = to_uint32 v }
    else a

unfoldable pub attribute_bytes : ℕ → Bytes → ItemAttribute → Result DecodeError ItemAttribute
attribute_bytes num v a = ok (if num == 3 then record a { value_bytes = v } else a)

abbrev pub attribute_cases : Cases ItemAttribute
attribute_cases = record {
  on_varint = some attribute_varint;
  on_fixed32 = none;
  on_fixed64 = none;
  on_bytes = some attribute_bytes;
}

unfoldable pub equipped_varint : ℕ → ℕ → ItemEquipped → ItemEquipped
equipped_varint num v e =
    if num == 1
    then record e { new_class = to_uint32 v }
    else if num == 2
    then record e { new_slot = to_uint32 v }
    else e

abbrev pub equipped_cases : Cases ItemEquipped
equipped_cases = record {
  on_varint = some equipped_varint;
  on_fixed32 = none;
  on_fixed64 = none;
  on_bytes = none;
}

unfoldable pub item_varint : ℕ → ℕ → Item → Item
item_varint num v it =
    if num == 1
    then record it { id = v }
    else if num == 2
    then record it { account_id = to_uint32 v }
    else if num == 3
    then record it { inventory = to_uint32 v }
    else if num == 4
    then record it { def_index = to_uint32 v }
    else if num == 5
    then record it { quantity = to_uint32 v }
    else if num == 6
    then record it { level = to_uint32 v }
    else if num == 7
    then record it { quality = to_uint32 v }
    else if num == 8
    then record it { flags = to_uint32 v }
    else if num == 9
    then record it { origin = to_uint32 v }
    else if num == 14
    then record it { in_use = non_zero v }
    else if num == 15
    then record it { style = to_uint32 v }
    else if num == 16
    then record it { original_id = v }
    else it

-- Position and IsNew, from Inventory.
unfoldable pub derive_item : Item → Item
derive_item it =
    let is_new = bit_and (it.inventory / 2 ^ 30) 1 == 1 in
    record it {
      is_new = is_new;
      position = if is_new then 0 else bit_and it.inventory 0xFFFF % 2 ^ 16;
    }

unfoldable pub account_varint : ℕ → ℕ → Account → Account
account_varint num v a =
    if num == 1
    then record a { additional_backpack_slots = to_uint32 v }
    else if num == 2
    then record a { trial_account = non_zero v }
    else if num == 4
    then record a { need_to_choose_most_helpful_friend = non_zero v }
    else if num == 5
    then record a { in_coaches_list = non_zero v }
    else if num == 19
    then record a { phone_verified = non_zero v }
    else if num == 23
    then record a { competitive_access = non_zero v }
    else a

unfoldable pub account_fixed32 : ℕ → ℕ → Account → Account
account_fixed32 num v a =
    if num == 6
    then record a { trade_ban_expiration = v }
    else if num == 7
    then record a { duel_ban_expiration = v }
    else a

abbrev pub account_cases : Cases Account
account_cases = record {
  on_varint = some account_varint;
  on_fixed32 = some account_fixed32;
  on_fixed64 = none;
  on_bytes = none;
}

-- Premium and BackpackSlots; the sum is a `uint32`.
unfoldable pub derive_account : Account → Account
derive_account a = record a {
  premium = not a.trial_account;
  backpack_slots = ((if a.trial_account then 50 else 300) + a.additional_backpack_slots) % 2 ^ 32;
}

module _ (w : Protowire) where
  unfoldable pub decode_item_attribute : Bytes → Result DecodeError ItemAttribute
  decode_item_attribute b = decode_message w attribute_cases zero_attribute b

  unfoldable pub decode_item_equipped : Bytes → Result DecodeError ItemEquipped
  decode_item_equipped b = decode_message w equipped_cases zero_equipped b

  unfoldable pub item_bytes : ℕ → Bytes → Item → Result DecodeError Item
  item_bytes num v it =
      if num == 10
      then ok (record it { custom_name = v })
      else if num == 11
      then ok (record it { custom_desc = v })
      else if num == 12
      then (wrap_err (inside 12) (decode_item_attribute v) >>= λ attr.
          ok (record it { attributes = it.attributes ++ (attr ∷ []) }))
      else if num == 18
      then (wrap_err (inside 18) (decode_item_equipped v) >>= λ eq.
          ok (record it { equip_state = it.equip_state ++ (eq ∷ []) }))
      else ok it

  abbrev pub item_cases : Cases Item
  item_cases = record {
    on_varint = some item_varint;
    on_fixed32 = none;
    on_fixed64 = none;
    on_bytes = some item_bytes;
  }

  unfoldable pub decode_item : Bytes → Result DecodeError Item
  decode_item b = decode_message w item_cases zero_item b >>= λ it. ok (derive_item it)

  unfoldable pub decode_account : Bytes → Result DecodeError Account
  decode_account b = decode_message w account_cases zero_account b >>= λ a. ok (derive_account a)
