-- ===== src/Tf2/Item/Fields.antt =====
-- Items and accounts as the fields of the game's protobuf definition.
use steamstacks.Prelude.{◌^◌, ◌<◌, List, [], ◌∷◌, ◌++◌, map, if◌then◌else◌, All, length}
use steamstacks.Prelude.Bytes.{IsU32, IsU64}
use steamstacks.Tf2.Wire.{Protowire}
use steamstacks.Tf2.Wire.Fields.{Field, varint, fixed32, bytes, IsField, encode_fields}
use steamstacks.Tf2.Item.{ItemAttribute, ItemEquipped, Item, Account}

abbrev pub attribute_fields : ItemAttribute → List Field
attribute_fields a = varint 1 a.def_index ∷ (varint 2 a.value ∷ (bytes 3 a.value_bytes ∷ []))

abbrev pub equipped_fields : ItemEquipped → List Field
equipped_fields e = varint 1 e.new_class ∷ (varint 2 e.new_slot ∷ [])

abbrev pub IsAttribute : ItemAttribute → Type 0
IsAttribute a = IsU32 a.def_index × IsU32 a.value × (length a.value_bytes < 2 ^ 63)

abbrev pub IsEquipped : ItemEquipped → Type 0
IsEquipped e = IsU32 e.new_class × IsU32 e.new_slot

abbrev pub scalar_fields : Item → List Field
scalar_fields it =
    varint 1 it.id
    ∷ (varint 2 it.account_id
        ∷ (varint 3 it.inventory
            ∷ (varint 4 it.def_index
                ∷ (varint 5 it.quantity
                    ∷ (varint 6 it.level
                        ∷ (varint 7 it.quality
                            ∷ (varint 8 it.flags
                                ∷ (varint 9 it.origin
                                    ∷ (bytes 10 it.custom_name
                                        ∷ (bytes 11 it.custom_desc
                                            ∷ (varint 14 (if it.in_use then 1 else 0)
                                                ∷ (varint 15 it.style
                                                    ∷ (varint 16 it.original_id ∷ [])))))))))))))

-- The values that the fields of an item can hold; nested messages fit a length.
pub record IsScalars (it : Item) : Type 0 where
  pub id : IsU64 it.id
  pub account_id : IsU32 it.account_id
  pub inventory : IsU32 it.inventory
  pub def_index : IsU32 it.def_index
  pub quantity : IsU32 it.quantity
  pub level : IsU32 it.level
  pub quality : IsU32 it.quality
  pub flags : IsU32 it.flags
  pub origin : IsU32 it.origin
  pub style : IsU32 it.style
  pub original_id : IsU64 it.original_id
  pub custom_name : length it.custom_name < 2 ^ 63
  pub custom_desc : length it.custom_desc < 2 ^ 63

module _ (w : Protowire) where
  abbrev pub attribute_field : ItemAttribute → Field
  attribute_field a = bytes 12 (encode_fields w (attribute_fields a))

  abbrev pub equipped_field : ItemEquipped → Field
  equipped_field e = bytes 18 (encode_fields w (equipped_fields e))

  -- The fields of `CSOEconItem`.
  abbrev pub item_fields : Item → List Field
  item_fields it =
      scalar_fields it ++ (map attribute_field it.attributes ++ map equipped_field it.equip_state)

  -- The fields of `CSOEconGameAccountClient`.
  abbrev pub account_fields : Account → List Field
  account_fields a =
      varint 1 a.additional_backpack_slots
      ∷ (varint 2 (if a.trial_account then 1 else 0)
          ∷ (varint 4 (if a.need_to_choose_most_helpful_friend then 1 else 0)
              ∷ (varint 5 (if a.in_coaches_list then 1 else 0)
                  ∷ (fixed32 6 a.trade_ban_expiration
                      ∷ (fixed32 7 a.duel_ban_expiration
                          ∷ (varint 19 (if a.phone_verified then 1 else 0)
                              ∷ (varint 23 (if a.competitive_access then 1 else 0) ∷ [])))))))

  abbrev pub Attributes : List ItemAttribute → Type 0
  Attributes attrs = All (λ a. IsAttribute a × IsField (attribute_field a)) attrs

  abbrev pub Equips : List ItemEquipped → Type 0
  Equips es = All (λ e. IsEquipped e × IsField (equipped_field e)) es
