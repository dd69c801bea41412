-- ===== src/Tf2/Item/RoundTrip.antt =====
-- Items and accounts written by the field numbers of the game's protobuf definition, and decoded.
use steamstacks.Prelude.{
  ℕ, ◌%◌, ◌^◌, ◌≡◌, refl, sym, ap, ◌∙◌, Bool, true, false, List, [], ◌∷◌, ◌++◌, map, ok, ◌>>=◌,
  if◌then◌else◌, arith, All, append_assoc, append-nil, All-append, >>=-assoc, >>=-cong,
}
use steamstacks.Prelude.Bytes.{IsU32, IsU64}
use steamstacks.Tf2.Wire.{Protowire, Cases}
use steamstacks.Tf2.Wire.Fields.{
  Field, IsField, encode_fields, Documented, apply_field, apply_fields,
}
use steamstacks.Tf2.Wire.Loop.{decode_message-encode_fields}
use steamstacks.Tf2.Item.{
  ItemAttribute, ItemEquipped, Item, Account, zero_attribute, zero_equipped, zero_item,
  zero_account, attribute_cases, equipped_cases, item_cases, account_cases, attribute_varint,
  attribute_bytes, equipped_varint, item_varint, item_bytes, account_varint, account_fixed32,
  derive_item, derive_account, decode_item_attribute, decode_item_equipped, decode_item,
  decode_account, non_zero,
}
use steamstacks.Tf2.Item.Fields.{
  attribute_fields, equipped_fields, IsAttribute, IsEquipped, scalar_fields, attribute_field,
  equipped_field, item_fields, account_fields, Attributes, Equips, IsScalars,
}

-- The item with its scalar fields alone, as the decoder builds it.
abbrev scalars : Item → Item
scalars it = record it { position = 0; is_new = false; attributes = []; equip_state = [] }

low_word : (n : ℕ) → IsU32 n → n % 2 ^ 32 ≡ n
low_word n h = omega arith

in_use_read : (b : Bool) → non_zero (if b then 1 else 0) ≡ b
in_use_read true = refl
in_use_read false = refl

module _ (w : Protowire) where
  scalar_fields-apply :
      (it : Item)
      → IsScalars it
      → apply_fields (item_cases w) zero_item (scalar_fields it) ≡ ok (scalars it)
  unfolding apply_fields apply_field item_varint item_bytes
  scalar_fields-apply it h =
      rw
        (
          low_word it.account_id h.account_id,
          low_word it.inventory h.inventory,
          low_word it.def_index h.def_index,
          low_word it.quantity h.quantity,
          low_word it.level h.level,
          low_word it.quality h.quality,
          low_word it.flags h.flags,
          low_word it.origin h.origin,
          low_word it.style h.style,
          in_use_read it.in_use,
        )
        refl

apply_fields-append :
    {S : Type 0} (cases : Cases S) (fs gs : List Field) (s : S)
    → apply_fields cases s (fs ++ gs) ≡ (apply_fields cases s fs >>= λ s'. apply_fields cases s' gs)
unfolding apply_fields
apply_fields-append cases [] gs s = refl
apply_fields-append cases (f ∷ fs) gs s =
    >>=-cong (apply_field cases s f) _ _ (apply_fields-append cases fs gs)
    ∙ sym (>>=-assoc (apply_field cases s f) _ _)

one_bit : (b : Bool) → IsU64 (if b then 1 else 0)
one_bit true = omega arith
one_bit false = omega arith

scalar_fields-IsField : (it : Item) → IsScalars it → All IsField (scalar_fields it)
scalar_fields-IsField it h = omega (
  arith,
  one_bit it.in_use,
  h.account_id,
  h.inventory,
  h.def_index,
  h.quantity,
  h.level,
  h.quality,
  h.flags,
  h.origin,
  h.style,
  h.id,
  h.original_id,
  h.custom_name,
  h.custom_desc,
)

All-map {ℓ κ μ} :
    {A : Type ℓ} {B : Type κ} (P : B → Type μ) (f : A → B) (xs : List A)
    → All (λ x. P (f x)) xs
    → All P (map f xs)
All-map P f [] h = tt
All-map P f (x ∷ xs) h = (h.0, All-map P f xs h.1)

All-second {ℓ κ μ} :
    {A : Type ℓ} (P : A → Type κ) (Q : A → Type μ) (xs : List A)
    → All (λ x. P x × Q x) xs
    → All Q xs
All-second P Q [] h = tt
All-second P Q (x ∷ xs) h = (h.0.1, All-second P Q xs h.1)

derive_item_again :
    (i : Item) → derive_item (record i { position = 0; is_new = false }) ≡ derive_item i
unfolding derive_item
derive_item_again i = refl

-- The account as the decoder builds it.
abbrev read_account : Account → Account
read_account a = record a { premium = false; backpack_slots = 0 }

account_fields-apply :
    (w : Protowire) (a : Account)
    → IsU32 a.additional_backpack_slots
    → apply_fields account_cases zero_account (account_fields w a) ≡ ok (read_account a)
unfolding apply_fields apply_field account_varint account_fixed32
account_fields-apply w a h =
    rw
      (
        in_use_read a.trial_account,
        in_use_read a.need_to_choose_most_helpful_friend,
        in_use_read a.in_coaches_list,
        in_use_read a.phone_verified,
        in_use_read a.competitive_access,
        low_word a.additional_backpack_slots h,
      )
      refl

derive_account_again : (a : Account) → derive_account (read_account a) ≡ derive_account a
unfolding derive_account
derive_account_again a = refl

module _ (w : Protowire) (laws : Documented w) where
  decode_attribute-fields :
      (a : ItemAttribute)
      → IsAttribute a
      → decode_item_attribute w (encode_fields w (attribute_fields a)) ≡ ok a
  unfolding decode_item_attribute
  decode_attribute-fields a h =
      decode_message-encode_fields w laws attribute_cases (attribute_fields a) zero_attribute
        (omega arith)
      ∙ (unfold apply_fields apply_field attribute_varint attribute_bytes in ground arith)

  decode_equipped-fields :
      (e : ItemEquipped)
      → IsEquipped e
      → decode_item_equipped w (encode_fields w (equipped_fields e)) ≡ ok e
  unfolding decode_item_equipped
  decode_equipped-fields e h =
      decode_message-encode_fields w laws equipped_cases (equipped_fields e) zero_equipped
        (omega arith)
      ∙ (unfold apply_fields apply_field equipped_varint in ground arith)

  Attributes-apply :
      (attrs : List ItemAttribute) (it : Item)
      → Attributes w attrs
      → apply_fields (item_cases w) it (map (attribute_field w) attrs)
        ≡ ok (record it { attributes = it.attributes ++ attrs })
  unfolding apply_fields apply_field item_bytes
  Attributes-apply [] it h = rw append-nil refl
  Attributes-apply (a ∷ attrs) it h = rw (decode_attribute-fields a h.0.0) (
      Attributes-apply attrs (record it { attributes = it.attributes ++ (a ∷ []) }) h.1
      ∙ rw (append_assoc it.attributes (a ∷ []) attrs) refl)

  Equips-apply :
      (es : List ItemEquipped) (it : Item)
      → Equips w es
      → apply_fields (item_cases w) it (map (equipped_field w) es)
        ≡ ok (record it { equip_state = it.equip_state ++ es })
  unfolding apply_fields apply_field item_bytes
  Equips-apply [] it h = rw append-nil refl
  Equips-apply (e ∷ es) it h = rw (decode_equipped-fields e h.0.0) (
      Equips-apply es (record it { equip_state = it.equip_state ++ (e ∷ []) }) h.1
      ∙ rw (append_assoc it.equip_state (e ∷ []) es) refl)

  item_fields-apply :
      (it : Item)
      → IsScalars it
      → Attributes w it.attributes
      → Equips w it.equip_state
      → apply_fields (item_cases w) zero_item (item_fields w it)
        ≡ ok (record it { position = 0; is_new = false })
  item_fields-apply it h attrs es =
      apply_fields-append (item_cases w) (scalar_fields it) _ zero_item
      ∙ rw (scalar_fields-apply w it h) (
          apply_fields-append (item_cases w) (map (attribute_field w) it.attributes) _ (scalars it)
          ∙ rw (Attributes-apply it.attributes (scalars it) attrs)
              (Equips-apply it.equip_state _ es))

  item_fields-IsField :
      (it : Item)
      → IsScalars it
      → Attributes w it.attributes
      → Equips w it.equip_state
      → All IsField (item_fields w it)
  item_fields-IsField it h attrs es =
      All-append IsField (scalar_fields it) _ (scalar_fields-IsField it h) (
        All-append IsField (map (attribute_field w) it.attributes) _
          (All-map IsField (attribute_field w) it.attributes
            (All-second IsAttribute _ it.attributes attrs))
          (All-map IsField (equipped_field w) it.equip_state
            (All-second IsEquipped _ it.equip_state es)))

  -- With protowire as documented, an item whose values fit their fields, whose nested messages fit
  -- a length, and whose position and newness are those that follow from its inventory word is
  -- decoded from the fields of the game's definition exactly as it was.
  pub decode_item-item_fields :
      (it : Item)
      → IsScalars it
      → Attributes w it.attributes
      → Equips w it.equip_state
      → derive_item it ≡ it
      → decode_item w (encode_fields w (item_fields w it)) ≡ ok it
  unfolding decode_item
  decode_item-item_fields it h attrs es derived =
      rw
        (
          decode_message-encode_fields w laws (item_cases w) (item_fields w it) zero_item
              (item_fields-IsField it h attrs es),
          item_fields-apply it h attrs es,
        )
        (ap ok (derive_item_again it ∙ derived))

  -- With protowire as documented, an account whose additional slots and ban times fit 32 bits, and
  -- whose premium flag and slots are those that follow from its other fields, is decoded from the
  -- fields of the game's definition exactly as it was.
  pub decode_account-account_fields :
      (a : Account)
      → IsU32 a.additional_backpack_slots
      → IsU32 a.trade_ban_expiration
      → IsU32 a.duel_ban_expiration
      → derive_account a ≡ a
      → decode_account w (encode_fields w (account_fields w a)) ≡ ok a
  unfolding decode_account
  decode_account-account_fields a slots trade duel derived =
      rw
        (decode_message-encode_fields w laws account_cases (account_fields w a) zero_account (
          omega (
            arith,
            one_bit a.trial_account,
            one_bit a.need_to_choose_most_helpful_friend,
            one_bit a.in_coaches_list,
            one_bit a.phone_verified,
            one_bit a.competitive_access,
          )))
        (rw (account_fields-apply w a slots) (ap ok (derive_account_again a ∙ derived)))
