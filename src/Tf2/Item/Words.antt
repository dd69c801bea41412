-- ===== src/Tf2/Item/Words.antt =====
-- The words of an item stay 32 bits wide through every field and the derived ones.
use steamstacks.Prelude.{
  ℕ, ◌%◌, ◌^◌, Bool, true, false, [], ◌∷◌, ◌++◌, Result, ok, err, panic, stuck, ◌>>=◌, wrap_err,
  ◌==◌, if◌then◌else◌, arith,
}
use steamstacks.Prelude.Bytes.{Bytes, IsU32}
use steamstacks.Tf2.Wire.{Protowire, DecodeError, inside}
use steamstacks.Tf2.Wire.Invariant.{Holds}
use steamstacks.Tf2.Item.{
  ItemAttribute, ItemEquipped, Item, zero_item, item_varint, item_bytes, derive_item,
  decode_item_attribute, decode_item_equipped,
}

-- The words of an item are 32 bits wide.
pub Words : Item → Type 0
Words it =
    IsU32 it.account_id
    × IsU32 it.inventory
    × IsU32 it.def_index
    × IsU32 it.quantity
    × IsU32 it.level
    × IsU32 it.quality
    × IsU32 it.flags
    × IsU32 it.origin
    × IsU32 it.style

if_Words : (b : Bool) (x y : Item) → Words x → Words y → Words (if b then x else y)
if_Words true x y p q = p
if_Words false x y p q = q

set_account_id-Words :
    (v : ℕ) (it : Item) → Words it → Words (record it { account_id = v % 2 ^ 32 })
unfolding Words
set_account_id-Words v it h = omega arith

set_inventory-Words : (v : ℕ) (it : Item) → Words it → Words (record it { inventory = v % 2 ^ 32 })
unfolding Words
set_inventory-Words v it h = omega arith

set_def_index-Words : (v : ℕ) (it : Item) → Words it → Words (record it { def_index = v % 2 ^ 32 })
unfolding Words
set_def_index-Words v it h = omega arith

set_quantity-Words : (v : ℕ) (it : Item) → Words it → Words (record it { quantity = v % 2 ^ 32 })
unfolding Words
set_quantity-Words v it h = omega arith

set_level-Words : (v : ℕ) (it : Item) → Words it → Words (record it { level = v % 2 ^ 32 })
unfolding Words
set_level-Words v it h = omega arith

set_quality-Words : (v : ℕ) (it : Item) → Words it → Words (record it { quality = v % 2 ^ 32 })
unfolding Words
set_quality-Words v it h = omega arith

set_flags-Words : (v : ℕ) (it : Item) → Words it → Words (record it { flags = v % 2 ^ 32 })
unfolding Words
set_flags-Words v it h = omega arith

set_origin-Words : (v : ℕ) (it : Item) → Words it → Words (record it { origin = v % 2 ^ 32 })
unfolding Words
set_origin-Words v it h = omega arith

set_style-Words : (v : ℕ) (it : Item) → Words it → Words (record it { style = v % 2 ^ 32 })
unfolding Words
set_style-Words v it h = omega arith

set_id-Words : (v : ℕ) (it : Item) → Words it → Words (record it { id = v })
unfolding Words
set_id-Words v it h = h

set_in_use-Words : (v : Bool) (it : Item) → Words it → Words (record it { in_use = v })
unfolding Words
set_in_use-Words v it h = h

set_original_id-Words : (v : ℕ) (it : Item) → Words it → Words (record it { original_id = v })
unfolding Words
set_original_id-Words v it h = h

pub item_varint-Words : (num v : ℕ) (it : Item) → Words it → Words (item_varint num v it)
unfolding item_varint
item_varint-Words num v it h = if_Words (num == 1) _ _ (set_id-Words v it h) (
    if_Words (num == 2) _ _ (set_account_id-Words v it h) (
      if_Words (num == 3) _ _ (set_inventory-Words v it h) (
        if_Words (num == 4) _ _ (set_def_index-Words v it h) (
          if_Words (num == 5) _ _ (set_quantity-Words v it h) (
            if_Words (num == 6) _ _ (set_level-Words v it h) (
              if_Words (num == 7) _ _ (set_quality-Words v it h) (
                if_Words (num == 8) _ _ (set_flags-Words v it h) (
                  if_Words (num == 9) _ _ (set_origin-Words v it h) (
                    if_Words (num == 14) _ _ (set_in_use-Words _ it h) (
                      if_Words (num == 15) _ _ (set_style-Words v it h)
                        (if_Words (num == 16) _ _ (set_original_id-Words v it h) h)))))))))))

pub item_bytes-Words :
    (w : Protowire) (num : ℕ) (v : Bytes) (it : Item)
    → Words it
    → Holds Words (item_bytes w num v it)
unfolding item_bytes
item_bytes-Words w num v it h =
    go (num == 10) (num == 11) (num == 12) (num == 18) (decode_item_attribute w v)
      (decode_item_equipped w v)
  where
    attribute :
        (r : Result DecodeError ItemAttribute)
        → Holds Words (
            wrap_err (inside 12) r >>= λ attr.
            ok (record it { attributes = it.attributes ++ (attr ∷ []) }))
    attribute (ok a) = unfold Words in h
    attribute (err e) = tt
    attribute panic = tt
    attribute stuck = tt

    equipped :
        (r : Result DecodeError ItemEquipped)
        → Holds Words (
            wrap_err (inside 18) r >>= λ eq.
            ok (record it { equip_state = it.equip_state ++ (eq ∷ []) }))
    equipped (ok e) = unfold Words in h
    equipped (err e) = tt
    equipped panic = tt
    equipped stuck = tt

    go :
        (b10 b11 b12 b18 : Bool) (ra : Result DecodeError ItemAttribute)
        (re : Result DecodeError ItemEquipped)
        → Holds Words (
            if b10
            then ok (record it { custom_name = v })
            else if b11
            then ok (record it { custom_desc = v })
            else if b12
            then (wrap_err (inside 12) ra >>= λ attr.
                ok (record it { attributes = it.attributes ++ (attr ∷ []) }))
            else if b18
            then (wrap_err (inside 18) re >>= λ eq.
                ok (record it { equip_state = it.equip_state ++ (eq ∷ []) }))
            else ok it)
    go true b11 b12 b18 ra re = unfold Words in h
    go false true b12 b18 ra re = unfold Words in h
    go false false true b18 ra re = attribute ra
    go false false false true ra re = equipped re
    go false false false false ra re = h

pub Words-derive_item : (it : Item) → Words it → Words (derive_item it)
unfolding derive_item Words
Words-derive_item it h = h

pub zero_item-Words : Words zero_item
unfolding Words
zero_item-Words = omega arith
