-- ===== src/Tf2/Item/Shape.antt =====
-- What holds of every item and account that the decoders give.
use steamstacks.Prelude.{
  ℕ, ◌+◌, ◌/◌, ◌%◌, ◌^◌, ◌≡◌, refl, sym, ap, bit_and, Bool, true, false, not, ok, ◌==◌,
  if◌then◌else◌, arith, >>=-eq-ok, ok-injective,
}
use steamstacks.Prelude.Bits.{bit_and_mask}
use steamstacks.Prelude.Bytes.{Bytes}
use steamstacks.Tf2.Wire.{Protowire, decode_message}
use steamstacks.Tf2.Wire.Invariant.{Holds, decode_message-Holds}
use steamstacks.Tf2.Item.{
  Item, Account, zero_item, zero_account, item_cases, account_cases, derive_item, derive_account,
  decode_item, decode_account,
}
use steamstacks.Tf2.Item.Words.{
  Words, item_varint-Words, item_bytes-Words, Words-derive_item, zero_item-Words,
}

-- Bit 30 of the inventory word marks a new item, which has no place in the backpack yet; otherwise
-- the low 16 bits are its place.
pub record Placed (it : Item) : Type 0 where
  pub newness : it.is_new ≡ (it.inventory / 2 ^ 30 % 2 == 1)
  pub place : it.position ≡ (if it.is_new then 0 else it.inventory % 2 ^ 16)

derive_item-Placed : (it : Item) → Placed (derive_item it)
unfolding derive_item
derive_item-Placed it = record {
  newness = ap (λ n. n == 1) (bit_and_mask 1 (it.inventory / 2 ^ 30));
  place = ap (λ n. if bit_and (it.inventory / 2 ^ 30) 1 == 1 then 0 else n) low;
}
  where
    low : bit_and it.inventory 0xFFFF % 2 ^ 16 ≡ it.inventory % 2 ^ 16
    low = omega (arith, bit_and_mask 16 it.inventory)

-- Whatever bytes an item is decoded from, its words are 32 bits wide, it is new exactly when bit 30
-- of its inventory word is set, and its position is 0 if it is new and otherwise the low 16 bits of
-- that word.
pub decode_item-Placed :
    (w : Protowire) (b : Bytes) (it : Item) → decode_item w b ≡ ok it → Words it × Placed it
unfolding decode_item
decode_item-Placed w b it h =
    let (raw, read, derived) = >>=-eq-ok (decode_message w (item_cases w) zero_item b) _ h in
    let kept : Holds Words (decode_message w (item_cases w) zero_item b) =
      decode_message-Holds Words w (item_cases w)
        (record {
          on_varint = item_varint-Words;
          on_fixed32 = tt;
          on_fixed64 = tt;
          on_bytes = item_bytes-Words w;
        })
        zero_item b zero_item-Words in
    let words : Words raw = rw read at kept in
    rw (sym (ok-injective derived)) (Words-derive_item raw words, derive_item-Placed raw)

-- Whatever bytes an account is decoded from, it is premium exactly when it is not a trial account,
-- and its backpack has 50 slots on trial or 300, and the additional ones, modulo 2 ^ 32.
pub decode_account-slots :
    (w : Protowire) (b : Bytes) (a : Account)
    → decode_account w b ≡ ok a
    → (a.premium ≡ not a.trial_account)
      × (a.backpack_slots
          ≡ ((if a.premium then 300 else 50) + a.additional_backpack_slots) % 2 ^ 32)
unfolding decode_account derive_account
decode_account-slots w b a h =
    let (raw, read, derived) = >>=-eq-ok (decode_message w account_cases zero_account b) _ h in
    rw (sym (ok-injective derived)) (refl, slots raw.trial_account raw.additional_backpack_slots)
  where
    slots :
        (t : Bool) (n : ℕ)
        → ((if t then 50 else 300) + n) % 2 ^ 32 ≡ ((if not t then 300 else 50) + n) % 2 ^ 32
    slots true n = refl
    slots false n = refl
