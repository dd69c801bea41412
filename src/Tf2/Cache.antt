-- ===== src/Tf2/Cache.antt =====
-- tf2/socache.go, `soCache`: the items by their ID, and the account.
pub mod Keys
use steamstacks.Prelude.{
  ℕ, Bool, true, false, List, [], ◌∷◌, map, Option, none, some, ◌==◌, if◌then◌else◌,
}
use steamstacks.Tf2.Item.{Item, Account}

-- The map is a list of pairs in which a key stands once.
pub record SoCache : Type 0 where
  pub items : List (ℕ × Item)
  pub account : Option Account

abbrev pub new_so_cache : SoCache
new_so_cache = record { items = []; account = none }

-- `c.cache.items[id]`
unfoldable pub lookup : ℕ → List (ℕ × Item) → Option Item
lookup id [] = none
lookup id (e ∷ es) = if e.0 == id then some e.1 else lookup id es

-- `c.cache.items[id] = &cp`
unfoldable pub insert : ℕ → Item → List (ℕ × Item) → List (ℕ × Item)
insert id it [] = (id, it) ∷ []
insert id it (e ∷ es) = if e.0 == id then (id, it) ∷ es else e ∷ insert id it es

-- `delete(c.cache.items, id)`
unfoldable pub delete : ℕ → List (ℕ × Item) → List (ℕ × Item)
delete id [] = []
delete id (e ∷ es) = if e.0 == id then delete id es else e ∷ delete id es

abbrev pub store : Item → SoCache → SoCache
store it cache = record cache { items = insert it.id it cache.items }

-- `len(c.cache.items) == 0 && c.cache.account == nil`: the backpack is not loaded yet.
unfoldable pub not_loaded : SoCache → Bool
not_loaded cache = elim cache.items [
  | [] ↦ elim cache.account [ none ↦ true | some a ↦ false ]
  | e ∷ es ↦ false
]

-- `Backpack`
abbrev pub backpack : SoCache → List Item
backpack cache = map (λ (e : ℕ × Item). e.1) cache.items
