-- ===== src/SteamCommunity/Inventory/Paging.antt =====
-- The loop over the pages of an inventory: where it ends, and where it cannot.
use steamstacks.Prelude.{
  ℕ, zero, suc, ◌<◌, ◌≡◌, refl, sym, ap, ◌∙◌, true, false, List, [], ◌∷◌, ◌++◌, Option, none, some,
  Result, ok, err, append_assoc, append-nil, arith, length,
}
use steamstacks.Prelude.Ints.{ℤ}
use steamstacks.Prelude.Decimal.{format_uint}
use steamstacks.SteamCommunity.Texts.{Text}
use steamstacks.SteamCommunity.Inventory.{
  InventoryItem, InventoryError, PageRequest, Web, get_page, inventory_loop, get_inventory,
}

-- The pages that the server gives from a request on: each names the request for the next one, up to
-- a page without more items, or one that fails.
pub data Chain (w : Web)
    : PageRequest → List (List InventoryItem) → Option InventoryError → Type 0 where
  last_page :
      (r : PageRequest) (items : List InventoryItem) (last : Text)
      → get_page w r ≡ ok (items, false, last)
      → Chain w r (items ∷ []) none
  more_pages :
      (r : PageRequest) (items : List InventoryItem) (last : Text)
      (rest : List (List InventoryItem)) (e : Option InventoryError)
      → get_page w r ≡ ok (items, true, last)
      → Chain w (record r { start_asset_id = last }) rest e
      → Chain w r (items ∷ rest) e
  failed_page :
      (r : PageRequest) (e : InventoryError) → get_page w r ≡ err e → Chain w r [] (some e)

abbrev pub flatten : List (List InventoryItem) → List InventoryItem
flatten [] = []
flatten (p ∷ ps) = p ++ flatten ps

abbrev pub result_of :
    List InventoryItem → Option InventoryError → Result InventoryError (List InventoryItem)
result_of items none = ok items
result_of items (some e) = err e

result_of-cong :
    (a b : List InventoryItem) (e : Option InventoryError) → a ≡ b → result_of a e ≡ result_of b e
result_of-cong a b e q = ap (λ x. result_of x e) q

inventory_loop-Chain :
    (w : Web) (fuel : ℕ) (r : PageRequest) (before : List InventoryItem)
    (pages : List (List InventoryItem)) (e : Option InventoryError)
    → Chain w r pages e
    → length pages < fuel
    → inventory_loop w fuel r before ≡ result_of (before ++ flatten pages) e
unfolding inventory_loop
inventory_loop-Chain w zero r before pages e c h = absurd (omega arith)
inventory_loop-Chain w (suc fuel) _ before _ _ (last_page r items last q) h =
    rw q (ap (λ x. ok (before ++ x)) (sym (append-nil items)))
inventory_loop-Chain w (suc fuel) _ before _ _ (more_pages r items last rest e q c) h = rw q (
    inventory_loop-Chain w fuel (record r { start_asset_id = last }) (before ++ items) rest e c
      (omega arith)
    ∙ result_of-cong _ _ e (append_assoc before items (flatten rest)))
inventory_loop-Chain w (suc fuel) _ before _ _ (failed_page r e q) h = rw q refl

-- If the pages from the first on, each asked for behind the last asset of the one before, come to
-- an end, with a page without more items or with an error, then `GetInventory` ends: it gives all
-- items of all pages in order, or the error of the page that failed. One more round than there are
-- pages is enough.
pub get_inventory-Chain :
    (w : Web) (fuel steam_id : ℕ) (app_id : ℤ) (context_id : Text)
    (pages : List (List InventoryItem)) (e : Option InventoryError)
    → Chain w
        (record {
          steam_id = format_uint steam_id;
          app_id = app_id;
          context_id = context_id;
          start_asset_id = [];
        })
        pages
        e
    → length pages < fuel
    → get_inventory w fuel steam_id app_id context_id ≡ result_of (flatten pages) e
unfolding get_inventory
get_inventory-Chain w fuel steam_id app_id context_id pages e c h =
    inventory_loop-Chain w fuel _ [] pages e c h
