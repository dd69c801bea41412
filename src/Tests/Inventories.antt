-- ===== src/Tests/Inventories.antt =====
-- An inventory of two pages, the second of which is private.
use steamstacks.Prelude.{
  ◌≡◌, refl, true, List, [], ◌∷◌, some, ok, err, ◌==◌, if◌then◌else◌, arith, length,
}
use steamstacks.Prelude.Ints.{pos}
use steamstacks.Prelude.Decimal.{format_uint}
use steamstacks.SteamCommunity.Inventory.{
  InventoryItem, InventoryResponse, inventory_private, PageRequest, Web, item_of, ensure_status,
  parse_inventory_response, get_page, get_inventory,
}
use steamstacks.SteamCommunity.Inventory.Paging.{
  Chain, more_pages, failed_page, flatten, result_of, get_inventory-Chain,
}

abbrev first_page : InventoryResponse
first_page = record {
  success = pos 1;
  assets =
      record { asset_id = 55 ∷ []; class_id = 49 ∷ []; instance_id = 48 ∷ []; amount = 49 ∷ [] }
      ∷ [];
  descriptions = [];
  more_items = pos 1;
  last_asset_id = 55 ∷ [];
}

abbrev site : Web
site = record {
  fetch = λ r.
      some (record { status = if length r.start_asset_id == 0 then 200 else 403; body = some [] });
  unmarshal = λ b. some first_page;
}

abbrev first_request : PageRequest
first_request = record {
  steam_id = format_uint 7;
  app_id = pos 440;
  context_id = 50 ∷ [];
  start_asset_id = [];
}

abbrev first_items : List InventoryItem
first_items =
    item_of []
      (record { asset_id = 55 ∷ []; class_id = 49 ∷ []; instance_id = 48 ∷ []; amount = 49 ∷ [] })
    ∷ []

first_got : get_page site first_request ≡ ok (first_items, true, 55 ∷ [])
unfolding get_page parse_inventory_response ensure_status
first_got = refl

second_refused :
    get_page site (record first_request { start_asset_id = 55 ∷ [] }) ≡ err inventory_private
unfolding get_page parse_inventory_response ensure_status
second_refused = refl

site_pages : Chain site first_request (first_items ∷ []) (some inventory_private)
site_pages = more_pages first_request first_items (55 ∷ []) [] (some inventory_private) first_got (
    failed_page (record first_request { start_asset_id = 55 ∷ [] }) inventory_private
      second_refused)

get_inventory-Chain_example :
    get_inventory site 2 7 (pos 440) (50 ∷ [])
    ≡ result_of (flatten (first_items ∷ [])) (some inventory_private)
get_inventory-Chain_example =
    get_inventory-Chain site 2 7 (pos 440) (50 ∷ []) (first_items ∷ []) (some inventory_private)
      site_pages (omega arith)
