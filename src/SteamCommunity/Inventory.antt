-- ===== src/SteamCommunity/Inventory.antt =====
-- steamcommunity/inventory.go: the inventory of an account, page by page.
pub mod Paging
use steamstacks.Prelude.{
  ℕ, zero, suc, Bool, true, false, not, List, [], ◌∷◌, ◌++◌, map, Option, none, some, Result, ok,
  err, panic, stuck, ◌>>=◌, ◌==◌, if◌then◌else◌,
}
use steamstacks.Prelude.Ints.{ℤ, pos, negsuc}
use steamstacks.Prelude.Decimal.{format_uint}
use steamstacks.SteamCommunity.Http.{Answer}
use steamstacks.SteamCommunity.Texts.{Text, text_eq}

pub record DescriptionLine : Type 0 where
  pub line_type : Text
  pub value : Text
  pub color : Text

pub record InventoryTag : Type 0 where
  pub category : Text
  pub internal_name : Text
  pub localized_category_name : Text
  pub localized_tag_name : Text
  pub color : Text

pub record InventoryAction : Type 0 where
  pub link : Text
  pub name : Text

pub record InventoryItem : Type 0 where
  pub asset_id : Text
  pub class_id : Text
  pub instance_id : Text
  pub amount : Text
  pub name : Text
  pub market_hash_name : Text
  pub item_type : Text
  pub tradable : Bool
  pub marketable : Bool
  pub commodity : Bool
  pub market_tradable_restriction : ℤ
  pub market_marketable_restriction : ℤ
  pub icon_url : Text
  pub icon_url_large : Text
  pub descriptions : List DescriptionLine
  pub tags : List InventoryTag
  pub actions : List InventoryAction
  pub fraud_warnings : List Text

pub record InventoryAsset : Type 0 where
  pub asset_id : Text
  pub class_id : Text
  pub instance_id : Text
  pub amount : Text

pub record InventoryDescription : Type 0 where
  pub class_id : Text
  pub instance_id : Text
  pub name : Text
  pub market_hash_name : Text
  pub item_type : Text
  pub tradable : ℤ
  pub marketable : ℤ
  pub commodity : ℤ
  pub market_tradable_restriction : ℤ
  pub market_marketable_restriction : ℤ
  pub icon_url : Text
  pub icon_url_large : Text
  pub descriptions : List DescriptionLine
  pub tags : List InventoryTag
  pub actions : List InventoryAction
  pub fraud_warnings : List Text

pub record InventoryResponse : Type 0 where
  pub success : ℤ
  pub assets : List InventoryAsset
  pub descriptions : List InventoryDescription
  pub more_items : ℤ
  pub last_asset_id : Text

-- The zero value, that of a key which is not in the map.
abbrev pub no_description : InventoryDescription
no_description = record {
  class_id = [];
  instance_id = [];
  name = [];
  market_hash_name = [];
  item_type = [];
  tradable = pos 0;
  marketable = pos 0;
  commodity = pos 0;
  market_tradable_restriction = pos 0;
  market_marketable_restriction = pos 0;
  icon_url = [];
  icon_url_large = [];
  descriptions = [];
  tags = [];
  actions = [];
  fraud_warnings = [];
}

abbrev pub is_one : ℤ → Bool
is_one (pos n) = n == 1
is_one (negsuc n) = false

-- `descriptionKey`: an underscore, 95, between the two.
unfoldable pub description_key : Text → Text → Text
description_key class_id instance_id = class_id ++ (95 ∷ instance_id)

abbrev pub key_of : InventoryDescription → Text
key_of d = description_key d.class_id d.instance_id

-- `descMap`: of descriptions with the same key the last one is kept.
unfoldable pub described : Text → List InventoryDescription → Option InventoryDescription
described key [] = none
described key (d ∷ ds) = elim (described key ds) [
  | some later ↦ some later
  | none ↦ if text_eq (key_of d) key then some d else none
]

abbrev pub description_or_zero : Option InventoryDescription → InventoryDescription
description_or_zero none = no_description
description_or_zero (some d) = d

unfoldable pub join : InventoryAsset → InventoryDescription → InventoryItem
join asset desc = record {
  asset_id = asset.asset_id;
  class_id = asset.class_id;
  instance_id = asset.instance_id;
  amount = asset.amount;
  name = desc.name;
  market_hash_name = desc.market_hash_name;
  item_type = desc.item_type;
  tradable = is_one desc.tradable;
  marketable = is_one desc.marketable;
  commodity = is_one desc.commodity;
  market_tradable_restriction = desc.market_tradable_restriction;
  market_marketable_restriction = desc.market_marketable_restriction;
  icon_url = desc.icon_url;
  icon_url_large = desc.icon_url_large;
  descriptions = desc.descriptions;
  tags = desc.tags;
  actions = desc.actions;
  fraud_warnings = desc.fraud_warnings;
}

unfoldable pub item_of : List InventoryDescription → InventoryAsset → InventoryItem
item_of ds asset =
    join asset
      (description_or_zero (described (description_key asset.class_id asset.instance_id) ds))

pub data InventoryError : Type 0 where
  not_initialised : InventoryError
  request_failed : InventoryError
  read_body : InventoryError
  inventory_private : InventoryError
  rate_limited : InventoryError
  http_status : ℕ → InventoryError
  decode : InventoryError
  not_success : InventoryError

-- The items of a page, whether there are more, and the last asset's ID.
abbrev pub page_of : InventoryResponse → Result InventoryError (List InventoryItem × Bool × Text)
page_of resp =
    if is_one resp.success
    then ok
        (map (item_of resp.descriptions) resp.assets, is_one resp.more_items, resp.last_asset_id)
    else err not_success

-- A request for a page: the account, the app, the context, and the asset behind which the page
-- starts, empty for the first.
pub record PageRequest : Type 0 where
  pub steam_id : Text
  pub app_id : ℤ
  pub context_id : Text
  pub start_asset_id : Text

-- HTTP and JSON: `none` is an error.
pub record Web : Type 0 where
  pub fetch : PageRequest → Option Answer
  pub unmarshal : Text → Option InventoryResponse

abbrev or_error {ℓ} : {A : Type ℓ} → Option A → InventoryError → Result InventoryError A
or_error none e = err e
or_error (some a) e = ok a

unfoldable pub ensure_status : ℕ → Text → Result InventoryError Text
ensure_status status body =
    if status == 200
    then ok body
    else if status == 403
    then err inventory_private
    else if status == 429
    then err rate_limited
    else err (http_status status)

module _ (w : Web) where
  unfoldable pub parse_inventory_response :
      Text → Result InventoryError (List InventoryItem × Bool × Text)
  parse_inventory_response data_text = or_error (w.unmarshal data_text) decode >>= page_of

  -- One round of the loop.
  unfoldable pub get_page : PageRequest → Result InventoryError (List InventoryItem × Bool × Text)
  get_page r = do
    a ← or_error (w.fetch r) request_failed
    body ← or_error a.body read_body
    page ← ensure_status a.status body
    parse_inventory_response page

  -- The code has no bound on the number of pages; `fuel` is one for the model.
  unfoldable pub inventory_loop :
      ℕ → PageRequest → List InventoryItem → Result InventoryError (List InventoryItem)
  inventory_loop zero r all_items = stuck
  inventory_loop (suc fuel) r all_items = get_page r >>= λ p. elim p.1 [
    | true ↦ inventory_loop fuel (record r { start_asset_id = p.2 }) (all_items ++ p.0)
    | false ↦ ok (all_items ++ p.0)
  ]

  unfoldable pub get_inventory : ℕ → ℕ → ℤ → Text → Result InventoryError (List InventoryItem)
  get_inventory fuel steam_id app_id context_id =
      inventory_loop fuel
        (record {
          steam_id = format_uint steam_id;
          app_id = app_id;
          context_id = context_id;
          start_asset_id = [];
        })
        []

  -- `session` is whether the session could be made, for the account of the client.
  unfoldable pub get_own_inventory :
      Bool → ℕ → ℕ → ℤ → Text → Result InventoryError (List InventoryItem)
  get_own_inventory session fuel steam_id app_id context_id =
      if session then get_inventory fuel steam_id app_id context_id else err not_initialised
