-- ===== src/SteamCommunity/Market.antt =====
-- steamcommunity/market.go: the listings that are read from the pages of the market.
pub mod Endpoints
pub mod Shown
pub mod Distinct
pub mod Pages
use steamstacks.Prelude.{
  ℕ, zero, suc, ◌-◌, ◌^◌, Bool, true, false, not, List, [], ◌∷◌, ◌++◌, map, Option, none, some,
  Result, ok, err, panic, stuck, ◌>>=◌, ltb, ◌==◌, if◌then◌else◌, length, take, drop, get_elem?,
}
use steamstacks.Prelude.Decimal.{format_uint, parse_uint}
use steamstacks.SteamCommunity.Texts.{
  Text, is_space, text_eq, from_index, blank, trim_space, fields_from, join_space,
}

-- `normalizeWhitespace`
unfoldable pub normalize_whitespace : Text → Text
normalize_whitespace s = trim_space (join_space (fields_from [] s))

-- The loop of `firstInnerText`: whether it is inside of a tag, and what was collected.
unfoldable pub visible_run : Bool → Text → Text → Text
visible_run in_tag b [] = b
visible_run true b (r ∷ s) = visible_run (not (r == 62)) b s
visible_run false b (r ∷ s) = elim (r == 60) [
  | true ↦ elim (blank b) [ true ↦ visible_run true [] s | false ↦ b ]
  | false ↦ visible_run false (b ++ (r ∷ [])) s
]

-- The text behind the first `>`.
unfoldable pub behind_gt : Text → Option Text
behind_gt [] = none
behind_gt (r ∷ s) = let rest = behind_gt s in if r == 62 then some s else rest

unfoldable pub first_inner_text : Text → Text → Text
first_inner_text html marker = elim (from_index html marker) [
  | none ↦ []
  | some sub ↦ elim (behind_gt sub) [
    | none ↦ []
    | some inner ↦ normalize_whitespace (visible_run false [] inner)
  ]
]

-- market_listing_item_name_link
abbrev pub marker_item_name : Text
marker_item_name =
    109
    ∷ (97
        ∷ (114
            ∷ (107
                ∷ (101
                    ∷ (116
                        ∷ (95
                            ∷ (108
                                ∷ (105
                                    ∷ (115
                                        ∷ (116
                                            ∷ (105
                                                ∷ (110
                                                    ∷ (103
                                                        ∷ (95
                                                            ∷ (105
                                                            ∷ (116
                                                            ∷ (101
                                                            ∷ (109
                                                            ∷ (95
                                                            ∷ (110
                                                            ∷ (97
                                                            ∷ (109
                                                            ∷ (101
                                                            ∷ (95
                                                            ∷ (108
                                                            ∷ (105
                                                            ∷ (110
                                                            ∷ (107
                                                            ∷ ([])))))))))))))))))))))))))))))

-- market_listing_price", with the quotation mark
abbrev pub marker_price : Text
marker_price =
    109
    ∷ (97
        ∷ (114
            ∷ (107
                ∷ (101
                    ∷ (116
                        ∷ (95
                            ∷ (108
                                ∷ (105
                                    ∷ (115
                                        ∷ (116
                                            ∷ (105
                                                ∷ (110
                                                    ∷ (103
                                                        ∷ (95
                                                            ∷ (112
                                                            ∷ (114
                                                            ∷ (105
                                                            ∷ (99
                                                            ∷ (101 ∷ (34 ∷ ([])))))))))))))))))))))

-- market_listing_listed_date_combined
abbrev pub marker_listed_date_combined : Text
marker_listed_date_combined =
    109
    ∷ (97
        ∷ (114
            ∷ (107
                ∷ (101
                    ∷ (116
                        ∷ (95
                            ∷ (108
                                ∷ (105
                                    ∷ (115
                                        ∷ (116
                                            ∷ (105
                                                ∷ (110
                                                    ∷ (103
                                                        ∷ (95
                                                            ∷ (108
                                                            ∷ (105
                                                            ∷ (115
                                                            ∷ (116
                                                            ∷ (101
                                                            ∷ (100
                                                            ∷ (95
                                                            ∷ (100
                                                            ∷ (97
                                                            ∷ (116
                                                            ∷ (101
                                                            ∷ (95
                                                            ∷ (99
                                                            ∷ (111
                                                            ∷ (109
                                                            ∷ (98
                                                            ∷ (105
                                                            ∷ (110
                                                            ∷ (101
                                                            ∷ (100
                                                            ∷ ([])))))))))))))))))))))))))))))))))))

-- market_listing_listed_date
abbrev pub marker_listed_date_short : Text
marker_listed_date_short =
    109
    ∷ (97
        ∷ (114
            ∷ (107
                ∷ (101
                    ∷ (116
                        ∷ (95
                            ∷ (108
                                ∷ (105
                                    ∷ (115
                                        ∷ (116
                                            ∷ (105
                                                ∷ (110
                                                    ∷ (103
                                                        ∷ (95
                                                            ∷ (108
                                                            ∷ (105
                                                            ∷ (115
                                                            ∷ (116
                                                            ∷ (101
                                                            ∷ (100
                                                            ∷ (95
                                                            ∷ (100
                                                            ∷ (97
                                                            ∷ (116
                                                            ∷ (101 ∷ ([]))))))))))))))))))))))))))

pub record MarketListingAsset : Type 0 where
  pub asset_id : Text
  pub app_id : ℕ
  pub context_id : Text
  pub class_id : Text
  pub instance_id : Text
  pub amount : Text
  pub market_hash_name : Text
  pub name : Text
  pub icon_url : Text

pub record MarketListing : Type 0 where
  pub id : Text
  pub price_text : Text
  pub created_text : Text
  pub asset : Option MarketListingAsset

-- `assetInfo`, the fields that are copied.
pub record AssetInfo : Type 0 where
  pub class_id : Text
  pub instance_id : Text
  pub amount : Text
  pub market_hash_name : Text
  pub name : Text
  pub icon_url : Text

-- A JSON object: its keys with their values.
abbrev pub Object : Type 0 → Type 0
Object A = List (Text × A)

unfoldable pub field_of {ℓ} : {A : Type ℓ} → List (Text × A) → Text → Option A
field_of [] k = none
field_of (e ∷ es) k = if text_eq e.0 k then some e.1 else field_of es k

-- What the regular expressions find. A row: where its match begins, and where the digits in it
-- begin and end; a cancel button: its app, context and asset. A match of another expression is the
-- list of its groups.
pub record Expressions : Type 0 where
  pub row_split : Text → List (ℕ × ℕ × ℕ)
  pub remove_market_listing : Text → Option (Text × Text × Text)
  pub listing_id : Text → List (List Text)
  pub pending_listing : Text → List (List Text)

-- `strconv.Atoi` of digits: 0 where they do not fit into 64 bits with a sign.
abbrev pub atoi_or_zero : Text → ℕ
atoi_or_zero s = elim (parse_uint (2 ^ 63 - 1) s) [ ok n ↦ n | err e ↦ 0 | panic ↦ 0 | stuck ↦ 0 ]

-- `html[lo:hi]`
abbrev pub part : Text → ℕ → ℕ → Text
part html lo hi = take (hi - lo) (drop lo html)

unfoldable pub created_text_of : Text → Text
created_text_of chunk =
    let combined = first_inner_text chunk marker_listed_date_combined in
    elim combined [ [] ↦ first_inner_text chunk marker_listed_date_short | r ∷ s ↦ r ∷ s ]

module _ (e : Expressions) where
  unfoldable pub asset_of : Text → Option MarketListingAsset
  asset_of chunk = elim (e.remove_market_listing chunk) [
    | none ↦ none
    | some (app, ctx, asset) ↦ some (record {
      asset_id = asset;
      app_id = atoi_or_zero app;
      context_id = ctx;
      class_id = [];
      instance_id = [];
      amount = [];
      market_hash_name = first_inner_text chunk marker_item_name;
      name = [];
      icon_url = [];
    })
  ]

  -- A row goes on to the beginning of the next one, the last to the end of the page.
  unfoldable pub row_chunks : Text → List (ℕ × ℕ × ℕ) → List Text
  row_chunks html [] = []
  row_chunks html (m ∷ []) = drop m.0 html ∷ []
  row_chunks html (m ∷ (n ∷ ms)) = part html m.0 n.0 ∷ row_chunks html (n ∷ ms)

  abbrev pub listing_of : Text → ℕ × ℕ × ℕ → Text → MarketListing
  listing_of html m chunk = record {
    id = part html m.1 m.2;
    price_text = first_inner_text chunk marker_price;
    created_text = created_text_of chunk;
    asset = asset_of chunk;
  }

  abbrev pub listings_of : Text → List (ℕ × ℕ × ℕ) → List Text → List MarketListing
  listings_of html [] chunks = []
  listings_of html (m ∷ ms) [] = []
  listings_of html (m ∷ ms) (chunk ∷ chunks) = listing_of html m chunk ∷ listings_of html ms chunks

  unfoldable pub parse_market_listings : Text → List MarketListing
  parse_market_listings html =
      let rows = e.row_split html in listings_of html rows (row_chunks html rows)

-- `lookupAsset`
unfoldable pub lookup_asset :
    Object (Object (Object AssetInfo)) → Text → Text → Text → Option AssetInfo
lookup_asset assets app ctx asset = elim (field_of assets app) [
  | none ↦ none
  | some contexts ↦ elim (field_of contexts ctx) [ none ↦ none | some infos ↦ field_of infos asset ]
]

-- What the sidecar says of an asset. An empty hash name does not replace the one of the page.
abbrev pub with_info : MarketListing → MarketListingAsset → Option AssetInfo → MarketListing
with_info l a none = l
with_info l a (some info) = record l {
  asset = some (record a {
    class_id = info.class_id;
    instance_id = info.instance_id;
    amount = info.amount;
    icon_url = info.icon_url;
    name = info.name;
    market_hash_name = elim info.market_hash_name [ [] ↦ a.market_hash_name | r ∷ s ↦ r ∷ s ];
  });
}

-- The listing, its asset completed.
unfoldable pub enriched : Object (Object (Object AssetInfo)) → MarketListing → MarketListing
enriched assets l = elim l.asset [
  | none ↦ l
  | some a ↦ with_info l a (lookup_asset assets (format_uint a.app_id) a.context_id a.asset_id)
]
