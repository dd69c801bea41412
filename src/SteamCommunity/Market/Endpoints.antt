-- ===== src/SteamCommunity/Market/Endpoints.antt =====
-- steamcommunity/market.go: the requests to the market and what is made of the answers.
use steamstacks.Prelude.{
  ℕ, Bool, true, false, List, [], ◌∷◌, map, Option, none, some, Result, ok, err, ◌>>=◌, ltb, ◌==◌,
  if◌then◌else◌, get_elem?,
}
use steamstacks.Prelude.Ints.{ℤ, pos, negsuc}
use steamstacks.SteamCommunity.Http.{Answer}
use steamstacks.SteamCommunity.Texts.{Text, text_eq, contains}
use steamstacks.SteamCommunity.Market.{
  MarketListing, AssetInfo, Object, Expressions, parse_market_listings, enriched,
}

pub record MarketPriceOverview : Type 0 where
  pub success : Bool
  pub lowest_price : Text
  pub median_price : Text
  pub volume : Text

pub record MarketSellResult : Type 0 where
  pub success : Bool
  pub message : Text
  pub requires_confirmation : ℕ
  pub mobile_confirmation_required : Bool
  pub email_confirmation_required : Bool
  pub email_domain : Text

pub record MarketListingsResponse : Type 0 where
  pub success : Bool
  pub page_size : ℤ
  pub total_count : ℤ
  pub results_html : Text
  pub assets : Object (Object (Object AssetInfo))

pub record MarketListingsPage : Type 0 where
  pub listings : List MarketListing
  pub start : ℕ
  pub page_size : ℤ
  pub total : ℤ

pub record PendingListing : Type 0 where
  pub listing_id : Text
  pub asset_id : Text

-- The requests, with the values of their queries and forms.
pub data Request : Type 0 where
  price_overview : ℤ → ℤ → Text → Request
  sell_item : ℤ → ℤ → ℕ → ℕ → ℤ → Text → Request
  market_home : Request
  my_listings : ℕ → ℕ → Request
  remove_listing : Text → Text → Request

-- HTTP and JSON: `none` is an error.
pub record Web : Type 0 where
  pub fetch : Request → Option Answer
  pub decode_overview : Text → Option MarketPriceOverview
  pub decode_sell_result : Text → Option MarketSellResult
  pub decode_listings : Text → Option MarketListingsResponse

pub data SellProblem : Type 0 where
  item_server_down : SellProblem
  pending_confirmation : SellProblem
  item_not_in_inventory : SellProblem
  listing_problem : SellProblem
  wallet_too_much_money : SellProblem
  previous_action_pending : SellProblem
  other_problem : Text → SellProblem

pub data MarketError : Type 0 where
  not_initialised : MarketError
  request_failed : MarketError
  read_body : MarketError
  http_status : ℕ → MarketError
  decode : MarketError
  not_success : MarketError
  sell_failed : MarketSellResult → SellProblem → MarketError

abbrev or_error {ℓ} : {A : Type ℓ} → Option A → MarketError → Result MarketError A
or_error none e = err e
or_error (some a) e = ok a

abbrev ensure_status : ℕ → Text → Result MarketError Text
ensure_status status body = if status == 200 then ok body else err (http_status status)

-- The body of an answer with status 200. It is read before the status is looked at.
unfoldable pub body_of : Option Answer → Result MarketError Text
body_of answer = do
  a ← or_error answer request_failed
  body ← or_error a.body read_body
  ensure_status a.status body

-- `count <= 0` is 100, more than 100 is 100, and `start < 0` is 0.
unfoldable pub clamp_count : ℤ → ℕ
clamp_count (pos n) = if n == 0 then 100 else if ltb 100 n then 100 else n
clamp_count (negsuc n) = 100

unfoldable pub clamp_start : ℤ → ℕ
clamp_start (pos n) = n
clamp_start (negsuc n) = 0

-- "The game's item server may be down"
abbrev pub item_server_message : Text
item_server_message =
    84
    ∷ (104
        ∷ (101
            ∷ (32
                ∷ (103
                    ∷ (97
                        ∷ (109
                            ∷ (101
                                ∷ (39
                                    ∷ (115
                                        ∷ (32
                                            ∷ (105
                                                ∷ (116
                                                    ∷ (101
                                                        ∷ (109
                                                            ∷ (32
                                                            ∷ (115
                                                            ∷ (101
                                                            ∷ (114
                                                            ∷ (118
                                                            ∷ (101
                                                            ∷ (114
                                                            ∷ (32
                                                            ∷ (109
                                                            ∷ (97
                                                            ∷ (121
                                                            ∷ (32
                                                            ∷ (98
                                                            ∷ (101
                                                            ∷ (32
                                                            ∷ (100
                                                            ∷ (111
                                                            ∷ (119
                                                            ∷ (110
                                                            ∷ ([]))))))))))))))))))))))))))))))))))

-- "You already have a listing for this item pending confirmation"
abbrev pub pending_message : Text
pending_message =
    89
    ∷ (111
        ∷ (117
            ∷ (32
                ∷ (97
                    ∷ (108
                        ∷ (114
                            ∷ (101
                                ∷ (97
                                    ∷ (100
                                        ∷ (121
                                            ∷ (32
                                                ∷ (104
                                                    ∷ (97
                                                        ∷ (118
                                                            ∷ (101
                                                            ∷ (32
                                                            ∷ (97
                                                            ∷ (32
                                                            ∷ (108
                                                            ∷ (105
                                                            ∷ (115
                                                            ∷ (116
                                                            ∷ (105
                                                            ∷ (110
                                                            ∷ (103
                                                            ∷ (32
                                                            ∷ (102
                                                            ∷ (111
                                                            ∷ (114
                                                            ∷ (32
                                                            ∷ (116
                                                            ∷ (104
                                                            ∷ (105
                                                            ∷ (115
                                                            ∷ (32
                                                            ∷ (105
                                                            ∷ (116
                                                            ∷ (101
                                                            ∷ (109
                                                            ∷ (32
                                                            ∷ (112
                                                            ∷ (101
                                                            ∷ (110
                                                            ∷ (100
                                                            ∷ (105
                                                            ∷ (110
                                                            ∷ (103
                                                            ∷ (32
                                                            ∷ (99
                                                            ∷ (111
                                                            ∷ (110
                                                            ∷ (102
                                                            ∷ (105
                                                            ∷ (114
                                                            ∷ (109
                                                            ∷ (97
                                                            ∷ (116 ∷ (105 ∷ (111 ∷ (110 ∷ ([])))))))
                                                            ))))))))))))))))))))))))))))))))))))))))
                                                            ))))))))))))))

-- "The item specified is no longer in your inventory"
abbrev pub inventory_message : Text
inventory_message =
    84
    ∷ (104
        ∷ (101
            ∷ (32
                ∷ (105
                    ∷ (116
                        ∷ (101
                            ∷ (109
                                ∷ (32
                                    ∷ (115
                                        ∷ (112
                                            ∷ (101
                                                ∷ (99
                                                    ∷ (105
                                                        ∷ (102
                                                            ∷ (105
                                                            ∷ (101
                                                            ∷ (100
                                                            ∷ (32
                                                            ∷ (105
                                                            ∷ (115
                                                            ∷ (32
                                                            ∷ (110
                                                            ∷ (111
                                                            ∷ (32
                                                            ∷ (108
                                                            ∷ (111
                                                            ∷ (110
                                                            ∷ (103
                                                            ∷ (101
                                                            ∷ (114
                                                            ∷ (32
                                                            ∷ (105
                                                            ∷ (110
                                                            ∷ (32
                                                            ∷ (121
                                                            ∷ (111
                                                            ∷ (117
                                                            ∷ (114
                                                            ∷ (32
                                                            ∷ (105
                                                            ∷ (110
                                                            ∷ (118
                                                            ∷ (101
                                                            ∷ (110
                                                            ∷ (116 ∷ (111 ∷ (114 ∷ (121 ∷ ([])))))))
                                                            ))))))))))))))))))))))))))))))))))))))))
                                                            ))

-- "There was a problem listing your item"
abbrev pub listing_message : Text
listing_message =
    84
    ∷ (104
        ∷ (101
            ∷ (114
                ∷ (101
                    ∷ (32
                        ∷ (119
                            ∷ (97
                                ∷ (115
                                    ∷ (32
                                        ∷ (97
                                            ∷ (32
                                                ∷ (112
                                                    ∷ (114
                                                        ∷ (111
                                                            ∷ (98
                                                            ∷ (108
                                                            ∷ (101
                                                            ∷ (109
                                                            ∷ (32
                                                            ∷ (108
                                                            ∷ (105
                                                            ∷ (115
                                                            ∷ (116
                                                            ∷ (105
                                                            ∷ (110
                                                            ∷ (103
                                                            ∷ (32
                                                            ∷ (121
                                                            ∷ (111
                                                            ∷ (117
                                                            ∷ (114
                                                            ∷ (32
                                                            ∷ (105
                                                            ∷ (116
                                                            ∷ (101
                                                            ∷ (109
                                                            ∷ ([])))))))))))))))))))))))))))))))))))))

-- "You must spend some Steam Wallet funds"
abbrev pub wallet_message : Text
wallet_message =
    89
    ∷ (111
        ∷ (117
            ∷ (32
                ∷ (109
                    ∷ (117
                        ∷ (115
                            ∷ (116
                                ∷ (32
                                    ∷ (115
                                        ∷ (112
                                            ∷ (101
                                                ∷ (110
                                                    ∷ (100
                                                        ∷ (32
                                                            ∷ (115
                                                            ∷ (111
                                                            ∷ (109
                                                            ∷ (101
                                                            ∷ (32
                                                            ∷ (83
                                                            ∷ (116
                                                            ∷ (101
                                                            ∷ (97
                                                            ∷ (109
                                                            ∷ (32
                                                            ∷ (87
                                                            ∷ (97
                                                            ∷ (108
                                                            ∷ (108
                                                            ∷ (101
                                                            ∷ (116
                                                            ∷ (32
                                                            ∷ (102
                                                            ∷ (117
                                                            ∷ (110
                                                            ∷ (100
                                                            ∷ (115
                                                            ∷ ([]))))))))))))))))))))))))))))))))))))))

-- "You cannot sell any items until your previous action completes"
abbrev pub previous_message : Text
previous_message =
    89
    ∷ (111
        ∷ (117
            ∷ (32
                ∷ (99
                    ∷ (97
                        ∷ (110
                            ∷ (110
                                ∷ (111
                                    ∷ (116
                                        ∷ (32
                                            ∷ (115
                                                ∷ (101
                                                    ∷ (108
                                                        ∷ (108
                                                            ∷ (32
                                                            ∷ (97
                                                            ∷ (110
                                                            ∷ (121
                                                            ∷ (32
                                                            ∷ (105
                                                            ∷ (116
                                                            ∷ (101
                                                            ∷ (109
                                                            ∷ (115
                                                            ∷ (32
                                                            ∷ (117
                                                            ∷ (110
                                                            ∷ (116
                                                            ∷ (105
                                                            ∷ (108
                                                            ∷ (32
                                                            ∷ (121
                                                            ∷ (111
                                                            ∷ (117
                                                            ∷ (114
                                                            ∷ (32
                                                            ∷ (112
                                                            ∷ (114
                                                            ∷ (101
                                                            ∷ (118
                                                            ∷ (105
                                                            ∷ (111
                                                            ∷ (117
                                                            ∷ (115
                                                            ∷ (32
                                                            ∷ (97
                                                            ∷ (99
                                                            ∷ (116
                                                            ∷ (105
                                                            ∷ (111
                                                            ∷ (110
                                                            ∷ (32
                                                            ∷ (99
                                                            ∷ (111
                                                            ∷ (109
                                                            ∷ (112
                                                            ∷ (108
                                                            ∷ (101 ∷ (116 ∷ (101 ∷ (115 ∷ ([])))))))
                                                            ))))))))))))))))))))))))))))))))))))))))
                                                            )))))))))))))))

-- The first message that is contained decides.
unfoldable pub sell_problem : Text → SellProblem
sell_problem message =
    if contains message item_server_message
    then item_server_down
    else if contains message pending_message
    then pending_confirmation
    else if contains message inventory_message
    then item_not_in_inventory
    else if contains message listing_message
    then listing_problem
    else if contains message wallet_message
    then wallet_too_much_money
    else if contains message previous_message
    then previous_action_pending
    else other_problem message

abbrev sold : MarketSellResult → Result MarketError MarketSellResult
sold out = if out.success then ok out else err (sell_failed out (sell_problem out.message))

-- The listings whose key was not seen before, in order.
unfoldable pub seen_before : Text → List Text → Bool
seen_before id [] = false
seen_before id (s ∷ ss) = let rest = seen_before id ss in if text_eq s id then true else rest

unfoldable pub first_seen {ℓ} : {A : Type ℓ} → (A → Text) → List Text → List A → List A
first_seen key seen [] = []
first_seen key seen (a ∷ rest) = elim (seen_before (key a) seen) [
  | true ↦ first_seen key seen rest
  | false ↦ a ∷ first_seen key (key a ∷ seen) rest
]

-- The first group of each match that has one.
unfoldable pub captured_ids : List (List Text) → List Text
captured_ids [] = []
captured_ids (m ∷ ms) = elim (get_elem? m 1) [
  | none ↦ captured_ids ms
  | some id ↦ id ∷ captured_ids ms
]

-- The first two groups of each match that has them.
unfoldable pub captured_pairs : List (List Text) → List PendingListing
captured_pairs [] = []
captured_pairs (m ∷ ms) = elim (get_elem? m 1) [
  | none ↦ captured_pairs ms
  | some id ↦ elim (get_elem? m 2) [
    | none ↦ captured_pairs ms
    | some asset ↦ record { listing_id = id; asset_id = asset } ∷ captured_pairs ms
  ]
]

module _ (w : Web) where
  unfoldable pub get_market_price_overview : ℤ → ℤ → Text → Result MarketError MarketPriceOverview
  get_market_price_overview app_id currency market_hash_name = do
    body ← body_of (w.fetch (price_overview app_id currency market_hash_name))
    or_error (w.decode_overview body) decode

  -- `session` is the session's ID, `none` where the session cannot be made. The arguments are app,
  -- amount, context, asset and price.
  unfoldable pub sell_market_item :
      Option Text → ℤ → ℤ → ℕ → ℕ → ℤ → Result MarketError MarketSellResult
  sell_market_item session app_id amount context_id asset_id price_cents = do
    session_id ← or_error session not_initialised
    body ← body_of (w.fetch (sell_item app_id amount context_id asset_id price_cents session_id))
    out ← or_error (w.decode_sell_result body) decode
    sold out

  unfoldable pub cancel_market_listing : Option Text → Text → Result MarketError (Unit {0})
  cancel_market_listing session listing_id = do
    session_id ← or_error session not_initialised
    a ← or_error (w.fetch (remove_listing listing_id session_id)) request_failed
    if a.status == 200 then ok tt else err (http_status a.status)

  module _ (e : Expressions) where
    unfoldable pub get_my_market_listing_ids : Result MarketError (List Text)
    get_my_market_listing_ids = do
      body ← body_of (w.fetch market_home)
      ok (first_seen (λ id. id) [] (captured_ids (e.listing_id body)))

    unfoldable pub get_my_pending_market_listings : Result MarketError (List PendingListing)
    get_my_pending_market_listings = do
      body ← body_of (w.fetch market_home)
      ok (
          first_seen (λ (l : PendingListing). l.listing_id) []
            (captured_pairs (e.pending_listing body)))

    abbrev pub page_of : ℕ → MarketListingsResponse → Result MarketError MarketListingsPage
    page_of start r =
        if r.success
        then ok (record {
          listings = map (enriched r.assets) (parse_market_listings e r.results_html);
          start = start;
          page_size = r.page_size;
          total = r.total_count;
        })
        else err not_success

    unfoldable pub get_market_listings : ℤ → ℤ → Result MarketError MarketListingsPage
    get_market_listings start count = do
      body ← body_of (w.fetch (my_listings (clamp_start start) (clamp_count count)))
      r ← or_error (w.decode_listings body) decode
      page_of (clamp_start start) r
