-- ===== src/SteamCommunity/Market/Pages.antt =====
-- `GetMarketListings`: what is asked for, and which listings the page has.
use steamstacks.Prelude.{
  ℕ, ◌≤◌, ◌≡◌, refl, ap, ◌∙◌, Bool, true, false, List, [], ◌∷◌, map, Option, none, some, ok, err,
  if◌then◌else◌, arith,
}
use steamstacks.Prelude.Ints.{ℤ, pos, negsuc}
use steamstacks.Prelude.Decimal.{format_uint}
use steamstacks.SteamCommunity.Texts.{Text}
use steamstacks.SteamCommunity.Market.{
  MarketListing, MarketListingAsset, AssetInfo, Object, Expressions, part, row_chunks, listings_of,
  parse_market_listings, lookup_asset, with_info, enriched,
}
use steamstacks.SteamCommunity.Market.Endpoints.{
  MarketListingsResponse, MarketListingsPage, not_success, Web, my_listings, body_of, page_of,
  clamp_count, clamp_start, get_market_listings,
}

clamp_count-bounds : (n : ℤ) → (1 ≤ clamp_count n) × (clamp_count n ≤ 100)
unfolding clamp_count
clamp_count-bounds (pos n) = ground arith
clamp_count-bounds (negsuc n) = (omega arith, omega arith)

-- The ID in a row.
abbrev pub row_id : Text → ℕ × ℕ × ℕ → Text
row_id html m = part html m.1 m.2

enriched-id :
    (assets : Object (Object (Object AssetInfo))) (l : MarketListing)
    → (enriched assets l).id ≡ l.id
unfolding enriched
enriched-id assets l = by_asset l.asset
  where
    by_info : (a : MarketListingAsset) (i : Option AssetInfo) → (with_info l a i).id ≡ l.id
    by_info a none = refl
    by_info a (some info) = refl

    by_asset :
        (o : Option MarketListingAsset)
        → (elim o as (λ _. MarketListing) [
          | none ↦ l
          | some a ↦
              with_info l a (lookup_asset assets (format_uint a.app_id) a.context_id a.asset_id)
        ]).id
          ≡ l.id
    by_asset none = refl
    by_asset (some a) =
        by_info a (lookup_asset assets (format_uint a.app_id) a.context_id a.asset_id)

module _ (e : Expressions) where
  listings_of-ids :
      (html : Text) (ms : List (ℕ × ℕ × ℕ))
      → map (λ (l : MarketListing). l.id) (listings_of e html ms (row_chunks e html ms))
        ≡ map (row_id html) ms
  unfolding row_chunks
  listings_of-ids html [] = refl
  listings_of-ids html (m ∷ []) = refl
  listings_of-ids html (m ∷ (n ∷ ms)) =
      ap (λ ids. part html m.1 m.2 ∷ ids) (listings_of-ids html (n ∷ ms))

map-enriched :
    (assets : Object (Object (Object AssetInfo))) (ls : List MarketListing)
    → map (λ (l : MarketListing). l.id) (map (enriched assets) ls)
      ≡ map (λ (l : MarketListing). l.id) ls
map-enriched assets [] = refl
map-enriched assets (l ∷ ls) = rw (enriched-id assets l, map-enriched assets ls) refl

page_shown :
    (w : Web) (e : Expressions) (start : ℕ) (r : MarketListingsResponse)
    → r.success ≡ true
    → page_of w e start r
      ≡ ok (record {
        listings = map (enriched r.assets) (parse_market_listings e r.results_html);
        start = start;
        page_size = r.page_size;
        total = r.total_count;
      })
page_shown w e start r h = go r.success h _
  where
    go :
        (b : Bool)
        → b ≡ true
        → (p : MarketListingsPage) → (if b then ok p else err not_success) ≡ ok p
    go true q p = refl
    go false q p = cc

-- Whatever `start` and `count` are, negative or large, `GetMarketListings` asks for at least one
-- and at most 100 listings; and if this request is answered with status 200 and a response that can
-- be decoded and says success, it returns a page with one listing for each row of the HTML, in
-- their order and with their IDs, however much of a row is missing.
pub get_market_listings-rows :
    (w : Web) (e : Expressions) (start count : ℤ) (body : Text) (r : MarketListingsResponse)
    → body_of (w.fetch (my_listings (clamp_start start) (clamp_count count))) ≡ ok body
    → w.decode_listings body ≡ some r
    → r.success ≡ true
    → (1 ≤ clamp_count count)
      × (clamp_count count ≤ 100)
      × ((page : MarketListingsPage) × (get_market_listings w e start count ≡ ok page)
          × (page.start ≡ clamp_start start)
          × (page.total ≡ r.total_count)
          × (map (λ (l : MarketListing). l.id) page.listings
              ≡ map (row_id r.results_html) (e.row_split r.results_html)))
unfolding get_market_listings parse_market_listings
get_market_listings-rows w e start count body r read decoded succeeded =
    let (low, high) = clamp_count-bounds count in
    let rows = e.row_split r.results_html in
    let ls = listings_of e r.results_html rows (row_chunks e r.results_html rows) in
    (
      low,
      high,
      (
        record {
          listings = map (enriched r.assets) ls;
          start = clamp_start start;
          page_size = r.page_size;
          total = r.total_count;
        },
        rw (read, decoded) (page_shown w e (clamp_start start) r succeeded),
        refl,
        refl,
        map-enriched r.assets ls ∙ listings_of-ids e r.results_html rows,
      ),
    )
