-- ===== src/Tests/Markets.antt =====
-- Pages of the market at concrete inputs.
use steamstacks.Prelude.{◌≤◌, ◌≡◌, refl, true, List, [], ◌∷◌, map, none, some, ok, arith}
use steamstacks.Prelude.Ints.{pos, negsuc}
use steamstacks.SteamCommunity.Texts.{Text, from_index, has_prefix, is_space, blank}
use steamstacks.SteamCommunity.Market.{
  MarketListing, Expressions, first_inner_text, normalize_whitespace,
}
use steamstacks.SteamCommunity.Market.Endpoints.{
  PendingListing, MarketListingsResponse, MarketListingsPage, Web, market_home, body_of,
  clamp_count, clamp_start, captured_ids, captured_pairs, get_my_market_listing_ids,
  get_my_pending_market_listings, get_market_listings,
}
use steamstacks.SteamCommunity.Market.Distinct.{DistinctOf, scraped-Distinct}
use steamstacks.SteamCommunity.Market.Shown.{
  Skipped, nothing, space, tag, at_end, first_inner_text-shown,
}
use steamstacks.SteamCommunity.Market.Pages.{row_id, get_market_listings-rows}

-- Three listings, the first of them twice; two rows.
abbrev found : Expressions
found = record {
  row_split = λ s. (0, 0, 1) ∷ ((2, 2, 3) ∷ []);
  remove_market_listing = λ s. none;
  listing_id =
      λ s. (s ∷ ((55 ∷ []) ∷ [])) ∷ ((s ∷ ((56 ∷ []) ∷ [])) ∷ ((s ∷ ((55 ∷ []) ∷ [])) ∷ []));
  pending_listing = λ s. (s ∷ ((55 ∷ []) ∷ ((49 ∷ []) ∷ []))) ∷ [];
}

abbrev response : MarketListingsResponse
response = record {
  success = true;
  page_size = pos 10;
  total_count = pos 2;
  results_html = 55 ∷ (60 ∷ (56 ∷ (62 ∷ [])));
  assets = [];
}

abbrev site : Web
site = record {
  fetch = λ r. some (record { status = 200; body = some (60 ∷ []) });
  decode_overview = λ b. none;
  decode_sell_result = λ b. none;
  decode_listings = λ b. some response;
}

site_read : body_of (site.fetch market_home) ≡ ok (60 ∷ [])
unfolding body_of
site_read = refl

scraped-Distinct_example :
    ((ids : List Text) × (get_my_market_listing_ids site found ≡ ok ids)
      × DistinctOf (λ id. id) (captured_ids (found.listing_id (60 ∷ []))) ids)
    × ((ls : List PendingListing) × (get_my_pending_market_listings site found ≡ ok ls)
        × DistinctOf
            (λ (l : PendingListing). l.listing_id)
            (captured_pairs (found.pending_listing (60 ∷ [])))
            ls)
scraped-Distinct_example = scraped-Distinct site found (60 ∷ []) site_read

-- `a>` is the tag of the marker `a`; then a space, a tag, and a text at the end of the page.
abbrev marked : Text
marked = 97 ∷ (62 ∷ (32 ∷ (60 ∷ (98 ∷ (62 ∷ (104 ∷ (105 ∷ [])))))))

marked_found : from_index marked (97 ∷ []) ≡ some marked
unfolding from_index has_prefix
marked_found = refl

marked-Skipped : Skipped (32 ∷ (60 ∷ (98 ∷ (62 ∷ []))))
unfolding is_space
marked-Skipped =
    space 32 (60 ∷ (98 ∷ (62 ∷ []))) refl (omega arith) (tag (98 ∷ []) [] (omega arith, tt) nothing)

first_inner_text-shown_example :
    first_inner_text marked (97 ∷ []) ≡ normalize_whitespace (104 ∷ (105 ∷ []))
unfolding blank is_space
first_inner_text-shown_example =
    first_inner_text-shown marked (97 ∷ []) (97 ∷ []) (32 ∷ (60 ∷ (98 ∷ (62 ∷ []))))
      (104 ∷ (105 ∷ [])) [] marked_found (omega arith, tt) marked-Skipped
      (omega arith, (omega arith, tt)) refl at_end

get_market_listings-rows_example :
    (1 ≤ clamp_count (pos 500))
    × (clamp_count (pos 500) ≤ 100)
    × ((page : MarketListingsPage) × (get_market_listings site found (negsuc 3) (pos 500) ≡ ok page)
        × (page.start ≡ clamp_start (negsuc 3))
        × (page.total ≡ response.total_count)
        × (map (λ (l : MarketListing). l.id) page.listings
            ≡ map (row_id response.results_html) (found.row_split response.results_html)))
unfolding body_of
get_market_listings-rows_example =
    get_market_listings-rows site found (negsuc 3) (pos 500) (60 ∷ []) response refl refl refl
