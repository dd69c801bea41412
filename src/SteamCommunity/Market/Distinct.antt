-- ===== src/SteamCommunity/Market/Distinct.antt =====
-- The listings that are scraped from a page, without repetitions.
use steamstacks.Prelude.{
  ◌≡◌, refl, sym, ◌∙◌, Bool, true, false, List, [], ◌∷◌, map, ok, if◌then◌else◌,
}
use steamstacks.SteamCommunity.Texts.{Text, text_eq}
use steamstacks.SteamCommunity.Texts.Equal.{text_eq_refl, text_eq-eq}
use steamstacks.SteamCommunity.Market.{Expressions}
use steamstacks.SteamCommunity.Market.Endpoints.{
  PendingListing, Web, market_home, body_of, seen_before, first_seen, captured_ids, captured_pairs,
  get_my_market_listing_ids, get_my_pending_market_listings,
}

-- What is left over of a list when some of its members are taken out.
pub data Sublist {ℓ} {A : Type ℓ} : List A → List A → Type ℓ where
  done : Sublist [] []
  kept : {x : A} {xs ys : List A} → Sublist xs ys → Sublist (x ∷ xs) (x ∷ ys)
  left_out : {x : A} {xs ys : List A} → Sublist xs ys → Sublist xs (x ∷ ys)

seen_cons :
    (id s : Text) (ss : List Text)
    → seen_before id (s ∷ ss) ≡ (if text_eq s id then true else seen_before id ss)
unfolding seen_before
seen_cons id s ss = refl

seen_cons_other :
    (id s : Text) (ss : List Text)
    → text_eq s id ≡ false
    → seen_before id (s ∷ ss) ≡ seen_before id ss
seen_cons_other id s ss e = seen_cons id s ss ∙ rw e refl

seen_cons_same :
    (id s : Text) (ss : List Text) → text_eq s id ≡ true → seen_before id (s ∷ ss) ≡ true
seen_cons_same id s ss e = seen_cons id s ss ∙ rw e refl

unseen : (k : Text) → seen_before k [] ≡ false
unfolding seen_before
unseen k = refl

module _ {ℓ} {A : Type ℓ} (key : A → Text) where
  -- No two members have the same key.
  abbrev pub NoRepeat : List A → Type 0
  NoRepeat [] = Unit {0}
  NoRepeat (a ∷ rest) = (seen_before (key a) (map key rest) ≡ false) × NoRepeat rest

  pub first_seen-Sublist : (seen : List Text) (xs : List A) → Sublist (first_seen key seen xs) xs
  unfolding first_seen
  first_seen-Sublist seen [] = done
  first_seen-Sublist seen (a ∷ rest) =
      by_seen (seen_before (key a) seen) (first_seen-Sublist seen rest)
        (first_seen-Sublist (key a ∷ seen) rest)
    where
      by_seen :
          (b : Bool)
          → Sublist (first_seen key seen rest) rest
          → Sublist (first_seen key (key a ∷ seen) rest) rest
          → Sublist
              (elim b as (λ _. List A) [
                | true ↦ first_seen key seen rest
                | false ↦ a ∷ first_seen key (key a ∷ seen) rest
              ])
              (a ∷ rest)
      by_seen true h k = left_out h
      by_seen false h k = kept k

  abbrev keys : List Text → List A → List Text
  keys seen xs = map key (first_seen key seen xs)

  -- Keys that were seen do not come again, and the others are those of the list.
  seen_absent :
      (k : Text) (seen : List Text) (xs : List A)
      → seen_before k seen ≡ true
      → seen_before k (keys seen xs) ≡ false
  unfolding first_seen
  seen_absent k seen [] h = unseen k
  seen_absent k seen (a ∷ rest) h =
      by_seen (seen_before (key a) seen) refl (text_eq (key a) k) refl (seen_absent k seen rest h)
        (seen_absent k (key a ∷ seen) rest)
    where
      by_seen :
          (b : Bool)
          → seen_before (key a) seen ≡ b
          → (v : Bool) → text_eq (key a) k ≡ v
          → seen_before k (keys seen rest) ≡ false
          → (seen_before k (key a ∷ seen) ≡ true → seen_before k (keys (key a ∷ seen) rest) ≡ false)
          → seen_before k (
              map key (elim b as (λ _. List A) [
                | true ↦ first_seen key seen rest
                | false ↦ a ∷ first_seen key (key a ∷ seen) rest
              ]))
            ≡ false
      by_seen true e v q ih ih' = ih
      by_seen false e true q ih ih' =
          let same : key a ≡ k = text_eq-eq (key a) k q in
          let seen_k : seen_before k seen ≡ false = rw (sym same) e in cc
      by_seen false e false q ih ih' =
          seen_cons_other k (key a) (keys (key a ∷ seen) rest) q
          ∙ ih' (seen_cons_other k (key a) seen q ∙ h)

  unseen_kept :
      (k : Text) (seen : List Text) (xs : List A)
      → seen_before k seen ≡ false
      → seen_before k (keys seen xs) ≡ seen_before k (map key xs)
  unfolding first_seen
  unseen_kept k seen [] h = refl
  unseen_kept k seen (a ∷ rest) h =
      by_seen (seen_before (key a) seen) refl (text_eq (key a) k) refl (unseen_kept k seen rest h)
        (unseen_kept k (key a ∷ seen) rest)
    where
      by_seen :
          (b : Bool)
          → seen_before (key a) seen ≡ b
          → (v : Bool) → text_eq (key a) k ≡ v
          → seen_before k (keys seen rest) ≡ seen_before k (map key rest)
          → (seen_before k (key a ∷ seen) ≡ false
              → seen_before k (keys (key a ∷ seen) rest) ≡ seen_before k (map key rest))
          → seen_before k (
              map key (elim b as (λ _. List A) [
                | true ↦ first_seen key seen rest
                | false ↦ a ∷ first_seen key (key a ∷ seen) rest
              ]))
            ≡ seen_before k (key a ∷ map key rest)
      by_seen true e true q ih ih' =
          let same : key a ≡ k = text_eq-eq (key a) k q in
          let seen_k : seen_before k seen ≡ true = rw (sym same) e in cc
      by_seen true e false q ih ih' = ih ∙ sym (seen_cons_other k (key a) (map key rest) q)
      by_seen false e true q ih ih' =
          seen_cons_same k (key a) (keys (key a ∷ seen) rest) q
          ∙ sym (seen_cons_same k (key a) (map key rest) q)
      by_seen false e false q ih ih' =
          seen_cons_other k (key a) (keys (key a ∷ seen) rest) q
          ∙ (ih' (seen_cons_other k (key a) seen q ∙ h)
              ∙ sym (seen_cons_other k (key a) (map key rest) q))

  first_seen-NoRepeat : (seen : List Text) (xs : List A) → NoRepeat (first_seen key seen xs)
  unfolding first_seen
  first_seen-NoRepeat seen [] = tt
  first_seen-NoRepeat seen (a ∷ rest) =
      by_seen (seen_before (key a) seen) (first_seen-NoRepeat seen rest) (
        seen_absent (key a) (key a ∷ seen) rest
            (seen_cons_same (key a) (key a) seen (text_eq_refl (key a))),
        first_seen-NoRepeat (key a ∷ seen) rest,
      )
    where
      by_seen :
          (b : Bool)
          → NoRepeat (first_seen key seen rest)
          → NoRepeat (a ∷ first_seen key (key a ∷ seen) rest)
          → NoRepeat (elim b as (λ _. List A) [
            | true ↦ first_seen key seen rest
            | false ↦ a ∷ first_seen key (key a ∷ seen) rest
          ])
      by_seen true h k = h
      by_seen false h k = k

  -- What is wanted of the listings that are scraped: some of those that were found, in their order,
  -- no two with the same ID, and every ID that was found.
  pub record DistinctOf (found out : List A) : Type ℓ where
    pub in_order : Sublist out found
    pub no_repeat : NoRepeat out
    pub same_ids : (k : Text) → seen_before k (map key out) ≡ seen_before k (map key found)

  first_seen-DistinctOf : (xs : List A) → DistinctOf xs (first_seen key [] xs)
  first_seen-DistinctOf xs = record {
    in_order = first_seen-Sublist [] xs;
    no_repeat = first_seen-NoRepeat [] xs;
    same_ids = λ k. unseen_kept k [] xs (unseen k);
  }

-- On a market page that was read with status 200, `GetMyMarketListingIDs` and
-- `GetMyPendingMarketListings` succeed: each gives the listings that its regular expression finds,
-- in the order of the page, every ID among them once and none left out.
pub scraped-Distinct :
    (w : Web) (e : Expressions) (body : Text)
    → body_of (w.fetch market_home) ≡ ok body
    → ((ids : List Text) × (get_my_market_listing_ids w e ≡ ok ids)
        × DistinctOf (λ id. id) (captured_ids (e.listing_id body)) ids)
      × ((ls : List PendingListing) × (get_my_pending_market_listings w e ≡ ok ls)
          × DistinctOf
              (λ (l : PendingListing). l.listing_id)
              (captured_pairs (e.pending_listing body))
              ls)
unfolding get_my_market_listing_ids get_my_pending_market_listings
scraped-Distinct w e body read = (
  (first_seen (λ id. id) [] _, rw read refl, first_seen-DistinctOf _ _),
  (first_seen (λ (l : PendingListing). l.listing_id) [] _, rw read refl, first_seen-DistinctOf _ _),
)
