-- ===== src/SteamApi/AssetClasses/Asked.antt =====
-- What is asked for: every key once, in order, at most a hundred in a request.
use steamstacks.Prelude.{
  ℕ, zero, suc, ◌≤◌, ◌≡◌, refl, ap, ◌∙◌, Bool, true, false, List, [], ◌∷◌, ◌++◌, append-nil,
  append_assoc, Option, none, some, Result, ok, err, panic, stuck, Returns, ◌==◌, if◌then◌else◌,
  arith, length, take, drop, take-append-drop, length-take, length-drop, All,
}
use steamstacks.Prelude.Ints.{ℤ}
use steamstacks.SteamCommunity.Texts.{Text, text_eq}
use steamstacks.SteamApi.Json.{TextMap, one_text}
use steamstacks.SteamApi.Descriptions.{AssetDescription}
use steamstacks.SteamApi.AssetClasses.Numbered.{Requests, class_request-Describes}
use steamstacks.SteamApi.AssetClasses.{
  AssetClassKey, AssetDescription, class_request, EconAnswer, Api, ApiError, Done, bad_eresult,
  http_status, decode_failed, no_credentials, key_instances, check_econ_response, put_entries,
  answered, get_asset_class_info_chunk, and_then, chunk_loop, get_asset_class_info,
}

-- A call that succeeds has left no key out, and every call ends.
abbrev pub Complete : {A : Type 0} → Result ApiError A → List AssetClassKey → Type 0
Complete (ok a) rest = rest ≡ []
Complete (err e) rest = Unit
Complete panic rest = ⊥
Complete stuck rest = ⊥

abbrev pub joined : List (List AssetClassKey) → List AssetClassKey
joined [] = []
joined (part ∷ parts) = part ++ joined parts

pub record Sized (part : List AssetClassKey) : Type 0 where
  pub some_key : 1 ≤ length part
  pub hundred : length part ≤ 100

check_econ_response-Returns : (a : EconAnswer) → Returns (check_econ_response a)
unfolding check_econ_response
check_econ_response-Returns a = by_status (a.status == 200) a.eresult
  where
    accepted : (b : Bool) (e : Text) → Returns (if b then ok a.body else err (bad_eresult e))
    accepted true e = tt
    accepted false e = tt

    by_status :
        (b : Bool) (e : Text)
        → Returns {A = Text} (
            if b
            then elim e [
              | [] ↦ ok a.body
              | r ∷ s ↦ if text_eq (r ∷ s) one_text then ok a.body else err (bad_eresult (r ∷ s))
            ]
            else err (http_status a.status))
    by_status false e = tt
    by_status true [] = tt
    by_status true (r ∷ s) = accepted (text_eq (r ∷ s) one_text) (r ∷ s)

module _ (api : Api) (app_id : ℤ) where
  answered-Returns :
      (keys : List AssetClassKey) (o : Option EconAnswer) (out : TextMap AssetDescription)
      → Returns (answered api app_id keys o out)
  unfolding answered
  answered-Returns keys none out = tt
  answered-Returns keys (some a) out =
      by_check (check_econ_response a) (check_econ_response-Returns a)
    where
      by_entries :
          (o : Option (TextMap Text))
          → Returns {A = TextMap AssetDescription} (elim o [
            | none ↦ err decode_failed
            | some entries ↦ ok (put_entries api app_id (key_instances keys []) entries out)
          ])
      by_entries none = tt
      by_entries (some entries) = tt

      by_check :
          (r : Result ApiError Text)
          → Returns r
          → Returns {A = TextMap AssetDescription} (elim r [
            | ok body ↦ elim (api.decode body) [
              | none ↦ err decode_failed
              | some entries ↦ ok (put_entries api app_id (key_instances keys []) entries out)
            ]
            | err e ↦ err e
            | panic ↦ panic
            | stuck ↦ stuck
          ])
      by_check (ok body) h = by_entries (api.decode body)
      by_check (err e) h = tt
      by_check panic h = absurd h
      by_check stuck h = absurd h

  -- The requests are for these parts of the keys, in order, and `rest` was not asked for.
  pub record Asked (keys : List AssetClassKey) (d : Done (TextMap AssetDescription)) : Type 0 where
    pub parts : List (List AssetClassKey)
    pub rest : List AssetClassKey
    pub requests : Requests app_id parts d.sent
    pub in_order : joined parts ++ rest ≡ keys
    pub sized : All Sized parts
    pub complete : Complete d.outcome rest

  chunk-Asked :
      (chunk left : List AssetClassKey) (out : TextMap AssetDescription)
      (next : TextMap AssetDescription → Done (TextMap AssetDescription))
      → Sized chunk
      → ((out2 : TextMap AssetDescription) → Asked left (next out2))
      → Asked
          (chunk ++ left)
          (and_then api app_id (get_asset_class_info_chunk api app_id chunk out) next)
  unfolding get_asset_class_info_chunk
  chunk-Asked chunk left out next h f = by_credentials api.authenticated
    where
      by_outcome :
          (r : Result ApiError (TextMap AssetDescription))
          → Returns r
          → Asked (chunk ++ left) (
              and_then api app_id
                (record { outcome = r; sent = class_request app_id chunk ∷ [] })
                next)
      by_outcome (ok out2) k =
          let later = f out2 in
          record {
            parts = chunk ∷ later.parts;
            rest = later.rest;
            requests = (class_request-Describes app_id chunk, later.requests);
            in_order =
                append_assoc chunk (joined later.parts) later.rest
                ∙ ap (λ l. chunk ++ l) later.in_order;
            sized = (h, later.sized);
            complete = later.complete;
          }
      by_outcome (err e) k = record {
        parts = chunk ∷ [];
        rest = left;
        requests = (class_request-Describes app_id chunk, tt);
        in_order = ap (λ l. l ++ left) (append-nil chunk);
        sized = (h, tt);
        complete = tt;
      }
      by_outcome panic k = absurd k
      by_outcome stuck k = absurd k

      by_credentials :
          (b : Bool)
          → Asked (chunk ++ left) (
              and_then api app_id
                (if b
                  then record {
                    outcome =
                        answered api app_id chunk (api.fetch (class_request app_id chunk)) out;
                    sent = class_request app_id chunk ∷ [];
                  }
                  else record { outcome = err no_credentials; sent = [] })
                next)
      by_credentials true =
          by_outcome _ (answered-Returns chunk (api.fetch (class_request app_id chunk)) out)
      by_credentials false = record {
        parts = [];
        rest = chunk ++ left;
        requests = tt;
        in_order = refl;
        sized = tt;
        complete = tt;
      }

  chunk_loop-Asked :
      (fuel : ℕ) (keys : List AssetClassKey) (out : TextMap AssetDescription)
      → length keys ≤ fuel
      → Asked keys (chunk_loop api app_id fuel keys out)
  unfolding chunk_loop
  chunk_loop-Asked zero [] out h = record {
    parts = [];
    rest = [];
    requests = tt;
    in_order = refl;
    sized = tt;
    complete = refl;
  }
  chunk_loop-Asked zero (k ∷ ks) out h = absurd (omega arith)
  chunk_loop-Asked (suc fuel) [] out h = record {
    parts = [];
    rest = [];
    requests = tt;
    in_order = refl;
    sized = tt;
    complete = refl;
  }
  chunk_loop-Asked (suc fuel) (k ∷ ks) out h = rw (take-append-drop 100 (k ∷ ks)) at (
      chunk-Asked (take 100 (k ∷ ks)) (drop 100 (k ∷ ks)) out _
        (record { some_key = omega arith; hundred = omega (arith, length-take 99 ks) })
        (λ out2. chunk_loop-Asked fuel (drop 100 (k ∷ ks)) out2 (omega (arith, length-drop 99 ks))))

  -- `GetAssetClassInfo` always ends. Its requests are for consecutive parts of the keys, from the
  -- first key on and in order, each of one key at least and of a hundred at most, with the number of
  -- its keys and its keys numbered from 0; where it succeeds, the parts are all of the keys.
  pub get_asset_class_info-Asked :
      (keys : List AssetClassKey) → Asked keys (get_asset_class_info api app_id keys)
  unfolding get_asset_class_info
  get_asset_class_info-Asked keys = chunk_loop-Asked (length keys) keys [] (omega arith)
