-- ===== src/SteamApi/AssetClasses.antt =====
-- steamapi/assetclassinfo.go: `GetAssetClassInfo`, which asks for a hundred classes at a time.
pub mod Numbered
pub mod Asked
use steamstacks.Prelude.{
  ℕ, zero, suc, ◌+◌, ◌&&◌, Bool, true, false, not, List, [], ◌∷◌, ◌++◌, Option, none, some, Result,
  ok, err, panic, stuck, ◌==◌, if◌then◌else◌, length, take, drop,
}
use steamstacks.Prelude.Ints.{ℤ, pos, negsuc}
use steamstacks.Prelude.Decimal.{format_uint}
use steamstacks.SteamCommunity.Texts.{Text, text_eq}
use steamstacks.SteamApi.Descriptions.{
  Tag, DescriptionLine, Action, AssetDescription, asset_description_key,
}
use steamstacks.SteamApi.Json.{TextMap, get, put, one_text, flag_to_bool, Shapes, decode_indexed}

pub record AssetClassKey : Type 0 where
  pub class_id : Text
  pub instance_id : Text

-- `assetClassInfoWire`; what is raw JSON there is its text, empty where it is missing.
pub record AssetClassInfoWire : Type 0 where
  pub class_id : Text
  pub instance_id : Text
  pub name : Text
  pub market_hash_name : Text
  pub type_name : Text
  pub icon_url : Text
  pub icon_url_large : Text
  pub tradable : Text
  pub marketable : Text
  pub commodity : Text
  pub tags : Text
  pub descriptions : Text
  pub actions : Text
  pub fraud_warnings : Text

-- One `classid` parameter by its number, with the `instanceid` beside it if there is one.
pub record ClassParam : Type 0 where
  pub number : ℕ
  pub class_id : Text
  pub instance_id : Option Text

-- The language is always "en".
pub record ClassRequest : Type 0 where
  pub app_id : ℤ
  pub class_count : ℕ
  pub classes : List ClassParam

-- The status and the header X-Eresult, empty if it is missing.
pub record EconAnswer : Type 0 where
  pub status : ℕ
  pub eresult : Text
  pub body : Text

-- HTTP and JSON: `none` is an error. The entries of a result come in the order in which `range`
-- takes them; `authenticated` says whether there is a key or a token.
pub record Api : Type 0 where
  pub authenticated : Bool
  pub fetch : ClassRequest → Option EconAnswer
  pub decode : Text → Option (TextMap Text)
  pub unmarshal : Text → Option AssetClassInfoWire
  pub tags : Shapes Tag
  pub descriptions : Shapes DescriptionLine
  pub actions : Shapes Action
  pub texts : Shapes Text

pub data ApiError : Type 0 where
  no_credentials : ApiError
  request_failed : ApiError
  http_status : ℕ → ApiError
  bad_eresult : Text → ApiError
  decode_failed : ApiError

unfoldable pub check_econ_response : EconAnswer → Result ApiError Text
check_econ_response a =
    let by_eresult : Result ApiError Text = elim a.eresult [
      | [] ↦ ok a.body
      | r ∷ s ↦ if text_eq (r ∷ s) one_text then ok a.body else err (bad_eresult (r ∷ s))
    ] in
    if a.status == 200 then by_eresult else err (http_status a.status)

abbrev pub instance_param : Text → Option Text
instance_param [] = none
instance_param (r ∷ s) = some (r ∷ s)

-- The parameters of the keys, numbered from n.
unfoldable pub params_from : ℕ → List AssetClassKey → List ClassParam
params_from n [] = []
params_from n (k ∷ ks) =
    record { number = n; class_id = k.class_id; instance_id = instance_param k.instance_id }
    ∷ params_from (suc n) ks

abbrev pub class_request : ℤ → List AssetClassKey → ClassRequest
class_request app_id keys = record {
  app_id = app_id;
  class_count = length keys;
  classes = params_from 0 keys;
}

-- `keyHasInstance`, from what it already holds.
unfoldable pub key_instances : List AssetClassKey → TextMap Text → TextMap Text
key_instances [] m = m
key_instances (k ∷ ks) m = elim k.instance_id [
  | [] ↦ key_instances ks (put k.class_id [] m)
  | r ∷ s ↦ key_instances ks (put (k.class_id ++ (95 ∷ (r ∷ s))) (r ∷ s) (put k.class_id (r ∷ s) m))
]

-- `strings.Cut` at the first underscore; all of the text stands before a missing one.
unfoldable pub cut_underscore : Text → Text × Text
cut_underscore [] = ([], [])
cut_underscore (r ∷ s) =
    let rest = cut_underscore s in if r == 95 then ([], s) else (r ∷ rest.0, rest.1)

abbrev from_key : Text → AssetClassInfoWire → AssetClassInfoWire
from_key k info = elim info.class_id [
  | [] ↦ record info { class_id = (cut_underscore k).0; instance_id = (cut_underscore k).1 }
  | r ∷ s ↦ info
]

abbrev with_known : Option Text → AssetClassInfoWire → AssetClassInfoWire
with_known none info = info
with_known (some i) info = record info { instance_id = i }

abbrev from_instances : TextMap Text → Text → AssetClassInfoWire → AssetClassInfoWire
from_instances instances k info = elim info.instance_id [
  | [] ↦ with_known (get k instances) info
  | r ∷ s ↦ info
]

-- "success" and "error"
abbrev success_text : Text
success_text = 115 ∷ (117 ∷ (99 ∷ (99 ∷ (101 ∷ (115 ∷ (115 ∷ []))))))

abbrev error_text : Text
error_text = 101 ∷ (114 ∷ (114 ∷ (111 ∷ (114 ∷ []))))

-- How a call ends, and the requests that it has sent, in order.
pub record Done (A : Type 0) : Type 0 where
  pub outcome : Result ApiError A
  pub sent : List ClassRequest

module _ (api : Api) (app_id : ℤ) where
  unfoldable pub to_asset_description : AssetClassInfoWire → AssetDescription
  to_asset_description w = record {
    app_id = app_id;
    class_id = w.class_id;
    instance_id = w.instance_id;
    name = w.name;
    market_hash_name = w.market_hash_name;
    type_name = w.type_name;
    tradable = flag_to_bool w.tradable;
    marketable = flag_to_bool w.marketable;
    commodity = flag_to_bool w.commodity;
    icon_url = w.icon_url;
    icon_url_large = w.icon_url_large;
    descriptions = decode_indexed api.descriptions w.descriptions;
    tags = decode_indexed api.tags w.tags;
    actions = decode_indexed api.actions w.actions;
    fraud_warnings = decode_indexed api.texts w.fraud_warnings;
  }

  -- The entry of one class; one that has no class is left out.
  unfoldable pub put_described :
      AssetClassInfoWire → TextMap AssetDescription → TextMap AssetDescription
  put_described info out = elim info.class_id [
    | [] ↦ out
    | r ∷ s ↦
        put (asset_description_key app_id info.class_id info.instance_id)
          (to_asset_description info) out
  ]

  unfoldable pub put_entry :
      TextMap Text → Text → Text → TextMap AssetDescription → TextMap AssetDescription
  put_entry instances k raw out =
      let decoded : TextMap AssetDescription = elim (api.unmarshal raw) [
        | none ↦ out
        | some info ↦ put_described (from_instances instances k (from_key k info)) out
      ] in
      if text_eq k success_text then out else if text_eq k error_text then out else decoded

  unfoldable pub put_entries :
      TextMap Text → TextMap Text → TextMap AssetDescription → TextMap AssetDescription
  put_entries instances [] out = out
  put_entries instances ((k, raw) ∷ entries) out =
      put_entries instances entries (put_entry instances k raw out)

  -- The map `out` behind an answer to the request for these keys.
  unfoldable pub answered :
      List AssetClassKey
      → Option EconAnswer
      → TextMap AssetDescription
      → Result ApiError (TextMap AssetDescription)
  answered keys none out = err request_failed
  answered keys (some a) out = elim (check_econ_response a) [
    | ok body ↦ elim (api.decode body) [
      | none ↦ err decode_failed
      | some entries ↦ ok (put_entries (key_instances keys []) entries out)
    ]
    | err e ↦ err e
    | panic ↦ panic
    | stuck ↦ stuck
  ]

  unfoldable pub get_asset_class_info_chunk :
      List AssetClassKey → TextMap AssetDescription → Done (TextMap AssetDescription)
  get_asset_class_info_chunk keys out =
      if api.authenticated
      then record {
        outcome = answered keys (api.fetch (class_request app_id keys)) out;
        sent = class_request app_id keys ∷ [];
      }
      else record { outcome = err no_credentials; sent = [] }

  -- The rest of the calls, behind one that has ended so.
  abbrev pub and_then :
      Done (TextMap AssetDescription)
      → (TextMap AssetDescription → Done (TextMap AssetDescription))
      → Done (TextMap AssetDescription)
  and_then d next = elim d.outcome [
    | ok out ↦ record { outcome = (next out).outcome; sent = d.sent ++ (next out).sent }
    | err e ↦ record { outcome = err e; sent = d.sent }
    | panic ↦ record { outcome = panic; sent = d.sent }
    | stuck ↦ record { outcome = stuck; sent = d.sent }
  ]

  -- The loop over the keys that are left.
  unfoldable pub chunk_loop :
      ℕ → List AssetClassKey → TextMap AssetDescription → Done (TextMap AssetDescription)
  chunk_loop zero [] out = record { outcome = ok out; sent = [] }
  chunk_loop zero (k ∷ ks) out = record { outcome = stuck; sent = [] }
  chunk_loop (suc fuel) [] out = record { outcome = ok out; sent = [] }
  chunk_loop (suc fuel) (k ∷ ks) out =
      and_then (get_asset_class_info_chunk (take 100 (k ∷ ks)) out)
        (λ out2. chunk_loop fuel (drop 100 (k ∷ ks)) out2)

  -- Every round takes a key at least.
  unfoldable pub get_asset_class_info : List AssetClassKey → Done (TextMap AssetDescription)
  get_asset_class_info keys = chunk_loop (length keys) keys []
