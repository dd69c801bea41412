-- ===== src/SteamCommunity/Confirmation.antt =====
-- steamcommunity/confirmation.go: the confirmations of trades and listings that wait for an answer.
pub mod Outcomes
pub mod Answered
use steamstacks.Prelude.{
  suc, ◌-◌, ◌^◌, ℕ, Bool, true, false, List, [], ◌∷◌, ◌++◌, map, Option, none, some, Result, ok,
  err, panic, stuck, ◌==◌, if◌then◌else◌,
}
use steamstacks.Prelude.Ints.{ℤ, pos, negsuc}
use steamstacks.Prelude.Bytes.{Bytes}
use steamstacks.Prelude.Decimal.{format_uint}
use steamstacks.SteamApi.Time.{TimeError, get_steam_time}
use steamstacks.SteamApi.Descriptions.{format_int}
use steamstacks.SteamTotp.{Library, generate_confirmation_key, get_device_id}
use steamstacks.SteamCommunity.Texts.{Text, text_eq}
use steamstacks.SteamCommunity.Http.{Answer}

-- `ConfirmationType` is its number, and the timestamp its seconds.
pub record Confirmation : Type 0 where
  pub id : Text
  pub confirmation_type : ℤ
  pub creator_id : Text
  pub key : Text
  pub title : Text
  pub headline : Text
  pub summary : List Text
  pub timestamp : ℤ
  pub icon : Text

-- The parameters that every request has: device, account, key, time and tag; `m` is always "react".
pub record Params : Type 0 where
  pub device_id : Text
  pub steam_id : Text
  pub key : Text
  pub time : Text
  pub tag : Text

-- The query for the time, `getlist`, and `ajaxop` with an operation and a confirmation's ID and key.
pub data Request : Type 0 where
  query_time : Request
  get_list : Params → Request
  ajax_op : Params → Text → Text → Text → Request

pub record ListResult : Type 0 where
  pub success : Bool
  pub conf : List Confirmation
  pub need_auth : Bool
  pub message : Text

pub record OpResult : Type 0 where
  pub success : Bool
  pub message : Text

-- The community site and the client: whether `ensureInit` succeeds, which reads cookies and sends
-- nothing, the account, the answer to the query for the time behind which a request of a tag is to
-- be made, and HTTP and JSON, where `none` is an error. An entry of the list is decoded to the
-- confirmation that the code builds from it.
pub record Site : Type 0 where
  pub ready : Bool
  pub library : Library
  pub steam_id : ℕ
  pub time_answer : Text → Option Answer
  pub server_time_field : Text → Option Text
  pub fetch : Request → Option Answer
  pub decode_list : Text → Option ListResult
  pub decode_result : Text → Option OpResult

pub data ConfirmationError : Type 0 where
  not_initialised : ConfirmationError
  steam_time : TimeError → ConfirmationError
  request_failed : ConfirmationError
  read_body : ConfirmationError
  http_status : ℕ → ConfirmationError
  decode : ConfirmationError
  authentication_required : ConfirmationError
  steam_error : Text → ConfirmationError
  operation_failed : ConfirmationError
  not_found : ConfirmationError

-- How a call ends, and the requests that it has sent, in order.
pub record Done (A : Type 0) : Type 0 where
  pub outcome : Result ConfirmationError A
  pub sent : List Request

abbrev pub fail : {A : Type 0} → ConfirmationError → Done A
fail e = record { outcome = err e; sent = [] }

abbrev pub continue :
    {A B : Type 0} → Result ConfirmationError A → List Request → (A → Done B) → Done B
continue (ok a) sent next = record { outcome = (next a).outcome; sent = sent ++ (next a).sent }
continue (err e) sent next = record { outcome = err e; sent = sent }
continue panic sent next = record { outcome = panic; sent = sent }
continue stuck sent next = record { outcome = stuck; sent = sent }

abbrev pub then_do : {A B : Type 0} → Done A → (A → Done B) → Done B
then_do d next = continue d.outcome d.sent next

abbrev or_error : {A : Type 0} → Option A → ConfirmationError → Result ConfirmationError A
or_error none e = err e
or_error (some a) e = ok a

-- "list", "accept", "reject", "allow" and "cancel"
abbrev pub list_tag : Text
list_tag = 108 ∷ (105 ∷ (115 ∷ (116 ∷ [])))

abbrev pub accept_tag : Text
accept_tag = 97 ∷ (99 ∷ (99 ∷ (101 ∷ (112 ∷ (116 ∷ [])))))

abbrev pub reject_tag : Text
reject_tag = 114 ∷ (101 ∷ (106 ∷ (101 ∷ (99 ∷ (116 ∷ [])))))

abbrev pub allow_op : Text
allow_op = 97 ∷ (108 ∷ (108 ∷ (111 ∷ (119 ∷ []))))

abbrev pub cancel_op : Text
cancel_op = 99 ∷ (97 ∷ (110 ∷ (99 ∷ (101 ∷ (108 ∷ [])))))

abbrev pub tag_of : Bool → Text
tag_of accept = if accept then accept_tag else reject_tag

abbrev pub op_of : Bool → Text
op_of accept = if accept then allow_op else cancel_op

-- The checks of an answer up to its status, and of what was decoded.
unfoldable pub body_of : Option Answer → Result ConfirmationError Text
body_of none = err request_failed
body_of (some a) = elim a.body [
  | none ↦ err read_body
  | some body ↦ if a.status == 200 then ok body else err (http_status a.status)
]

-- The errors "request failed" of the list and "operation failed" of an answer are one.
abbrev pub failure : Text → ConfirmationError
failure [] = operation_failed
failure (r ∷ s) = steam_error (r ∷ s)

unfoldable pub list_of : ListResult → Result ConfirmationError (List Confirmation)
list_of result =
    if result.need_auth
    then err authentication_required
    else if result.success
    then ok result.conf
    else err (failure result.message)

unfoldable pub op_outcome : OpResult → Result ConfirmationError (Unit {0})
op_outcome result = if result.success then ok tt else err (failure result.message)

abbrev pub decoded :
    {R A : Type 0} → Option R → (R → Result ConfirmationError A) → Result ConfirmationError A
decoded none f = err decode
decoded (some r) f = f r

abbrev pub answered :
    {R A : Type 0}
    → Option Answer
    → (Text → Option R)
    → (R → Result ConfirmationError A)
    → Result ConfirmationError A
answered a unmarshal f = elim (body_of a) [
  | ok body ↦ decoded (unmarshal body) f
  | err e ↦ err e
  | panic ↦ panic
  | stuck ↦ stuck
]

-- `uint64` of an `int64`.
abbrev word64 : ℤ → ℕ
word64 (pos n) = n
word64 (negsuc n) = 2 ^ 64 - suc n

module _ (site : Site) (identity_secret : Bytes) where
  abbrev pub params_at : Text → ℤ → Params
  params_at tag time = record {
    device_id = get_device_id site.library site.steam_id;
    steam_id = format_uint site.steam_id;
    key = generate_confirmation_key site.library identity_secret (word64 time) tag;
    time = format_int time;
    tag = tag;
  }

  abbrev pub params_of : Text → Result TimeError ℤ → Result ConfirmationError Params
  params_of tag (ok time) = ok (params_at tag time)
  params_of tag (err e) = err (steam_time e)
  params_of tag panic = panic
  params_of tag stuck = stuck

  unfoldable pub build_confirmation_params : Text → Done Params
  build_confirmation_params tag = record {
    outcome = params_of tag (get_steam_time site.server_time_field (site.time_answer tag));
    sent = query_time ∷ [];
  }

  unfoldable pub get_confirmations : Done (List Confirmation)
  get_confirmations =
      if site.ready
      then then_do (build_confirmation_params list_tag) (λ params. record {
        outcome = answered (site.fetch (get_list params)) site.decode_list list_of;
        sent = get_list params ∷ [];
      })
      else fail not_initialised

  unfoldable pub respond_to_confirmation : Confirmation → Bool → Done (Unit {0})
  respond_to_confirmation conf accept =
      then_do (build_confirmation_params (tag_of accept)) (λ params.
        let r = ajax_op params (op_of accept) conf.id conf.key in
        record { outcome = answered (site.fetch r) site.decode_result op_outcome; sent = r ∷ [] })

  -- `AcceptConfirmation` and `RejectConfirmation`.
  unfoldable pub answer_confirmation : Confirmation → Bool → Done (Unit {0})
  answer_confirmation conf accept =
      if site.ready then respond_to_confirmation conf accept else fail not_initialised

  -- The first confirmation of this creator.
  unfoldable pub find_by_creator : Text → List Confirmation → Option Confirmation
  find_by_creator creator_id [] = none
  find_by_creator creator_id (c ∷ cs) =
      let rest = find_by_creator creator_id cs in
      if text_eq c.creator_id creator_id then some c else rest

  abbrev pub answer_found : Bool → Option Confirmation → Done (Unit {0})
  answer_found accept none = fail not_found
  answer_found accept (some conf) = answer_confirmation conf accept

  -- `AcceptConfirmationByCreatorID` and `RejectConfirmationByCreatorID`.
  unfoldable pub answer_by_creator_id : Text → Bool → Done (Unit {0})
  answer_by_creator_id creator_id accept =
      if site.ready
      then then_do get_confirmations
          (λ confs. answer_found accept (find_by_creator creator_id confs))
      else fail not_initialised
