-- ===== src/SteamCommunity/Confirmation/Outcomes.antt =====
-- How the parts of an answer end, and the requests that they send.
use steamstacks.Prelude.{
  ◌≡◌, refl, Bool, true, false, List, [], ◌∷◌, Option, none, some, Result, ok, err, panic, stuck,
  Returns, ◌==◌, if◌then◌else◌,
}
use steamstacks.Prelude.Ints.{ℤ}
use steamstacks.Prelude.Bytes.{Bytes}
use steamstacks.SteamCommunity.Texts.{Text}
use steamstacks.SteamCommunity.Http.{Answer}
use steamstacks.SteamApi.Time.{
  TimeError, get_steam_time, read_time, server_time, time_status, parse_time,
}
use steamstacks.SteamApi.Json.{atoi}
use steamstacks.SteamCommunity.Confirmation.{
  Confirmation, Params, Request, query_time, get_list, ajax_op, ListResult, OpResult, Site,
  ConfirmationError, Done, fail, continue, not_initialised, read_body, http_status,
  authentication_required, failure, params_of, decoded, answered, body_of, list_of, op_outcome,
  list_tag, accept_tag, reject_tag, allow_op, cancel_op, tag_of, op_of, build_confirmation_params,
  get_confirmations, respond_to_confirmation, answer_confirmation,
}

body_of-Returns : (o : Option Answer) → Returns (body_of o)
unfolding body_of
body_of-Returns none = tt
body_of-Returns (some a) = by_body a.body (a.status == 200)
  where
    by_body :
        (o : Option Text) (b : Bool)
        → Returns {E = ConfirmationError} {A = Text} (elim o [
          | none ↦ err read_body
          | some body ↦ if b then ok body else err (http_status a.status)
        ])
    by_body none b = tt
    by_body (some body) true = tt
    by_body (some body) false = tt

answered-Returns :
    {R A : Type 0} (o : Option Answer) (unmarshal : Text → Option R)
    (f : R → Result ConfirmationError A)
    → ((r : R) → Returns (f r))
    → Returns (answered o unmarshal f)
answered-Returns {R} {A} o unmarshal f h = by_body (body_of o) (body_of-Returns o)
  where
    by_decoded : (d : Option R) → Returns (decoded d f)
    by_decoded none = tt
    by_decoded (some r) = h r

    by_body :
        (r : Result ConfirmationError Text)
        → Returns r
        → Returns {E = ConfirmationError} {A = A} (elim r [
          | ok body ↦ decoded (unmarshal body) f
          | err e ↦ err e
          | panic ↦ panic
          | stuck ↦ stuck
        ])
    by_body (ok body) k = by_decoded (unmarshal body)
    by_body (err e) k = tt
    by_body panic k = absurd k
    by_body stuck k = absurd k

list_of-Returns : (r : ListResult) → Returns (list_of r)
unfolding list_of
list_of-Returns r = by_flags r.need_auth r.success
  where
    by_flags :
        (b s : Bool)
        → Returns {E = ConfirmationError} (
            if b
            then err authentication_required
            else if s
            then ok r.conf
            else err (failure r.message))
    by_flags true s = tt
    by_flags false true = tt
    by_flags false false = tt

op_outcome-Returns : (r : OpResult) → Returns (op_outcome r)
unfolding op_outcome
op_outcome-Returns r = by_success r.success
  where
    by_success :
        (s : Bool)
        → Returns {E = ConfirmationError} {A = Unit {0}}
            (if s then ok tt else err (failure r.message))
    by_success true = tt
    by_success false = tt

get_steam_time-Returns : (f : Text → Option Text) (o : Option Answer) → Returns (get_steam_time f o)
unfolding get_steam_time
get_steam_time-Returns f none = tt
get_steam_time-Returns f (some a) = by_status (a.status == 200) a.body
  where
    by_number :
        (n : Option ℤ)
        → Returns {E = TimeError} {A = ℤ} (elim n [ none ↦ err parse_time | some n ↦ ok n ])
    by_number none = tt
    by_number (some n) = tt

    by_field : (t : Option Text) → Returns (server_time t)
    by_field none = tt
    by_field (some t) = by_number (atoi t)

    by_status :
        (b : Bool) (o : Option Text)
        → Returns (if b then read_time f o else err (time_status a.status))
    by_status false o = tt
    by_status true none = tt
    by_status true (some body) = by_field (f body)

module _ (site : Site) (identity_secret : Bytes) where
  -- The parameters have the tag that was asked for.
  abbrev Built : Text → Result ConfirmationError Params → Type 0
  Built tag (ok p) = p.tag ≡ tag
  Built tag (err e) = Unit
  Built tag panic = ⊥
  Built tag stuck = ⊥

  build-Built :
      (tag : Text) → Built tag (build_confirmation_params site identity_secret tag).outcome
  unfolding build_confirmation_params
  build-Built tag =
      by_time (get_steam_time site.server_time_field (site.time_answer tag))
        (get_steam_time-Returns site.server_time_field (site.time_answer tag))
    where
      by_time :
          (r : Result TimeError ℤ) → Returns r → Built tag (params_of site identity_secret tag r)
      by_time (ok time) h = refl
      by_time (err e) h = tt
      by_time panic h = absurd h
      by_time stuck h = absurd h

  -- How `GetConfirmations` ends, and what it has sent then.
  pub data Listed : Result ConfirmationError (List Confirmation) → List Request → Type 0 where
    nothing_sent : (e : ConfirmationError) → site.ready ≡ false → Listed (err e) []
    no_time : (e : ConfirmationError) → Listed (err e) (query_time ∷ [])
    no_list :
        (e : ConfirmationError) (p : Params)
        → p.tag ≡ list_tag
        → Listed (err e) (query_time ∷ (get_list p ∷ []))
    listed :
        (confs : List Confirmation) (p : Params)
        → p.tag ≡ list_tag
        → Listed (ok confs) (query_time ∷ (get_list p ∷ []))

  pub get_confirmations-Listed :
      Listed
        (get_confirmations site identity_secret).outcome
        (get_confirmations site identity_secret).sent
  unfolding get_confirmations build_confirmation_params
  get_confirmations-Listed = by_ready site.ready refl
    where
      next : Params → Done (List Confirmation)
      next p = record {
        outcome = answered (site.fetch (get_list p)) site.decode_list list_of;
        sent = get_list p ∷ [];
      }

      by_answer :
          (p : Params) (r : Result ConfirmationError (List Confirmation))
          → Returns r
          → p.tag ≡ list_tag
          → Listed r (query_time ∷ (get_list p ∷ []))
      by_answer p (ok confs) h t = listed confs p t
      by_answer p (err e) h t = no_list e p t
      by_answer p panic h t = absurd h
      by_answer p stuck h t = absurd h

      by_params :
          (r : Result ConfirmationError Params)
          → Built list_tag r
          → Listed
              (continue r (query_time ∷ []) next).outcome
              (continue r (query_time ∷ []) next).sent
      by_params (ok p) h =
          by_answer p _
            (answered-Returns (site.fetch (get_list p)) site.decode_list list_of list_of-Returns) h
      by_params (err e) h = no_time e
      by_params panic h = absurd h
      by_params stuck h = absurd h

      by_ready :
          (b : Bool)
          → site.ready ≡ b
          → let d : Done (List Confirmation) =
              (if b
                then continue
                    (build_confirmation_params site identity_secret list_tag).outcome
                    (query_time ∷ [])
                    next
                else fail not_initialised) in
            Listed d.outcome d.sent
      by_ready true on = by_params _ (build-Built list_tag)
      by_ready false off = nothing_sent not_initialised off

  -- The operation and the tag that accept or reject.
  abbrev pub Asks : Bool → Text → Text → Type 0
  Asks true op tag = (op ≡ allow_op) × (tag ≡ accept_tag)
  Asks false op tag = (op ≡ cancel_op) × (tag ≡ reject_tag)

  asks : (accept : Bool) (tag : Text) → tag ≡ tag_of accept → Asks accept (op_of accept) tag
  asks true tag e = (refl, e)
  asks false tag e = (refl, e)

  -- How `AcceptConfirmation` or `RejectConfirmation` ends, and what it has sent then.
  pub data Replied (conf : Confirmation) (accept : Bool)
      : Result ConfirmationError (Unit {0}) → List Request → Type 0 where
    not_ready : (e : ConfirmationError) → site.ready ≡ false → Replied conf accept (err e) []
    no_reply_time : (e : ConfirmationError) → Replied conf accept (err e) (query_time ∷ [])
    replied :
        (r : Result ConfirmationError (Unit {0})) (q : Params) (op : Text)
        → Returns r
        → Asks accept op q.tag
        → Replied conf accept r (query_time ∷ (ajax_op q op conf.id conf.key ∷ []))

  pub answer_confirmation-Replied :
      (conf : Confirmation) (accept : Bool)
      → Replied conf accept
          (answer_confirmation site identity_secret conf accept).outcome
          (answer_confirmation site identity_secret conf accept).sent
  unfolding answer_confirmation respond_to_confirmation build_confirmation_params
  answer_confirmation-Replied conf accept = by_ready site.ready refl
    where
      next : Params → Done (Unit {0})
      next p = record {
        outcome =
            answered (site.fetch (ajax_op p (op_of accept) conf.id conf.key)) site.decode_result
              op_outcome;
        sent = ajax_op p (op_of accept) conf.id conf.key ∷ [];
      }

      by_params :
          (r : Result ConfirmationError Params)
          → Built (tag_of accept) r
          → Replied conf accept
              (continue r (query_time ∷ []) next).outcome
              (continue r (query_time ∷ []) next).sent
      by_params (ok p) h =
          replied _ p (op_of accept)
            (answered-Returns (site.fetch (ajax_op p (op_of accept) conf.id conf.key))
              site.decode_result op_outcome op_outcome-Returns)
            (asks accept p.tag h)
      by_params (err e) h = no_reply_time e
      by_params panic h = absurd h
      by_params stuck h = absurd h

      by_ready :
          (b : Bool)
          → site.ready ≡ b
          → let d : Done (Unit {0}) =
              (if b
                then continue
                    (build_confirmation_params site identity_secret (tag_of accept)).outcome
                    (query_time ∷ [])
                    next
                else fail not_initialised) in
            Replied conf accept d.outcome d.sent
      by_ready true on = by_params _ (build-Built (tag_of accept))
      by_ready false off = not_ready not_initialised off
