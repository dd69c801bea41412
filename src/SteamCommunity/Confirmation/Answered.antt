-- ===== src/SteamCommunity/Confirmation/Answered.antt =====
-- Which requests an answer by a creator sends, and which confirmation is answered.
use steamstacks.Prelude.{
  ℕ, suc, ◌≡◌, ◌≢◌, refl, sym, Bool, true, false, List, [], ◌∷◌, Option, none, some, Result, ok,
  err, Returns, if◌then◌else◌, take, get_elem?, All,
}
use mathlib.Core.Option.{some-injective}
use steamstacks.Prelude.Bytes.{Bytes}
use steamstacks.SteamCommunity.Texts.{Text, text_eq}
use steamstacks.SteamCommunity.Texts.Equal.{text_eq-eq, text_eq_refl}
use steamstacks.SteamCommunity.Confirmation.{
  Confirmation, Params, Request, query_time, get_list, ajax_op, Site, ConfirmationError, Done, fail,
  continue, not_found, not_initialised, list_tag, get_confirmations, find_by_creator, answer_found,
  answer_by_creator_id,
}
use steamstacks.SteamCommunity.Confirmation.Outcomes.{
  Listed, nothing_sent, no_time, no_list, listed, get_confirmations-Listed, Asks, Replied,
  not_ready, no_reply_time, replied, answer_confirmation-Replied,
}

module _ (site : Site) (identity_secret : Bytes) (creator_id : Text) (accept : Bool) where
  -- The first confirmation of this creator in the list.
  pub record First (confs : List Confirmation) (conf : Confirmation) : Type 0 where
    pub place : ℕ
    pub there : get_elem? confs place ≡ some conf
    pub of_creator : conf.creator_id ≡ creator_id
    pub before : All (λ (c : Confirmation). c.creator_id ≢ creator_id) (take place confs)

  find_by_creator-First :
      (cs : List Confirmation) (c : Confirmation)
      → find_by_creator site identity_secret creator_id cs ≡ some c
      → First cs c
  unfolding find_by_creator
  find_by_creator-First [] c e = cc
  find_by_creator-First (d ∷ cs) c e =
      by_test (λ q. find_by_creator-First cs c q) (text_eq d.creator_id creator_id) refl e
    where
      differs : text_eq d.creator_id creator_id ≡ false → d.creator_id ≢ creator_id
      differs k = λ q. cc (rw q at k, text_eq_refl creator_id)

      by_test :
          (find_by_creator site identity_secret creator_id cs ≡ some c → First cs c)
          → (b : Bool) → text_eq d.creator_id creator_id ≡ b
          → (if b then some d else find_by_creator site identity_secret creator_id cs) ≡ some c
          → First (d ∷ cs) c
      by_test ih true k q =
          let same : d ≡ c = some-injective d c q in
          record {
            place = 0;
            there = q;
            of_creator = rw (sym same) (text_eq-eq d.creator_id creator_id k);
            before = tt;
          }
      by_test ih false k q =
          let rest = ih q in
          record {
            place = suc rest.place;
            there = rest.there;
            of_creator = rest.of_creator;
            before = (differs k, rest.before);
          }

  find_by_creator-none :
      (cs : List Confirmation)
      → find_by_creator site identity_secret creator_id cs ≡ none
      → All (λ (c : Confirmation). c.creator_id ≢ creator_id) cs
  unfolding find_by_creator
  find_by_creator-none [] e = tt
  find_by_creator-none (d ∷ cs) e =
      by_test (λ q. find_by_creator-none cs q) (text_eq d.creator_id creator_id) refl e
    where
      by_test :
          (find_by_creator site identity_secret creator_id cs ≡ none
            → All (λ (c : Confirmation). c.creator_id ≢ creator_id) cs)
          → (b : Bool) → text_eq d.creator_id creator_id ≡ b
          → (if b then some d else find_by_creator site identity_secret creator_id cs) ≡ none
          → All (λ (c : Confirmation). c.creator_id ≢ creator_id) (d ∷ cs)
      by_test ih true k q = cc
      by_test ih false k q = (λ r. cc (rw r at k, text_eq_refl creator_id), ih q)

  -- How an answer by its creator ends, and what it has sent then, in order.
  pub data Sends : Result ConfirmationError (Unit {0}) → List Request → Type 0 where
    nothing : site.ready ≡ false → Sends (err not_initialised) []
    time_asked :
        (e : ConfirmationError)
        → (get_confirmations site identity_secret).outcome ≡ err e
        → Sends (err e) (query_time ∷ [])
    list_asked :
        (e : ConfirmationError) (p : Params)
        → p.tag ≡ list_tag
        → (get_confirmations site identity_secret).outcome ≡ err e
        → Sends (err e) (query_time ∷ (get_list p ∷ []))
    absent :
        (p : Params) (confs : List Confirmation)
        → p.tag ≡ list_tag
        → (get_confirmations site identity_secret).outcome ≡ ok confs
        → All (λ (c : Confirmation). c.creator_id ≢ creator_id) confs
        → Sends (err not_found) (query_time ∷ (get_list p ∷ []))
    time_asked_again :
        (e : ConfirmationError) (p : Params)
        → p.tag ≡ list_tag
        → Sends (err e) (query_time ∷ (get_list p ∷ (query_time ∷ [])))
    answer_sent :
        (r : Result ConfirmationError (Unit {0})) (p q : Params) (op : Text)
        (confs : List Confirmation) (conf : Confirmation)
        → Returns r
        → p.tag ≡ list_tag
        → (get_confirmations site identity_secret).outcome ≡ ok confs
        → First confs conf
        → Asks site identity_secret accept op q.tag
        → Sends r (query_time ∷ (get_list p ∷ (query_time ∷ (ajax_op q op conf.id conf.key ∷ []))))

  answered-Sends :
      (r : Result ConfirmationError (Unit {0})) (sent : List Request) (p : Params)
      (confs : List Confirmation) (conf : Confirmation)
      → site.ready ≡ true
      → p.tag ≡ list_tag
      → (get_confirmations site identity_secret).outcome ≡ ok confs
      → First confs conf
      → Replied site identity_secret conf accept r sent
      → Sends r (query_time ∷ (get_list p ∷ sent))
  answered-Sends r sent p confs conf on t got f (not_ready e off) = cc
  answered-Sends r sent p confs conf on t got f (no_reply_time e) = time_asked_again e p t
  answered-Sends r sent p confs conf on t got f (replied o q op h a) =
      answer_sent o p q op confs conf h t got f a

  found-Sends :
      (p : Params) (confs : List Confirmation) (o : Option Confirmation)
      → site.ready ≡ true
      → p.tag ≡ list_tag
      → (get_confirmations site identity_secret).outcome ≡ ok confs
      → find_by_creator site identity_secret creator_id confs ≡ o
      → Sends
          (answer_found site identity_secret accept o).outcome
          (query_time ∷ (get_list p ∷ (answer_found site identity_secret accept o).sent))
  found-Sends p confs none on t got e = absent p confs t got (find_by_creator-none confs e)
  found-Sends p confs (some conf) on t got e =
      answered-Sends _ _ p confs conf on t got (find_by_creator-First confs conf e)
        (answer_confirmation-Replied site identity_secret conf accept)

  Listed-Sends :
      (r : Result ConfirmationError (List Confirmation)) (sent : List Request)
      → site.ready ≡ true
      → (get_confirmations site identity_secret).outcome ≡ r
      → Listed site identity_secret r sent
      → let d = continue r sent (λ confs.
        answer_found site identity_secret accept
          (find_by_creator site identity_secret creator_id confs)) in
        Sends d.outcome d.sent
  Listed-Sends r sent on got (nothing_sent e off) = cc
  Listed-Sends r sent on got (no_time e) = time_asked e got
  Listed-Sends r sent on got (no_list e p t) = list_asked e p t got
  Listed-Sends r sent on got (listed confs p t) = found-Sends p confs _ on t got refl

  -- To accept or reject by a creator (`AcceptConfirmationByCreatorID` and its counterpart) always
  -- ends, and has sent, in order, a part of these from the first on: a query for the time, the
  -- request for the list, tagged so, a second query for the time, and one request that accepts or
  -- rejects, by its own ID and key, the first confirmation of that list whose creator is the one
  -- asked for. It succeeds only if all four were sent. It sends nothing only if the client is not
  -- initialised; if it stops behind the first or the second, then with the error of
  -- `GetConfirmations`, or else because the list has no confirmation of this creator.
  pub answer_by_creator_id-Sends :
      Sends
        (answer_by_creator_id site identity_secret creator_id accept).outcome
        (answer_by_creator_id site identity_secret creator_id accept).sent
  unfolding answer_by_creator_id
  answer_by_creator_id-Sends = by_ready site.ready refl
    where
      by_ready :
          (b : Bool)
          → site.ready ≡ b
          → let d : Done (Unit {0}) =
              (if b
                then continue
                    (get_confirmations site identity_secret).outcome
                    (get_confirmations site identity_secret).sent
                    (λ confs.
                      answer_found site identity_secret accept
                        (find_by_creator site identity_secret creator_id confs))
                else fail not_initialised) in
            Sends d.outcome d.sent
      by_ready true on = Listed-Sends _ _ on refl (get_confirmations-Listed site identity_secret)
      by_ready false off = nothing off
