-- ===== src/Tf2/Messages.antt =====
-- tf2/socache.go and tf2/tf2.go: the messages of the shared-object cache and of the session, decoded.
pub mod Wrapped
use steamstacks.Prelude.{
  ℕ, zero, suc, ◌+◌, ◌%◌, ◌^◌, List, [], ◌∷◌, ◌++◌, Option, none, some, Result, ok, ◌>>=◌, wrap_err,
  ◌==◌, ltb, if◌then◌else◌, length, drop,
}
use steamstacks.Prelude.Bytes.{Bytes, slice, get_le}
use steamstacks.Tf2.Wire.{Protowire, DecodeError, inside, Cases, decode_message, lenient_message}

-- An `int32` type ID is kept as its 32 bits.
pub record SubscribedType : Type 0 where
  pub type_id : ℕ
  pub object_data : List Bytes

pub record SingleObject : Type 0 where
  pub type_id : ℕ
  pub object_data : Bytes

pub record WelcomeEvent : Type 0 where
  pub version : ℕ
  pub txn_country_code : Bytes

pub record GoodbyeEvent : Type 0 where
  pub reason : ℕ

-- The recipe is an `int16`, kept as its 16 bits.
pub record CraftEvent : Type 0 where
  pub recipe : ℕ
  pub item_ids : List ℕ

abbrev pub zero_subscribed : SubscribedType
zero_subscribed = record { type_id = 0; object_data = [] }

abbrev pub zero_single : SingleObject
zero_single = record { type_id = 0; object_data = [] }

unfoldable pub subscribed_varint : ℕ → ℕ → SubscribedType → SubscribedType
subscribed_varint num v st = if num == 1 then record st { type_id = v % 2 ^ 32 } else st

unfoldable pub subscribed_bytes : ℕ → Bytes → SubscribedType → Result DecodeError SubscribedType
subscribed_bytes num v st =
    ok (if num == 2 then record st { object_data = st.object_data ++ (v ∷ []) } else st)

abbrev pub subscribed_cases : Cases SubscribedType
subscribed_cases = record {
  on_varint = some subscribed_varint;
  on_fixed32 = none;
  on_fixed64 = none;
  on_bytes = some subscribed_bytes;
}

-- The two messages that carry one object differ in the numbers of their fields.
unfoldable pub object_varint : ℕ → ℕ → ℕ → SingleObject → SingleObject
object_varint type_field num v so =
    if num == type_field then record so { type_id = v % 2 ^ 32 } else so

unfoldable pub object_bytes : ℕ → ℕ → Bytes → SingleObject → Result DecodeError SingleObject
object_bytes data_field num v so =
    ok (if num == data_field then record so { object_data = v } else so)

abbrev pub object_cases : ℕ → ℕ → Cases SingleObject
object_cases type_field data_field = record {
  on_varint = some (object_varint type_field);
  on_fixed32 = none;
  on_fixed64 = none;
  on_bytes = some (object_bytes data_field);
}

unfoldable pub owner_fixed64 : ℕ → ℕ → ℕ × List SubscribedType → ℕ × List SubscribedType
owner_fixed64 num v r = if num == 1 then (v, r.1) else r

module _ (w : Protowire) where
  unfoldable pub decode_subscribed_type : Bytes → Result DecodeError SubscribedType
  decode_subscribed_type b = decode_message w subscribed_cases zero_subscribed b

  unfoldable pub decode_single_object : Bytes → Result DecodeError SingleObject
  decode_single_object b = decode_message w (object_cases 2 3) zero_single b

  unfoldable pub decode_multiple_objects_entry : Bytes → Result DecodeError SingleObject
  decode_multiple_objects_entry b = decode_message w (object_cases 1 2) zero_single b

  unfoldable pub owner_bytes :
      ℕ → Bytes → ℕ × List SubscribedType → Result DecodeError (ℕ × List SubscribedType)
  owner_bytes num v r =
      if num == 2
      then (wrap_err (inside 2) (decode_subscribed_type v) >>= λ st. ok (r.0, r.1 ++ (st ∷ [])))
      else ok r

  abbrev pub cache_subscribed_cases : Cases (ℕ × List SubscribedType)
  cache_subscribed_cases = record {
    on_varint = none;
    on_fixed32 = none;
    on_fixed64 = some owner_fixed64;
    on_bytes = some owner_bytes;
  }

  unfoldable pub decode_cache_subscribed : Bytes → Result DecodeError (ℕ × List SubscribedType)
  decode_cache_subscribed b = decode_message w cache_subscribed_cases (0, []) b

  unfoldable pub multiple_bytes :
      ℕ → Bytes → List SingleObject → Result DecodeError (List SingleObject)
  multiple_bytes num v objects =
      if num == 2
      then (wrap_err (inside 2) (decode_multiple_objects_entry v) >>= λ so.
          ok (objects ++ (so ∷ [])))
      else ok objects

  abbrev pub multiple_cases : Cases (List SingleObject)
  multiple_cases = record {
    on_varint = none;
    on_fixed32 = none;
    on_fixed64 = none;
    on_bytes = some multiple_bytes;
  }

  unfoldable pub decode_multiple_objects : Bytes → Result DecodeError (List SingleObject)
  decode_multiple_objects b = decode_message w multiple_cases [] b

-- The parsers of the session's messages keep what they have when a field is malformed.
unfoldable pub welcome_varint : ℕ → ℕ → WelcomeEvent → WelcomeEvent
welcome_varint num v ev = if num == 1 then record ev { version = v % 2 ^ 32 } else ev

unfoldable pub welcome_bytes : ℕ → Bytes → WelcomeEvent → Result DecodeError WelcomeEvent
welcome_bytes num v ev = ok (if num == 3 then record ev { txn_country_code = v } else ev)

abbrev pub welcome_cases : Cases WelcomeEvent
welcome_cases = record {
  on_varint = some welcome_varint;
  on_fixed32 = none;
  on_fixed64 = none;
  on_bytes = some welcome_bytes;
}

unfoldable pub goodbye_varint : ℕ → ℕ → GoodbyeEvent → GoodbyeEvent
goodbye_varint num v ev = if num == 1 then record ev { reason = v % 2 ^ 32 } else ev

abbrev pub goodbye_cases : Cases GoodbyeEvent
goodbye_cases = record {
  on_varint = some goodbye_varint;
  on_fixed32 = none;
  on_fixed64 = none;
  on_bytes = none;
}

module _ (w : Protowire) where
  unfoldable pub parse_welcome : Bytes → Option WelcomeEvent
  parse_welcome b =
      lenient_message w welcome_cases (record { version = 0; txn_country_code = [] }) b

  unfoldable pub parse_goodbye : Bytes → Option GoodbyeEvent
  parse_goodbye b = lenient_message w goodbye_cases (record { reason = 0 }) b

-- `for i := 0; i < int(idCount) && len(data) >= 8; i++`
unfoldable pub craft_ids : ℕ → Bytes → List ℕ
craft_ids zero left = []
craft_ids (suc n) left =
    let rest = craft_ids n (drop 8 left) in
    if ltb (length left) 8 then [] else get_le (slice left 0 8) ∷ rest

-- A response that is shorter than its header is dropped.
unfoldable pub decode_craft_response : Bytes → Option CraftEvent
decode_craft_response b =
    let id_count = get_le (slice b 6 8) in
    if ltb (length b) 8
    then none
    else some (record { recipe = get_le (slice b 0 2); item_ids = craft_ids id_count (drop 8 b) })
