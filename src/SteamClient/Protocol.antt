-- ===== src/SteamClient/Protocol.antt =====
-- What the package takes from the protobuf library and the generated code: a codec for each
-- message type, and the fields of `CMsgProtoBufHeader` that the package reads or sets.
use steamstacks.Prelude.{ℕ, ◌-◌, ◌^◌, ◌≡◌, Option, none, some, bit_and}
use steamstacks.Prelude.Bytes.{Bytes}

-- `proto.Marshal` and `proto.Unmarshal` at one message type. `none` is an error.
pub record Codec (A : Type 0) : Type 0 where
  pub marshal : A → Option Bytes
  pub unmarshal : Bytes → Option A

-- What the library documents: a message that was marshalled is unmarshalled as it was.
abbrev pub RoundTrips : {A : Type 0} → Codec A → Type 0
RoundTrips {A} c = (a : A) (b : Bytes) → c.marshal a ≡ some b → c.unmarshal b ≡ some a

-- An unset field is `none`. Numbers that Go holds as `int32` are bit patterns.
pub record Header : Type 0 where
  pub steamid : Option ℕ
  pub client_sessionid : Option ℕ
  pub routing_appid : Option ℕ
  pub jobid_source : Option ℕ
  pub jobid_target : Option ℕ
  pub target_job_name : Option Bytes
  pub eresult : Option ℕ

abbrev pub empty_header : Header
empty_header = record {
  steamid = none;
  client_sessionid = none;
  routing_appid = none;
  jobid_source = none;
  jobid_target = none;
  target_job_name = none;
  eresult = none;
}

-- A getter of the generated code: the field, or its default.
abbrev pub get_default : ℕ → Option ℕ → ℕ
get_default d none = d
get_default d (some v) = v

abbrev pub get_steamid : Header → ℕ
get_steamid h = get_default 0 h.steamid

abbrev pub get_client_sessionid : Header → ℕ
get_client_sessionid h = get_default 0 h.client_sessionid

abbrev pub get_jobid_target : Header → ℕ
get_jobid_target h = get_default (2 ^ 64 - 1) h.jobid_target

abbrev pub get_eresult : Header → ℕ
get_eresult h = get_default 2 h.eresult

-- `const ProtoMask uint32 = 0x80000000`
abbrev pub proto_mask : ℕ
proto_mask = 0x80000000

-- `x &^ ProtoMask` of a `uint32`.
abbrev pub clear_proto_mask : ℕ → ℕ
clear_proto_mask x = bit_and x (2 ^ 32 - 1 - proto_mask)
