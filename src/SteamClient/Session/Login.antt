-- ===== src/SteamClient/Session/Login.antt =====
-- steamclient/steamclient.go: `Login`.
use steamstacks.Prelude.{
  ℕ, ◌^◌, Bool, true, ◌||◌, not, List, [], ◌∷◌, Option, none, some, Result, ok, err, ltb, ◌==◌,
  if◌then◌else◌,
}
use steamstacks.Prelude.Bytes.{Bytes}
use steamstacks.SteamId.{set_universe, set_type, set_instance, set_account_id, account_id}
use steamstacks.SteamClient.Protocol.{
  Header, empty_header, get_default, get_steamid, get_client_sessionid,
}
use steamstacks.SteamClient.Message.{Packet, header_or_empty, or_fail}
use steamstacks.SteamClient.Session.{Channel, CmClient, Services}
use steamstacks.SteamClient.Session.Send.{SendError, send_packet}
use steamstacks.SteamClient.Session.Run.{Run, commit, then_run}
use steamstacks.SteamClient.Session.Calls.{AwaitError, Case, expect_emsg, await_run, read_meanwhile}

-- `CMsgClientLogon`; `client_os_type` and the rest are the constants of the code.
pub record ClientLogon : Type 0 where
  pub account_name : Bytes
  pub access_token : Bytes
  pub should_remember_password : Bool
  pub protocol_version : ℕ
  pub client_os_type : ℕ
  pub client_language : Bytes

-- `CMsgClientLogonResponse`; the seconds are the bit pattern of an `int32`.
pub record ClientLogonResponse : Type 0 where
  pub eresult : Option ℕ
  pub heartbeat_seconds : Option ℕ

-- Protobuf at the messages of the logon. A hello is its protocol version.
pub record LogonCodecs : Type 0 where
  pub hello : ℕ → Option Bytes
  pub logon : ClientLogon → Option Bytes
  pub logon_response : Bytes → Option ClientLogonResponse

pub data LoginError : Type 0 where
  marshal_hello : LoginError
  send_hello : SendError → LoginError
  marshal_logon : LoginError
  send_logon : SendError → LoginError
  wait_logon : AwaitError → LoginError
  unmarshal_response : LoginError
  logon_failed : LoginError

-- `const ProtoVersion uint32 = 65581`
abbrev pub proto_version : ℕ
proto_version = 65581

-- "english"
abbrev pub language : Bytes
language = 101 ∷ (110 ∷ (103 ∷ (108 ∷ (105 ∷ (115 ∷ (104 ∷ []))))))

-- An individual account in the public universe, instance 1.
unfoldable pub login_sid : ℕ → ℕ
login_sid sid = set_account_id (set_instance (set_type (set_universe 0 1) 1) 1) (account_id sid)

abbrev pub logon_of : Bytes → Bytes → ClientLogon
logon_of account_name refresh_token = record {
  account_name = account_name;
  access_token = refresh_token;
  should_remember_password = true;
  protocol_version = proto_version;
  client_os_type = 20;
  client_language = language;
}

abbrev pub logon_header : ℕ → Header
logon_header sid = record empty_header { steamid = some (login_sid sid); client_sessionid = some 0 }

-- `heartbeatSec <= 0` of an `int32`: 30 instead.
unfoldable pub heartbeat_of : ClientLogonResponse → ℕ
heartbeat_of resp =
    let sec = get_default 0 resp.heartbeat_seconds in
    if sec == 0 || not (ltb sec (2 ^ 31)) then 30 else sec

abbrev pub keep : {E A : Type 0} → Result E A → CmClient → Run E A
keep r c = record { outcome = r; after = c }

module _ (s : Services) (k : LogonCodecs) where
  -- Up to the wait: the listener is installed before the logon is sent.
  unfoldable pub begin_login : Bytes → Bytes → ℕ → CmClient → Run LoginError Channel
  begin_login account_name refresh_token sid c =
      then_run (keep (or_fail (k.hello proto_version) marshal_hello) c) (λ hello_body c0.
        then_run (commit send_hello (send_packet s 9805 none hello_body c0) c0) (λ _ c1.
          let r = expect_emsg 751 c1 in
          then_run
            (keep (or_fail (k.logon (logon_of account_name refresh_token)) marshal_logon) r.1)
            (λ logon_body c2.
              then_run
                (commit send_logon (send_packet s 5514 (some (logon_header sid)) logon_body c2) c2)
                (λ _ c3. keep (ok r.0) c3))))

  -- From the response on: the seconds between heartbeats.
  unfoldable pub finish_login : Packet → CmClient → Run LoginError ℕ
  finish_login pkt c = elim (k.logon_response pkt.body) [
    | none ↦ keep (err unmarshal_response) c
    | some resp ↦
        if get_default 2 resp.eresult == 1
        then keep (ok (heartbeat_of resp)) (record c {
          steam_id = get_steamid (header_or_empty pkt.header);
          session_id = get_client_sessionid (header_or_empty pkt.header);
          logged_in = true;
        })
        else keep (err logon_failed) c
  ]

  -- `packets` are those that arrive before the response is awaited with `case`.
  unfoldable pub login : Bytes → Bytes → ℕ → List Packet → Case → CmClient → Run LoginError ℕ
  login account_name refresh_token sid packets case c =
      then_run (begin_login account_name refresh_token sid c) (λ ch c1.
        then_run (read_meanwhile s packets c1)
          (λ _ c2. then_run (await_run wait_logon ch case c2) finish_login))
