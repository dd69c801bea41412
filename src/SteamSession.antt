-- ===== src/SteamSession.antt =====
-- steamsession/session.go: a login over HTTP, and the session that is kept in a file.
pub mod Polled
pub mod Kept
pub mod Token
use steamstacks.Prelude.{
  ℕ, zero, suc, ◌+◌, ◌*◌, Bool, true, false, not, List, [], ◌∷◌, Option, none, some, Result, ok,
  err, panic, stuck, ◌>>=◌, ltb, ◌==◌, if◌then◌else◌,
}
use steamstacks.Prelude.Ints.{ℤ, pos, negsuc}
use steamstacks.SteamClient.Protocol.{Codec}
use steamstacks.SteamCommunity.Texts.{Text, blank}

-- `Session`; the interval is what `BeginAuthSession` gives, and platform and persistence are an
-- enumeration's number.
pub record Session : Type 0 where
  pub access_token : Text
  pub refresh_token : Text
  pub steam_id : ℕ
  pub weak_token : Text
  pub client_id : ℕ
  pub request_id : Text
  pub platform_type : ℕ
  pub persistence : ℕ
  pub website_id : Text
  pub user_agent : Text
  pub language : ℕ
  pub polling_interval : ℕ

-- `CAuthentication_BeginAuthSessionViaCredentials_Request`, with the device's details in place.
pub record BeginRequest : Type 0 where
  pub account_name : Text
  pub encrypted_password : Text
  pub encryption_timestamp : ℕ
  pub remember_login : Bool
  pub persistence : ℕ
  pub website_id : Text
  pub device_friendly_name : Text
  pub platform_type : ℕ
  pub language : ℕ

-- Answers of the API. A field that is not set is `none`.
pub record RsaKey : Type 0 where
  pub mod_text : Text
  pub exp_text : Text
  pub timestamp : ℕ

pub record AuthSession : Type 0 where
  pub client_id : Option ℕ
  pub request_id : Text
  pub interval : Option ℕ
  pub steamid : Option ℕ
  pub weak_token : Option Text
  pub allowed_confirmations : List (Option ℕ)

pub record PollResponse : Type 0 where
  pub access_token : Option Text
  pub refresh_token : Option Text

-- The calls of the package steamapi, and RSA; `none` and `false` are errors. The n-th poll has an
-- answer of its own; `ended` says whether the context ends the wait behind it.
pub record Api : Type 0 where
  pub get_password_rsa_public_key : Text → Option RsaKey
  pub encrypt_password : Text → Text → Text → Option Text
  pub begin_auth_session : BeginRequest → Option AuthSession
  pub update_auth_session : ℕ → ℕ → Text → ℕ → Bool
  pub poll_auth_session_status : ℕ → Text → ℕ → Option PollResponse
  pub ended : ℕ → Bool

pub data SessionError : Type 0 where
  empty_username : SessionError
  empty_password : SessionError
  get_rsa_public_key : SessionError
  encrypt_failed : SessionError
  begin_session : SessionError
  not_allowed : SessionError
  submit_code : SessionError
  context_ended : SessionError
  access_token_nil : SessionError
  refresh_token_nil : SessionError
  no_refresh_token : SessionError
  marshal : SessionError
  create_directory : SessionError
  write_file : SessionError
  read_file : SessionError
  unmarshal : SessionError

abbrev pub or_error {ℓ} : {A : Type ℓ} → Option A → SessionError → Result SessionError A
or_error none e = err e
or_error (some a) e = ok a

-- `*p`: a nil pointer panics.
abbrev pub deref {ℓ} : {A : Type ℓ} → Option A → Result SessionError A
deref none = panic
deref (some a) = ok a

unfoldable pub guard_types : List (Option ℕ) → Result SessionError (List ℕ)
guard_types [] = ok []
guard_types (t ∷ ts) = do first ← deref t; rest ← guard_types ts; ok (first ∷ rest)

-- `EAuthSessionGuardTypeDeviceCode`
abbrev pub device_code : ℕ
device_code = 3

unfoldable pub allows : ℕ → List ℕ → Bool
allows t [] = false
allows t (g ∷ gs) = let rest = allows t gs in if g == t then true else rest

module _ (api : Api) where
  -- The session with what the server gave.
  unfoldable pub session_begun : Session → AuthSession → Result SessionError (List ℕ × Session)
  session_begun s a = do
    client_id ← deref a.client_id
    interval ← deref a.interval
    steamid ← deref a.steamid
    weak_token ← deref a.weak_token
    types ← guard_types a.allowed_confirmations
    ok (
      types,
      record s {
        client_id = client_id;
        request_id = a.request_id;
        polling_interval = interval;
        steam_id = steamid;
        weak_token = weak_token;
      },
    )

  unfoldable pub start_with_credentials :
      Text → Text → Session → Result SessionError (List ℕ × Session)
  start_with_credentials username password s =
      let started = do
        rsa_key ← or_error (api.get_password_rsa_public_key username) get_rsa_public_key
        encrypted ←
            or_error (api.encrypt_password password rsa_key.mod_text rsa_key.exp_text)
              encrypt_failed
        auth_session ←
            or_error
              (api.begin_auth_session (record {
                account_name = username;
                encrypted_password = encrypted;
                encryption_timestamp = rsa_key.timestamp;
                remember_login = true;
                persistence = s.persistence;
                website_id = s.website_id;
                device_friendly_name = s.user_agent;
                platform_type = s.platform_type;
                language = s.language;
              }))
              begin_session
        session_begun s auth_session
      in if blank username
        then err empty_username
        else if blank password
        then err empty_password
        else started

  unfoldable pub submit_steam_guard_code : Text → ℕ → Session → Result SessionError (Unit {0})
  submit_steam_guard_code code guard_type s =
      if api.update_auth_session s.client_id s.steam_id code guard_type
      then ok tt
      else err submit_code

  unfoldable pub with_tokens : Session → PollResponse → Result SessionError Session
  with_tokens s r = do
    access ← or_error r.access_token access_token_nil
    refresh ← or_error r.refresh_token refresh_token_nil
    ok (record s { access_token = access; refresh_token = refresh })

  -- A poll that fails is repeated after the interval, until the context ends. The code has no
  -- bound on the polls; `fuel` is one for the model, and `n` counts them.
  unfoldable pub poll_loop : ℕ → ℕ → Session → Result SessionError Session
  poll_loop zero n s = stuck
  poll_loop (suc fuel) n s = elim (api.poll_auth_session_status s.client_id s.request_id n) [
    | some r ↦ with_tokens s r
    | none ↦ elim (api.ended n) [ true ↦ err context_ended | false ↦ poll_loop fuel (suc n) s ]
  ]

  abbrev pub poll_auth_session_status : ℕ → Session → Result SessionError Session
  poll_auth_session_status fuel s = poll_loop fuel 0 s

  abbrev pub login_started : ℕ → Text → List ℕ × Session → Result SessionError Session
  login_started fuel code r =
      if allows device_code r.0
      then (submit_steam_guard_code code device_code r.1 >>= λ u. poll_auth_session_status fuel r.1)
      else err not_allowed

  unfoldable pub login_with_device_code :
      ℕ → Text → Text → Text → Session → Result SessionError Session
  login_with_device_code fuel username password code s =
      start_with_credentials username password s >>= login_started fuel code

-- What is kept in the file.
pub record PersistentSession : Type 0 where
  pub refresh_token : Text
  pub access_token : Text
  pub steam_id : ℕ

-- The file that `SaveToFile` writes, if its directory can be made and the file written.
unfoldable pub save_to_file :
    Codec PersistentSession → Bool → (Text → Bool) → Session → Result SessionError Text
save_to_file json made writes s =
    let saved = do
      data_text ←
          or_error
            (json.marshal (record {
              refresh_token = s.refresh_token;
              access_token = s.access_token;
              steam_id = s.steam_id;
            }))
            marshal
      if not made
          then err create_directory
          else if writes data_text
          then ok data_text
          else err write_file
    in elim s.refresh_token [ [] ↦ err no_refresh_token | r ∷ rs ↦ saved ]

-- `LoadFromFile` of a file's content, `none` where it cannot be read.
unfoldable pub load_from_file :
    Codec PersistentSession → Option Text → Session → Result SessionError Session
load_from_file json content s = do
  data_text ← or_error content read_file
  kept ← or_error (json.unmarshal data_text) unmarshal
  ok (record s {
    refresh_token = kept.refresh_token;
    access_token = kept.access_token;
    steam_id = kept.steam_id;
  })
