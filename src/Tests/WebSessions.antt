-- ===== src/Tests/WebSessions.antt =====
-- A login whose first poll fails, and a file of a session.
use steamstacks.Prelude.{
  ℕ, zero, suc, ◌<◌, ◌≡◌, refl, true, false, [], ◌∷◌, Option, none, some, ok, ◌==◌, ap, ◌++◌,
  if◌then◌else◌, arith, length, take, drop, take-append, drop-append,
}
use steamstacks.SteamClient.Protocol.{Codec, RoundTrips}
use steamstacks.SteamCommunity.Texts.{Text, is_space, blank}
use steamstacks.SteamSession.{
  Session, PollResponse, Api, PersistentSession, device_code, allows, guard_types, session_begun,
  start_with_credentials, login_with_device_code, save_to_file, load_from_file,
}
use steamstacks.SteamSession.Polled.{Waits, login_with_device_code-ok}
use steamstacks.SteamSession.Kept.{restored, load_from_file-save_to_file}

abbrev fresh : Session
fresh = record {
  access_token = [];
  refresh_token = [];
  steam_id = 0;
  weak_token = [];
  client_id = 0;
  request_id = [];
  platform_type = 2;
  persistence = 1;
  website_id = [];
  user_agent = [];
  language = 0;
  polling_interval = 0;
}

abbrev tokens : PollResponse
tokens = record { access_token = some (97 ∷ []); refresh_token = some (98 ∷ []) }

-- Only the second poll is answered.
abbrev server : Api
server = record {
  get_password_rsa_public_key =
      λ u. some (record { mod_text = 49 ∷ []; exp_text = 51 ∷ []; timestamp = 9 });
  encrypt_password = λ p m e. some p;
  begin_auth_session = λ request. some (record {
    client_id = some 11;
    request_id = 114 ∷ [];
    interval = some 5;
    steamid = some 76561197960265729;
    weak_token = some (119 ∷ []);
    allowed_confirmations = some 2 ∷ (some 3 ∷ []);
  });
  update_auth_session = λ client steamid code kind. true;
  poll_auth_session_status = λ client request n. if n == 1 then some tokens else none;
  ended = λ n. false;
}

abbrev started : Session
started = record fresh {
  client_id = 11;
  request_id = 114 ∷ [];
  polling_interval = 5;
  steam_id = 76561197960265729;
  weak_token = 119 ∷ [];
}

server_starts :
    start_with_credentials server (117 ∷ []) (112 ∷ []) fresh ≡ ok (2 ∷ (3 ∷ []), started)
unfolding start_with_credentials session_begun guard_types blank is_space
server_starts = refl

server_allows : allows device_code (2 ∷ (3 ∷ [])) ≡ true
unfolding allows
server_allows = refl

server_fails :
    (n : ℕ) → n < 1 → ◌≡◌ {A = Option PollResponse} (if n == 1 then some tokens else none) none
server_fails zero h = refl
server_fails (suc n) h = absurd (omega arith)

server_waits : Waits server started 1
server_waits = record { fails = server_fails; runs = λ n h. refl }

login_with_device_code-ok_example :
    login_with_device_code server 2 (117 ∷ []) (112 ∷ []) (49 ∷ []) fresh
    ≡ ok (record started { access_token = 97 ∷ []; refresh_token = 98 ∷ [] })
login_with_device_code-ok_example =
    login_with_device_code-ok server started 1 2 (117 ∷ []) (112 ∷ []) (49 ∷ []) fresh
      (2 ∷ (3 ∷ [])) tokens (97 ∷ []) (98 ∷ []) server_starts server_allows refl server_waits refl
      refl refl (omega arith)

abbrev logged_in : Session
logged_in = record started { access_token = 97 ∷ []; refresh_token = 98 ∷ [] }

-- The tokens behind the length of the first.
abbrev read_kept : Text → Option PersistentSession
read_kept [] = none
read_kept (n ∷ []) = none
read_kept (n ∷ (id ∷ rest)) =
    some (record { refresh_token = take n rest; access_token = drop n rest; steam_id = id })

abbrev kept_codec : Codec PersistentSession
kept_codec = record {
  marshal = λ p. some (length p.refresh_token ∷ (p.steam_id ∷ (p.refresh_token ++ p.access_token)));
  unmarshal = read_kept;
}

kept_codec-RoundTrips : RoundTrips kept_codec
kept_codec-RoundTrips p b e = rw (← written) (
    ap some (
      rw (take-append p.refresh_token p.access_token, drop-append p.refresh_token p.access_token)
        refl))
  where
    written : (length p.refresh_token ∷ (p.steam_id ∷ (p.refresh_token ++ p.access_token))) ≡ b
    written = cc

logged_in_saved :
    save_to_file kept_codec true (λ b. true) logged_in
    ≡ ok (1 ∷ (76561197960265729 ∷ (98 ∷ (97 ∷ []))))
unfolding save_to_file
logged_in_saved = refl

load_from_file-save_to_file_example :
    load_from_file kept_codec (some (1 ∷ (76561197960265729 ∷ (98 ∷ (97 ∷ []))))) fresh
    ≡ ok (restored logged_in fresh)
load_from_file-save_to_file_example =
    load_from_file-save_to_file kept_codec true (λ b. true) logged_in fresh
      (1 ∷ (76561197960265729 ∷ (98 ∷ (97 ∷ [])))) kept_codec-RoundTrips logged_in_saved
