-- ===== src/SteamSession/Kept.antt =====
-- A session that is kept in a file is the session that the file gives back.
use steamstacks.Prelude.{
  ◌≡◌, refl, ok-injective, Bool, true, false, not, [], ◌∷◌, Option, none, some, Result, ok, err,
  ◌>>=◌, if◌then◌else◌,
}
use steamstacks.SteamClient.Protocol.{Codec}
use steamstacks.SteamCommunity.Texts.{Text}
use steamstacks.SteamSession.{Session, PersistentSession, save_to_file, load_from_file}
use steamstacks.SteamClient.Protocol.{RoundTrips}
use steamstacks.SteamSession.{
  SessionError, or_error, marshal, create_directory, write_file, no_refresh_token,
}

-- What the file keeps of a session, as it replaces it in another.
abbrev pub restored : Session → Session → Session
restored s t = record t {
  refresh_token = s.refresh_token;
  access_token = s.access_token;
  steam_id = s.steam_id;
}

abbrev kept_of : Session → PersistentSession
kept_of s = record {
  refresh_token = s.refresh_token;
  access_token = s.access_token;
  steam_id = s.steam_id;
}

load_kept :
    (json : Codec PersistentSession) (s t : Session) (d : Text)
    → json.unmarshal d ≡ some (kept_of s)
    → load_from_file json (some d) t ≡ ok (restored s t)
unfolding load_from_file
load_kept json s t d e = rw e

-- If `SaveToFile` succeeds then `LoadFromFile` of the file it wrote succeeds in any session, which
-- it gives the saved session's tokens and its Steam ID and leaves otherwise as it was, provided
-- that JSON decodes what it encoded.
pub load_from_file-save_to_file :
    (json : Codec PersistentSession) (made : Bool) (writes : Text → Bool) (s t : Session) (d : Text)
    → RoundTrips json
    → save_to_file json made writes s ≡ ok d
    → load_from_file json (some d) t ≡ ok (restored s t)
unfolding save_to_file
load_from_file-save_to_file json made writes s t d h e = by_token s.refresh_token e
  where
    written : Text → Result SessionError Text
    written b = if not made then err create_directory else if writes b then ok b else err write_file

    by_write :
        (b : Text)
        → json.marshal (kept_of s) ≡ some b
        → (m w : Bool)
        → ◌≡◌ {A = Result SessionError Text}
            (if not m then err create_directory else if w then ok b else err write_file)
            (ok d)
        → load_from_file json (some d) t ≡ ok (restored s t)
    by_write b k true true q = load_kept json s t d (h (kept_of s) d (rw (k, ok-injective q)))
    by_write b k true false q = cc
    by_write b k false w q = cc

    by_marshal :
        (o : Option Text)
        → json.marshal (kept_of s) ≡ o
        → (or_error o marshal >>= written) ≡ ok d
        → load_from_file json (some d) t ≡ ok (restored s t)
    by_marshal none k q = cc
    by_marshal (some b) k q = by_write b k made (writes b) q

    by_token :
        (r : Text)
        → ◌≡◌ {A = Result SessionError Text}
            (elim r [
              | [] ↦ err no_refresh_token
              | r ∷ rs ↦ or_error (json.marshal (kept_of s)) marshal >>= written
            ])
            (ok d)
        → load_from_file json (some d) t ≡ ok (restored s t)
    by_token [] q = cc
    by_token (r ∷ rs) q = by_marshal (json.marshal (kept_of s)) refl q
