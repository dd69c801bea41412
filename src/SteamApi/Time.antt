-- ===== src/SteamApi/Time.antt =====
-- steamapi/time.go: the time of Steam's servers. The offset from the local clock is left out.
use steamstacks.Prelude.{ℕ, Option, none, some, Result, ok, err, ◌==◌, if◌then◌else◌}
use steamstacks.Prelude.Ints.{ℤ}
use steamstacks.SteamCommunity.Texts.{Text}
use steamstacks.SteamCommunity.Http.{Answer}
use steamstacks.SteamApi.Json.{atoi}

pub data TimeError : Type 0 where
  no_answer : TimeError
  time_status : ℕ → TimeError
  decode_time : TimeError
  parse_time : TimeError

abbrev pub server_time : Option Text → Result TimeError ℤ
server_time none = err decode_time
server_time (some t) = elim (atoi t) [ none ↦ err parse_time | some n ↦ ok n ]

abbrev pub read_time : (Text → Option Text) → Option Text → Result TimeError ℤ
read_time server_time_field none = err decode_time
read_time server_time_field (some body) = server_time (server_time_field body)

-- `GetSteamTimeWithClient` at an answer. JSON gives the field server_time, a decimal number.
unfoldable pub get_steam_time : (Text → Option Text) → Option Answer → Result TimeError ℤ
get_steam_time server_time_field none = err no_answer
get_steam_time server_time_field (some a) =
    if a.status == 200 then read_time server_time_field a.body else err (time_status a.status)
