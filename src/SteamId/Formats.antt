-- ===== src/SteamId/Formats.antt =====
-- steamid/steamid.go: the three text formats of one identifier.
use steamstacks.Prelude.{ℕ, ◌/◌, ◌%◌, ◌^◌, ◌<◌, ◌≡◌, ok, ◌==◌, if◌then◌else◌}
use steamstacks.SteamId.Text.{
  to_steam2_id, from_steam2_id, to_steam3_id, from_steam3_id, to_string, from_string,
}
use steamstacks.SteamId.Fields.{pack}
use steamstacks.SteamId.RoundTrip.{from_steam2_id-to_steam2_id, from_string-to_string}
use steamstacks.SteamId.Steam3.{from_steam3_id-to_steam3_id}

-- Every 64-bit identifier is read back from its `String`. From its Steam2 text the universe, 0 as
-- 1, and the account are read back, from its Steam3 text the account alone; the other parts are
-- those of an individual, in the public universe for Steam3.
pub formats-read :
    (s : ℕ)
    → s < 2 ^ 64
    → (from_string (to_string s) ≡ ok s)
      × (from_steam2_id (to_steam2_id s)
          ≡ pack (if s / 2 ^ 56 == 0 then 1 else s / 2 ^ 56) 1 1 (s % 2 ^ 32))
      × (from_steam3_id (to_steam3_id s) ≡ pack 1 1 1 (s % 2 ^ 32))
formats-read s h =
    (from_string-to_string s h, from_steam2_id-to_steam2_id s h, from_steam3_id-to_steam3_id s)
