-- ===== src/Tests/Ids.antt =====
-- Identifiers at concrete inputs; the texts are those of the package's tests.
use steamstacks.Prelude.{
  ℕ, ◌+◌, ◌*◌, ◌/◌, ◌%◌, ◌^◌, ◌≡◌, refl, bit_or, [], ◌∷◌, ok, ◌==◌, if◌then◌else◌, arith,
}
use steamstacks.Prelude.Bytes.{Bytes}
use steamstacks.Prelude.Decimal.{format_uint, span_digits, parse_uint}
use steamstacks.SteamId.{set_type, set_instance}
use steamstacks.SteamId.Text.{
  to_steam2_id, to_steam3_id, to_string, from_string, from_steam2_id, from_steam3_id, scan_steam2,
  scan_field, match_literal, scan_uint32, scanned, skip_space, split_colon, trim, trim_left,
  atoi_u64,
}
use steamstacks.SteamId.Formats.{formats-read}
use steamstacks.SteamId.Fields.{setters-pack, pack}

abbrev the_id : ℕ
the_id = 76561197960287930

-- "STEAM_0:0:11101"
abbrev steam2_text : Bytes
steam2_text =
    83
    ∷ (84
        ∷ (69
            ∷ (65
                ∷ (77 ∷ (95 ∷ (48 ∷ (58 ∷ (48 ∷ (58 ∷ (49 ∷ (49 ∷ (49 ∷ (48 ∷ (49 ∷ []))))))))))))))

-- "[U:1:22202]"
abbrev steam3_text : Bytes
steam3_text = 91 ∷ (85 ∷ (58 ∷ (49 ∷ (58 ∷ (50 ∷ (50 ∷ (50 ∷ (48 ∷ (50 ∷ (93 ∷ []))))))))))

from_steam2_id_text : from_steam2_id steam2_text ≡ the_id
unfolding from_steam2_id scan_steam2 scan_field match_literal scan_uint32 scanned span_digits
    skip_space parse_uint
from_steam2_id_text = refl

from_steam3_id_text : from_steam3_id steam3_text ≡ the_id
unfolding from_steam3_id split_colon trim trim_left atoi_u64 parse_uint
from_steam3_id_text = refl

to_steam3_id_text : to_steam3_id the_id ≡ steam3_text
unfolding to_steam3_id format_uint
to_steam3_id_text = refl

formats-read_example :
    (from_string (to_string 76561197960287930) ≡ ok 76561197960287930)
    × (from_steam2_id (to_steam2_id 76561197960287930)
        ≡ pack
            (if 76561197960287930 / 2 ^ 56 == 0 then 1 else 76561197960287930 / 2 ^ 56)
            1
            1
            (76561197960287930 % 2 ^ 32))
    × (from_steam3_id (to_steam3_id 76561197960287930) ≡ pack 1 1 1 (76561197960287930 % 2 ^ 32))
formats-read_example = formats-read 76561197960287930 (omega arith)

setters-pack_example :
    (set_type (pack 1 1 1 22202) 19 ≡ pack (bit_or 1 (19 / 16 % 256)) (19 % 16) 1 22202)
    × (set_instance (pack 1 1 1 22202) 19
        ≡ (bit_or (1 * 16 + 1) (19 / 2 ^ 20) * 2 ^ 20 + 19 % 2 ^ 20) * 2 ^ 32 + 22202)
setters-pack_example =
    setters-pack 1 1 1 22202 19 (omega arith) (omega arith) (omega arith) (omega arith)
      (omega arith)
