-- ===== src/SteamId/Text.antt =====
-- steamid/steamid.go: the text formats. A text is the list of its bytes; `fmt.Sscanf`,
-- `strconv`, `strings.Trim` and `strings.Split` are written out for the calls made here.
use steamstacks.Prelude.{
  ℕ, ◌+◌, ◌-◌, ◌*◌, ◌/◌, ◌%◌, ◌^◌, bit_and, bit_or, Bool, ◌||◌, List, [], ◌∷◌, ◌++◌, Option, none,
  some, Result, ok, err, ltb, ◌==◌, if◌then◌else◌,
}
use steamstacks.Prelude.Bytes.{Bytes}
use steamstacks.Prelude.Decimal.{NumError, syntax, range, format_uint, parse_uint, span_digits}
use steamstacks.SteamId.{shl64}
use mathlib.Core.List.{reverse}

abbrev pub max_u64 : ℕ
max_u64 = 2 ^ 64 - 1

-- "STEAM_"
abbrev pub steam_prefix : Bytes
steam_prefix = b'S' ∷ b'T' ∷ b'E' ∷ b'A' ∷ b'M' ∷ b'_' ∷ []

-- "[U:1:"
abbrev pub user_prefix : Bytes
user_prefix = b'[' ∷ b'U' ∷ b':' ∷ b'1' ∷ b':' ∷ []

-- `fmt.Sprintf("STEAM_%d:%d:%d", universe, y, z)`
unfoldable pub to_steam2_id : ℕ → Bytes
to_steam2_id s =
    let account = bit_and s 0xFFFFFFFF % 2 ^ 32 in
    steam_prefix
    ++ (format_uint (s / 2 ^ 56)
        ++ (b':' ∷ (format_uint (account % 2) ++ (b':' ∷ format_uint (account / 2)))))

-- `fmt.Sprintf("[U:1:%d]", accountID)`
unfoldable pub to_steam3_id : ℕ → Bytes
to_steam3_id s = user_prefix ++ (format_uint (bit_and s 0xFFFFFFFF % 2 ^ 32) ++ (b']' ∷ []))

-- `String`
unfoldable pub to_string : ℕ → Bytes
to_string s = format_uint s

-- `FromString`
unfoldable pub from_string : Bytes → Result NumError ℕ
from_string text = parse_uint max_u64 text

-- A literal part of a scan format; `none` when the input differs.
unfoldable pub match_literal : Bytes → Bytes → Option Bytes
match_literal [] s = some s
match_literal (c ∷ l) [] = none
match_literal (c ∷ l) (d ∷ s) = if c == d then match_literal l s else none

-- The blanks that a `%d` skips in front of its number (among the ASCII ones).
abbrev is_blank : ℕ → Bool
is_blank c = c == 32 || (c == 9 || (c == 11 || (c == 12 || c == 13)))

unfoldable pub skip_space : Bytes → Bytes
skip_space [] = []
skip_space (c ∷ s) = if is_blank c then skip_space s else c ∷ s

-- The number that a run of digits stands for, if there is one and it fits 32 bits.
unfoldable pub scanned : Bytes × Bytes → Option (ℕ × Bytes)
scanned ([], rest) = none
scanned (d ∷ ds, rest) = elim (parse_uint max_u64 (d ∷ ds)) [
  | ok n ↦ if ltb n (2 ^ 32) then some (n, rest) else none
  | _ ↦ none
]

-- `%d` into a `*uint32`.
unfoldable pub scan_uint32 : Bytes → Option (ℕ × Bytes)
scan_uint32 s = scanned (span_digits (skip_space s))

-- A literal, then `%d`: the number, or zero for a variable that the scan did not reach, and what
-- is left to read, if the scan goes on.
unfoldable pub scan_field : Bytes → Option Bytes → ℕ × Option Bytes
scan_field lit none = (0, none)
scan_field lit (some s) = elim (match_literal lit s) [
  | none ↦ (0, none)
  | some s' ↦ elim (scan_uint32 s') [ none ↦ (0, none) | some (n, rest) ↦ (n, some rest) ]
]

-- `uint64(universe)<<56 | uint64(1)<<52 | uint64(1)<<32 | x`
abbrev pub individual : ℕ → ℕ → ℕ
individual u x = bit_or (bit_or (bit_or (shl64 u 56) (2 ^ 52)) (2 ^ 32)) x

-- `fmt.Sscanf(id, "STEAM_%d:%d:%d", &universe, &mod, &accountID)`
unfoldable pub scan_steam2 : Bytes → ℕ × ℕ × ℕ
scan_steam2 id =
    let (u, s1) = scan_field steam_prefix (some id) in
    let (m, s2) = scan_field (b':' ∷ []) s1 in
    let (account, s3) = scan_field (b':' ∷ []) s2 in (u, m, account)

abbrev pub steam2_value : ℕ × ℕ × ℕ → ℕ
steam2_value (u, m, account) =
    individual (if u == 0 then 1 else u) ((account * 2 % 2 ^ 32 + m) % 2 ^ 32)

-- `FromSteam2ID`
unfoldable pub from_steam2_id : Bytes → ℕ
from_steam2_id id = steam2_value (scan_steam2 id)

-- `strings.Trim(s, "[]")`
abbrev pub is_bracket : ℕ → Bool
is_bracket c = c == b'[' || c == b']'

unfoldable pub trim_left : Bytes → Bytes
trim_left [] = []
trim_left (c ∷ s) = if is_bracket c then trim_left s else c ∷ s

unfoldable pub trim : Bytes → Bytes
trim s = reverse (trim_left (reverse (trim_left s)))

-- `strings.Split(s, ":")`
abbrev pub push_head : ℕ → List Bytes → List Bytes
push_head c [] = (c ∷ []) ∷ []
push_head c (p ∷ ps) = (c ∷ p) ∷ ps

unfoldable pub split_colon : Bytes → List Bytes
split_colon [] = [] ∷ []
split_colon (c ∷ s) = if c == b':' then [] ∷ split_colon s else push_head c (split_colon s)

-- `z, _ := strconv.Atoi(s)`, as `uint64(z)`. A number out of range is cut to the nearest `int`, and
-- other errors give zero.
abbrev pub magnitude : ℕ → Result NumError ℕ → ℕ
magnitude top (ok n) = if ltb top n then top else n
magnitude top (err syntax) = 0
magnitude top (err range) = top
magnitude top _ = 0

unfoldable pub atoi_u64 : Bytes → ℕ
atoi_u64 [] = 0
atoi_u64 (c ∷ s) =
    if c == b'-'
    then (2 ^ 64 - magnitude (2 ^ 63) (parse_uint max_u64 s)) % 2 ^ 64
    else if c == b'+'
    then magnitude (2 ^ 63 - 1) (parse_uint max_u64 s)
    else magnitude (2 ^ 63 - 1) (parse_uint max_u64 (c ∷ s))

abbrev third : List Bytes → Option Bytes
third (a ∷ b ∷ c ∷ []) = some c
third _ = none

-- `FromSteam3ID`
unfoldable pub from_steam3_id : Bytes → ℕ
from_steam3_id text = elim (third (split_colon (trim text))) [
  | none ↦ 0
  | some z ↦ individual 1 (atoi_u64 z)
]
