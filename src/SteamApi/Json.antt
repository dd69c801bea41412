-- ===== src/SteamApi/Json.antt =====
-- steamapi/assetclassinfo.go: the shapes in which the answer writes flags and lists.
pub mod Reordered
pub mod Ordered
use steamstacks.Prelude.{
  ℕ, zero, suc, Bool, true, false, not, ◌&&◌, List, [], ◌∷◌, Option, none, some, Result, ok, err,
  panic, stuck, ltb, ◌==◌, ◌^◌, ◌-◌, if◌then◌else◌,
}
use steamstacks.Prelude.Ints.{ℤ, pos, negsuc}
use steamstacks.Prelude.Decimal.{parse_uint}
use steamstacks.SteamCommunity.Texts.{Text, text_eq}

-- A map: the first entry of a key counts.
abbrev pub TextMap {ℓ} : Type ℓ → Type ℓ
TextMap V = List (Text × V)

unfoldable pub get {ℓ} : {V : Type ℓ} → Text → TextMap V → Option V
get k [] = none
get k ((l, v) ∷ m) = let rest = get k m in if text_eq l k then some v else rest

abbrev pub put {ℓ} : {V : Type ℓ} → Text → V → TextMap V → TextMap V
put k v m = (k, v) ∷ m

-- "0", "1", "false"
abbrev pub zero_text : Text
zero_text = 48 ∷ []

abbrev pub one_text : Text
one_text = 49 ∷ []

abbrev pub false_text : Text
false_text = 102 ∷ (97 ∷ (108 ∷ (115 ∷ (101 ∷ []))))

-- `strings.Trim` of double quotes, 34.
unfoldable pub trim_left_quotes : Text → Text
trim_left_quotes [] = []
trim_left_quotes (r ∷ s) = let rest = trim_left_quotes s in if r == 34 then rest else r ∷ s

unfoldable pub all_quotes : Text → Bool
all_quotes [] = true
all_quotes (r ∷ s) = r == 34 && all_quotes s

unfoldable pub trim_right_quotes : Text → Text
trim_right_quotes [] = []
trim_right_quotes (r ∷ s) =
    let rest = trim_right_quotes s in if r == 34 && all_quotes s then [] else r ∷ rest

abbrev empty : Text → Bool
empty [] = true
empty (r ∷ s) = false

-- `flagToBool` of the raw JSON: a Boolean, a number, or a text.
unfoldable pub flag_to_bool : Text → Bool
flag_to_bool [] = false
flag_to_bool (r ∷ s) =
    let quoted = trim_right_quotes (trim_left_quotes (r ∷ s)) in
    if r == 116
    then true
    else if r == 102
    then false
    else if r == 34
    then not (empty quoted) && (not (text_eq quoted zero_text) && not (text_eq quoted false_text))
    else not (text_eq (r ∷ s) zero_text)

abbrev checked : {A : Type 0} → Result A ℕ → (ℕ → ℤ) → Option ℤ
checked (ok n) f = some (f n)
checked (err e) f = none
checked panic f = none
checked stuck f = none

abbrev negated : ℕ → ℤ
negated zero = pos 0
negated (suc n) = negsuc n

-- `strconv.Atoi`: a sign, 43 or 45, may stand before the digits, and the number has to fit 64 bits.
unfoldable pub atoi : Text → Option ℤ
atoi [] = none
atoi (r ∷ s) =
    if r == 43
    then checked (parse_uint (2 ^ 63 - 1) s) pos
    else if r == 45
    then checked (parse_uint (2 ^ 63) s) negated
    else checked (parse_uint (2 ^ 63 - 1) (r ∷ s)) pos

unfoldable pub before : ℤ → ℤ → Bool
before (pos m) (pos n) = ltb m n
before (pos m) (negsuc n) = false
before (negsuc m) (pos n) = true
before (negsuc m) (negsuc n) = ltb n m

unfoldable pub int_eq : ℤ → ℤ → Bool
int_eq (pos m) (pos n) = m == n
int_eq (pos m) (negsuc n) = false
int_eq (negsuc m) (pos n) = false
int_eq (negsuc m) (negsuc n) = m == n

-- `sort.Ints`
unfoldable pub insert_int : ℤ → List ℤ → List ℤ
insert_int n [] = n ∷ []
insert_int n (m ∷ ms) = let rest = insert_int n ms in if before m n then m ∷ rest else n ∷ (m ∷ ms)

unfoldable pub sort_ints : List ℤ → List ℤ
sort_ints [] = []
sort_ints (n ∷ ns) = insert_int n (sort_ints ns)

-- The keys that are numbers, in the order in which the map gives them.
unfoldable pub index_keys {ℓ} : {V : Type ℓ} → TextMap V → List ℤ
index_keys [] = []
index_keys ((k, v) ∷ m) = elim (atoi k) [ none ↦ index_keys m | some n ↦ n ∷ index_keys m ]

-- The value under the last key that is this number: a later key replaces an earlier in `idx`.
unfoldable pub at_index {ℓ} : {V : Type ℓ} → ℤ → TextMap V → Option V
at_index n [] = none
at_index n ((k, v) ∷ m) = elim (at_index n m) [
  | some w ↦ some w
  | none ↦ elim (atoi k) [ none ↦ none | some i ↦ if int_eq i n then some v else none ]
]

unfoldable pub values_at {ℓ} : {V : Type ℓ} → List ℤ → TextMap V → List V
values_at [] m = []
values_at (n ∷ ns) m = elim (at_index n m) [ none ↦ values_at ns m | some v ↦ v ∷ values_at ns m ]

-- `mapByIndexKey` of a map whose entries `range` gives in this order, each key once.
unfoldable pub map_by_index_key {ℓ} : {V : Type ℓ} → TextMap V → List V
map_by_index_key m = values_at (sort_ints (index_keys m)) m

-- JSON at arrays and objects of one type. An array that cannot be decoded leaves what was decoded.
pub record Shapes (V : Type 0) : Type 0 where
  pub array : Text → List V
  pub object : Text → Option (TextMap V)

-- `decodeIndexedTags` and its likes: an array, from 91, or an object, from 123, keyed by numbers.
unfoldable pub decode_indexed : {V : Type 0} → Shapes V → Text → List V
decode_indexed j [] = []
decode_indexed {V} j (r ∷ s) =
    let from_object : List V = elim (j.object (r ∷ s)) [
      | none ↦ []
      | some m ↦ map_by_index_key m
    ] in
    if r == 91 then j.array (r ∷ s) else if r == 123 then from_object else []
