-- ===== src/SteamCommunity/Texts.antt =====
-- Texts as lists of runes, and what the package uses of Go's strings and strconv.
pub mod Equal
use steamstacks.Prelude.{
  ℕ, Bool, true, false, ◌&&◌, ◌||◌, List, [], ◌∷◌, ◌++◌, Option, none, some, leb, ◌==◌,
  if◌then◌else◌,
}

abbrev pub Text : Type 0
Text = List ℕ

-- `unicode.IsSpace`
unfoldable pub is_space : ℕ → Bool
is_space r =
    r == 32
    || (leb 9 r && leb r 13)
    || r == 0x85
    || r == 0xA0
    || r == 0x1680
    || (leb 0x2000 r && leb r 0x200A)
    || r == 0x2028
    || r == 0x2029
    || r == 0x202F
    || r == 0x205F
    || r == 0x3000

unfoldable pub text_eq : Text → Text → Bool
text_eq [] [] = true
text_eq [] (y ∷ ys) = false
text_eq (x ∷ xs) [] = false
text_eq (x ∷ xs) (y ∷ ys) = x == y && text_eq xs ys

unfoldable pub has_prefix : Text → Text → Bool
has_prefix s [] = true
has_prefix [] (p ∷ ps) = false
has_prefix (r ∷ s) (p ∷ ps) = r == p && has_prefix s ps

-- `s[strings.Index(s, sub):]`: the text from the first occurrence on.
unfoldable pub from_index : Text → Text → Option Text
from_index [] sub = if has_prefix [] sub then some [] else none
from_index (r ∷ s) sub =
    let rest = from_index s sub in if has_prefix (r ∷ s) sub then some (r ∷ s) else rest

-- `strings.Contains`
unfoldable pub contains : Text → Text → Bool
contains s sub = elim (from_index s sub) [ none ↦ false | some t ↦ true ]

-- `strings.TrimSpace(s) == ""`
unfoldable pub blank : Text → Bool
blank [] = true
blank (r ∷ s) = is_space r && blank s

-- `strings.TrimSpace`
unfoldable pub trim_left_space : Text → Text
trim_left_space [] = []
trim_left_space (r ∷ s) = let rest = trim_left_space s in if is_space r then rest else r ∷ s

unfoldable pub trim_right_space : Text → Text
trim_right_space [] = []
trim_right_space (r ∷ s) =
    let rest = trim_right_space s in if is_space r && blank s then [] else r ∷ rest

abbrev pub trim_space : Text → Text
trim_space s = trim_right_space (trim_left_space s)

-- `strings.Fields`, from the beginning of the word that is being read.
unfoldable pub fields_from : Text → Text → List Text
fields_from [] [] = []
fields_from (w ∷ ws) [] = (w ∷ ws) ∷ []
fields_from word (r ∷ s) = elim (is_space r) [
  | true ↦ elim word [ [] ↦ fields_from [] s | w ∷ ws ↦ (w ∷ ws) ∷ fields_from [] s ]
  | false ↦ fields_from (word ++ (r ∷ [])) s
]

-- `strings.Join(words, " ")`
unfoldable pub join_space : List Text → Text
join_space [] = []
join_space (w ∷ []) = w
join_space (w ∷ (v ∷ ws)) = w ++ (32 ∷ join_space (v ∷ ws))
