-- ===== src/SteamCommunity/Market/Shown.antt =====
-- `firstInnerText` against a description of the page: behind the marker's tag there is white space
-- and further tags, then a text that is shown, up to the next tag or the end of the page.
use steamstacks.Prelude.{
  ℕ, ◌≡◌, ◌≢◌, refl, sym, ap, ◌∙◌, Bool, true, false, not, ◌&&◌, List, [], ◌∷◌, ◌++◌, Option, none,
  some, ◌==◌, ==_ne, All, append_assoc, append-nil,
}
use steamstacks.SteamCommunity.Texts.{
  Text, is_space, from_index, blank, fields_from, join_space, trim_space,
}
use steamstacks.SteamCommunity.Market.{
  normalize_whitespace, visible_run, behind_gt, first_inner_text,
}

-- White space and tags, `<` being 60 and `>` 62.
pub data Skipped : Text → Type 0 where
  nothing : Skipped []
  space : (r : ℕ) (s : Text) → is_space r ≡ true → r ≢ 60 → Skipped s → Skipped (r ∷ s)
  tag :
      (inside s : Text) → All (λ r. r ≢ 62) inside → Skipped s → Skipped (60 ∷ (inside ++ (62 ∷ s)))

-- The end of a text that is shown.
pub data Stops : Text → Type 0 where
  at_end : Stops []
  at_tag : (s : Text) → Stops (60 ∷ s)

blank_nil : blank [] ≡ true
unfolding blank
blank_nil = refl

blank-append : (a b : Text) → blank a ≡ true → blank (a ++ b) ≡ blank b
unfolding blank
blank-append [] b h = refl
blank-append (r ∷ a) b h = go (is_space r) (blank a) h (λ k. blank-append a b k)
  where
    go :
        (v w : Bool)
        → (v && w) ≡ true
        → (w ≡ true → blank (a ++ b) ≡ blank b)
        → (v && blank (a ++ b)) ≡ blank b
    go true true e k = k refl
    go true false e k = cc
    go false w e k = cc

blank_one : (r : ℕ) → is_space r ≡ true → blank (r ∷ []) ≡ true
unfolding blank
blank_one r e = rw e refl

-- The step of the loop outside of tags.
step_text :
    (b : Text) (r : ℕ) (s : Text)
    → r ≢ 60
    → visible_run false b (r ∷ s) ≡ visible_run false (b ++ (r ∷ [])) s
unfolding visible_run
step_text b r s h = go (r == 60) (==_ne r 60 h)
  where
    go :
        (v : Bool)
        → v ≡ false
        → elim v as (λ _. Text) [
          | true ↦ elim (blank b) [ true ↦ visible_run true [] s | false ↦ b ]
          | false ↦ visible_run false (b ++ (r ∷ [])) s
        ]
          ≡ visible_run false (b ++ (r ∷ [])) s
    go true e = cc
    go false e = refl

collect :
    (v rest b : Text)
    → All (λ r. r ≢ 60) v
    → visible_run false b (v ++ rest) ≡ visible_run false (b ++ v) rest
collect [] rest b h = ap (λ x. visible_run false x rest) (sym (append-nil b))
collect (r ∷ v) rest b h =
    step_text b r (v ++ rest) h.0
    ∙ (collect v rest (b ++ (r ∷ [])) h.1
        ∙ ap (λ x. visible_run false x rest) (append_assoc b (r ∷ []) v))

open_tag :
    (b s : Text) (v : Bool)
    → blank b ≡ v
    → visible_run false b (60 ∷ s) ≡ (elim v [ true ↦ visible_run true [] s | false ↦ b ])
unfolding visible_run
open_tag b s v e = ap (λ w. elim w as (λ _. Text) [ true ↦ visible_run true [] s | false ↦ b ]) e

leave_tag :
    (inside s : Text)
    → All (λ r. r ≢ 62) inside
    → visible_run true [] (inside ++ (62 ∷ s)) ≡ visible_run false [] s
unfolding visible_run
leave_tag [] s h = refl
leave_tag (r ∷ inside) s h =
    ap (λ v. visible_run (not v) [] (inside ++ (62 ∷ s))) (==_ne r 62 h.0) ∙ leave_tag inside s h.1

-- What is skipped leaves only white space behind.
skip :
    (s rest b : Text)
    → Skipped s
    → blank b ≡ true
    → (b' : Text) × (blank b' ≡ true)
      × (visible_run false b (s ++ rest) ≡ visible_run false b' rest)
skip _ rest b nothing h = (b, h, refl)
skip _ rest b (space r s white ne k) h =
    let more : blank (b ++ (r ∷ [])) ≡ true = blank-append b (r ∷ []) h ∙ blank_one r white in
    let (b', h', e) = skip s rest (b ++ (r ∷ [])) k more in
    (b', h', step_text b r (s ++ rest) ne ∙ e)
skip _ rest b (tag inside s clean k) h =
    let (b', h', e) = skip s rest [] k blank_nil in
    (
      b',
      h',
      open_tag b ((inside ++ (62 ∷ s)) ++ rest) true h
          ∙ (ap (visible_run true []) (append_assoc inside (62 ∷ s) rest)
              ∙ (leave_tag inside (s ++ rest) clean ∙ e)),
    )

stop : (rest b : Text) → Stops rest → blank b ≡ false → visible_run false b rest ≡ b
unfolding visible_run
stop _ b at_end h = refl
stop _ b (at_tag s) h = open_tag b s false h

-- White space in front of a text does not matter.
fields_behind_space : (b v : Text) → blank b ≡ true → fields_from [] (b ++ v) ≡ fields_from [] v
unfolding blank fields_from
fields_behind_space [] v h = refl
fields_behind_space (r ∷ b) v h = go (is_space r) (blank b) h (λ k. fields_behind_space b v k)
  where
    go :
        (w x : Bool)
        → (w && x) ≡ true
        → (x ≡ true → fields_from [] (b ++ v) ≡ fields_from [] v)
        → elim w as (λ _. List Text) [
          | true ↦ fields_from [] (b ++ v)
          | false ↦ fields_from (r ∷ []) (b ++ v)
        ]
          ≡ fields_from [] v
    go true true e k = k refl
    go true false e k = cc
    go false x e k = cc

normalize_behind_space :
    (b v : Text) → blank b ≡ true → normalize_whitespace (b ++ v) ≡ normalize_whitespace v
unfolding normalize_whitespace
normalize_behind_space b v h =
    ap (λ words. trim_space (join_space words)) (fields_behind_space b v h)

behind_gt-opening :
    (opening rest : Text)
    → All (λ r. r ≢ 62) opening
    → behind_gt (opening ++ (62 ∷ rest)) ≡ some rest
unfolding behind_gt
behind_gt-opening [] rest h = refl
behind_gt-opening (r ∷ opening) rest h = rw (==_ne r 62 h.0) (behind_gt-opening opening rest h.1)

text_found :
    (html marker sub inner : Text)
    → from_index html marker ≡ some sub
    → behind_gt sub ≡ some inner
    → first_inner_text html marker ≡ normalize_whitespace (visible_run false [] inner)
unfolding first_inner_text
text_found html marker sub inner e q =
    ap (λ o. elim o as (λ _. Text) [ none ↦ [] | some x ↦ inner_text (behind_gt x) ]) e
    ∙ ap inner_text q
  where
    inner_text : Option Text → Text
    inner_text o = elim o [ none ↦ [] | some x ↦ normalize_whitespace (visible_run false [] x) ]

-- If the first occurrence of the marker is followed by the rest of its tag, by white space and
-- further tags, and then by a text without `<` that is not only white space, up to a `<` or the end
-- of the page, then `firstInnerText` gives this text, its white space collapsed.
pub first_inner_text-shown :
    (html marker opening skipped shown rest : Text)
    → from_index html marker ≡ some (opening ++ (62 ∷ (skipped ++ (shown ++ rest))))
    → All (λ r. r ≢ 62) opening
    → Skipped skipped
    → All (λ r. r ≢ 60) shown
    → blank shown ≡ false
    → Stops rest
    → first_inner_text html marker ≡ normalize_whitespace shown
first_inner_text-shown html marker opening skipped shown rest found clean skips plain visible
      stops =
    let inner = skipped ++ (shown ++ rest) in
    let (b, is_blank, e) = skip skipped (shown ++ rest) [] skips blank_nil in
    let run : visible_run false [] inner ≡ b ++ shown =
      e
      ∙ (collect shown rest b plain
          ∙ stop rest (b ++ shown) stops (blank-append b shown is_blank ∙ visible)) in
    text_found html marker (opening ++ (62 ∷ inner)) inner found
      (behind_gt-opening opening inner clean)
    ∙ (ap normalize_whitespace run ∙ normalize_behind_space b shown is_blank)
