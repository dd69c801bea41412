-- ===== src/SteamCommunity/Texts/Equal.antt =====
-- The test of two texts for equality.
use steamstacks.Prelude.{◌≡◌, refl, Bool, true, false, ◌&&◌, [], ◌∷◌, ◌==◌, ==_iff, ==_refl}
use steamstacks.SteamCommunity.Texts.{Text, text_eq}

pub text_eq_refl : (s : Text) → text_eq s s ≡ true
unfolding text_eq
text_eq_refl [] = refl
text_eq_refl (x ∷ xs) = rw (==_refl x, text_eq_refl xs) refl

pub text_eq-eq : (a b : Text) → text_eq a b ≡ true → a ≡ b
unfolding text_eq
text_eq-eq [] [] e = refl
text_eq-eq [] (y ∷ ys) e = cc
text_eq-eq (x ∷ xs) [] e = cc
text_eq-eq (x ∷ xs) (y ∷ ys) e =
    both (x == y) (text_eq xs ys) (λ h. (==_iff x y).0 h) (λ k. text_eq-eq xs ys k) e
  where
    both :
        (b c : Bool)
        → (b ≡ true → x ≡ y)
        → (c ≡ true → xs ≡ ys)
        → (b && c) ≡ true
        → (x ∷ xs) ≡ (y ∷ ys)
    both true true h k q = rw (h refl, k refl) refl
    both true false h k q = cc
    both false c h k q = cc
