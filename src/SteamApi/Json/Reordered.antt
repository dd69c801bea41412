-- ===== src/SteamApi/Json/Reordered.antt =====
-- The orders of a list, and that sorting numbers forgets them.
use steamstacks.Prelude.{ℕ, suc, ◌≡◌, refl, ap, ◌∙◌, List, [], ◌∷◌, arith, All}
use steamstacks.Prelude.Ints.{ℤ, pos, negsuc}
use steamstacks.SteamApi.Json.{before, insert_int, sort_ints}

insert_int_comm :
    (a b : ℤ) (l : List ℤ) → insert_int a (insert_int b l) ≡ insert_int b (insert_int a l)
unfolding insert_int before
insert_int_comm (pos a) (pos b) [] = ground arith
insert_int_comm (pos a) (negsuc b) [] = refl
insert_int_comm (negsuc a) (pos b) [] = refl
insert_int_comm (negsuc a) (negsuc b) [] = ground arith
insert_int_comm (pos a) (pos b) (pos x ∷ l) =
    let ih = insert_int_comm (pos a) (pos b) l in ground arith
insert_int_comm (pos a) (pos b) (negsuc x ∷ l) =
    ap (λ t. negsuc x ∷ t) (insert_int_comm (pos a) (pos b) l)
insert_int_comm (pos a) (negsuc b) (pos x ∷ l) = ground arith
insert_int_comm (pos a) (negsuc b) (negsuc x ∷ l) =
    let ih = insert_int_comm (pos a) (negsuc b) l in ground arith
insert_int_comm (negsuc a) (pos b) (pos x ∷ l) = ground arith
insert_int_comm (negsuc a) (pos b) (negsuc x ∷ l) =
    let ih = insert_int_comm (negsuc a) (pos b) l in ground arith
insert_int_comm (negsuc a) (negsuc b) (pos x ∷ l) = ground arith
insert_int_comm (negsuc a) (negsuc b) (negsuc x ∷ l) =
    let ih = insert_int_comm (negsuc a) (negsuc b) l in ground arith

-- The orders in which a list can be gone through.
pub data Reordered {ℓ} {A : Type ℓ} : List A → List A → Type ℓ where
  done : Reordered [] []
  keep : (x : A) (l m : List A) → Reordered l m → Reordered (x ∷ l) (x ∷ m)
  swap : (x y : A) (l : List A) → Reordered (x ∷ (y ∷ l)) (y ∷ (x ∷ l))
  chain : (l m n : List A) → Reordered l m → Reordered m n → Reordered l n

pub All-Reordered {ℓ κ} :
    {A : Type ℓ} (P : A → Type κ) (l m : List A) → Reordered l m → All P l → All P m
All-Reordered P l m done h = tt
All-Reordered P l m (keep x a b r) h = (h.0, All-Reordered P a b r h.1)
All-Reordered P l m (swap x y a) h = (h.1.0, (h.0, h.1.1))
All-Reordered P l m (chain a b c r s) h = All-Reordered P b c s (All-Reordered P a b r h)

pub All-Reordered_back {ℓ κ} :
    {A : Type ℓ} (P : A → Type κ) (l m : List A) → Reordered l m → All P m → All P l
All-Reordered_back P l m done h = tt
All-Reordered_back P l m (keep x a b r) h = (h.0, All-Reordered_back P a b r h.1)
All-Reordered_back P l m (swap x y a) h = (h.1.0, (h.0, h.1.1))
All-Reordered_back P l m (chain a b c r s) h =
    All-Reordered_back P a b r (All-Reordered_back P b c s h)

-- Numbered values, from a number on.
abbrev pub numbered_from {ℓ} : {V : Type ℓ} → ℕ → List V → List (ℕ × V)
numbered_from n [] = []
numbered_from n (v ∷ vs) = (n, v) ∷ numbered_from (suc n) vs

abbrev pub indices {ℓ} : {V : Type ℓ} → List (ℕ × V) → List ℤ
indices [] = []
indices ((i, v) ∷ ps) = pos i ∷ indices ps

pub sort_ints-Reordered {ℓ} :
    {V : Type ℓ} (l m : List (ℕ × V))
    → Reordered l m
    → sort_ints (indices l) ≡ sort_ints (indices m)
unfolding sort_ints
sort_ints-Reordered l m done = refl
sort_ints-Reordered l m (keep (i, v) a b r) = ap (insert_int (pos i)) (sort_ints-Reordered a b r)
sort_ints-Reordered l m (swap (i, v) (j, w) a) =
    insert_int_comm (pos i) (pos j) (sort_ints (indices a))
sort_ints-Reordered l m (chain a b c r s) = sort_ints-Reordered a b r ∙ sort_ints-Reordered b c s

pub sort_ints_numbered {ℓ} :
    {V : Type ℓ} (vs : List V) (n : ℕ)
    → sort_ints (indices (numbered_from n vs)) ≡ indices (numbered_from n vs)
unfolding sort_ints insert_int before
sort_ints_numbered [] n = refl
sort_ints_numbered (v ∷ []) n = refl
sort_ints_numbered (v ∷ (w ∷ vs)) n =
    ap (insert_int (pos n)) (sort_ints_numbered (w ∷ vs) (suc n)) ∙ ground arith
