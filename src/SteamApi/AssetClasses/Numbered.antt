-- ===== src/SteamApi/AssetClasses/Numbered.antt =====
-- The parameters of a request: its keys, each with the number of its place.
use steamstacks.Prelude.{
  ℕ, zero, suc, ◌+◌, ◌≡◌, refl, List, [], ◌∷◌, Option, none, some, arith, length, get_elem?,
}
use steamstacks.Prelude.Ints.{ℤ}
use steamstacks.SteamCommunity.Texts.{Text}
use steamstacks.SteamApi.AssetClasses.{
  AssetClassKey, ClassParam, ClassRequest, instance_param, params_from, class_request,
}

-- An instance is named only where there is one.
abbrev named : Text → Option Text
named [] = none
named (r ∷ s) = some (r ∷ s)

abbrev at_number : ℕ → Option AssetClassKey → Option ClassParam
at_number i none = none
at_number i (some k) =
    some (record { number = i; class_id = k.class_id; instance_id = named k.instance_id })

-- A request for these keys: their count, and at each place the key of this place with its number.
pub record Describes (app_id : ℤ) (part : List AssetClassKey) (r : ClassRequest) : Type 0 where
  pub app : r.app_id ≡ app_id
  pub count : r.class_count ≡ length part
  pub numbered : (i : ℕ) → get_elem? r.classes i ≡ at_number i (get_elem? part i)

-- The requests describe the parts one by one.
abbrev pub Requests : ℤ → List (List AssetClassKey) → List ClassRequest → Type 0
Requests app_id [] [] = Unit
Requests app_id [] (r ∷ rs) = ⊥
Requests app_id (part ∷ parts) [] = ⊥
Requests app_id (part ∷ parts) (r ∷ rs) = Describes app_id part r × Requests app_id parts rs

named-instance_param : (t : Text) → instance_param t ≡ named t
named-instance_param [] = refl
named-instance_param (r ∷ s) = refl

params_from_numbered :
    (n m : ℕ) (ks : List AssetClassKey) (i : ℕ)
    → m ≡ n + i
    → get_elem? (params_from n ks) i ≡ at_number m (get_elem? ks i)
unfolding params_from
params_from_numbered n m [] i e = refl
params_from_numbered n m (k ∷ ks) zero e =
    let same : m ≡ n = omega (arith, e) in rw (same, named-instance_param k.instance_id) refl
params_from_numbered n m (k ∷ ks) (suc i) e = params_from_numbered (suc n) m ks i (omega (arith, e))

pub class_request-Describes :
    (app_id : ℤ) (part : List AssetClassKey) → Describes app_id part (class_request app_id part)
class_request-Describes app_id part = record {
  app = refl;
  count = refl;
  numbered = λ i. params_from_numbered 0 i part i (omega arith);
}
