-- ===== src/Tf2/Cache/Keys.antt =====
-- The cache as a map: what is found after an insertion or a deletion, and keys that are the items'.
use steamstacks.Prelude.{
  ℕ, ◌≡◌, ◌≢◌, refl, sym, ap, ◌∙◌, false, List, [], ◌∷◌, none, some, ◌==◌, ==_iff, ==_refl, ==_ne,
  Bool-cases, inl, inr, arith,
}
use steamstacks.Tf2.Item.{Item}
use steamstacks.Tf2.Cache.{lookup, insert, delete}

-- Each item stands under its own ID, and no ID stands twice.
pub Keyed : List (ℕ × Item) → Type 0
Keyed [] = Unit {0}
Keyed (e ∷ es) = (e.1.id ≡ e.0) × (lookup e.0 es ≡ none) × Keyed es

pub Keyed-empty : Keyed []
unfolding Keyed
Keyed-empty = tt

pub lookup-insert :
    (id : ℕ) (it : Item) (es : List (ℕ × Item)) → lookup id (insert id it es) ≡ some it
unfolding lookup insert
lookup-insert id it [] = rw (==_refl id) refl
lookup-insert id it (e ∷ es) = elim (Bool-cases (e.0 == id)) [
  | inl h ↦ rw (h, ==_refl id) refl
  | inr h ↦ rw (h, h) (lookup-insert id it es)
]

pub lookup-insert_other :
    (id other : ℕ) (it : Item) (es : List (ℕ × Item))
    → id ≢ other
    → lookup other (insert id it es) ≡ lookup other es
unfolding lookup insert
lookup-insert_other id other it [] h = rw (==_ne id other h) refl
lookup-insert_other id other it (e ∷ es) h = elim (Bool-cases (e.0 == id)) [
  | inl k ↦
      let same : e.0 ≡ id = (==_iff e.0 id).0 k in
      rw (k, ==_ne id other h, same, ==_ne id other h) refl
  | inr k ↦ rw (k, lookup-insert_other id other it es h) refl
]

pub lookup-delete : (id : ℕ) (es : List (ℕ × Item)) → lookup id (delete id es) ≡ none
unfolding lookup delete
lookup-delete id [] = refl
lookup-delete id (e ∷ es) = elim (Bool-cases (e.0 == id)) [
  | inl h ↦ rw h (lookup-delete id es)
  | inr h ↦ rw (h, h) (lookup-delete id es)
]

pub lookup-delete_other :
    (id other : ℕ) (es : List (ℕ × Item))
    → id ≢ other
    → lookup other (delete id es) ≡ lookup other es
unfolding lookup delete
lookup-delete_other id other [] h = refl
lookup-delete_other id other (e ∷ es) h = elim (Bool-cases (e.0 == id)) [
  | inl k ↦
      let same : e.0 ≡ id = (==_iff e.0 id).0 k in
      rw (k, same, ==_ne id other h) (lookup-delete_other id other es h)
  | inr k ↦ rw (k, lookup-delete_other id other es h) refl
]

differ : (a b : ℕ) → (a == b) ≡ false → b ≢ a
differ a b h q = ground arith

pub insert-Keyed : (it : Item) (es : List (ℕ × Item)) → Keyed es → Keyed (insert it.id it es)
unfolding Keyed lookup insert
insert-Keyed it [] h = (refl, refl, tt)
insert-Keyed it (e ∷ es) h = elim (Bool-cases (e.0 == it.id)) [
  | inl k ↦
      let same : e.0 ≡ it.id = (==_iff e.0 it.id).0 k in
      rw k (refl, ap (λ n. lookup n es) (sym same) ∙ h.1, h.2)
  | inr k ↦
      rw k (
        h.0,
        lookup-insert_other it.id e.0 it es (differ e.0 it.id k) ∙ h.1,
        insert-Keyed it es h.2,
      )
]

pub delete-Keyed : (id : ℕ) (es : List (ℕ × Item)) → Keyed es → Keyed (delete id es)
unfolding Keyed lookup delete
delete-Keyed id [] h = tt
delete-Keyed id (e ∷ es) h = elim (Bool-cases (e.0 == id)) [
  | inl k ↦ rw k (delete-Keyed id es h.2)
  | inr k ↦
      rw k (h.0, lookup-delete_other id e.0 es (differ e.0 id k) ∙ h.1, delete-Keyed id es h.2)
]
