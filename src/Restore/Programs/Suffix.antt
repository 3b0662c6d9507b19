-- ===== src/Restore/Programs/Suffix.antt =====
-- The items that are left behind those that a handler has passed.
use live_update.Base.{
  ℕ, ◌≤◌, ◌<◌, ◌≡◌, refl, ◌⊎◌, inl, inr, List, [], ◌∷◌, arith, length, ◌==◌, Bool-cases,
}
use live_update.Machine.{ok}
use live_update.Entry.{type_marker}
use live_update.Storage.Items.{Item, type_of, id_of, total}
use live_update.Restore.Markers.{past_marker, pop_marker_id_spec}

pub data Suffix : List Item → List Item → Type 0 where
  here : {is : List Item} → Suffix is is
  skip : {i : Item} {rest is : List Item} → Suffix rest is → Suffix rest (i ∷ is)

pub Suffix-trans :
    {least less all : List Item} → Suffix least less → Suffix less all → Suffix least all
Suffix-trans s here = s
Suffix-trans s (skip t) = skip (Suffix-trans s t)

pub Suffix-nil : (is : List Item) → Suffix [] is
Suffix-nil [] = here
Suffix-nil (i ∷ is) = skip (Suffix-nil is)

pub Suffix-length : {rest is : List Item} → Suffix rest is → length rest ≤ length is
Suffix-length here = omega arith
Suffix-length (skip s) = omega (arith, Suffix-length s)

total-Suffix : {rest is : List Item} → Suffix rest is → total rest ≤ total is
total-Suffix here = omega arith
total-Suffix (skip s) = omega (arith, total-Suffix s)

-- Either nothing is passed, or both the number of items and their size are less.
pub Suffix-cases :
    {rest is : List Item}
    → Suffix rest is
    → (rest ≡ is) ⊎ ((length rest < length is) × (total rest < total is))
Suffix-cases here = inl refl
Suffix-cases (skip s) = inr (omega (arith, Suffix-length s), omega (arith, total-Suffix s))

pub past_marker-Suffix : (is : List Item) → Suffix (past_marker is).1 is
past_marker-Suffix [] = here
past_marker-Suffix (i ∷ is) = elim (Bool-cases (type_of i == type_marker)) [
  | inl hit ↦ rw hit (skip here)
  | inr miss ↦ rw miss (skip (past_marker-Suffix is))
]

pub pop_marker_id_spec-Suffix :
    (id : ℕ) (is rest : List Item) → pop_marker_id_spec id is ≡ ok rest → Suffix rest is
pop_marker_id_spec-Suffix id [] rest e = let same : [] ≡ rest = cc in rw (← same) here
pop_marker_id_spec-Suffix id (i ∷ is) rest e = elim (Bool-cases (type_of i == type_marker)) [
  | inl hit ↦ elim (Bool-cases (id_of i == id)) [
    | inl same ↦
        let at_rest : ok is ≡ ok rest = rw (hit, same) at e in
        let tail : is ≡ rest = cc in rw (← tail) (skip here)
    | inr other ↦ let clash = rw (hit, other) at e in absurd cc
  ]
  | inr miss ↦ skip (pop_marker_id_spec-Suffix id is rest (rw miss at e))
]
