-- ===== src/Restore/Markers.antt =====
-- Skipping entries: to the first marker, behind it, and to the end.
use mathlib.Core.Path.{subst}
use native.Mathlib.Nat.{add_assoc}
use live_update.Base.{
  ℕ, zero, suc, ◌+◌, ◌<◌, ◌≡◌, refl, ◌∙◌, inl, inr, true, false, List, [], ◌∷◌, arith, eq→==, ne→==,
  ◌==◌, if◌then◌else◌, Bool-cases, length,
}
use live_update.Memory.{Ptr, Mem}
use live_update.Machine.{Run, ok, throw, another_marker, aborted, starved}
use live_update.Entry.{type_marker}
use live_update.Storage.Items.{Item, type_of, id_of, body, total}
use live_update.Restore.{
  get_type, get_id, is_end, is_marker, skip_to_marker, pop_marker, pop_marker_id, cancel,
}
use live_update.Restore.Walk.{IsRest, go_next-cons, end-nil}

-- The items from the first marker on, and what lies behind that marker, with its id; without a marker,
-- nothing and 0.
abbrev pub from_marker : List Item → List Item
from_marker [] = []
from_marker (i ∷ is) = if type_of i == type_marker then i ∷ is else from_marker is

abbrev pub past_marker : List Item → ℕ × List Item
past_marker [] = (0, [])
past_marker (i ∷ is) = if type_of i == type_marker then (id_of i, is) else past_marker is

data FirstMarker (is : List Item) : Type 0 where
  absent : from_marker is ≡ [] → past_marker is ≡ (0, []) → FirstMarker is
  found :
      (i : Item) (rest : List Item)
      → from_marker is ≡ i ∷ rest
      → past_marker is ≡ (id_of i, rest)
      → type_of i ≡ type_marker
      → FirstMarker is

first_marker : (is : List Item) → FirstMarker is
first_marker [] = absent refl refl
first_marker (i ∷ is) = elim (Bool-cases (type_of i == type_marker)) [
  | inl hit ↦ found i is (rw hit) (rw hit) (ground arith)
  | inr miss ↦ elim (first_marker is) [
    | absent a b ↦ absent (rw miss a) (rw miss b)
    | found j rest a b c ↦ found j rest (rw miss a) (rw miss b) c
  ]
]

-- `r` is an address with exactly the items `is` before the end.
abbrev pub Arrives : Mem → Ptr → List Item → List Item → Run Ptr → Type 0
Arrives m p all is r = (q : Ptr) × (r ≡ ok q) × IsRest m q is × (q + total is ≡ p + total all)

module _ {m : Mem} where
  is_end-cons : {p : Ptr} {i : Item} {is : List Item} → IsRest m p (i ∷ is) → is_end m p ≡ false
  unfolding is_end get_type
  is_end-cons r = rw r.chain.0.head.has_type (ne→== _ _ r.sized.0.entry)

  is_end-nil : {p : Ptr} → IsRest m p [] → is_end m p ≡ true
  unfolding is_end get_type
  is_end-nil r = rw (end-nil r)

  is_marker-nil : {p : Ptr} → IsRest m p [] → is_marker m p ≡ false
  unfolding is_marker get_type
  is_marker-nil r = rw (end-nil r)

  is_marker-cons :
      {p : Ptr} {i : Item} {is : List Item}
      → IsRest m p (i ∷ is)
      → is_marker m p ≡ (type_of i == type_marker)
  unfolding is_marker get_type
  is_marker-cons r = rw r.chain.0.head.has_type

  skip_to_marker-Arrives :
      (fuel : ℕ) (p : Ptr) (is : List Item)
      → IsRest m p is
      → length is < fuel
      → Arrives m p is (from_marker is) (skip_to_marker fuel m p)
  unfolding skip_to_marker
  skip_to_marker-Arrives zero p is r h = absurd (omega arith)
  skip_to_marker-Arrives (suc fuel) p [] r h = (p, rw (is_marker-nil r, is_end-nil r), r, refl)
  skip_to_marker-Arrives (suc fuel) p (i ∷ is) r h = elim (Bool-cases (type_of i == type_marker)) [
    | inl hit ↦ rw hit (p, rw (is_marker-cons r, hit), r, refl)
    | inr miss ↦
        let (step, rest) = go_next-cons r in
        let (q, e, at, sum) =
          skip_to_marker-Arrives fuel (p + (8 + body i)) is rest (omega arith) in
        rw miss (q, rw (is_marker-cons r, miss, is_end-cons r, step) e, at, omega arith)
  ]

  -- `pop_marker()`, from any entry of a complete area and with more fuel than entries, goes behind the
  -- first marker and returns its id, or goes to the end and returns 0.
  pub pop_marker_lem :
      (fuel : ℕ) (p : Ptr) (is : List Item)
      → IsRest m p is
      → length is < fuel
      → (q : Ptr) × (pop_marker fuel m p ≡ ok ((past_marker is).0, q))
        × IsRest m q (past_marker is).1
        × (q + total (past_marker is).1 ≡ p + total is)
  unfolding pop_marker get_id
  pop_marker_lem fuel p is r h =
      let (q, e, at, sum) = skip_to_marker-Arrives fuel p is r h in
      elim (first_marker is) [
        | absent a b ↦ rw b (
            let at' = subst (IsRest m q) a at in
            (q, rw (e, is_marker-nil at'), at', subst (λ k. q + total k ≡ p + total is) a sum))
        | found i rest a b t ↦ rw b (
            let at' = subst (IsRest m q) a at in
            let (step, after) = go_next-cons at' in
            (
              q + (8 + body i),
              rw (e, is_marker-cons at', eq→== _ _ t, step, at'.chain.0.head.has_id),
              after,
              add_assoc q (8 + body i) (total rest) ∙ subst (λ k. q + total k ≡ p + total is) a sum,
            ))
      ]

-- What `pop_marker(id)` promises: the items behind the first marker if its id is the one asked for, an
-- exception that names the marker's id if it is another, and the end if there is no marker.
abbrev pub pop_marker_id_spec : ℕ → List Item → Run (List Item)
pop_marker_id_spec id [] = ok []
pop_marker_id_spec id (i ∷ is) =
    if type_of i == type_marker
    then (if id_of i == id then ok is else throw (another_marker (id_of i)))
    else pop_marker_id_spec id is

-- The outcome `r` stands for the abstract outcome `s`.
abbrev pub Lands : Mem → Ptr → List Item → Run (List Item) → Run Ptr → Type 0
Lands m p all (ok is) r = Arrives m p all is r
Lands m p all (throw e) r = r ≡ throw e
Lands m p all aborted r = ⊥
Lands m p all starved r = ⊥

pop_marker_id-absent :
    (id : ℕ) (is : List Item) → from_marker is ≡ [] → pop_marker_id_spec id is ≡ ok []
pop_marker_id-absent id [] h = refl
pop_marker_id-absent id (i ∷ is) h = ground (arith, pop_marker_id-absent id is)

pop_marker_id-found :
    (id : ℕ) (is : List Item) (i : Item) (rest : List Item)
    → from_marker is ≡ i ∷ rest
    → pop_marker_id_spec id is
      ≡ (if id_of i == id then ok rest else throw (another_marker (id_of i)))
pop_marker_id-found id [] i rest h = cc
pop_marker_id-found id (j ∷ is) i rest h = elim (Bool-cases (type_of j == type_marker)) [
  | inl hit ↦
      let e : j ∷ is ≡ i ∷ rest = rw hit at h in
      let first : j ≡ i = cc in let tail : is ≡ rest = cc in rw (hit, first, tail)
  | inr miss ↦ rw miss (pop_marker_id-found id is i rest (rw miss at h))
]

module _ {m : Mem} where
  -- `pop_marker(id)`, from any entry of a complete area and with more fuel than entries, does what its
  -- abstract description says: it goes behind the first marker if that has the id, throws with the
  -- marker's id if it has another, and goes to the end if there is no marker.
  pub pop_marker_id_lem :
      (id fuel : ℕ) (p : Ptr) (is : List Item)
      → IsRest m p is
      → length is < fuel
      → Lands m p is (pop_marker_id_spec id is) (pop_marker_id id fuel m p)
  unfolding pop_marker_id get_id
  pop_marker_id_lem id fuel p is r h =
      let (q, e, at, sum) = skip_to_marker-Arrives fuel p is r h in
      elim (first_marker is) [
        | absent a b ↦ rw (pop_marker_id-absent id is a) (
            let at' = subst (IsRest m q) a at in
            (q, rw (e, is_marker-nil at'), at', subst (λ k. q + total k ≡ p + total is) a sum))
        | found i rest a b t ↦ rw (pop_marker_id-found id is i rest a) (
            let at' = subst (IsRest m q) a at in
            let (step, after) = go_next-cons at' in
            elim (Bool-cases (id_of i == id)) [
              | inl hit ↦ rw hit (
                q + (8 + body i),
                rw (e, is_marker-cons at', eq→== _ _ t, at'.chain.0.head.has_id, hit, step),
                after,
                add_assoc q (8 + body i) (total rest)
                    ∙ subst (λ k. q + total k ≡ p + total is) a sum,
              )
              | inr miss ↦
                  rw miss (rw (e, is_marker-cons at', eq→== _ _ t, at'.chain.0.head.has_id, miss))
            ])
      ]

  -- `cancel()`, from any entry of a complete area and with more fuel than entries, goes to the end of the
  -- area.
  pub cancel_lem :
      (fuel : ℕ) (p : Ptr) (is : List Item)
      → IsRest m p is
      → length is < fuel
      → Arrives m p is [] (cancel fuel m p)
  unfolding cancel
  cancel_lem zero p is r h = absurd (omega arith)
  cancel_lem (suc fuel) p [] r h = (p, rw (is_end-nil r), r, refl)
  cancel_lem (suc fuel) p (i ∷ is) r h =
      let (step, rest) = go_next-cons r in
      let (q, e, at, sum) = cancel_lem fuel (p + (8 + body i)) is rest (omega arith) in
      (q, rw (is_end-cons r, step) e, at, omega arith)
