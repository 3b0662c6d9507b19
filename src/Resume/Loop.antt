-- ===== src/Resume/Loop.antt =====
-- The loop of `resume_begin` over a complete area: which entries the handlers get, in which order.
use live_update.Base.{
  ℕ, zero, suc, ◌+◌, ◌-◌, ◌≤◌, ◌<◌, ◌≡◌, ◌≢◌, refl, List, [], ◌∷◌, arith, eq→==, ne→==, ◌==◌,
  if◌then◌else◌, length, drop,
}
use live_update.Memory.{Ptr}
use live_update.Machine.{Run, ok, and_then}
use live_update.World.{World}
use live_update.Entry
use live_update.Entry.{type_end}
use live_update.Storage.Items.{Item, body, total}
use live_update.Restore.Walk.{IsRest, next-HasItem, end-nil}
use live_update.Resume.{ResumeFunc, ResumeFuncs, dispatch, resume_loop, reading}

-- What the handlers do in the abstract: given an item, those behind it and the service's state, the
-- number of `go_next` that are made, and the new state.
abbrev pub Step {ℓ} : Type ℓ → Type ℓ
Step U = Item → List Item → U → ℕ × U

-- The items delivered in order: behind each call comes the next item that has not been passed.
abbrev pub deliver {ℓ} : {U : Type ℓ} → Step U → ℕ → List Item → U → U
deliver step zero is u = u
deliver step (suc k) [] u = u
deliver step (suc k) (i ∷ is) u = let (n, u') = step i is u in deliver step k (drop (n - 1) is) u'

-- A handler's call at `p`, with the items `all` from there on: it returns at the item behind `n` of
-- them, with the state `u`, and writes nowhere between `lo` and `hi`.
pub record Moves {ℓ} {U : Type ℓ} (lo hi : Ptr) (w : World U) (p : Ptr) (all : List Item) (n : ℕ)
    (u : U) (r : Run Ptr × World U) : Type ℓ where
  pub at : Ptr
  pub world : World U
  pub returns : r ≡ (ok at, world)
  pub moved : at + total (drop n all) ≡ p + total all
  pub user : world.user ≡ u
  pub kept : (x : Ptr) → lo ≤ x → x < hi → world.mem x ≡ w.mem x

-- The registered functions and the default one do what `step` says, at every entry of an area
-- between `lo` and `hi`.
pub record Follows {ℓ} {U : Type ℓ} (lo hi : Ptr) (funcs : ResumeFuncs U) (func : ResumeFunc U)
    (step : Step U) : Type ℓ where
  pub bound : (i : Item) (is : List Item) (u : U) → (step i is u).0 ≤ suc (length is)
  pub run :
      (p : Ptr) (i : Item) (is : List Item) (w : World U)
      → IsRest w.mem p (i ∷ is)
      → lo ≤ p
      → p + total (i ∷ is) + 8 ≤ hi
      → Moves lo hi w p (i ∷ is) (step i is w.user).0 (step i is w.user).1 (dispatch funcs func p w)

-- The loop ends with the state `u`, and has kept the memory between `lo` and `hi`.
pub record Resumes {ℓ} {U : Type ℓ} (lo hi : Ptr) (w : World U) (u : U)
    (r : Run (Unit {0}) × World U) : Type ℓ where
  pub world : World U
  pub returns : r ≡ (ok tt, world)
  pub user : world.user ≡ u
  pub kept : (x : Ptr) → lo ≤ x → x < hi → world.mem x ≡ w.mem x

module _ {ℓ} {U : Type ℓ} (lo hi : Ptr) (funcs : ResumeFuncs U) (func : ResumeFunc U) where
  -- A round that has returned at `q` in `w1`, with the items `rest` still to come.
  pub after : ℕ → Ptr → Ptr → World U → Run (Unit {0}) × World U
  after rounds ptr ptr' w' =
      let stay = and_then (reading (λ m. Entry.next m ptr') w') (resume_loop rounds funcs func) in
      let moved = resume_loop rounds funcs func ptr' w' in
      if Entry.type w'.mem ptr' == type_end
      then (ok tt, w')
      else if ptr == ptr'
      then stay
      else moved

  pub loop_cons :
      (rounds : ℕ) (p : Ptr) (w w1 : World U) (q : Ptr)
      → Entry.type w.mem p ≢ type_end
      → dispatch funcs func p w ≡ (ok q, w1)
      → resume_loop (suc rounds) funcs func p w ≡ after rounds p q w1
  unfolding resume_loop after
  loop_cons rounds p w w1 q h e = rw (ne→== _ _ h, e)

  -- No `go_next` was made: the loop makes one.
  pub after-stay :
      (rounds : ℕ) (p : Ptr) (i : Item) (is : List Item) (w1 : World U)
      → IsRest w1.mem p (i ∷ is)
      → after rounds p p w1 ≡ resume_loop rounds funcs func (p + (8 + body i)) w1
  unfolding after
  after-stay rounds p i is w1 r = rw (
    r.chain.0.head.has_type,
    ne→== _ _ r.sized.0.entry,
    eq→== p p refl,
    next-HasItem i r.sized.0 r.chain.0 (omega (arith, r.fits)),
  )

  -- Some were made, and items are left.
  pub after-moved :
      (rounds : ℕ) (p q : Ptr) (j : Item) (js : List Item) (w1 : World U)
      → p < q
      → IsRest w1.mem q (j ∷ js)
      → after rounds p q w1 ≡ resume_loop rounds funcs func q w1
  unfolding after
  after-moved rounds p q j js w1 lt r =
      rw (r.chain.0.head.has_type, ne→== _ _ r.sized.0.entry, ne→== p q (omega arith))

  -- Some were made, and the end is reached.
  pub after-end :
      (rounds : ℕ) (p q : Ptr) (w1 : World U)
      → IsRest w1.mem q []
      → after rounds p q w1 ≡ (ok tt, w1)
  unfolding after
  after-end rounds p q w1 r = rw (end-nil r)

  pub loop_nil :
      (rounds : ℕ) (p : Ptr) (w : World U)
      → IsRest w.mem p []
      → resume_loop (suc rounds) funcs func p w ≡ (ok tt, w)
  unfolding resume_loop
  loop_nil rounds p w r = rw (end-nil r)
