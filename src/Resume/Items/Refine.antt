-- ===== src/Resume/Items/Refine.antt =====
-- The loop of `resume_begin`, and `resume`, do on the memory what the loop on the items does.
use live_update.Base.{
  ℕ, zero, suc, ◌+◌, ◌<◌, ◌≡◌, ◌≢◌, refl, ◌∙◌, ap, List, [], ◌∷◌, arith, ◌==◌, if◌then◌else◌, none,
  some, Bool-cases, inl, inr, length, eq→==, ne→==,
}
use live_update.Memory.{Ptr}
use live_update.Machine.{Run, ok, throw, aborted, starved, and_then}
use live_update.World.{World}
use live_update.Entry
use live_update.Entry.{Crc, type_end}
use live_update.Storage.Items.{Item, type_of, id_of, body, total}
use live_update.Restore.Walk.{IsRest, go_next-cons}
use live_update.Restore.Programs.{Handler, run_program, run_on_items}
use live_update.Restore.Programs.Suffix.{Suffix, Suffix-cases}
use live_update.Restore.Programs.Refine.{Agrees, run_program-Agrees}
use live_update.Resume.{find, dispatch, resume_loop}
use live_update.Resume.Loop.{after, loop_cons, loop_nil, after-stay, after-moved, after-end}
use live_update.Resume.Items.{run_handler, run_handlers, handler_for, resume_items}

module _ {ℓ} {U : Type ℓ} where
  find-run_handlers :
      (fuel id : ℕ) (handlers : List (ℕ × Handler U)) (default : Handler U) (p : Ptr) (w : World U)
      → (elim (find id (run_handlers fuel handlers)) [
        | some f ↦ f p w
        | none ↦ run_handler fuel default p w
      ])
        ≡ run_handler fuel (handler_for id handlers default) p w
  unfolding find
  find-run_handlers fuel id [] default p w = refl
  find-run_handlers fuel id ((k, h) ∷ handlers) default p w = elim (Bool-cases (k == id)) [
    | inl hit ↦ rw hit refl
    | inr miss ↦ rw miss (find-run_handlers fuel id handlers default p w)
  ]

  dispatch-run_handlers :
      (fuel id : ℕ) (handlers : List (ℕ × Handler U)) (default : Handler U) (p : Ptr) (w : World U)
      → Entry.id w.mem p ≡ id
      → dispatch (run_handlers fuel handlers) (run_handler fuel default) p w
        ≡ run_handler fuel (handler_for id handlers default) p w
  unfolding dispatch
  dispatch-run_handlers fuel id handlers default p w e =
      rw (dispatch, e) (find-run_handlers fuel id handlers default p w)

  -- The outcome of the loop on the memory is that on the items, and the memory is as before.
  abbrev pub SameOutcome : World U → Run (Unit {0}) × World U → Run (Unit {0}) × U → Type ℓ
  SameOutcome w r (ok tt, u) = r ≡ (ok tt, record w { user = u })
  SameOutcome w r (throw e, u) = r ≡ (throw e, record w { user = u })
  SameOutcome w r (aborted, u) = r ≡ (aborted, record w { user = u })
  SameOutcome w r (starved, u) = Unit

  SameOutcome-user :
      (w : World U) (u : U) (r : Run (Unit {0}) × World U) (s : Run (Unit {0}) × U)
      → SameOutcome (record w { user = u }) r s
      → SameOutcome w r s
  SameOutcome-user w u r (ok tt, v) e = e
  SameOutcome-user w u r (throw x, v) e = e
  SameOutcome-user w u r (aborted, v) e = e
  SameOutcome-user w u r (starved, v) e = tt

  items_nil :
      (k : ℕ) (handlers : List (ℕ × Handler U)) (default : Handler U) (u : U)
      → 0 < k
      → resume_items k handlers default [] u ≡ (ok tt, u)
  unfolding resume_items
  items_nil zero handlers default u h = absurd (omega arith)
  items_nil (suc k) handlers default u h = refl

  module _ (fuel : ℕ) (handlers : List (ℕ × Handler U)) (default : Handler U) where
    abbrev loop : ℕ → Ptr → World U → Run (Unit {0}) × World U
    loop rounds = resume_loop rounds (run_handlers fuel handlers) (run_handler fuel default)

    abbrev rest_of_loop : ℕ → Item → List Item → List Item → U → Run (Unit {0}) × U
    rest_of_loop rounds i is rest u =
        let stay = resume_items rounds handlers default is u in
        let moved = resume_items rounds handlers default rest u in
        if length rest == suc (length is) then stay else moved

    -- The claim for the rounds that follow.
    abbrev Claim : ℕ → Type ℓ
    Claim k =
        (p : Ptr) (is : List Item) (w : World U)
        → IsRest w.mem p is
        → length is < fuel
        → length is < k
        → SameOutcome w (loop k p w) (resume_items k handlers default is w.user)

    -- Behind a handler's call that has returned with the items `rest`.
    after-SameOutcome :
        (k : ℕ)
        → Claim k
        → (p q : Ptr) (i : Item) (is rest : List Item) (w : World U) → IsRest w.mem p (i ∷ is)
        → IsRest w.mem q rest
        → q + total rest ≡ p + total (i ∷ is)
        → Suffix rest (i ∷ is)
        → suc (length is) < fuel
        → length is < k
        → SameOutcome w
            (after 0 0 (run_handlers fuel handlers) (run_handler fuel default) k p q w)
            (rest_of_loop k i is rest w.user)
    after-SameOutcome k ih p q i is rest w r at sum left f h = elim (Suffix-cases left) [
      | inl all ↦
          let count = ap length all in
          let size = ap total all in
          let here : q ≡ p = omega arith in
          let test = eq→== (length rest) (suc (length is)) count in
          rw
            (
              here,
              after-stay 0 0 (run_handlers fuel handlers) (run_handler fuel default) k p i is w r,
              test,
            )
            (ih (p + (8 + body i)) is w (go_next-cons r).1 (omega arith) h)
      | inr (fewer, less) ↦
          let test = ne→== (length rest) (suc (length is)) (omega arith) in
          rw test (passed rest at (omega arith) (omega arith) (omega arith))
    ]
      where
        passed :
            (rest : List Item)
            → IsRest w.mem q rest
            → p < q
            → length rest < k
            → length rest < fuel
            → SameOutcome w
                (after 0 0 (run_handlers fuel handlers) (run_handler fuel default) k p q w)
                (resume_items k handlers default rest w.user)
        passed [] at ahead few f =
            rw
              (
                after-end 0 0 (run_handlers fuel handlers) (run_handler fuel default) k p q w at,
                items_nil k handlers default w.user few,
              )
              refl
        passed (j ∷ js) at ahead few f =
            rw
              (after-moved 0 0 (run_handlers fuel handlers) (run_handler fuel default) k p q j js w
                ahead at)
              (ih q (j ∷ js) w at f few)

    cons-SameOutcome :
        (k : ℕ)
        → Claim k
        → (p : Ptr) (i : Item) (is : List Item) (w : World U) → IsRest w.mem p (i ∷ is)
        → suc (length is) < fuel
        → length is < k
        → (r : Run Ptr × World U) (s : Run (List Item) × U)
        → dispatch (run_handlers fuel handlers) (run_handler fuel default) p w ≡ r
        → Agrees w p (i ∷ is) r s
        → SameOutcome w (loop (suc k) p w) (and_then s (rest_of_loop k i is))
    unfolding resume_loop
    cons-SameOutcome k ih p i is w r f h out (ok rest, u) called (q, e, at, sum, left) =
        let w1 = record w { user = u } in
        let alive : Entry.type w.mem p ≢ type_end = rw r.chain.0.head.has_type r.sized.0.entry in
        rw
          (loop_cons 0 0 (run_handlers fuel handlers) (run_handler fuel default) k p w w1 q alive
            (called ∙ e))
          (SameOutcome-user w u _ (rest_of_loop k i is rest u)
            (after-SameOutcome k ih p q i is rest w1 r at sum left f h))
    cons-SameOutcome k ih p i is w r f h out (throw x, u) called e =
        rw (r.chain.0.head.has_type, ne→== (type_of i) type_end r.sized.0.entry, called, e) refl
    cons-SameOutcome k ih p i is w r f h out (aborted, u) called e =
        rw (r.chain.0.head.has_type, ne→== (type_of i) type_end r.sized.0.entry, called, e) refl
    cons-SameOutcome k ih p i is w r f h out (starved, u) called e = tt

    -- Over a complete area, with more fuel than items for the loop and for the handlers' own loops, the loop of
    -- `resume_begin` with handlers that are programs ends as the loop on the items does, also where a
    -- handler throws or aborts, with the same state of the service.
    pub resume_loop-SameOutcome : (k : ℕ) → Claim k
    unfolding resume_items
    resume_loop-SameOutcome zero p is w r f h = absurd (omega arith)
    resume_loop-SameOutcome (suc k) p [] w r f h =
        loop_nil 0 0 (run_handlers fuel handlers) (run_handler fuel default) k p w r
    resume_loop-SameOutcome (suc k) p (i ∷ is) w r f h =
        let prog = handler_for (id_of i) handlers default w.user in
        let called =
          dispatch-run_handlers fuel (id_of i) handlers default p w r.chain.0.head.has_id in
        cons-SameOutcome k (resume_loop-SameOutcome k) p i is w r f (omega arith)
          (run_program fuel prog p w) (run_on_items prog (i ∷ is) w.user) called
          (run_program-Agrees fuel prog p (i ∷ is) w r f)
