-- ===== src/Resume/Rounds.antt =====
-- One round of the loop of `resume_begin`, from what its handler does.
use mathlib.Core.Path.{subst}
use live_update.Base.{
  ℕ, suc, ◌+◌, ◌≡◌, ◌≢◌, ◌<◌, refl, sym, ◌∙◌, ap, List, [], ◌∷◌, some, arith, length,
}
use live_update.Memory.{Ptr, Mem}
use live_update.Machine.{ok}
use live_update.World.{World}
use live_update.Entry
use live_update.Entry.{type_end}
use live_update.Storage.Items.{Item, body, total}
use live_update.Restore.Walk.{IsRest}
use live_update.Restore.Programs.{Handler, run_on_items}
use live_update.Restore.Programs.Refine.{Agrees, run_program-Agrees}
use live_update.Resume.Items.{run_handler}
use live_update.Resume.{ResumeFunc, ResumeFuncs, find, dispatch, resume_loop}
use live_update.Resume.Loop.{loop_cons, loop_nil, after-stay, after-moved, after-end}

alive :
    {m : Mem} {p : Ptr} (i : Item) (is : List Item)
    → IsRest m p (i ∷ is)
    → Entry.type m p ≢ type_end
alive i is r = rw r.chain.0.head.has_type r.sized.0.entry

module _ {ℓ} {U : Type ℓ} (funcs : ResumeFuncs U) (func : ResumeFunc U) where
  -- The registered function gets the entry.
  pub dispatch-find :
      (p : Ptr) (w : World U) (id : ℕ) (f : ResumeFunc U)
      → Entry.id w.mem p ≡ id
      → find id funcs ≡ some f
      → dispatch funcs func p w ≡ f p w
  unfolding dispatch
  dispatch-find p w id f e hit = rw (dispatch, e, hit) refl

  -- The handler has made no `go_next`: the next round is at the next entry.
  pub round-stayed :
      (k : ℕ) (p : Ptr) (i : Item) (is : List Item) (w w1 : World U)
      → IsRest w.mem p (i ∷ is)
      → IsRest w1.mem p (i ∷ is)
      → dispatch funcs func p w ≡ (ok p, w1)
      → resume_loop (suc k) funcs func p w ≡ resume_loop k funcs func (p + (8 + body i)) w1
  round-stayed k p i is w w1 r r1 run =
      loop_cons 0 0 funcs func k p w w1 p (alive i is r) run
      ∙ after-stay 0 0 funcs func k p i is w1 r1

  -- It has made some: the next round is where it has left.
  pub round-moved :
      (k : ℕ) (p q : Ptr) (i : Item) (is rest : List Item) (w w1 : World U)
      → IsRest w.mem p (i ∷ is)
      → IsRest w1.mem q rest
      → p < q
      → dispatch funcs func p w ≡ (ok q, w1)
      → resume_loop (suc (suc k)) funcs func p w ≡ resume_loop (suc k) funcs func q w1
  round-moved k p q i is [] w w1 r at ahead run =
      loop_cons 0 0 funcs func (suc k) p w w1 q (alive i is r) run
      ∙ after-end 0 0 funcs func (suc k) p q w1 at
      ∙ sym (loop_nil 0 0 funcs func k q w1 at)
  round-moved k p q i is (j ∷ js) w w1 r at ahead run =
      loop_cons 0 0 funcs func (suc k) p w w1 q (alive i is r) run
      ∙ after-moved 0 0 funcs func (suc k) p q j js w1 ahead at

  -- A round whose handler is a program that passes some items.
  pub program-moved :
      (fuel : ℕ) (h : Handler U) (k : ℕ) (p : Ptr) (i : Item) (is rest : List Item) (u : U)
      (w : World U)
      → IsRest w.mem p (i ∷ is)
      → suc (length is) < fuel
      → dispatch funcs func p w ≡ run_handler fuel h p w
      → run_on_items (h w.user) (i ∷ is) w.user ≡ (ok rest, u)
      → total rest < total (i ∷ is)
      → (q : Ptr) × (resume_loop (suc (suc k)) funcs func p w
          ≡ resume_loop (suc k) funcs func q (record w { user = u }))
        × IsRest w.mem q rest
        × (q + total rest ≡ p + total (i ∷ is))
  program-moved fuel h k p i is rest u w r enough goes run fewer =
      let (q, e, at, sum, _) : Agrees w p (i ∷ is) (run_handler fuel h p w) (ok rest, u) =
        subst (Agrees w p (i ∷ is) (run_handler fuel h p w)) run
          (run_program-Agrees fuel (h w.user) p (i ∷ is) w r enough) in
      (
        q,
        round-moved k p q i is rest w (record w { user = u }) r at (omega (arith, sum, fewer))
            (goes ∙ e),
        at,
        sum,
      )

  -- A round whose handler is a program that passes none.
  pub program-stayed :
      (fuel : ℕ) (h : Handler U) (k : ℕ) (p : Ptr) (i : Item) (is : List Item) (u : U) (w : World U)
      → IsRest w.mem p (i ∷ is)
      → suc (length is) < fuel
      → dispatch funcs func p w ≡ run_handler fuel h p w
      → run_on_items (h w.user) (i ∷ is) w.user ≡ (ok (i ∷ is), u)
      → resume_loop (suc k) funcs func p w
        ≡ resume_loop k funcs func (p + (8 + body i)) (record w { user = u })
  program-stayed fuel h k p i is u w r enough goes run =
      let w1 = record w { user = u } in
      let (q, e, at, sum, _) : Agrees w p (i ∷ is) (run_handler fuel h p w) (ok (i ∷ is), u) =
        subst (Agrees w p (i ∷ is) (run_handler fuel h p w)) run
          (run_program-Agrees fuel (h w.user) p (i ∷ is) w r enough) in
      let here : q ≡ p = omega (arith, sum) in
      round-stayed k p i is w w1 r r (goes ∙ e ∙ ap (λ x. (ok x, w1)) here)
