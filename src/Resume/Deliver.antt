-- ===== src/Resume/Deliver.antt =====
-- Over a complete area the loop of `resume_begin` ends, and delivers the items in order.
use mathlib.Core.Path.{subst}
use live_update.Base.{
  ℕ, zero, suc, ◌+◌, ◌-◌, ◌≤◌, ◌<◌, ◌≡◌, ◌≢◌, refl, ◌∙◌, List, [], ◌∷◌, arith, length, drop,
  length-drop,
}
use live_update.Memory.{Ptr}
use live_update.Machine.{Run}
use live_update.World.{World}
use live_update.Entry
use live_update.Entry.{type_end}
use live_update.Storage.Items.{Item, body, total}
use live_update.Restore.Walk.{IsRest, IsRest-drop, IsRest-cong, go_next-cons}
use live_update.Resume.{ResumeFunc, ResumeFuncs, resume_loop}
use live_update.Resume.Loop.{
  Step, deliver, Follows, Resumes, after, loop_cons, loop_nil, after-stay, after-moved, after-end,
}

total-drop-le : (n : ℕ) (is : List Item) → total (drop n is) ≤ total is
total-drop-le zero is = omega arith
total-drop-le (suc n) [] = omega arith
total-drop-le (suc n) (i ∷ is) = omega (arith, total-drop-le n is)

deliver-nil {ℓ} : {U : Type ℓ} (step : Step U) (k : ℕ) (u : U) → deliver step k [] u ≡ u
deliver-nil step zero u = refl
deliver-nil step (suc k) u = refl

module _ {ℓ} {U : Type ℓ} (lo hi : Ptr) (funcs : ResumeFuncs U) (func : ResumeFunc U)
    (step : Step U) where
  Resumes-later :
      {w w1 : World U} {u : U} {r r' : Run (Unit {0}) × World U}
      → ((x : Ptr) → lo ≤ x → x < hi → w1.mem x ≡ w.mem x)
      → r' ≡ r
      → Resumes lo hi w1 u r
      → Resumes lo hi w u r'
  Resumes-later same e res = record {
    world = res.world;
    returns = e ∙ res.returns;
    user = res.user;
    kept = λ x a b. res.kept x a b ∙ same x a b;
  }

  -- The claim for the rounds that follow.
  abbrev pub Claim : ℕ → Type ℓ
  Claim k =
      (is : List Item) (p : Ptr) (w : World U)
      → IsRest w.mem p is
      → lo ≤ p
      → p + total is + 8 ≤ hi
      → length is < k
      → Resumes lo hi w (deliver step k is w.user) (resume_loop k funcs func p w)

  -- One round, by the number of `go_next` that were made in it.
  round-Resumes :
      (k : ℕ) (ih : Claim k) (p : Ptr) (i : Item) (is : List Item) (w1 : World U) (q n : ℕ)
      → IsRest w1.mem p (i ∷ is)
      → lo ≤ p
      → p + total (i ∷ is) + 8 ≤ hi
      → length is < k
      → n ≤ suc (length is)
      → q + total (drop n (i ∷ is)) ≡ p + total (i ∷ is)
      → Resumes lo hi w1
          (deliver step k (drop (n - 1) is) w1.user)
          (after lo hi funcs func k p q w1)
  round-Resumes k ih p i is w1 q zero r a b c bound moved =
      let here : q ≡ p = omega arith in
      rw here (
        Resumes-later (λ x s t. refl) (after-stay lo hi funcs func k p i is w1 r)
          (ih is (p + (8 + body i)) w1 (go_next-cons r).1 (omega arith) (omega arith) c))
  round-Resumes k ih p i is w1 q (suc n) r a b c bound moved =
      let one : suc n - 1 ≡ n = omega arith in rw one (later (drop n is) refl)
    where
      to_rest : q + total (drop n is) ≡ p + total (i ∷ is)
      to_rest = moved

      ahead : p < q
      ahead = omega (arith, to_rest, total-drop-le n is)

      rest : IsRest w1.mem q (drop n is)
      rest = IsRest-drop q (suc n) (i ∷ is) r bound moved

      later :
          (js : List Item)
          → drop n is ≡ js
          → Resumes lo hi w1 (deliver step k (drop n is) w1.user) (after lo hi funcs func k p q w1)
      later [] e =
          rw (e, deliver-nil step k w1.user)
            record {
              world = w1;
              returns = after-end lo hi funcs func k p q w1 (subst (IsRest w1.mem q) e rest);
              user = refl;
              kept = λ x s t. refl;
            }
      later (j ∷ js) e =
          Resumes-later (λ x s t. refl)
            (after-moved lo hi funcs func k p q j js w1 ahead (subst (IsRest w1.mem q) e rest))
            (ih (drop n is) q w1 rest (omega (arith, ahead)) (omega (arith, to_rest))
              (omega (arith, length-drop n is)))

  pub resume_loop-Resumes : Follows lo hi funcs func step → (k : ℕ) → Claim k
  resume_loop-Resumes f zero is p w r a b c = absurd (omega arith)
  resume_loop-Resumes f (suc k) [] p w r a b c = record {
    world = w;
    returns = loop_nil lo hi funcs func k p w r;
    user = refl;
    kept = λ x s t. refl;
  }
  resume_loop-Resumes f (suc k) (i ∷ is) p w r a b c =
      let mv = f.run p i is w r a b in
      let r1 = IsRest-cong r (λ x s t. mv.kept x (omega arith) (omega arith)) in
      let alive : Entry.type w.mem p ≢ type_end = rw r.chain.0.head.has_type r.sized.0.entry in
      Resumes-later mv.kept (loop_cons lo hi funcs func k p w mv.world mv.at alive mv.returns) (
        subst
          (λ u.
            Resumes lo hi mv.world (deliver step k (drop ((step i is w.user).0 - 1) is) u)
              (after lo hi funcs func k p mv.at mv.world))
          mv.user
          (round-Resumes k (resume_loop-Resumes f k) p i is mv.world mv.at (step i is w.user).0 r1 a
            b (omega arith) (f.bound i is w.user) mv.moved))
