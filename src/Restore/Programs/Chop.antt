-- ===== src/Restore/Programs/Chop.antt =====
-- Pieces of a vector, joined and cut.
use mathlib.Core.List.{flatten}
use live_update.Base.{ℕ, ◌≡◌, refl, ap, List, [], ◌∷◌, ◌++◌, take, drop, length, All}
use live_update.Restore.Programs.{chop}

take-append : (xs ys : List ℕ) → take (length xs) (xs ++ ys) ≡ xs
take-append [] ys = refl
take-append (x ∷ xs) ys = ap (λ zs. x ∷ zs) (take-append xs ys)

drop-append : (xs ys : List ℕ) → drop (length xs) (xs ++ ys) ≡ ys
drop-append [] ys = refl
drop-append (x ∷ xs) ys = drop-append xs ys

-- Pieces that have been joined are cut again.
pub chop-flatten :
    (size : ℕ) (xs : List (List ℕ))
    → All (λ x. length x ≡ size) xs
    → chop (length xs) size (flatten xs) ≡ xs
unfolding flatten
chop-flatten size [] h = refl
chop-flatten size (x ∷ xs) h =
    rw (← h.0, take-append x (flatten xs), drop-append x (flatten xs))
      (ap (λ ys. x ∷ ys) (rw h.0 (chop-flatten size xs h.1)))
