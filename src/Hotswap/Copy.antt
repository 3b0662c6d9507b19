-- ===== src/Hotswap/Copy.antt =====
-- The forward copy is right where the destination does not lie inside the source, behind its first
-- byte.
use live_update.Base.{ℕ, zero, suc, ◌+◌, ◌≤◌, ◌<◌, ◌≡◌, refl, ◌⊎◌, ◌∙◌, ap, ap₂, [], ◌∷◌, arith}
use live_update.Memory.{Ptr, Mem, load, store}
use live_update.Memory.Laws.{Apart, load-cong, store-outside, store-cong}
use live_update.Hotswap.{copy_forward}

pub copy_forward-outside :
    (n : ℕ) (base dest : Ptr) (m : Mem) (x : Ptr)
    → Apart dest n x 1
    → copy_forward n base dest m x ≡ m x
unfolding copy_forward
copy_forward-outside zero base dest m x h = refl
copy_forward-outside (suc n) base dest m x h =
    copy_forward-outside n (base + 1) (dest + 1) (store m dest (m base ∷ [])) x (omega arith)
    ∙ store-outside m dest (m base ∷ []) x (omega arith)

-- The forward copy puts at its destination what stood in the source before, also where the two overlap,
-- unless the destination begins inside the source behind its first byte.
pub load-copy_forward :
    (n : ℕ) (base dest : Ptr) (m : Mem)
    → (dest ≤ base) ⊎ (base + n ≤ dest)
    → load (copy_forward n base dest m) dest n ≡ load m base n
unfolding copy_forward load
load-copy_forward zero base dest m h = refl
load-copy_forward (suc n) base dest m h =
    let m1 = store m dest (m base ∷ []) in
    ap₂ ◌∷◌
      (copy_forward-outside n (base + 1) (dest + 1) m1 dest (omega arith)
        ∙ unfold store in ground arith)
      (load-copy_forward n (base + 1) (dest + 1) m1 (omega arith)
        ∙ load-cong m m1 (base + 1) n (λ x p q. store-outside m dest (m base ∷ []) x (omega arith)))

-- What is copied depends on the source, and what stands elsewhere on itself.
pub copy_forward-cong :
    (n : ℕ) (base dest : Ptr) (m m' : Mem) (x : Ptr)
    → ((y : Ptr) → base ≤ y → y < base + n → m' y ≡ m y)
    → m' x ≡ m x
    → copy_forward n base dest m' x ≡ copy_forward n base dest m x
unfolding copy_forward
copy_forward-cong zero base dest m m' x source same = same
copy_forward-cong (suc n) base dest m m' x source same =
    let first : m' base ≡ m base = source base (omega arith) (omega arith) in
    let one = λ (y : Ptr) (h : m' y ≡ m y).
      ap (λ b. store m' dest (b ∷ []) y) first ∙ store-cong m m' dest (m base ∷ []) y h in
    copy_forward-cong n (base + 1) (dest + 1) (store m dest (m base ∷ []))
      (store m' dest (m' base ∷ [])) x (λ y p q. one y (source y (omega arith) (omega arith)))
      (one x same)
