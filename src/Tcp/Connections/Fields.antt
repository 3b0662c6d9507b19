-- ===== src/Tcp/Connections/Fields.antt =====
-- Fields that do not overlap are written and read back.
use live_update.Base.{
  ℕ, ◌+◌, ◌≤◌, ◌<◌, ◌≡◌, refl, ◌⊎◌, inl, inr, ◌∙◌, List, [], ◌∷◌, length, arith, All,
}
use live_update.Memory.{Ptr, Mem, store}
use live_update.Memory.Laws.{Apart, Holds, Holds-cong, store-outside, load-store_self, store-cong}
use live_update.Tcp.Connections.{Field, write_fields}

-- Two fields lie apart, or are the same.
abbrev pub Fits : Field → Field → Type 0
Fits f g = Apart f.at (length f.bytes) g.at (length g.bytes) ⊎ (f ≡ g)

-- Every two fields of a list.
abbrev pub Separate : List Field → Type 0
Separate [] = Unit
Separate (f ∷ fs) = All (Fits f) fs × Separate fs

abbrev pub HoldsAll : Mem → Ptr → List Field → Type 0
HoldsAll m a [] = Unit
HoldsAll m a (f ∷ fs) = Holds m (a + f.at) f.bytes × HoldsAll m a fs

-- A field stays in place when others are written that fit it.
write_fields-kept :
    (f : Field) (fs : List Field) (a : Ptr) (m : Mem)
    → All (Fits f) fs
    → Holds m (a + f.at) f.bytes
    → Holds (write_fields a fs m) (a + f.at) f.bytes
unfolding write_fields
write_fields-kept f [] a m fit h = h
write_fields-kept f (g ∷ gs) a m fit h =
    let m1 = store m (a + g.at) g.bytes in
    write_fields-kept f gs a m1 fit.1 (elim fit.0 [
      | inl apart ↦
          Holds-cong m m1 (a + f.at) f.bytes h
            (λ x p q. store-outside m (a + g.at) g.bytes x (omega (arith, apart)))
      | inr same ↦ rw same (load-store_self m (a + g.at) g.bytes)
    ])

pub write_fields-HoldsAll :
    (fs : List Field) (a : Ptr) (m : Mem) → Separate fs → HoldsAll (write_fields a fs m) a fs
unfolding write_fields
write_fields-HoldsAll [] a m s = tt
write_fields-HoldsAll (f ∷ fs) a m s =
    let m1 = store m (a + f.at) f.bytes in
    (
      write_fields-kept f fs a m1 s.0 (load-store_self m (a + f.at) f.bytes),
      write_fields-HoldsAll fs a m1 s.1,
    )

-- The fields end at `n`.
abbrev pub Within : ℕ → Field → Type 0
Within n f = f.at + length f.bytes ≤ n

pub HoldsAll-cong :
    {m m' : Mem} (a : Ptr) (n : ℕ) (fs : List Field)
    → All (Within n) fs
    → ((x : Ptr) → a ≤ x → x < a + n → m' x ≡ m x)
    → HoldsAll m a fs
    → HoldsAll m' a fs
HoldsAll-cong a n [] w same h = tt
HoldsAll-cong {m} {m'} a n (f ∷ fs) w same h = (
  Holds-cong m m' (a + f.at) f.bytes h.0 (λ x p q. same x (omega arith) (omega (arith, w.0))),
  HoldsAll-cong a n fs w.1 same h.1,
)

pub write_fields-outside :
    (fs : List Field) (a : Ptr) (n : ℕ) (m : Mem) (x : Ptr)
    → All (Within n) fs
    → Apart a n x 1
    → write_fields a fs m x ≡ m x
unfolding write_fields
write_fields-outside [] a n m x w h = refl
write_fields-outside (f ∷ fs) a n m x w h =
    write_fields-outside fs a n (store m (a + f.at) f.bytes) x w.1 h
    ∙ store-outside m (a + f.at) f.bytes x (omega (arith, w.0))

pub write_fields-cong :
    (fs : List Field) (a : Ptr) (m m' : Mem) (x : Ptr)
    → m' x ≡ m x
    → write_fields a fs m' x ≡ write_fields a fs m x
unfolding write_fields
write_fields-cong [] a m m' x h = h
write_fields-cong (f ∷ fs) a m m' x h =
    write_fields-cong fs a (store m (a + f.at) f.bytes) (store m' (a + f.at) f.bytes) x
      (store-cong m m' (a + f.at) f.bytes x h)
