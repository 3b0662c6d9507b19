-- ===== src/Memory/Laws.antt =====
-- What a read sees after a write.
use live_update.Base.{
  ℕ, zero, suc, ◌+◌, ◌≤◌, ◌<◌, ◌^◌, ◌≡◌, refl, ap, ◌∙◌, ◌⊎◌, List, [], ◌∷◌, ◌++◌, arith, length,
  Bool-cases, ◌==◌, inl, inr, fun_ext, All,
}
use mathlib.Core.Path.{subst}
use native.Mathlib.Nat.{add-zero, pow-suc}
use live_update.Memory.{Ptr, Mem, IsBytes, load, store, get, put, bytes_of, number_of}
use live_update.Memory.Words.{length-bytes_of, number_of-bytes_of, bytes_of-number_of}

pub length-load : (m : Mem) (a : Ptr) (n : ℕ) → length (load m a n) ≡ n
unfolding load
length-load m a zero = refl
length-load m a (suc n) = ap suc (length-load m (a + 1) n)

-- The intervals of `k` bytes at `a` and of `n` bytes at `b` do not meet.
abbrev pub Apart : Ptr → ℕ → Ptr → ℕ → Type 0
Apart a k b n = (a + k ≤ b) ⊎ (b + n ≤ a)

pub store-outside :
    (m : Mem) (a : Ptr) (bs : List ℕ) (x : Ptr) → Apart a (length bs) x 1 → store m a bs x ≡ m x
unfolding store
store-outside m a [] x h = refl
store-outside m a (b ∷ bs) x h = ground (arith, store-outside m (a + 1) bs x)

pub load-cong :
    (m m' : Mem) (a : Ptr) (n : ℕ)
    → ((x : Ptr) → a ≤ x → x < a + n → m' x ≡ m x)
    → load m' a n ≡ load m a n
unfolding load
load-cong m m' a zero h = refl
load-cong m m' a (suc n) h =
    ground (arith, h a, load-cong m m' (a + 1) n (λ x p q. h x (omega arith) (omega arith)))

-- Equal bytes are equal one by one.
pub load-at :
    (m m' : Mem) (a : Ptr) (n : ℕ) (x : Ptr)
    → load m' a n ≡ load m a n
    → a ≤ x
    → x < a + n
    → m' x ≡ m x
unfolding load
load-at m m' a zero x h p q = absurd (omega arith)
load-at m m' a (suc n) x h p q = elim (Bool-cases (x == a)) [
  | inl here ↦ let here' : x ≡ a = ground arith in rw here' (first h)
  | inr away ↦ load-at m m' (a + 1) n x (rest h) (ground arith) (omega arith)
]
  where
    first : {b c : ℕ} {bs cs : List ℕ} → ◌≡◌ {A = List ℕ} (b ∷ bs) (c ∷ cs) → b ≡ c
    first e = cc

    rest : {b c : ℕ} {bs cs : List ℕ} → ◌≡◌ {A = List ℕ} (b ∷ bs) (c ∷ cs) → bs ≡ cs
    rest e = cc

pub load-store_other :
    (m : Mem) (a : Ptr) (bs : List ℕ) (b : Ptr) (n : ℕ)
    → Apart a (length bs) b n
    → load (store m a bs) b n ≡ load m b n
load-store_other m a bs b n h =
    load-cong m (store m a bs) b n (λ x p q. store-outside m a bs x (omega arith))

pub load-store_self : (m : Mem) (a : Ptr) (bs : List ℕ) → load (store m a bs) a (length bs) ≡ bs
unfolding load store
load-store_self m a [] = refl
load-store_self m a (b ∷ bs) =
    let rest =
      load-cong (store m (a + 1) bs) (store m a (b ∷ bs)) (a + 1) (length bs)
        (λ x p q. ground arith) in
    rw (rest, load-store_self m (a + 1) bs) (ground arith)

pub get-put_self : (m : Mem) (a : Ptr) (n v : ℕ) → v < 256 ^ n → get (put m a n v) a n ≡ v
unfolding get put
get-put_self m a n v h =
    subst (λ k. number_of (load (store m a (bytes_of n v)) a k) ≡ v) (length-bytes_of n v)
      (ap number_of (load-store_self m a (bytes_of n v)) ∙ number_of-bytes_of n v h)

pub get-put_other :
    (m : Mem) (a : Ptr) (n v : ℕ) (b : Ptr) (k : ℕ)
    → Apart a n b k
    → get (put m a n v) b k ≡ get m b k
unfolding get put
get-put_other m a n v b k h =
    ap number_of (load-store_other m a (bytes_of n v) b k (rw (length-bytes_of n v) h))

pub get-cong :
    (m m' : Mem) (a : Ptr) (n : ℕ)
    → ((x : Ptr) → a ≤ x → x < a + n → m' x ≡ m x)
    → get m' a n ≡ get m a n
unfolding get
get-cong m m' a n h = ap number_of (load-cong m m' a n h)

pub put-outside : (m : Mem) (a : Ptr) (n v : ℕ) (x : Ptr) → Apart a n x 1 → put m a n v x ≡ m x
unfolding put
put-outside m a n v x h = store-outside m a (bytes_of n v) x (rw (length-bytes_of n v) h)

pub get-store_other :
    (m : Mem) (a : Ptr) (bs : List ℕ) (b : Ptr) (n : ℕ)
    → Apart a (length bs) b n
    → get (store m a bs) b n ≡ get m b n
unfolding get
get-store_other m a bs b n h = ap number_of (load-store_other m a bs b n h)

pub load-put_other :
    (m : Mem) (a : Ptr) (n v : ℕ) (b : Ptr) (k : ℕ)
    → Apart a n b k
    → load (put m a n v) b k ≡ load m b k
unfolding put
load-put_other m a n v b k h = load-store_other m a (bytes_of n v) b k (rw (length-bytes_of n v) h)

-- The bytes `bs` stand at `a`.
abbrev pub Holds : Mem → Ptr → List ℕ → Type 0
Holds m a bs = load m a (length bs) ≡ bs

pub Holds-append :
    (m : Mem) (a : Ptr) (xs ys : List ℕ)
    → Holds m a xs
    → Holds m (a + length xs) ys
    → Holds m a (xs ++ ys)
unfolding load
Holds-append m a [] ys h k = rw add-zero at k
Holds-append m a (x ∷ xs) ys h k =
    let next : a + suc (length xs) ≡ a + 1 + length xs = omega arith in
    let k' : Holds m (a + 1 + length xs) ys = subst (λ b. Holds m b ys) next k in
    cc (Holds-append m (a + 1) xs ys (cc) k')

pub Holds-put : (m : Mem) (a : Ptr) (n v : ℕ) → Holds (put m a n v) a (bytes_of n v)
unfolding put
Holds-put m a n v = load-store_self m a (bytes_of n v)

pub Holds-cong :
    (m m' : Mem) (a : Ptr) (bs : List ℕ)
    → Holds m a bs
    → ((x : Ptr) → a ≤ x → x < a + length bs → m' x ≡ m x)
    → Holds m' a bs
Holds-cong m m' a bs h same = load-cong m m' a (length bs) same ∙ h

-- A number read where its bytes stand.
pub get-Holds :
    (m : Mem) (a : Ptr) (n v : ℕ) → Holds m a (bytes_of n v) → v < 256 ^ n → get m a n ≡ v
unfolding get
get-Holds m a n v h fits =
    let read : load m a n ≡ bytes_of n v =
      subst (λ k. load m a k ≡ bytes_of n v) (length-bytes_of n v) h in
    ap number_of read ∙ number_of-bytes_of n v fits

-- A write covers an earlier one to the same place.
store-covers :
    (m m' : Mem) (a : Ptr) (bs : List ℕ) (x : Ptr)
    → (Apart a (length bs) x 1 → m' x ≡ m x)
    → store m' a bs x ≡ store m a bs x
unfolding store
store-covers m m' a [] x h = h (omega arith)
store-covers m m' a (b ∷ bs) x h = elim (Bool-cases (x == a)) [
  | inl here ↦ rw here
  | inr away ↦ rw away (store-covers m m' (a + 1) bs x (λ p. h (ground arith)))
]

pub store-cong :
    (m m' : Mem) (a : Ptr) (bs : List ℕ) (x : Ptr) → m' x ≡ m x → store m' a bs x ≡ store m a bs x
store-cong m m' a bs x h = store-covers m m' a bs x (λ p. h)

pub put-cong :
    (m m' : Mem) (a : Ptr) (n v : ℕ) (x : Ptr) → m' x ≡ m x → put m' a n v x ≡ put m a n v x
unfolding put
put-cong m m' a n v x h = store-covers m m' a (bytes_of n v) x (λ p. h)

pub put-put : (m : Mem) (a : Ptr) (n v w : ℕ) → put (put m a n v) a n w ≡ put m a n w
unfolding put
put-put m a n v w = fun_ext λ x. store-covers m (store m a (bytes_of n v)) a (bytes_of n w) x (λ p.
    store-outside m a (bytes_of n v) x (rw (length-bytes_of n v) (rw (length-bytes_of n w) at p)))

-- Writing back what was read changes nothing.
store-load : (m : Mem) (a : Ptr) (n : ℕ) (x : Ptr) → store m a (load m a n) x ≡ m x
unfolding store load
store-load m a zero x = refl
store-load m a (suc n) x = elim (Bool-cases (x == a)) [
  | inl here ↦ rw here (ap m (ground arith))
  | inr away ↦ rw away (store-load m (a + 1) n x)
]

All-load : (m : Mem) (a : Ptr) (n : ℕ) → IsBytes m → All (λ b. b < 256) (load m a n)
unfolding load
All-load m a zero h = tt
All-load m a (suc n) h = (h a, All-load m (a + 1) n h)

pub put-get : (m : Mem) (a : Ptr) (n : ℕ) → IsBytes m → put m a n (get m a n) ≡ m
unfolding put get
put-get m a n h =
    let back : bytes_of n (number_of (load m a n)) ≡ load m a n =
      subst (λ k. bytes_of k (number_of (load m a n)) ≡ load m a n) (length-load m a n)
        (bytes_of-number_of (load m a n) (All-load m a n h)) in
    fun_ext λ x. ap (λ bs. store m a bs x) back ∙ store-load m a n x

number_of-lt : (bs : List ℕ) → All (λ b. b < 256) bs → number_of bs < 256 ^ length bs
unfolding number_of
number_of-lt [] h = omega arith
number_of-lt (b ∷ bs) h = omega (arith, pow-suc 256 (length bs), number_of-lt bs h.1)

pub get-lt : (m : Mem) (a : Ptr) (n : ℕ) → IsBytes m → get m a n < 256 ^ n
unfolding get
get-lt m a n h =
    subst (λ k. number_of (load m a n) < 256 ^ k) (length-load m a n)
      (number_of-lt (load m a n) (All-load m a n h))

pub Holds-split :
    (m : Mem) (a : Ptr) (xs ys : List ℕ)
    → Holds m a (xs ++ ys)
    → Holds m a xs × Holds m (a + length xs) ys
unfolding load
Holds-split m a [] ys h = (refl, rw add-zero h)
Holds-split m a (x ∷ xs) ys h =
    let (first, rest) = Holds-split m (a + 1) xs ys (∷-tail h) in
    let next : a + 1 + length xs ≡ a + suc (length xs) = omega arith in
    (cc (∷-head h, first), subst (λ b. Holds m b ys) next rest)
  where
    ∷-tail : {b c : ℕ} {bs cs : List ℕ} → ◌≡◌ {A = List ℕ} (b ∷ bs) (c ∷ cs) → bs ≡ cs
    ∷-tail e = cc

    ∷-head : {b c : ℕ} {bs cs : List ℕ} → ◌≡◌ {A = List ℕ} (b ∷ bs) (c ∷ cs) → b ≡ c
    ∷-head e = cc
