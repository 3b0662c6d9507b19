-- ===== src/Restore/Programs/Vectors.antt =====
-- `as_vector` agrees with its abstract view, which cuts the payload into pieces.
use mathlib.Core.Path.{subst}
use live_update.Base.{
  ℕ, zero, suc, ◌+◌, ◌*◌, ◌^◌, ◌<◌, ◌≡◌, refl, sym, inl, inr, ◌∙◌, ap, ◌&&◌, List, [], ◌∷◌, ◌++◌,
  arith, ltb, eq→==, ◌==◌, if◌then◌else◌, Bool-cases, length, take, drop,
}
use live_update.Memory.{Ptr, Mem, load, bytes_of}
use live_update.Memory.Words.{length-bytes_of}
use live_update.Memory.Laws.{Holds, Holds-split, get-Holds}
use live_update.Machine.{ok, throw, starved, incorrect_type, incorrect_type_size}
use live_update.Entry
use live_update.Entry.{
  type_end, type_integer, type_string, type_buffer, type_vector, type_str_vector,
}
use live_update.Storage.Items.{
  Item, marker, integer, string, buffer, vector, strings, struct, type_of, HasItem,
}
use live_update.Restore.{as_vector, get_segment, elements}
use live_update.Restore.Walk.{IsRest}
use live_update.Restore.Programs.{chop, vector_at}
use native.Mathlib.Nat.{suc-mul}
use live_update.Restore.Programs.Readers.{Refines, ≡-Refines}

-- Pieces of the memory.
take-load : (m : Mem) (a : Ptr) (n k : ℕ) → take n (load m a (n + k)) ≡ load m a n
unfolding load
take-load m a zero k = refl
take-load m a (suc n) k =
    let e : suc n + k ≡ suc (n + k) = omega arith in
    subst (λ x. take (suc n) (load m a x) ≡ load m a (suc n)) (sym e)
      (ap (λ xs. m a ∷ xs) (take-load m (a + 1) n k))

drop-load : (m : Mem) (a : Ptr) (n k : ℕ) → drop n (load m a (n + k)) ≡ load m (a + n) k
unfolding load
drop-load m a zero k =
    let e : zero + k ≡ k = omega arith in let f : a + zero ≡ a = omega arith in rw (e, f) refl
drop-load m a (suc n) k =
    let e : suc n + k ≡ suc (n + k) = omega arith in
    let f : a + 1 + n ≡ a + suc n = omega arith in
    subst (λ x. drop (suc n) (load m a x) ≡ load m (a + suc n) k) (sym e)
      (subst (λ b. drop n (load m (a + 1) (n + k)) ≡ load m b k) f (drop-load m (a + 1) n k))

elements-chop :
    (m : Mem) (a size count : ℕ)
    → elements m a size count ≡ chop count size (load m a (count * size))
unfolding elements
elements-chop m a size zero = refl
elements-chop m a size (suc count) =
    let e : suc count * size ≡ size + count * size = suc-mul count size ∙ omega arith in
    rw
      (
        e,
        take-load m a size (count * size),
        drop-load m a size (count * size),
        elements-chop m (a + size) size count,
      )
      refl

module _ {m : Mem} {p : Ptr} where
  -- An entry of another type is refused.
  not_vector :
      (size : ℕ) (i : Item) (is : List Item)
      → IsRest m p (i ∷ is)
      → Refines
          (as_vector size m p)
          (if type_of i == type_vector then starved else throw (incorrect_type (type_of i)))
  unfolding as_vector get_segment
  not_vector size i is r = elim (Bool-cases (type_of i == type_vector)) [
    | inl hit ↦ rw hit tt
    | inr miss ↦ rw miss (rw (r.chain.0.head.has_type, miss) refl)
  ]

  -- The segment's head and elements, where its fields do not wrap and count its bytes.
  vector-HasItem :
      (size id cnt esize : ℕ) (bs : List ℕ)
      → cnt < 2 ^ 64
      → esize < 2 ^ 64
      → cnt * esize ≡ length bs
      → HasItem m p (vector id cnt esize bs)
      → as_vector size m p
        ≡ (if size == esize then ok (chop cnt esize bs) else throw (incorrect_type_size size esize))
  unfolding as_vector get_segment
  vector-HasItem size id cnt esize bs hc he count h =
      let (c, tail) = Holds-split m (p + 8) (bytes_of 8 cnt) (bytes_of 8 esize ++ bs) h.rest in
      let tail' =
        subst (λ k. Holds m (p + 8 + k) (bytes_of 8 esize ++ bs)) (length-bytes_of 8 cnt) tail in
      let (e, rest) = Holds-split m (p + 8 + 8) (bytes_of 8 esize) bs tail' in
      let rest' = subst (λ k. Holds m (p + 8 + 8 + k) bs) (length-bytes_of 8 esize) rest in
      let shift : p + 8 + 8 + 8 ≡ p + 8 + 16 = omega arith in
      let n = get-Holds m (p + 8) 8 cnt c hc in
      let stored = get-Holds m (p + 8 + 8) 8 esize e he in
      let held : load m (p + 8 + 16) (cnt * esize) ≡ bs =
        subst (λ k. load m (p + 8 + 16) k ≡ bs) (sym count)
          (subst (λ a. Holds m a bs) shift rest') in
      elim (Bool-cases (size == esize)) [
        | inl same ↦
            let eq : size ≡ esize = ground arith in
            rw
              (
                h.head.has_type,
                stored,
                eq,
                eq→== esize esize refl,
                n,
                elements-chop m (p + 8 + 16) esize cnt,
                held,
              )
              refl
        | inr other ↦ rw (h.head.has_type, stored, other) refl
      ]

  pub as_vector-IsRest :
      (size : ℕ) (is : List Item) → IsRest m p is → Refines (as_vector size m p) (vector_at size is)
  as_vector-IsRest size [] r = unfold as_vector get_segment in rw (end_type r) refl
    where
      end_type : IsRest m p [] → Entry.type m p ≡ type_end
      end_type q = subst (λ a. Entry.type m a ≡ type_end) (omega arith) q.end.has_type
  as_vector-IsRest size (vector id c e bs ∷ is) r =
      elim (Bool-cases (ltb c (2 ^ 64) && (ltb e (2 ^ 64) && c * e == length bs))) [
        | inl fits ↦ rw fits (
            ≡-Refines (as_vector size m p) _ (
              vector-HasItem size id c e bs (ground arith) (ground arith) (ground arith) r.chain.0))
        | inr wide ↦ rw wide tt
      ]
  as_vector-IsRest size (marker id ∷ is) r = not_vector size (marker id) is r
  as_vector-IsRest size (integer id v ∷ is) r = not_vector size (integer id v) is r
  as_vector-IsRest size (string id bs ∷ is) r = not_vector size (string id bs) is r
  as_vector-IsRest size (buffer id bs ∷ is) r = not_vector size (buffer id bs) is r
  as_vector-IsRest size (strings id ss ∷ is) r = not_vector size (strings id ss) is r
  as_vector-IsRest size (struct t id bs ∷ is) r = not_vector size (struct t id bs) is r
