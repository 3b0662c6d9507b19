-- ===== src/Storage/Packed.antt =====
-- Byte strings one after the other, each behind its length: how the loop of `add_string_vector` writes
-- them.
use mathlib.Core.Path.{subst}
use live_update.Base.{
  ℕ, ◌+◌, ◌%◌, ◌^◌, ◌<◌, ◌≤◌, ◌≡◌, refl, sym, ◌∙◌, ap, List, [], ◌∷◌, ◌++◌, arith, length,
  length-append, append_assoc,
}
use live_update.Memory.{Ptr, Mem, load, store, get, put, bytes_of}
use live_update.Memory.Words.{length-bytes_of}
use live_update.Memory.Laws.{
  Apart, Holds, Holds-append, Holds-put, Holds-cong, put-outside, get-put_self, get-store_other,
  load-store_self, store-outside,
}
use live_update.Storage.{write_strings}
use live_update.Storage.Items.{packed}

pub length-packed :
    (s : List ℕ) (ss : List (List ℕ)) → length (packed (s ∷ ss)) ≡ 8 + length s + length (packed ss)
length-packed s ss =
    length-append (bytes_of 8 (length s)) (s ++ packed ss)
    ∙ omega (arith, length-bytes_of 8 (length s), length-append s (packed ss))

pub length-le-packed : (q : List (List ℕ)) → length q ≤ length (packed q)
length-le-packed [] = omega arith
length-le-packed (c ∷ q) = omega (arith, length-packed c q, length-le-packed q)

pub record Packed (el total_len : ℕ) (vec : List (List ℕ)) (m : Mem) : Type 0 where
  pub result : (write_strings el total_len vec m).0 ≡ total_len + length (packed vec)
  pub held : Holds (write_strings el total_len vec m).1 el (packed vec)
  pub same :
      (x : Ptr) → Apart el (length (packed vec)) x 1 → (write_strings el total_len vec m).1 x ≡ m x

-- One round of the loop.
unfoldable pub one_string : Ptr → List ℕ → Mem → Mem
one_string el s m = store (put m el 8 (length s)) (el + 8) s

module _ (el : Ptr) (s : List ℕ) (m : Mem) where
  pub one_string-outside : (x : Ptr) → Apart el (8 + length s) x 1 → one_string el s m x ≡ m x
  unfolding one_string
  one_string-outside x h =
      store-outside _ (el + 8) s x (omega arith) ∙ put-outside m el 8 (length s) x (omega arith)

  pub one_string-length : length s < 2 ^ 32 → get (one_string el s m) el 8 ≡ length s
  unfolding one_string
  one_string-length h =
      get-store_other _ (el + 8) s el 8 (omega arith) ∙ get-put_self m el 8 (length s) (omega arith)

  pub one_string-Holds : Holds (one_string el s m) el (bytes_of 8 (length s) ++ s)
  unfolding one_string
  one_string-Holds =
      let m1 = put m el 8 (length s) in
      let m2 = store m1 (el + 8) s in
      let shift : el + 8 ≡ el + length (bytes_of 8 (length s)) =
        omega (arith, length-bytes_of 8 (length s)) in
      Holds-append m2 el (bytes_of 8 (length s)) s
        (Holds-cong m1 m2 el _ (Holds-put m el 8 (length s))
          (λ x p q. store-outside m1 (el + 8) s x (omega (arith, length-bytes_of 8 (length s)))))
        (subst (λ b. Holds m2 b s) shift (load-store_self m1 (el + 8) s))

-- The bytes of one string, with what the loop has written behind it.
pub one_string-append :
    (el : Ptr) (s rest : List ℕ) (m m2 : Mem)
    → Holds m2 (el + 8 + length s) rest
    → ((x : Ptr) → Apart (el + 8 + length s) (length rest) x 1 → m2 x ≡ one_string el s m x)
    → Holds m2 el (bytes_of 8 (length s) ++ (s ++ rest))
one_string-append el s rest m m2 held same =
    let front = bytes_of 8 (length s) ++ s in
    let size : length front ≡ 8 + length s =
      length-append (bytes_of 8 (length s)) s ∙ omega (arith, length-bytes_of 8 (length s)) in
    let shift : el + 8 + length s ≡ el + length front = omega (arith, size) in
    let kept =
      Holds-cong (one_string el s m) m2 el front (one_string-Holds el s m)
        (λ x p q. same x (omega (arith, size))) in
    subst (Holds m2 el) (append_assoc (bytes_of 8 (length s)) s rest)
      (Holds-append m2 el front rest kept (subst (λ b. Holds m2 b rest) shift held))

write_strings-cons :
    (el total_len : ℕ) (s : List ℕ) (vec : List (List ℕ)) (m : Mem)
    → total_len + (8 + length s) < 2 ^ 32
    → write_strings el total_len (s ∷ vec) m
      ≡ write_strings (el + 8 + length s) (total_len + 8 + length s) vec (one_string el s m)
unfolding write_strings one_string
write_strings-cons el total_len s vec m h =
    let m1 = one_string el s m in
    let wrap : (total_len + 8 + length s) % 2 ^ 32 ≡ total_len + 8 + length s = omega arith in
    ap (λ k. write_strings (el + 8 + k) ((total_len + 8 + k) % 2 ^ 32) vec m1)
      (one_string-length el s m (omega arith))
    ∙ ap (λ k. write_strings (el + 8 + length s) k vec m1) wrap

pub write_strings-Packed :
    (el total_len : ℕ) (vec : List (List ℕ)) (m : Mem)
    → total_len + length (packed vec) < 2 ^ 32
    → Packed el total_len vec m
unfolding write_strings load
write_strings-Packed el total_len [] m h = record {
  result = omega arith;
  held = refl;
  same = λ x a. refl;
}
write_strings-Packed el total_len (s ∷ vec) m h =
    let m1 = one_string el s m in
    let size = length-packed s vec in
    let step = write_strings-cons el total_len s vec m (omega (arith, size)) in
    let ih =
      write_strings-Packed (el + 8 + length s) (total_len + 8 + length s) vec m1
        (omega (arith, size)) in
    record {
      result = ap (λ r. r.0) step ∙ (ih.result ∙ omega (arith, size));
      held =
          subst (λ r. Holds r.1 el (packed (s ∷ vec))) (sym step)
            (one_string-append el s (packed vec) m _ ih.held ih.same);
      same = λ x a.
          ap (λ r. r.1 x) step
          ∙ (ih.same x (omega (arith, size)) ∙ one_string-outside el s m x (omega (arith, size)));
    }
