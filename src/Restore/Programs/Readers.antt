-- ===== src/Restore/Programs/Readers.antt =====
-- Each call of class Restore that reads agrees with its abstract view.
use mathlib.Core.Path.{subst}
use live_update.Base.{
  ℕ, ◌+◌, ◌^◌, ◌<◌, ◌≡◌, ◌≢◌, refl, sym, inl, inr, ◌∙◌, ap, List, [], ◌∷◌, ◌++◌, arith, lt→ltb,
  eq→==, ◌==◌, if◌then◌else◌, Bool-cases, length, length-append,
}
use live_update.Memory.{Ptr, Mem, load, bytes_of}
use live_update.Memory.Words.{length-bytes_of}
use live_update.Machine.{Run, ok, throw, aborted, starved, incorrect_type}
use live_update.Entry
use live_update.Entry.{
  type_end, type_integer, type_string, type_buffer, type_vector, type_str_vector,
}
use live_update.Storage.Items.{
  Item, marker, integer, string, buffer, vector, strings, struct, type_of, len_of, payload, packed,
  body, HasHead, IsSized,
}
use live_update.Storage.Packed.{length-le-packed}
use live_update.Restore
use live_update.Restore.{
  get_type, get_id, as_int, as_string, as_buffer, as_type, as_vector, get_segment, elements,
  rebuild_string_vector, payload_bytes, next_id,
}
use live_update.Restore.Read.{rebuild_string_vector-strings}
use live_update.Restore.Walk.{IsRest, go_next-cons, next-HasItem}
use live_update.Restore.Programs.{
  type_at, id_at, len_at, int_at, bytes_at, object_at, strings_at, next_id_at,
}

-- The outcome `r` is the abstract one, where that is determined.
abbrev pub Refines {ℓ} : {A : Type ℓ} → Run A → Run A → Type ℓ
Refines r (ok a) = r ≡ ok a
Refines r (throw e) = r ≡ throw e
Refines r aborted = r ≡ aborted
Refines r starved = Unit

pub ≡-Refines {ℓ} : {A : Type ℓ} (r s : Run A) → r ≡ s → Refines r s
≡-Refines r (ok a) e = e
≡-Refines r (throw x) e = e
≡-Refines r aborted e = e
≡-Refines r starved e = tt

-- An item but an integer: its field `len` counts its payload.
payload-size :
    (i : Item)
    → IsSized i
    → type_of i ≢ type_integer
    → (len_of i ≡ length (payload i)) × (len_of i < 2 ^ 31)
payload-size (marker id) s h = (refl, omega arith)
payload-size (integer id v) s h = absurd (h refl)
payload-size (string id bs) s h = (refl, s.size)
payload-size (buffer id bs) s h = (refl, s.size)
payload-size (vector id c e bs) s h = (
  omega (
    arith,
    length-append (bytes_of 8 c) (bytes_of 8 e ++ bs),
    length-append (bytes_of 8 e) bs,
    length-bytes_of 8 c,
    length-bytes_of 8 e,
  ),
  s.size,
)
payload-size (strings id ss) s h = (
  omega (arith, length-append (bytes_of 8 (length ss)) (packed ss), length-bytes_of 8 (length ss)),
  s.size,
)
payload-size (struct t id bs) s h = (refl, s.size)

module _ {m : Mem} {p : Ptr} where
  end_head : IsRest m p [] → HasHead m p type_end 0 0
  end_head r = subst (λ q. HasHead m q type_end 0 0) (omega arith) r.end

  pub get_type-IsRest : (is : List Item) → IsRest m p is → get_type m p ≡ type_at is
  unfolding get_type
  get_type-IsRest [] r = (end_head r).has_type
  get_type-IsRest (i ∷ is) r = r.chain.0.head.has_type

  pub get_id-IsRest : (is : List Item) → IsRest m p is → get_id m p ≡ id_at is
  unfolding get_id
  get_id-IsRest [] r = (end_head r).has_id
  get_id-IsRest (i ∷ is) r = r.chain.0.head.has_id

  pub length-IsRest : (is : List Item) → IsRest m p is → Restore.length m p ≡ len_at is
  unfolding Restore.length
  length-IsRest [] r = (end_head r).has_len
  length-IsRest (i ∷ is) r = r.chain.0.head.has_len

  pub as_int-IsRest : (is : List Item) → IsRest m p is → as_int m p ≡ int_at is
  unfolding as_int get_type Restore.length
  as_int-IsRest is r = rw (get_type-IsRest is r, length-IsRest is r) refl

  load-payload :
      (i : Item) (is : List Item)
      → IsRest m p (i ∷ is)
      → type_of i ≢ type_integer
      → load m (p + 8) (len_of i) ≡ payload i
  load-payload i is r h =
      subst (λ n. load m (p + 8) n ≡ payload i) (sym (payload-size i r.sized.0 h).0) r.chain.0.rest

  -- The bytes of an entry with a type of bytes.
  payload_bytes-IsRest :
      (t : ℕ) (i : Item) (is : List Item)
      → IsRest m p (i ∷ is)
      → type_of i ≡ t
      → t ≢ type_integer
      → payload_bytes m p ≡ ok (payload i)
  unfolding payload_bytes
  payload_bytes-IsRest t i is r e h =
      let other : type_of i ≢ type_integer = λ q. h (sym e ∙ q) in
      let small = lt→ltb (len_of i) (2 ^ 31) (payload-size i r.sized.0 other).1 in
      rw (r.chain.0.head.has_len, small, load-payload i is r other) refl

  pub as_string-IsRest : (is : List Item) → IsRest m p is → as_string m p ≡ bytes_at type_string is
  unfolding as_string
  as_string-IsRest [] r = rw (end_head r).has_type refl
  as_string-IsRest (i ∷ is) r = elim (Bool-cases (type_of i == type_string)) [
    | inl hit ↦
        rw
          (
            r.chain.0.head.has_type,
            hit,
            payload_bytes-IsRest type_string i is r (ground arith) (λ e. omega (arith, e)),
          )
          refl
    | inr miss ↦ rw (r.chain.0.head.has_type, miss) refl
  ]

  pub as_buffer-IsRest : (is : List Item) → IsRest m p is → as_buffer m p ≡ bytes_at type_buffer is
  unfolding as_buffer
  as_buffer-IsRest [] r = rw (end_head r).has_type refl
  as_buffer-IsRest (i ∷ is) r = elim (Bool-cases (type_of i == type_buffer)) [
    | inl hit ↦
        rw
          (
            r.chain.0.head.has_type,
            hit,
            payload_bytes-IsRest type_buffer i is r (ground arith) (λ e. omega (arith, e)),
          )
          refl
    | inr miss ↦ rw (r.chain.0.head.has_type, miss) refl
  ]

  pub as_type-IsRest :
      (size : ℕ) (is : List Item) → IsRest m p is → Refines (as_type size m p) (object_at size is)
  unfolding as_type Restore.length get_id load
  as_type-IsRest size [] r = elim (Bool-cases (size == 0)) [
    | inl zero_size ↦
        let e : size ≡ 0 = ground arith in
        rw ((end_head r).has_len, zero_size)
          (subst (λ n. ok (load m (p + 8) n) ≡ ok []) (sym e) refl)
    | inr other ↦ rw ((end_head r).has_len, (end_head r).has_id, other) refl
  ]
  as_type-IsRest size (i ∷ is) r = elim (Bool-cases (type_of i == type_integer)) [
    | inl int ↦ rw int tt
    | inr other ↦
        let h : type_of i ≢ type_integer = λ e. ground arith in
        let small = lt→ltb (len_of i) (2 ^ 31) (payload-size i r.sized.0 h).1 in
        elim (Bool-cases (size == len_of i)) [
          | inl same ↦
              let e : size ≡ len_of i = ground arith in
              rw (other, same)
                (rw
                  (
                    r.chain.0.head.has_len,
                    small,
                    e,
                    eq→== (len_of i) (len_of i) refl,
                    load-payload i is r h,
                  )
                  refl)
          | inr differ ↦
              rw (other, differ)
                (rw (r.chain.0.head.has_len, small, differ, r.chain.0.head.has_id) refl)
        ]
  ]

  -- An entry of another type is refused.
  not_strings :
      (i : Item) (is : List Item)
      → IsRest m p (i ∷ is)
      → Refines
          (rebuild_string_vector m p)
          (if type_of i == type_str_vector then starved else throw (incorrect_type (type_of i)))
  unfolding rebuild_string_vector
  not_strings i is r = elim (Bool-cases (type_of i == type_str_vector)) [
    | inl hit ↦ rw hit tt
    | inr miss ↦ rw miss (rw (r.chain.0.head.has_type, miss) refl)
  ]

  pub strings-IsRest :
      (is : List Item) → IsRest m p is → Refines (rebuild_string_vector m p) (strings_at is)
  unfolding rebuild_string_vector
  strings-IsRest [] r = rw (end_head r).has_type refl
  strings-IsRest (strings id ss ∷ is) r =
      rebuild_string_vector-strings id ss r.sized.0.size
        (omega (arith, r.sized.0.size, length-le-packed ss)) r.chain.0
  strings-IsRest (marker id ∷ is) r = not_strings (marker id) is r
  strings-IsRest (integer id v ∷ is) r = not_strings (integer id v) is r
  strings-IsRest (string id bs ∷ is) r = not_strings (string id bs) is r
  strings-IsRest (buffer id bs ∷ is) r = not_strings (buffer id bs) is r
  strings-IsRest (vector id c e bs ∷ is) r = not_strings (vector id c e bs) is r
  strings-IsRest (struct t id bs ∷ is) r = not_strings (struct t id bs) is r

module _ {m : Mem} {p : Ptr} where
  id-IsRest : (is : List Item) → IsRest m p is → Entry.id m p ≡ id_at is
  id-IsRest [] r = (end_head r).has_id
  id-IsRest (i ∷ is) r = r.chain.0.head.has_id

pub next_id-IsRest :
    {m : Mem} {p : Ptr} (is : List Item) → IsRest m p is → next_id m p ≡ next_id_at is
unfolding next_id Entry.next
next_id-IsRest [] r = rw (end_head r).has_type refl
next_id-IsRest {m} {p} (i ∷ is) r =
    let next : Entry.next m p ≡ ok (p + (8 + body i)) =
      next-HasItem i r.sized.0 r.chain.0 (omega (arith, r.fits)) in
    rw next (ap ok (id-IsRest is (go_next-cons r).1))
