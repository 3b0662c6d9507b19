-- ===== src/Restore/Read.antt =====
-- Each `as_` function gives back what the `add_` function of its type stored.
use mathlib.Core.Path.{subst}
use mathlib.Core.List.{flatten}
use live_update.Base.{
  ℕ, ◌+◌, ◌^◌, ◌<◌, ◌≡◌, ◌≢◌, refl, ap, ap₂, List, [], ◌∷◌, ◌++◌, arith, lt→ltb, eq→==, ne→==,
  length, Bool-cases, ◌⊎◌, inl, inr, ◌==◌, if◌then◌else◌, length-append, All,
}
use live_update.Memory.{Ptr, Mem, load, get, bytes_of}
use live_update.Memory.Words.{length-bytes_of}
use live_update.Memory.Laws.{Holds, Holds-split, get-Holds}
use live_update.Machine.{ok, throw, incorrect_type, incorrect_type_size, mismatching_length}
use live_update.Entry
use live_update.Entry.{type_integer, type_string, type_buffer, type_vector, type_str_vector}
use live_update.Storage.Items.{Item, packed, HasItem}
use live_update.Restore
use live_update.Restore.{
  as_int, as_string, as_buffer, as_type, as_vector, get_segment, elements, read_strings,
  rebuild_string_vector, payload_bytes, get_id,
}

elements_lem :
    (m : Mem) (a size : ℕ) (xs : List (List ℕ))
    → All (λ x. length x ≡ size) xs
    → Holds m a (flatten xs)
    → elements m a size (length xs) ≡ xs
unfolding elements flatten
elements_lem m a size [] sizes h = refl
elements_lem m a size (x ∷ xs) sizes h =
    let (first, rest) = Holds-split m a x (flatten xs) h in
    let e = sizes.0 in
    ap₂ ◌∷◌ (subst (λ k. load m a k ≡ x) e first)
      (elements_lem m (a + size) size xs sizes.1 (subst (λ k. Holds m (a + k) (flatten xs)) e rest))

read_strings_lem :
    (m : Mem) (a : ℕ) (ss : List (List ℕ))
    → length (packed ss) < 2 ^ 31
    → Holds m a (packed ss)
    → read_strings m a (length ss) ≡ ss
unfolding read_strings
read_strings_lem m a [] fits h = refl
read_strings_lem m a (s ∷ ss) fits h =
    let size = length-append (bytes_of 8 (length s)) (s ++ packed ss) in
    let size' = length-append s (packed ss) in
    let len8 = length-bytes_of 8 (length s) in
    let (head, tail) = Holds-split m a (bytes_of 8 (length s)) (s ++ packed ss) h in
    let tail' = subst (λ k. Holds m (a + k) (s ++ packed ss)) len8 tail in
    let (first, rest) = Holds-split m (a + 8) s (packed ss) tail' in
    let len : get m a 8 ≡ length s = get-Holds m a 8 (length s) head (omega (arith, size, size')) in
    rw (len, first)
      (ap (λ r. s ∷ r)
        (read_strings_lem m (a + 8 + length s) ss (omega (arith, size, size', len8)) rest))

unless {ℓ} : {P : Type ℓ} (a b : ℕ) → (a ≢ b → P) → (a ≡ b) ⊎ P
unless a b f = elim (Bool-cases (a == b)) [
  | inl e ↦ inl (ground arith)
  | inr e ↦ inr (f (ground arith))
]

module _ {m : Mem} {p : Ptr} where
  pub as_int-integer : (id value : ℕ) → HasItem m p (Item.integer id value) → as_int m p ≡ ok value
  unfolding as_int
  as_int-integer id value h = rw (h.head.has_type, h.head.has_len)

  -- `as_string` of a stored string that is shorter than 2 ^ 31 gives back its bytes.
  pub as_string-string :
      (id : ℕ) (bytes : List ℕ)
      → length bytes < 2 ^ 31
      → HasItem m p (Item.string id bytes)
      → as_string m p ≡ ok bytes
  unfolding as_string payload_bytes
  as_string-string id bytes fits h = rw (h.head.has_type, h.head.has_len, lt→ltb _ _ fits, h.rest)

  pub as_buffer-buffer :
      (id : ℕ) (bytes : List ℕ)
      → length bytes < 2 ^ 31
      → HasItem m p (Item.buffer id bytes)
      → as_buffer m p ≡ ok bytes
  unfolding as_buffer payload_bytes
  as_buffer-buffer id bytes fits h = rw (h.head.has_type, h.head.has_len, lt→ltb _ _ fits, h.rest)

  -- `as_type<S>` of a stored buffer shorter than 2 ^ 31 gives back its bytes if the size of S is the
  -- buffer's length, and otherwise throws the entry's id.
  pub as_type-buffer :
      (size id : ℕ) (bytes : List ℕ)
      → length bytes < 2 ^ 31
      → HasItem m p (Item.buffer id bytes)
      → as_type size m p
        ≡ (if size == length bytes then ok bytes else throw (mismatching_length id))
  unfolding as_type Restore.length get_id
  as_type-buffer size id bytes fits h = elim (Bool-cases (size == length bytes)) [
    | inl same ↦
        let e : size ≡ length bytes = ground arith in
        rw (e, h.head.has_len, lt→ltb _ _ fits, eq→== (length bytes) (length bytes) refl, h.rest)
    | inr other ↦ rw (h.head.has_len, lt→ltb _ _ fits, other, h.head.has_id)
  ]

  -- `as_vector<T>` of a stored vector, whose bytes are below 2 ^ 31 with the 16 of its head, gives back
  -- its elements if the size of T is that of the stored elements, and otherwise throws the two sizes.
  pub as_vector-vector :
      (size id esize : ℕ) (xs : List (List ℕ))
      → 16 + length (flatten xs) < 2 ^ 31
      → length xs < 2 ^ 64
      → esize < 2 ^ 64
      → All (λ x. length x ≡ esize) xs
      → HasItem m p (Item.vector id (length xs) esize (flatten xs))
      → as_vector size m p
        ≡ (if size == esize then ok xs else throw (incorrect_type_size size esize))
  unfolding as_vector get_segment
  as_vector-vector size id esize xs fits hc he sizes h =
      let bytes = flatten xs in
      let (c, tail) =
        Holds-split m (p + 8) (bytes_of 8 (length xs)) (bytes_of 8 esize ++ bytes) h.rest in
      let tail' =
        subst (λ k. Holds m (p + 8 + k) (bytes_of 8 esize ++ bytes)) (length-bytes_of 8 (length xs))
          tail in
      let (e, rest) = Holds-split m (p + 8 + 8) (bytes_of 8 esize) bytes tail' in
      let rest' = subst (λ k. Holds m (p + 8 + 8 + k) bytes) (length-bytes_of 8 esize) rest in
      let shift : p + 8 + 8 + 8 ≡ p + 8 + 16 = omega arith in
      let count : get m (p + 8) 8 ≡ length xs = get-Holds m (p + 8) 8 (length xs) c hc in
      let stored : get m (p + 8 + 8) 8 ≡ esize = get-Holds m (p + 8 + 8) 8 esize e he in
      elim (Bool-cases (size == esize)) [
        | inl same ↦
            let eq : size ≡ esize = ground arith in
            rw (h.head.has_type, stored, eq, eq→== esize esize refl, count)
              (ap ok (
                elements_lem m (p + 8 + 16) esize xs sizes
                  (subst (λ a. Holds m a bytes) shift rest')))
        | inr other ↦ rw (h.head.has_type, stored, other)
      ]

  -- `rebuild_string_vector` of a stored vector of strings, whose packed size is below 2 ^ 31, gives back
  -- the strings.
  pub rebuild_string_vector-strings :
      (id : ℕ) (ss : List (List ℕ))
      → 8 + length (packed ss) < 2 ^ 31
      → length ss < 2 ^ 64
      → HasItem m p (Item.strings id ss)
      → rebuild_string_vector m p ≡ ok ss
  unfolding rebuild_string_vector
  rebuild_string_vector-strings id ss fits hc h =
      let (c, tail) = Holds-split m (p + 8) (bytes_of 8 (length ss)) (packed ss) h.rest in
      let tail' =
        subst (λ k. Holds m (p + 8 + k) (packed ss)) (length-bytes_of 8 (length ss)) tail in
      rw (h.head.has_type, get-Holds m (p + 8) 8 (length ss) c hc)
        (ap ok (read_strings_lem m (p + 8 + 8) ss (omega arith) tail'))

-- Every checked reader refuses an entry of another type than its own, with an exception that names the
-- type that it found.
pub readers_refuse :
    (m : Mem) (p : Ptr) (size t : ℕ)
    → Entry.type m p ≡ t
    → ((t ≡ type_integer) ⊎ (as_int m p ≡ throw (incorrect_type t)))
      × ((t ≡ type_string) ⊎ (as_string m p ≡ throw (incorrect_type t)))
      × ((t ≡ type_buffer) ⊎ (as_buffer m p ≡ throw (incorrect_type t)))
      × ((t ≡ type_vector) ⊎ (as_vector size m p ≡ throw (incorrect_type t)))
      × ((t ≡ type_str_vector) ⊎ (rebuild_string_vector m p ≡ throw (incorrect_type t)))
unfolding as_int as_string as_buffer as_vector get_segment rebuild_string_vector
readers_refuse m p size t e = (
  unless t type_integer (λ h. rw (e, ne→== _ _ h)),
  unless t type_string (λ h. rw (e, ne→== _ _ h)),
  unless t type_buffer (λ h. rw (e, ne→== _ _ h)),
  unless t type_vector (λ h. rw (e, ne→== _ _ h)),
  unless t type_str_vector (λ h. rw (e, ne→== _ _ h)),
)
