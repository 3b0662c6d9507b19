-- ===== src/Update/Templates.antt =====
-- The templates of class Storage in liveupdate.hpp, for objects, for vectors of them and for vectors of strings,
-- and what the templates of class Restore give back.
use mathlib.Core.List.{flatten}
use native.Mathlib.Nat.{suc-mul}
use live_update.Base.{
  ℕ, ◌+◌, ◌*◌, ◌%◌, ◌^◌, ◌<◌, ◌≡◌, refl, ◌∙◌, List, [], ◌∷◌, arith, length, length-append, eq→==,
  All,
}
use live_update.Memory.{Ptr, Mem}
use live_update.Machine.{Run, ok, Cmd}
use live_update.World.{World}
use live_update.Storage.Items.{Item, IsHeader, HasRoom, IsSized}
use live_update.Storage.Add.{IsSource, add_buffer-Appended, add_vector-Appended}
use live_update.Storage.Strings.{add_string_vector-Appended}
use live_update.Restore.{as_type, as_vector, rebuild_string_vector}
use live_update.Restore.Read.{as_type-buffer, as_vector-vector, rebuild_string_vector-strings}
use live_update.Storage.Packed.{length-le-packed}
use live_update.Update.{add_bytes, add_vector, add_string_vector}

-- A `std::vector<T>`: where its elements are, and how many; `sizeof(T)` is given with it.
pub record Vector : Type 0 where
  pub at : Ptr
  pub size : ℕ

module _ {ℓ} {U : Type ℓ} where
  -- `add<T>(id, thing)`, with the address of the object and `sizeof(T)`
  unfoldable pub add : Ptr → ℕ → Ptr → ℕ → Cmd (World U) (Unit {0})
  add hdr id thing size = add_bytes hdr id thing size

  -- `add_vector<T>(id, vector)`
  unfoldable pub add_vector_of : Ptr → ℕ → Vector → ℕ → Cmd (World U) (Unit {0})
  add_vector_of hdr id vector size = add_vector hdr id vector.at vector.size size

  -- `add_vector<std::string>(id, vector)`
  unfoldable pub add_vector_of_strings : Ptr → ℕ → List (List ℕ) → Cmd (World U) (Unit {0})
  add_vector_of_strings hdr id vector = add_string_vector hdr id vector

-- `as_vector<std::string>()`
unfoldable pub as_vector_of_strings : Mem → Ptr → Run (List (List ℕ))
as_vector_of_strings m p = rebuild_string_vector m p

pub length-flatten :
    (size : ℕ) (xs : List (List ℕ))
    → All (λ x. length x ≡ size) xs
    → length xs * size ≡ length (flatten xs)
unfolding flatten
length-flatten size [] h = omega arith
length-flatten size (x ∷ xs) h =
    suc-mul (length xs) size
    ∙ omega (arith, length-append x (flatten xs), h.0, length-flatten size xs h.1)

module _ {ℓ} {U : Type ℓ} (w : World U) {sh : Ptr} {n len : ℕ} (h : IsHeader w.mem sh n len) where
  -- An object that `add<T>` stores, in an area with room for it and from a place apart from what is
  -- written, is what `as_type<T>` gives back.
  pub as_type-add :
      (id : ℕ) (thing : Ptr) (bytes : List ℕ)
      → IsSized (Item.buffer id bytes)
      → HasRoom n len (Item.buffer id bytes)
      → IsSource h thing bytes (8 + length bytes)
      → ((add sh id thing (length bytes) w).0 ≡ ok tt)
        × (as_type (length bytes) (add sh id thing (length bytes) w).1.mem (sh + 20 + len)
            ≡ ok bytes)
  unfolding add add_bytes
  as_type-add id thing bytes sized room source =
      let cut : length bytes % 2 ^ 32 ≡ length bytes = omega (arith, sized.size) in
      let a = add_buffer-Appended h id thing bytes sized room source in
      rw cut (
        refl,
        rw
            (
              as_type-buffer (length bytes) id bytes sized.size a.item,
              eq→== (length bytes) (length bytes) refl,
            )
            refl,
      )

  -- A vector whose elements have the size of T, which `add_vector<T>` stores in an area with room for it
  -- and from a place apart from what is written, is what `as_vector<T>` gives back.
  pub as_vector-add_vector_of :
      (id : ℕ) (vector : Vector) (size : ℕ) (xs : List (List ℕ))
      → vector.size ≡ length xs
      → All (λ x. length x ≡ size) xs
      → length xs < 2 ^ 64
      → size < 2 ^ 64
      → IsSized (Item.vector id (length xs) size (flatten xs))
      → HasRoom n len (Item.vector id (length xs) size (flatten xs))
      → IsSource h vector.at (flatten xs) (8 + (16 + length (flatten xs)))
      → ((add_vector_of sh id vector size w).0 ≡ ok tt)
        × (as_vector size (add_vector_of sh id vector size w).1.mem (sh + 20 + len) ≡ ok xs)
  unfolding add_vector_of add_vector
  as_vector-add_vector_of id vector size xs count sizes hc hs sized room source =
      let a =
        add_vector-Appended h id vector.at (length xs) size (flatten xs)
          (length-flatten size xs sizes) hc hs sized room source in
      rw count (
        refl,
        rw (as_vector-vector size id size xs sized.size hc hs sizes a.item, eq→== size size refl)
            refl,
      )

  -- A vector of strings that `add_vector` stores, whose packed size is below 2 ^ 31 and for which the area
  -- has room, is what `as_vector` gives back.
  pub as_vector_of_strings-add_vector_of_strings :
      (id : ℕ) (vec : List (List ℕ))
      → IsSized (Item.strings id vec)
      → HasRoom n len (Item.strings id vec)
      → ((add_vector_of_strings sh id vec w).0 ≡ ok tt)
        × (as_vector_of_strings (add_vector_of_strings sh id vec w).1.mem (sh + 20 + len) ≡ ok vec)
  unfolding add_vector_of_strings add_string_vector as_vector_of_strings
  as_vector_of_strings-add_vector_of_strings id vec sized room =
      let (m2, done, a) = add_string_vector-Appended h id vec sized room in
      rw done (
        refl,
        rebuild_string_vector-strings id vec sized.size
            (omega (arith, sized.size, length-le-packed vec)) a.item,
      )
