-- ===== src/Examples/Areas.antt =====
-- Entries added to a fresh area, and areas that are sealed, validated and cleared.
use live_update.Base.{
  ℕ, zero, suc, ◌+◌, ◌/◌, ◌≤◌, ◌<◌, ◌≡◌, ◌↔◌, ◌⊎◌, List, [], ◌∷◌, refl, arith, All, true, false,
}
use live_update.Memory.{Ptr, Mem, IsBytes, bytes_of, store, put}
use live_update.Memory.Laws.{store-outside, load-store_self}
use live_update.Machine.{ok}
use live_update.Storage
use live_update.Storage.{
  add_string_vector, add_vector, add_string, add_marker, add_buffer, finalize, validate, zero_area,
  get_length,
}
use live_update.Storage.Items.{Item, IsSized, HasRoom, HasItem, Appended, IsHeader, IsArea, total}
use live_update.Storage.Append.{IsHeader-cong}
use live_update.Storage.Grow.{Appended-IsArea}
use live_update.Storage.Add
use live_update.Storage.Add.{
  add_buffer-Appended, add_string-Appended, add_marker-Appended, add_vector-Appended,
}
use live_update.Storage.Strings.{add_string_vector-Appended}
use live_update.Storage.Checksum.{IsSealed, finalize-IsSealed}
use live_update.Storage.Validate.{IsValid, validate_iff, zero_area_lem}
use live_update.Examples.{crc, cleared, place, fresh, fresh-IsArea}

abbrev pub names : List (List ℕ)
names = (b'a' ∷ b'b' ∷ []) ∷ [] ∷ (b'c' ∷ []) ∷ []

pub names-IsSized : IsSized (Item.strings 7 names)
unfolding bytes_of
names-IsSized = record {
  id = omega arith;
  type = omega arith;
  len = omega arith;
  size = omega arith;
  entry = λ e. omega (arith, e);
  kind = refl;
}

pub names-HasRoom : HasRoom 0 0 (Item.strings 7 names)
unfolding bytes_of
names-HasRoom = record { count = omega arith; bytes = omega arith }

abbrev pub names_filled : Mem
names_filled =
    (add_string_vector-Appended fresh-IsArea.header 7 names names-IsSized names-HasRoom).0

-- A vector of two elements of two bytes, from a source behind the area.
abbrev pub elements_at : Mem
elements_at = store fresh 0xa000 (1 ∷ 2 ∷ 3 ∷ 4 ∷ [])

pub elements-IsHeader : IsHeader elements_at place 0 0
elements-IsHeader =
    IsHeader-cong fresh-IsArea.header
      (λ x a b c. store-outside fresh 0xa000 (1 ∷ 2 ∷ 3 ∷ 4 ∷ []) x (omega arith))

-- Its elements.
abbrev pub four : List (List ℕ)
four = (1 ∷ 2 ∷ []) ∷ (3 ∷ 4 ∷ []) ∷ []

abbrev pub four_filled : Mem
four_filled = add_vector place 5 0xa000 2 2 elements_at

pub four-IsSized : IsSized (Item.vector 5 2 2 (1 ∷ 2 ∷ 3 ∷ 4 ∷ []))
four-IsSized = record {
  id = omega arith;
  type = omega arith;
  len = omega arith;
  size = omega arith;
  entry = λ e. omega (arith, e);
  kind = refl;
}

pub four-HasRoom : HasRoom 0 0 (Item.vector 5 2 2 (1 ∷ 2 ∷ 3 ∷ 4 ∷ []))
four-HasRoom = record { count = omega arith; bytes = omega arith }

pub four-IsSource : Add.IsSource elements-IsHeader 0xa000 (1 ∷ 2 ∷ 3 ∷ 4 ∷ []) 28
four-IsSource = record {
  held = load-store_self fresh 0xa000 (1 ∷ 2 ∷ 3 ∷ 4 ∷ []);
  out = omega arith;
}

pub four-HasItem : HasItem four_filled (place + 20 + 0) (Item.vector 5 2 2 (1 ∷ 2 ∷ 3 ∷ 4 ∷ []))
four-HasItem =
    (add_vector-Appended elements-IsHeader 5 0xa000 2 2 (1 ∷ 2 ∷ 3 ∷ 4 ∷ []) refl (omega arith)
      (omega arith) four-IsSized four-HasRoom four-IsSource).item

-- An object of four bytes.
abbrev pub pair : List ℕ
pair = 1 ∷ 2 ∷ 3 ∷ 4 ∷ []

abbrev pub pair_filled : Mem
pair_filled = add_buffer place 6 0xa000 4 elements_at

pub pair-Appended : Appended elements_at pair_filled place 0 0 (Item.buffer 6 pair)
pair-Appended =
    add_buffer-Appended elements-IsHeader 6 0xa000 pair
      (record {
        id = omega arith;
        type = omega arith;
        len = omega arith;
        size = omega arith;
        entry = λ e. omega (arith, e);
        kind = refl;
      })
      (record { count = omega arith; bytes = omega arith })
      (record { held = load-store_self fresh 0xa000 pair; out = omega arith })

-- An area with a string and a marker.
abbrev pub greeting : Item
greeting = Item.string 3 (b'h' ∷ b'i' ∷ [])

abbrev pub two_items : List Item
two_items = greeting ∷ Item.marker 9 ∷ []

pub greeting-IsSized : IsSized greeting
greeting-IsSized = record {
  id = omega arith;
  type = omega arith;
  len = omega arith;
  size = omega arith;
  entry = λ e. omega (arith, e);
  kind = refl;
}

pub marker-IsSized : IsSized (Item.marker 9)
marker-IsSized = record {
  id = omega arith;
  type = omega arith;
  len = omega arith;
  size = omega arith;
  entry = λ e. omega (arith, e);
  kind = refl;
}

abbrev pub one_filled : Mem
one_filled = add_string place 3 (b'h' ∷ b'i' ∷ []) fresh

abbrev pub two_filled : Mem
two_filled = add_marker place 9 one_filled

pub greeting-Appended : Appended fresh one_filled place 0 0 greeting
greeting-Appended =
    add_string-Appended fresh-IsArea.header 3 (b'h' ∷ b'i' ∷ []) greeting-IsSized
      (record { count = omega arith; bytes = omega arith })

one_filled-IsArea : IsArea one_filled place (greeting ∷ [])
one_filled-IsArea = Appended-IsArea [] greeting fresh-IsArea greeting-Appended

pub two_filled-IsArea : IsArea two_filled place two_items
two_filled-IsArea = Appended-IsArea (greeting ∷ []) (Item.marker 9) one_filled-IsArea (
    add_marker-Appended one_filled-IsArea.header 9 marker-IsSized
      (record { count = omega arith; bytes = omega arith }))

finalize-IsSealed_example :
    (m2 : Mem) × (finalize crc 0x100000 place two_filled ≡ (ok tt, m2))
    × IsSealed crc m2 place two_items
    × ((x : Ptr) → (x < place) ⊎ (place + 20 + total two_items + 10 ≤ x) → m2 x ≡ two_filled x)
finalize-IsSealed_example =
    finalize-IsSealed crc 0x100000 two_filled-IsArea (omega arith) (omega arith) (omega arith)

store-IsBytes :
    (m : Mem) (a : Ptr) (bs : List ℕ) → IsBytes m → All (λ b. b < 256) bs → IsBytes (store m a bs)
unfolding store
store-IsBytes m a [] h k x = h x
store-IsBytes m a (b ∷ bs) h k x = ground (arith, store-IsBytes m (a + 1) bs h k.1 x, k.0)

bytes_of-bound : (n v : ℕ) → All (λ b. b < 256) (bytes_of n v)
unfolding bytes_of
bytes_of-bound zero v = tt
bytes_of-bound (suc n) v = (omega arith, bytes_of-bound n (v / 256))

put-IsBytes : (m : Mem) (a : Ptr) (n v : ℕ) → IsBytes m → IsBytes (put m a n v)
unfolding put
put-IsBytes m a n v h = store-IsBytes m a (bytes_of n v) h (bytes_of-bound n v)

-- A header with the checksum of the empty area.
abbrev checked : Mem
checked = put fresh (place + 8) 4 1

checked-IsBytes : IsBytes checked
unfolding Storage.construct
checked-IsBytes = put-IsBytes _ (place + 8) 4 1 (
    put-IsBytes _ (place + 16) 4 0 (
      put-IsBytes _ (place + 12) 4 0 (
        put-IsBytes _ (place + 8) 4 0
          (put-IsBytes cleared place 8 Storage.liveupd_magic (λ x. omega arith)))))

validate_iff_example :
    (((validate crc place checked).0 ≡ true) ↔ IsValid crc checked place)
    × ((validate crc place checked).1 ≡ checked)
validate_iff_example = validate_iff crc checked place checked-IsBytes

zero_area_lem_example :
    let m1 = (zero_area place two_filled).1 in
    ((zero_area place two_filled).0 ≡ ok tt)
    × ((x : Ptr) → place ≤ x → x < place + (24 + get_length two_filled place) → m1 x ≡ 0)
    × ((x : Ptr)
        → (x < place) ⊎ (place + (24 + get_length two_filled place) ≤ x)
        → m1 x ≡ two_filled x)
    × (validate crc place m1 ≡ (false, m1))
zero_area_lem_example = zero_area_lem crc two_filled place
