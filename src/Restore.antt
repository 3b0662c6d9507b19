-- ===== src/Restore.antt =====
-- struct Restore of liveupdate.hpp and resume.cpp: what a handler does with the entry at `p`, which
-- is the reference `ent` of the C++ class. The functions that move `ent` return its new value.
pub mod Read
pub mod Walk
pub mod Markers
pub mod Programs
use live_update.Base.{
  ℕ, zero, suc, ◌+◌, ◌*◌, ◌^◌, Bool, true, false, ◌||◌, not, List, [], ◌∷◌, ltb, ◌==◌,
  if◌then◌else◌,
}
use live_update.Memory.{Ptr, Mem, load, get, sign_extend}
use live_update.Machine.{
  incorrect_type, incorrect_type_size, mismatching_length, already_at_end, another_marker,
  length_error, Run, ok, throw, starved, ◌>>=◌,
}
use live_update.Entry
use live_update.Entry.{segs_count, segs_esize, segs_vla, head_count, head_vla, el_len, el_vla}
use live_update.Entry.{
  type_end, type_marker, type_integer, type_string, type_buffer, type_vector, type_str_vector,
}

unfoldable pub get_type : Mem → Ptr → ℕ
get_type m p = Entry.type m p

unfoldable pub get_id : Mem → Ptr → ℕ
get_id m p = Entry.id m p

-- The field `len`, also of an integer.
unfoldable pub length : Mem → Ptr → ℕ
length m p = Entry.len m p

unfoldable pub is_end : Mem → Ptr → Bool
is_end m p = get_type m p == type_end

unfoldable pub is_int : Mem → Ptr → Bool
is_int m p = get_type m p == type_integer

unfoldable pub is_marker : Mem → Ptr → Bool
is_marker m p = get_type m p == type_marker

unfoldable pub as_int : Mem → Ptr → Run ℕ
as_int m p =
    if Entry.type m p == type_integer
    then ok (Entry.len m p)
    else throw (incorrect_type (Entry.type m p))

-- `len` bytes of the payload as a `std::string` or a `std::vector<char>`. A negative `len` asks for
-- more than these can hold.
unfoldable pub payload_bytes : Mem → Ptr → Run (List ℕ)
payload_bytes m p =
    if ltb (Entry.len m p) (2 ^ 31)
    then ok (load m (Entry.vla p) (Entry.len m p))
    else throw length_error

unfoldable pub as_string : Mem → Ptr → Run (List ℕ)
as_string m p =
    if Entry.type m p == type_string
    then payload_bytes m p
    else throw (incorrect_type (Entry.type m p))

unfoldable pub as_buffer : Mem → Ptr → Run (List ℕ)
as_buffer m p =
    if Entry.type m p == type_buffer
    then payload_bytes m p
    else throw (incorrect_type (Entry.type m p))

-- `data()`
abbrev pub data_of : Ptr → Ptr
data_of p = Entry.vla p

-- `as_type<S>()`, with `size` for `sizeof(S)`: the bytes of the object. The type is not checked.
unfoldable pub as_type : ℕ → Mem → Ptr → Run (List ℕ)
as_type size m p =
    if size == sign_extend (length m p)
    then ok (load m (data_of p) size)
    else throw (mismatching_length (get_id m p))

-- The number of elements, and the address of the first.
unfoldable pub get_segment : ℕ → Mem → Ptr → Run (ℕ × Ptr)
get_segment size m p =
    if Entry.type m p == type_vector
    then (let segs = Entry.get_segs p in
        if size == get m (segs_esize segs) 8
        then ok (get m (segs_count segs) 8, segs_vla segs)
        else throw (incorrect_type_size size (get m (segs_esize segs) 8)))
    else throw (incorrect_type (Entry.type m p))

-- The `count` elements of `size` bytes from `first` on.
unfoldable pub elements : Mem → Ptr → ℕ → ℕ → List (List ℕ)
elements m first size zero = []
elements m first size (suc count) = load m first size ∷ elements m (first + size) size count

-- `as_vector<T>()`, with `size` for `sizeof(T)`: the bytes of each element.
unfoldable pub as_vector : ℕ → Mem → Ptr → Run (List (List ℕ))
as_vector size m p = do (count, first) ← get_segment size m p; ok (elements m first size count)

-- The loop over the strings; `el` is the next varseg_entry.
unfoldable pub read_strings : Mem → Ptr → ℕ → List (List ℕ)
read_strings m el zero = []
read_strings m el (suc left) =
    load m (el_vla el) (get m (el_len el) 8) ∷ read_strings m (el_vla el + get m (el_len el) 8) left

unfoldable pub rebuild_string_vector : Mem → Ptr → Run (List (List ℕ))
rebuild_string_vector m p =
    if Entry.type m p == type_str_vector
    then ok (read_strings m (head_vla (Entry.vla p)) (get m (head_count (Entry.vla p)) 8))
    else throw (incorrect_type (Entry.type m p))

unfoldable pub go_next : Mem → Ptr → Run Ptr
go_next m p = if is_end m p then throw already_at_end else Entry.next m p

unfoldable pub next_id : Mem → Ptr → Run ℕ
next_id m p = do q ← Entry.next m p; ok (Entry.id m q)

-- `while (is_marker() == false && is_end() == false) go_next();` with fuel
unfoldable pub skip_to_marker : ℕ → Mem → Ptr → Run Ptr
skip_to_marker zero m p = starved
skip_to_marker (suc fuel) m p =
    let rest = go_next m p >>= skip_to_marker fuel m in
    if is_marker m p || is_end m p then ok p else rest

-- The marker's id, or 0 at the end, and the new `ent`.
unfoldable pub pop_marker : ℕ → Mem → Ptr → Run (ℕ × Ptr)
pop_marker fuel m p = do
  q ← skip_to_marker fuel m p
  if is_marker m q then (go_next m q >>= λ r. ok (get_id m q, r)) else ok (0, q)

-- `pop_marker(id)`
unfoldable pub pop_marker_id : ℕ → ℕ → Mem → Ptr → Run Ptr
pop_marker_id id fuel m p = do
  q ← skip_to_marker fuel m p
  if is_marker m q
      then (if get_id m q == id then go_next m q else throw (another_marker (get_id m q)))
      else ok q

-- `while (is_end() == false) go_next();` with fuel
unfoldable pub cancel : ℕ → Mem → Ptr → Run Ptr
cancel zero m p = starved
cancel (suc fuel) m p =
    let rest = go_next m p >>= cancel fuel m in if is_end m p then ok p else rest
