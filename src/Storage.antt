-- ===== src/Storage.antt =====
-- storage.hpp and storage.cpp: the storage area, a header followed by entries, at an address `sh`
-- of the memory. Sizes and offsets are those of x86_64: the header's entries begin at offset 20 and
-- `sizeof(storage_header)` is 24; an entry's payload begins at offset 8.
pub mod Items
pub mod Append
pub mod Grow
pub mod Add
pub mod Packed
pub mod Strings
pub mod Seal
pub mod Checksum
pub mod Validate
use live_update.Base.{
  ℕ, ◌+◌, ◌*◌, ◌%◌, ◌^◌, Bool, true, false, List, [], ◌∷◌, ltb, ◌==◌, if◌then◌else◌, length,
  replicate,
}
use live_update.Memory.{Ptr, Mem, load, store, get, put, sign_extend}
use live_update.Entry
use live_update.Entry.{
  type_end, type_marker, type_integer, type_string, type_buffer, type_vector, type_str_vector, Crc,
  segs_count, segs_esize, segs_vla, head_count, head_vla, el_len, el_vla,
}
use live_update.Machine.{
  Run, magic_invalidated, storage_outside_memory, canary_failed, ok, throw, aborted, Cmd, and_then,
}

abbrev pub liveupd_magic : ℕ
liveupd_magic = 0xbaadb33fdeadc0de

-- struct storage_header at `sh`: `magic` (8 bytes), `crc` (4), `entries` (4), `length` (4), `vla`.
abbrev pub vla : Ptr → Ptr
vla sh = sh + 20

unfoldable pub get_magic : Mem → Ptr → ℕ
get_magic m sh = get m sh 8

unfoldable pub get_crc : Mem → Ptr → ℕ
get_crc m sh = get m (sh + 8) 4

unfoldable pub get_entries : Mem → Ptr → ℕ
get_entries m sh = get m (sh + 12) 4

unfoldable pub get_length : Mem → Ptr → ℕ
get_length m sh = get m (sh + 16) 4

unfoldable pub total_bytes : Mem → Ptr → ℕ
total_bytes m sh = 24 + get_length m sh

unfoldable pub construct : Ptr → Mem → Mem
construct sh m = put (put (put (put m sh 8 liveupd_magic) (sh + 8) 4 0) (sh + 12) 4 0) (sh + 16) 4 0

unfoldable pub append_eof : Ptr → Mem → Mem
append_eof sh m = put m (vla sh + get_length m sh) 2 type_end

-- `length += entry->size(); entries++; append_eof();`, which ends both kinds of entries.
unfoldable pub account : Ptr → Ptr → Mem → Mem
account sh p m =
    let m1 = put m (sh + 16) 4 ((get_length m sh + Entry.size m p) % 2 ^ 32) in
    let m2 = put m1 (sh + 12) 4 ((get_entries m1 sh + 1) % 2 ^ 32) in append_eof sh m2

unfoldable pub create_entry : Ptr → ℕ → ℕ → ℕ → Mem → Ptr × Mem
create_entry sh t i v m =
    let p = vla sh + get_length m sh in (p, account sh p (Entry.construct p t i v m))

-- `construct_func` writes at the address and returns the number of bytes as an `int`.
abbrev pub ConstructFunc : Type 0
ConstructFunc = Ptr → Cmd Mem ℕ

unfoldable pub var_entry : Ptr → ℕ → ℕ → ConstructFunc → Cmd Mem Ptr
var_entry sh t i func m =
    let p = vla sh + get_length m sh in
    and_then (func (Entry.vla p) (Entry.construct p t i 0 m))
      λ n m1. (ok p, account sh p (put m1 (p + 4) 4 n))

unfoldable pub add_marker : Ptr → ℕ → Mem → Mem
add_marker sh i m = (create_entry sh type_marker i 0 m).1

unfoldable pub add_int : Ptr → ℕ → ℕ → Mem → Mem
add_int sh i value m = (create_entry sh type_integer i value m).1

-- A `std::string` is the list of its bytes; `size_t` is cut to the `int` of the entry.
unfoldable pub add_string : Ptr → ℕ → List ℕ → Mem → Mem
add_string sh i bytes m =
    let (p, m1) = create_entry sh type_string i (length bytes % 2 ^ 32) m in
    store m1 (Entry.vla p) bytes

-- `memcpy` takes the `int` for a `size_t`.
unfoldable pub add_buffer : Ptr → ℕ → Ptr → ℕ → Mem → Mem
add_buffer sh i buffer len m =
    let (p, m1) = create_entry sh type_buffer i len m in
    store m1 (Entry.vla p) (load m1 buffer (sign_extend len))

unfoldable pub add_struct : Ptr → ℕ → ℕ → ℕ → Mem → Ptr × Mem
add_struct sh t i len m = create_entry sh t i len m

unfoldable pub add_struct_func : Ptr → ℕ → ℕ → ConstructFunc → Cmd Mem Ptr
add_struct_func sh t i func m = var_entry sh t i func m

-- `sizeof(segmented_entry)` is 16.
unfoldable pub add_vector : Ptr → ℕ → Ptr → ℕ → ℕ → Mem → Mem
add_vector sh i buf cnt esize m =
    let (p, m1) = create_entry sh type_vector i ((16 + cnt * esize) % 2 ^ 32) m in
    let segs = Entry.get_segs p in
    let m2 = put (put m1 (segs_count segs) 8 cnt) (segs_esize segs) 8 esize in
    store m2 (segs_vla segs)
      (load m2 buf (get m2 (segs_count segs) 8 * get m2 (segs_esize segs) 8 % 2 ^ 64))

-- The loop over the strings: `el` is the next varseg_entry, whose size without its bytes is 8, and
-- `total_len` an `int`.
unfoldable pub write_strings : Ptr → ℕ → List (List ℕ) → Mem → ℕ × Mem
write_strings el total_len [] m = (total_len, m)
write_strings el total_len (str ∷ vec) m =
    let m1 = store (put m (el_len el) 8 (length str)) (el_vla el) str in
    write_strings (el_vla el + get m1 (el_len el) 8)
      ((total_len + 8 + get m1 (el_len el) 8) % 2 ^ 32) vec m1

-- `sizeof(varseg_begin)` is 8.
unfoldable pub string_vector_func : List (List ℕ) → ConstructFunc
string_vector_func vec dest m =
    let (total_len, m1) =
      write_strings (head_vla dest) 8 vec (put m (head_count dest) 8 (length vec)) in
    (ok total_len, m1)

unfoldable pub add_string_vector : Ptr → ℕ → List (List ℕ) → Cmd Mem Ptr
add_string_vector sh i vec m = var_entry sh type_str_vector i (string_vector_func vec) m

abbrev pub end_canary : ℕ
end_canary = 0xbeefc4f3

-- `heap_max` is `OS::heap_max()`. `create_entry(TYPE_END)` has the id 0 and the length 0.
unfoldable pub add_end : ℕ → Ptr → Cmd Mem (Unit {0})
add_end heap_max sh m =
    let (p, m1) = create_entry sh type_end 0 0 m in
    let m2 = put m1 (p + 4) 4 end_canary in
    if ltb heap_max (Entry.vla p)
    then (throw storage_outside_memory, m1)
    else if Entry.len m2 p == end_canary
    then (ok tt, put m2 (p + 4) 4 0)
    else (throw canary_failed, m2)

-- The checksum is taken with the field `crc` at 0; it covers `sizeof(storage_header) + length`
-- bytes from the header's first on.
unfoldable pub generate_checksum : Crc → Ptr → Mem → ℕ × Mem
generate_checksum crc sh m =
    let m1 = put m (sh + 8) 4 0 in
    (crc.run (load m1 sh (24 + get_length m1 sh)), put m1 (sh + 8) 4 (get_crc m sh))

unfoldable pub finalize : Crc → ℕ → Ptr → Cmd Mem (Unit {0})
finalize crc heap_max sh m =
    if get_magic m sh == liveupd_magic
    then (and_then (add_end heap_max sh m)
        λ _ m1. let (sum, m2) = generate_checksum crc sh m1 in (ok tt, put m2 (sh + 8) 4 sum))
    else (throw magic_invalidated, m)

unfoldable pub validate : Crc → Ptr → Mem → Bool × Mem
validate crc sh m =
    if get_magic m sh == liveupd_magic
    then (if get_crc m sh == 0
        then (false, m)
        else let (sum, m1) = generate_checksum crc sh m in
          (if get_crc m1 sh == sum then (true, m1) else (false, m1)))
    else (false, m)

-- `memset(this, 0, sizeof(storage_header) + length)`, and the assertion behind it.
unfoldable pub zero_area : Ptr → Cmd Mem (Unit {0})
zero_area sh m =
    let m1 = store m sh (replicate (24 + get_length m sh) 0) in
    if get_magic m1 sh == 0 then (ok tt, m1) else (aborted, m1)

unfoldable pub begin : Ptr → Ptr
begin sh = vla sh

-- With the assertion that there is an entry.
unfoldable pub next : Mem → Ptr → Run Ptr
next m ptr = if ptr == 0 then aborted else Entry.next m ptr
