-- ===== src/Entry.antt =====
-- struct storage_entry of storage.hpp and storage.cpp, at an address `p`: `type` (2 bytes), `id` (2),
-- `len` (4), and the payload `vla`; the entry types; and the checksum function of IncludeOS.
use live_update.Base.{ℕ, ◌+◌, ◌%◌, ◌^◌, ◌<◌, List, ◌==◌, if◌then◌else◌}
use live_update.Memory.{Ptr, Mem, load, get, put, sign_extend, offset}
use live_update.Machine.{Run, ok, aborted}

-- enum storage_type
abbrev pub type_end : ℕ
type_end = 0

abbrev pub type_marker : ℕ
type_marker = 1

abbrev pub type_integer : ℕ
type_integer = 2

abbrev pub type_string : ℕ
type_string = 10

abbrev pub type_buffer : ℕ
type_buffer = 11

abbrev pub type_vector : ℕ
type_vector = 12

abbrev pub type_str_vector : ℕ
type_str_vector = 13

abbrev pub type_tcp : ℕ
type_tcp = 100

-- `crc32_fast` of IncludeOS, a parameter of the model; its result is a `uint32_t`.
pub record Crc : Type 0 where
  pub run : List ℕ → ℕ
  pub bound : (bs : List ℕ) → run bs < 2 ^ 32

unfoldable pub type : Mem → Ptr → ℕ
type m p = get m p 2

unfoldable pub id : Mem → Ptr → ℕ
id m p = get m (p + 2) 2

unfoldable pub len : Mem → Ptr → ℕ
len m p = get m (p + 4) 4

abbrev pub vla : Ptr → Ptr
vla p = p + 8

-- The payload of a vector, at `segs`: its `count` and `esize` (8 bytes each), and the elements.
abbrev pub get_segs : Ptr → Ptr
get_segs p = vla p

abbrev pub segs_count : Ptr → Ptr
segs_count segs = segs

abbrev pub segs_esize : Ptr → Ptr
segs_esize segs = segs + 8

abbrev pub segs_vla : Ptr → Ptr
segs_vla segs = segs + 16

-- The payload of a vector of strings, at `head`: its `count` (8 bytes), and the strings, each at an `el`
-- with its `len` (8 bytes) and its bytes.
abbrev pub head_count : Ptr → Ptr
head_count head = head

abbrev pub head_vla : Ptr → Ptr
head_vla head = head + 8

abbrev pub el_len : Ptr → Ptr
el_len el = el

abbrev pub el_vla : Ptr → Ptr
el_vla el = el + 8

unfoldable pub construct : Ptr → ℕ → ℕ → ℕ → Mem → Mem
construct p t i v m = put (put (put m p 2 t) (p + 2) 2 i) (p + 4) 4 v

-- An `int`, as its bit pattern.
unfoldable pub length : Mem → Ptr → ℕ
length m p = if type m p == type_integer then 4 else len m p

unfoldable pub size : Mem → Ptr → ℕ
size m p = (8 + length m p) % 2 ^ 32

unfoldable pub next : Mem → Ptr → Run Ptr
next m p = if type m p == type_end then aborted else ok (offset (vla p) (sign_extend (length m p)))

unfoldable pub checksum : Crc → Mem → Ptr → ℕ
checksum crc m p = crc.run (load m (vla p) (sign_extend (length m p)))
