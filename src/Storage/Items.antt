-- ===== src/Storage/Items.antt =====
-- What a storage area holds, in the abstract: a list of items, and how each lies in the memory.
use live_update.Base.{
  ℕ, ◌+◌, ◌^◌, ◌≤◌, ◌<◌, ◌≡◌, ◌≢◌, List, [], ◌∷◌, ◌++◌, length, ◌==◌, if◌then◌else◌,
}
use live_update.Memory.{Ptr, Mem, load, bytes_of}
use live_update.Entry
use live_update.Entry.{
  type_end, type_marker, type_integer, type_string, type_buffer, type_vector, type_str_vector,
}
use live_update.Storage.{get_magic, get_entries, get_length, liveupd_magic}

-- What the service stored, by the call that stored it. `struct` is what `add_struct` adds, with a
-- type of the caller's choice. A vector is its elements' bytes, with the elements' number and size.
pub data Item : Type 0 where
  marker : (id : ℕ) → Item
  integer : (id value : ℕ) → Item
  string : (id : ℕ) → List ℕ → Item
  buffer : (id : ℕ) → List ℕ → Item
  vector : (id cnt esize : ℕ) → List ℕ → Item
  strings : (id : ℕ) → List (List ℕ) → Item
  struct : (type id : ℕ) → List ℕ → Item

-- The strings of a vector one after the other, each behind its length.
abbrev pub packed : List (List ℕ) → List ℕ
packed [] = []
packed (s ∷ ss) = bytes_of 8 (length s) ++ (s ++ packed ss)

module _ where
  abbrev pub type_of : Item → ℕ
  type_of (marker i) = type_marker
  type_of (integer i v) = type_integer
  type_of (string i bs) = type_string
  type_of (buffer i bs) = type_buffer
  type_of (vector i c e bs) = type_vector
  type_of (strings i ss) = type_str_vector
  type_of (struct t i bs) = t

  abbrev pub id_of : Item → ℕ
  id_of (marker i) = i
  id_of (integer i v) = i
  id_of (string i bs) = i
  id_of (buffer i bs) = i
  id_of (vector i c e bs) = i
  id_of (strings i ss) = i
  id_of (struct t i bs) = i

  -- The bytes behind the entry's head that an item determines: none of the four of an integer.
  abbrev pub payload : Item → List ℕ
  payload (marker i) = []
  payload (integer i v) = []
  payload (string i bs) = bs
  payload (buffer i bs) = bs
  payload (vector i c e bs) = bytes_of 8 c ++ (bytes_of 8 e ++ bs)
  payload (strings i ss) = bytes_of 8 (length ss) ++ packed ss
  payload (struct t i bs) = bs

  -- The field `len`, and the number of bytes that the entry takes behind its head.
  abbrev pub len_of : Item → ℕ
  len_of (marker i) = 0
  len_of (integer i v) = v
  len_of (string i bs) = length bs
  len_of (buffer i bs) = length bs
  len_of (vector i c e bs) = 16 + length bs
  len_of (strings i ss) = 8 + length (packed ss)
  len_of (struct t i bs) = length bs

  abbrev pub body : Item → ℕ
  body (marker i) = 0
  body (integer i v) = 4
  body (string i bs) = length bs
  body (buffer i bs) = length bs
  body (vector i c e bs) = 16 + length bs
  body (strings i ss) = 8 + length (packed ss)
  body (struct t i bs) = length bs

abbrev pub total : List Item → ℕ
total [] = 0
total (i ∷ is) = 8 + body i + total is

-- An item's head and payload at `p`.
pub record HasHead (m : Mem) (p : Ptr) (t i v : ℕ) : Type 0 where
  pub has_type : Entry.type m p ≡ t
  pub has_id : Entry.id m p ≡ i
  pub has_len : Entry.len m p ≡ v

pub record HasItem (m : Mem) (p : Ptr) (i : Item) : Type 0 where
  pub head : HasHead m p (type_of i) (id_of i) (len_of i)
  pub rest : load m (p + 8) (length (payload i)) ≡ payload i

-- The items one after the other from `p` on.
abbrev pub Chain : Mem → Ptr → List Item → Type 0
Chain m p [] = Unit
Chain m p (i ∷ is) = HasItem m p i × Chain m (p + (8 + body i)) is

-- A header at `sh` that counts `n` entries in `len` bytes.
pub record IsHeader (m : Mem) (sh : Ptr) (n len : ℕ) : Type 0 where
  pub magic : get_magic m sh ≡ liveupd_magic
  pub entries : get_entries m sh ≡ n
  pub length : get_length m sh ≡ len

-- The area at `sh` holds exactly the items.
pub record IsArea (m : Mem) (sh : Ptr) (is : List Item) : Type 0 where
  pub header : IsHeader m sh (length is) (total is)
  pub chain : Chain m (sh + 20) is

-- `m'` is `m` with one more item behind the `len` bytes of an area. The frame names what stays: the
-- magic and the checksum, the items before, and all behind the new end mark.
pub record Appended (m m' : Mem) (sh : Ptr) (n len : ℕ) (i : Item) : Type 0 where
  pub header : IsHeader m' sh (n + 1) (len + (8 + body i))
  pub item : HasItem m' (sh + 20 + len) i
  pub eof : Entry.type m' (sh + 20 + (len + (8 + body i))) ≡ type_end
  pub before : (x : Ptr) → x < sh + 12 → m' x ≡ m x
  pub items : (x : Ptr) → sh + 20 ≤ x → x < sh + 20 + len → m' x ≡ m x
  pub behind : (x : Ptr) → sh + 20 + (len + (8 + body i)) + 2 ≤ x → m' x ≡ m x

-- Room for one more item: no field of the header wraps.
pub record HasRoom (n len : ℕ) (i : Item) : Type 0 where
  pub count : n + 1 < 2 ^ 32
  pub bytes : len + (8 + body i) < 2 ^ 32

-- Ids, types and values have the widths of their C types, no length is negative as an `int`, the type
-- is not that of the end, and the entry's type and `len` tell its size.
pub record IsSized (i : Item) : Type 0 where
  pub id : id_of i < 2 ^ 16
  pub type : type_of i < 2 ^ 16
  pub len : len_of i < 2 ^ 32
  pub size : body i < 2 ^ 31
  pub entry : type_of i ≢ type_end
  pub kind : body i ≡ (if type_of i == type_integer then 4 else len_of i)
