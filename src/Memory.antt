-- ===== src/Memory.antt =====
-- The machine's memory and what C does with it: bytes at addresses, `memcpy`, `memset`, and the
-- reads and writes of integers of 1 to 8 bytes, lowest byte first (x86_64).
pub mod Laws
pub mod Words
use live_update.Base.{
  ℕ, zero, suc, ◌+◌, ◌-◌, ◌*◌, ◌/◌, ◌%◌, ◌^◌, ◌<◌, Bool, List, [], ◌∷◌, ltb, ◌==◌, if◌then◌else◌,
}

-- An address, `uintptr_t`; 0 is the null pointer.
abbrev pub Ptr : Type 0
Ptr = ℕ

-- Every address holds a byte, and a write always takes effect.
abbrev pub Mem : Type 0
Mem = Ptr → ℕ

-- Every cell holds a number below 256.
abbrev pub IsBytes : Mem → Type 0
IsBytes m = (x : Ptr) → m x < 256

-- The `n` bytes from `a` on.
unfoldable pub load : Mem → Ptr → ℕ → List ℕ
load m a zero = []
load m a (suc n) = m a ∷ load m (a + 1) n

-- `memcpy(a, bs, length bs)` from a source outside the memory, such as a string.
unfoldable pub store : Mem → Ptr → List ℕ → Mem
store m a [] x = m x
store m a (b ∷ bs) x = if x == a then b else store m (a + 1) bs x

-- The `n` bytes of a number, and the number of some bytes.
unfoldable pub bytes_of : ℕ → ℕ → List ℕ
bytes_of zero v = []
bytes_of (suc n) v = (v % 256) ∷ bytes_of n (v / 256)

unfoldable pub number_of : List ℕ → ℕ
number_of [] = 0
number_of (b ∷ bs) = b + 256 * number_of bs

-- Reading and writing an unsigned integer of `n` bytes. A signed one is its bit pattern.
unfoldable pub get : Mem → Ptr → ℕ → ℕ
unfolding load number_of
get m a n = number_of (load m a n)

unfoldable pub put : Mem → Ptr → ℕ → ℕ → Mem
unfolding store bytes_of
put m a n v = store m a (bytes_of n v)

-- An `int`, given by its 32-bit pattern, converted to a 64-bit integer: the sign is extended.
abbrev pub sign_extend : ℕ → ℕ
sign_extend w = if ltb w (2 ^ 31) then w else w + (2 ^ 64 - 2 ^ 32)

-- Pointer arithmetic wraps at 64 bits.
abbrev pub offset : Ptr → ℕ → Ptr
offset a n = (a + n) % 2 ^ 64
