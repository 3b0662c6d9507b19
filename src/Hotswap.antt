-- ===== src/Hotswap.antt =====
-- hotswap.cpp and hotswap64.asm: the new kernel is copied over the old one, byte by byte from the first
-- to the last, and started. (The instructions of hotswap64.asm are in Hotswap/Program.)
pub mod Copy
pub mod Processor
pub mod Program
pub mod Setup
pub mod Steps
pub mod Modes
pub mod Takeover
use live_update.Base.{ℕ, zero, suc, ◌+◌, ◌%◌, ◌^◌, [], ◌∷◌, ltb, if◌then◌else◌}
use live_update.Memory.{Ptr, Mem, store}

abbrev pub soft_reset_magic : ℕ
soft_reset_magic = 0xfee1dead

-- The registers with which the new kernel starts, `eax` and `ebx`, and where.
pub record Jump : Type 0 where
  pub entry : Ptr
  pub magic : ℕ
  pub reset_data : Ptr

-- `for (i = 0; i < n; i++) dest[i] = base[i];`, which is also `rep movsb`
unfoldable pub copy_forward : ℕ → Ptr → Ptr → Mem → Mem
copy_forward zero base dest m = m
copy_forward (suc n) base dest m = copy_forward n (base + 1) (dest + 1) (store m dest (m base ∷ []))

-- hotswap.cpp; `len` is an `int`, and a negative one copies nothing.
unfoldable pub hotswap : Ptr → ℕ → Ptr → Ptr → Ptr → Mem → Jump × Mem
hotswap base len dest start reset_data m = (
  record { entry = start; magic = soft_reset_magic; reset_data = reset_data },
  copy_forward (if ltb len (2 ^ 31) then len else 0) base dest m,
)

-- hotswap64.asm keeps the lower 32 bits of the entry point and of the address of the reset data.
unfoldable pub hotswap64 : Ptr → Ptr → ℕ → Ptr → Ptr → Mem → Jump × Mem
hotswap64 dest base len start reset_data m = (
  record { entry = start % 2 ^ 32; magic = soft_reset_magic; reset_data = reset_data % 2 ^ 32 },
  copy_forward len base dest m,
)
