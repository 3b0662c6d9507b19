-- ===== src/World.antt =====
-- The state that the library works on: the memory, the global variables of update.cpp, resume.cpp,
-- rollback.cpp and serialize_tcp.cpp, and what the operating system is told.
use live_update.Base.{ℕ, Bool, List, Option}
use live_update.Memory.{Ptr, Mem}

-- `user` is the service's own state. `slumbering` holds the IP stacks that a restored connection has
-- put to sleep, and `started` those whose send queues have been forced to start, in order. `flushes`
-- counts the calls of `hw::Devices::flush_all`, and `on_panic` says that `rollback_now` has been
-- registered by `OS::on_panic`. `sanity_checks` is `LIVEUPDATE_PERFORM_SANITY_CHECKS`.
pub record World {ℓ} (U : Type ℓ) : Type ℓ where
  pub mem : Mem
  pub user : U
  pub heap_begin : Ptr
  pub heap_end : Ptr
  pub heap_max : Ptr
  pub interrupts : Bool
  pub flushes : ℕ
  pub slumbering : List ℕ
  pub started : List ℕ
  pub rollback_data : Ptr
  pub rollback_len : ℕ
  pub on_panic : Bool
  pub sanity_checks : Bool

-- A `buffer_t`, `std::vector<char>`: where its bytes are, and how many.
pub record Buffer : Type 0 where
  pub at : Ptr
  pub size : ℕ

-- What IncludeOS does for the library: the soft-reset data that it stores for a rollback blob,
-- the devices' flush, the heap (the address and the new end of the heap, or no memory), the kernel's
-- first and last address, and the code of `hotswap64`.
pub record Os : Type 0 where
  pub store_soft_reset : Ptr → ℕ → Mem → Ptr × Mem
  pub flush_all : Mem → Mem
  pub allocate : ℕ → Ptr → Option (Ptr × Ptr)
  pub elf_start : Ptr
  pub elf_end : Ptr
  pub hotswap64 : List ℕ
