-- ===== src/Examples.antt =====
-- Concrete areas, memories and worlds, on which the library's theorems are applied.
pub mod Areas
pub mod Readers
pub mod Updates
pub mod Parts
pub mod Connections
pub mod Kept
pub mod Takeovers
pub mod Templates
pub mod Handlers
pub mod Services
pub mod Clients
pub mod Tests
pub mod Boots
pub mod Kernels
pub mod Flows
pub mod Terminals
use live_update.Base.{ℕ, ◌<◌, arith, List, [], ◌∷◌, Bool, true, Option, none}
use live_update.Memory.{Ptr, Mem}
use live_update.Entry.{Crc}
use live_update.World.{World, Os}
use live_update.Storage
use live_update.Storage.Items.{IsArea}
use live_update.Storage.Seal.{construct-IsArea}

-- A checksum that is 1 whatever the bytes.
abbrev pub crc : Crc
crc = record { run = λ bs. 1; bound = λ bs. omega arith }

abbrev pub cleared : Mem
cleared x = 0

abbrev pub place : Ptr
place = 0x9000

-- A fresh header in a cleared memory.
abbrev pub fresh : Mem
fresh = Storage.construct place cleared

pub fresh-IsArea : IsArea fresh place []
fresh-IsArea = construct-IsArea place cleared

-- A kernel below 0x4000 with a heap from there to 0x8000, and 1 MiB of memory.
abbrev pub world_of : Mem → World (List ℕ)
world_of m = record {
  mem = m;
  user = [];
  heap_begin = 0x4000;
  heap_end = 0x8000;
  heap_max = 0x100000;
  interrupts = true;
  flushes = 0;
  slumbering = [];
  started = [];
  rollback_data = 0;
  rollback_len = 0;
  on_panic = true;
  sanity_checks = true;
}

abbrev pub os : Os
os = record {
  store_soft_reset = λ a n m. (a, m);
  flush_all = λ m. m;
  allocate = λ n end. none;
  elf_start = 0x1000;
  elf_end = 0x4000;
  hotswap64 = 0x89 ∷ [];
}
