-- ===== src/Service.antt =====
-- service.cpp and common.hpp: the test service, which takes update and rollback blobs over the network.
pub mod Handlers
pub mod Rollbacks
pub mod Start
use live_update.Base.{
  ℕ, ◌-◌, ◌/◌, ◌%◌, ◌+◌, ◌^◌, Bool, true, false, List, Option, none, some, if◌then◌else◌, length,
}
use live_update.Memory.{Ptr, Mem, store}
use live_update.Machine.{Run, ok, throw, aborted, starved, bad_alloc, Cmd, and_then}
use live_update.World.{World, Buffer, Os}
use live_update.Hotswap.{Jump}
use live_update.Rollback.{Fate, started, rebooted}
use live_update.Update.{StorageFunc}
use live_update.LiveUpdate.{LiveUpdate}

abbrev pub liveupd_location : Ptr
liveupd_location = 0x8000000

abbrev pub size_location : Ptr
size_location = 0x7800000

abbrev pub data_location : Ptr
data_location = 0x7800008

-- What `show_heap_stats` prints: the bytes that are left, and the kilobytes that are used and that there are.
pub record HeapStats : Type 0 where
  pub diff : ℕ
  pub used : ℕ
  pub total : ℕ

-- What becomes of the machine: it runs on, another kernel or a reboot has taken its place, it has panicked, or
-- a loop has run out of fuel.
pub data Status : Type 0 where
  running : Status
  replaced : Jump → Status
  rebooting : Status
  panicked : Status
  stuck : Status

module _ {ℓ} {U : Type ℓ} where
  -- Differences of pointers wrap; `uint32_t` cuts them. The total is signed in the source, and printed as it is here
  -- where the heap's end lies behind its beginning.
  unfoldable pub show_heap_stats : World U → HeapStats
  show_heap_stats w = record {
    diff = (w.heap_max + 2 ^ 64 - w.heap_end) % 2 ^ 32;
    used = (w.heap_end + 2 ^ 64 - w.heap_begin) % 2 ^ 32 / 1024;
    total = (w.heap_max + 2 ^ 64 - w.heap_begin) % 2 ^ 64 / 1024;
  }

  -- A copy of a blob, on the heap.
  unfoldable pub copy_buffer : Os → List ℕ → Cmd (World U) Buffer
  copy_buffer os blob w = elim (os.allocate (length blob) w.heap_end) [
    | none ↦ (throw bad_alloc, w)
    | some (at, heap_end) ↦ (
      ok (record { at = at; size = length blob }),
      record w { mem = store w.mem at blob; heap_end = heap_end },
    )
  ]

module _ {ℓ} {U : Type ℓ} (os : Os) (liu : LiveUpdate U) where
  -- `catch (std::exception& err)`
  unfoldable pub catch : Run Jump × World U → Status × World U
  catch (ok jump, w) = (replaced jump, w)
  catch (throw err, w) = (running, liu.restore_environment w)
  catch (aborted, w) = (panicked, w)
  catch (starved, w) = (stuck, w)

  -- The callback of the server on port 666.
  unfoldable pub on_update_blob : Option (StorageFunc U) → List ℕ → World U → Status × World U
  on_update_blob save_function blob w = catch (
      and_then (copy_buffer os blob w)
        λ buffer w1. liu.begin liveupd_location buffer save_function w1)

  unfoldable pub fate : Run Fate × World U → Status × World U
  fate (ok (started jump), w) = (replaced jump, w)
  fate (ok rebooted, w) = (rebooting, w)
  fate (throw err, w) = (panicked, w)
  fate (aborted, w) = (panicked, w)
  fate (starved, w) = (stuck, w)

  -- The callback of the server on port 665. An exception that leaves it ends in a panic.
  unfoldable pub on_rollback_blob : List ℕ → World U → Status × World U
  on_rollback_blob blob w = fate (
      and_then (copy_buffer os blob w)
        λ rb_blob w1. liu.rollback_now (liu.set_rollback_blob rb_blob.at rb_blob.size w1))

  -- A server's callback, as long as the machine runs.
  unfoldable pub serve :
      (List ℕ → World U → Status × World U) → List ℕ → Status × World U → Status × World U
  serve callback blob (running, w) = callback blob w
  serve callback blob (replaced jump, w) = (replaced jump, w)
  serve callback blob (rebooting, w) = (rebooting, w)
  serve callback blob (panicked, w) = (panicked, w)
  serve callback blob (stuck, w) = (stuck, w)

  -- The callbacks of the servers that are set up, with the function that saves.
  pub record Servers : Type ℓ where
    pub save_function : Option (StorageFunc U)
    pub port666 : List ℕ → World U → Status × World U
    pub port665 : List ℕ → World U → Status × World U

  unfoldable pub setup_liveupdate_server : Option (StorageFunc U) → Servers
  setup_liveupdate_server func = record {
    save_function = func;
    port666 = on_update_blob func;
    port665 = on_rollback_blob;
  }

  -- `Service::start`; the test that it begins with is a parameter.
  unfoldable pub start : Cmd (World U) (Option (StorageFunc U)) → Cmd (World U) (Option Servers)
  start begin_test w = and_then (begin_test w) λ func w1.
      let (resumable, w2) = liu.is_resumable liveupd_location w1 in
      (ok (if resumable then none else some (setup_liveupdate_server func)), w2)
