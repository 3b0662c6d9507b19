-- ===== src/Rollback.antt =====
-- rollback.cpp: the rollback blob, and the live update back to it when the kernel panics.
pub mod Outcome
use live_update.Base.{ℕ, Bool, true, false, Option, none, some, ltb, ◌==◌, if◌then◌else◌}
use live_update.Memory.{Ptr, load, store, offset}
use live_update.Machine.{Run, ok, throw, aborted, starved, bad_alloc, Cmd, and_then}
use live_update.World.{World, Buffer, Os}
use live_update.Entry.{Crc}
use live_update.Hotswap.{Jump}
use live_update.Update.Begin.{begin}

-- How `rollback_now`, which does not return, ends.
pub data Fate : Type 0 where
  started : Jump → Fate
  rebooted : Fate

module _ {ℓ} {U : Type ℓ} where
  unfoldable pub get_rollback_location : World U → Ptr × ℕ
  get_rollback_location w = (w.rollback_data, w.rollback_len)

  unfoldable pub set_rollback_blob : Ptr → ℕ → World U → World U
  set_rollback_blob buffer len w = record w {
    rollback_data = buffer;
    rollback_len = len;
    on_panic = true;
  }

  -- `rollback_data != nullptr && rollback_len > 164`
  unfoldable pub has_rollback_blob : World U → Bool
  has_rollback_blob w = if w.rollback_data == 0 then false else ltb 164 w.rollback_len

  -- `buffer_t vec(rollback_data, rollback_data + rollback_len)`
  unfoldable pub copy_blob : Os → Cmd (World U) Buffer
  copy_blob os w = elim (os.allocate w.rollback_len w.heap_end) [
    | none ↦ (throw bad_alloc, w)
    | some (at, heap_end) ↦ (
      ok (record { at = at; size = w.rollback_len }),
      record w {
        mem = store w.mem at (load w.mem w.rollback_data w.rollback_len);
        heap_end = heap_end;
      },
    )
  ]

  -- The body of the `try`: `begin` is called without a callback.
  unfoldable pub try_rollback : Os → Crc → Cmd (World U) Jump
  try_rollback os crc w =
      and_then (copy_blob os w) λ vec w1. begin os crc (offset w1.heap_end 0x4000) vec none w1

  -- `catch (std::exception& err)`, and the reboot.
  unfoldable pub or_reboot : Run Jump × World U → Run Fate × World U
  or_reboot (ok jump, w) = (ok (started jump), w)
  or_reboot (throw e, w) = (ok rebooted, w)
  or_reboot (aborted, w) = (aborted, w)
  or_reboot (starved, w) = (starved, w)

  unfoldable pub rollback_now : Os → Crc → Cmd (World U) Fate
  rollback_now os crc w =
      if has_rollback_blob w then or_reboot (try_rollback os crc w) else (ok rebooted, w)

  -- `new char[length]`, and a copy of the blob that the old kernel has handed over.
  unfoldable pub softreset_service_handler : Os → Ptr → ℕ → Cmd (World U) (Unit {0})
  softreset_service_handler os opaque length w = elim (os.allocate length w.heap_end) [
    | none ↦ (throw bad_alloc, w)
    | some (at, heap_end) ↦ (
      ok tt,
      record w {
        mem = store w.mem at (load w.mem opaque length);
        heap_end = heap_end;
        rollback_data = at;
        rollback_len = length;
        on_panic = true;
      },
    )
  ]
