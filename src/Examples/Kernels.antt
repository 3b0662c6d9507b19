-- ===== src/Examples/Kernels.antt =====
-- The second kernel of test_boot.cpp, from its resume to what its update stores.
use mathlib.Core.List.{flatten}
use live_update.Base.{
  ℕ, ◌+◌, ◌≡◌, refl, ap, inl, false, List, [], ◌∷◌, ◌++◌, some, arith, length, length-append,
}
use live_update.Memory.{load, store, bytes_of}
use live_update.Machine.{ok, and_then}
use live_update.World.{World}
use live_update.Storage.{get_crc}
use live_update.TestBoot.Resuming.{resumed_test, items-resumed}
use live_update.Storage.Items.{total}
use live_update.Update.{update_store_data}
use live_update.Update.Storing.{IsUpdateStored}
use live_update.LiveUpdate.Instance.{live_updates}
use live_update.Service.{liveupd_location}
use live_update.TestBoot.{
  BootTest, BootFate, stamp_bytes, take_blob, boot_save, boot_resume_all, begin_test_boot,
}
use live_update.TestBoot.Saving.{boot_items, boot_items-IsSized, length-stamps}
use live_update.TestBoot.Updating.{CanStore, next_generation}
use live_update.Memory.Laws.{length-load}
use live_update.Resume.Items.Frame.{resume-heap}
use live_update.Update.Begin.{begin}
use live_update.Service.Handlers.{copy_buffer_lem}
use live_update.Examples.{crc}
use live_update.Examples.Updates.{blob}
use live_update.Examples.Boots.{
  boot_os, boot_world, one_left, one_found, one_Resumed, stored, handover,
}

-- The second kernel, when its `resume` has ended, and when `begin` has got its copy of the blob.
abbrev one_resumed : World BootTest
one_resumed = one_Resumed.world

one_heap : (one_resumed.heap_end ≡ one_found.heap_end) × (one_resumed.heap_max ≡ one_found.heap_max)
unfolding flatten bytes_of
one_heap =
    let area = stored [] 100 (omega arith) (omega arith, tt) in
    resume-heap crc 3 3 [] (boot_resume_all 105) liveupd_location one_found one_resumed
      (boot_items (100 ∷ [])) (resumed_test [] 100 105 one_found.user) (omega arith) area.area
      (λ e.
        let set : get_crc area.mem liveupd_location ≡ 1 = area.area.sum in omega (arith, e, set))
      (boot_items-IsSized (100 ∷ []) (omega arith)) (omega arith) (omega arith) (omega arith)
      (items-resumed 3 0x10000 100 105 [] one_found.user (omega arith, tt) (omega arith)
        (omega arith))
      one_Resumed.returns

abbrev blob_bytes : List ℕ
blob_bytes = load one_resumed.mem 0xb000 200

abbrev one_ready : World BootTest
one_ready = record one_resumed {
  mem = store one_resumed.mem one_resumed.heap_end blob_bytes;
  heap_end = one_resumed.heap_end + length blob_bytes;
}

one-taken : take_blob boot_os one_resumed ≡ (ok blob, one_resumed)
unfolding take_blob
one-taken = rw one_Resumed.user refl

one-CanStore :
    CanStore boot_os 109 0x9000000 one_ready.heap_end
      (one_ready.heap_end
        + length (flatten (stamp_bytes (one_resumed.user.timestamps ++ 109 ∷ []))))
      one_ready
one-CanStore =
    let size = length-stamps (one_resumed.user.timestamps ++ 109 ∷ []) in
    let count = length-append one_resumed.user.timestamps (109 ∷ []) in
    let one = ap (λ (s : BootTest). length s.timestamps) one_Resumed.user in
    let bytes = length-load one_resumed.mem 0xb000 200 in
    record {
      allocated = refl;
      apart = inl (omega (arith, size, count, one, bytes, one_heap.0));
      room = omega (arith, count, one);
      memory = omega (arith, one_heap.1);
    }

next_generation_example :
    (begin_test_boot boot_os (live_updates boot_os crc 3) 3 105 109 (λ ts. ts) one_found ≡ (
      and_then
        (begin boot_os crc liveupd_location
          (record { at = one_resumed.heap_end; size = length blob_bytes })
          (some (boot_save boot_os 109))
          one_ready)
        λ jump w2. (ok (BootFate.updating jump), w2)))
    × (saved : World BootTest) × IsUpdateStored crc liveupd_location 0x9000000 saved
        (boot_items (5 ∷ 109 ∷ []))
        (update_store_data crc liveupd_location
          (some (boot_save boot_os 109))
          (some (record { at = one_resumed.heap_end; size = length blob_bytes }))
          (record one_ready { interrupts = false }))
next_generation_example =
    next_generation boot_os boot_os crc 3 3 100 105 109 0x9000000 0x10000
      (0x10000 + length (flatten (stamp_bytes (100 ∷ [])))) (32 + total (boot_items (100 ∷ [])))
      0x9000000 one_ready.heap_end
      (one_ready.heap_end
        + length (flatten (stamp_bytes (one_resumed.user.timestamps ++ 109 ∷ []))))
      (λ ts. ts) blob blob (record { at = one_resumed.heap_end; size = length blob_bytes })
      (boot_world []) one_left one_found one_resumed one_resumed one_ready
      (handover [] 100 (omega arith) (omega arith, tt)) (omega arith) (omega arith) (omega arith)
      one_Resumed.returns one-taken
      (copy_buffer_lem boot_os blob_bytes one_resumed.heap_end one_ready.heap_end one_resumed refl)
      one-CanStore
