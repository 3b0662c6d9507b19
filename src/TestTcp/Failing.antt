-- ===== src/TestTcp/Failing.antt =====
-- The update of test_tcp.cpp that fails.
use live_update.Base.{ℕ, ◌^◌, ◌≤◌, ◌<◌, ◌≡◌, ◌≢◌, refl, false, some, length, ne→==}
use live_update.Memory.{Ptr, store}
use live_update.World.{World, Os, Buffer}
use live_update.Entry.{Crc}
use live_update.Update.{StorageFunc}
use live_update.Update.Begin.Guards.{IsLocation, IsBlob, begin-refused}
use live_update.LiveUpdate.Instance.{live_updates}
use live_update.Service.{running, liveupd_location}
use live_update.Service.Handlers.{copy_buffer_lem}
use live_update.TestTcp.{TcpTest, begin_live_updating, show_failure}

-- Where `begin` takes not both the location and the blob, with at least 64 KiB and less than 2 ^ 64 bytes
-- of memory, the service of test_tcp.cpp runs on after `begin_live_updating`, but with the interrupts off:
-- `begin` has turned them off, and nothing turns them on. The blob is not empty, and the heap has room for
-- it.
pub begin_live_updating-deaf :
    (os : Os) (crc : Crc) (rounds : ℕ) (save : StorageFunc TcpTest) (w : World TcpTest)
    (at heap_end : Ptr)
    → length w.user.bloberino ≢ 0
    → os.allocate (length w.user.bloberino) w.heap_end ≡ some (at, heap_end)
    → 0x10000 ≤ w.heap_max
    → w.heap_max < 2 ^ 64
    → let w1 = record w { mem = store w.mem at w.user.bloberino; heap_end = heap_end } in
      let blob : Buffer = record { at = at; size = length w.user.bloberino } in
      ¬ (IsLocation os w1 liveupd_location × ((hdr : Ptr) × IsBlob w1.mem blob hdr))
      → begin_live_updating os (live_updates os crc rounds) save w
        ≡ (running, record w1 { interrupts = false })
unfolding begin_live_updating show_failure
begin_live_updating-deaf os crc rounds save w at heap_end some_bytes allocated lo hi refused =
    let bytes = w.user.bloberino in
    let w1 = record w { mem = store w.mem at bytes; heap_end = heap_end } in
    let (e, thrown) =
      begin-refused os crc liveupd_location (record { at = at; size = length bytes }) (some save) w1
        lo hi refused in
    rw (ne→== _ _ some_bytes, copy_buffer_lem os bytes at heap_end w allocated, thrown) refl
