-- ===== src/Examples/Parts.antt =====
-- The parts of the live update of Examples/Updates, each on its own.
use live_update.Base.{
  ℕ, ◌+◌, ◌<◌, ◌≡◌, ◌↔◌, ◌≢◌, ◌⊎◌, inl, inr, List, [], refl, arith, some, true, false,
}
use live_update.Memory.{get, load, number_of}
use live_update.Machine.{Error, ok, throw, storage_outside_memory}
use live_update.World.{World, Os}
use live_update.Storage
use live_update.Storage.{validate, get_magic}
use live_update.Storage.Items.{total}
use live_update.Hotswap.{Jump, copy_forward}
use live_update.Hotswap.Copy.{load-copy_forward}
use live_update.Resume.{resume}
use live_update.Resume.Loop.{deliver}
use live_update.Resume.Whole.{Resumed, resume-Resumed, resume-refused}
use live_update.Update.{update_store_data}
use live_update.Update.Calls.{run_calls}
use live_update.Update.Storing.{
  Stores, IsUpdateStored, update_store_data-IsUpdateStored, update_store_data-outside,
}
use live_update.Update.RoundTrip.{run_calls-Stores, update-resume}
use live_update.Update.Elf.Types.{read_ehdr32, read_phdr32}
use live_update.Update.Elf.{read_elf, read_elf32, is_malformed}
use live_update.Update.Begin.{begin, check_location}
use live_update.Update.Begin.Guards.{IsLocation, check_location_iff, begin-refused}
use live_update.Update.Begin.Success.{Started, begin-Started}
use live_update.Rollback.{
  started, rebooted, rollback_now, has_rollback_blob, softreset_service_handler,
  get_rollback_location,
}
use live_update.Rollback.Outcome.{rollback_now-ends, softreset_service_handler_lem}
use live_update.Examples.{crc, cleared, place, os, world_of}
use live_update.Examples.Areas.{two_items, greeting-IsSized, marker-IsSized}
use live_update.Examples.Updates.{
  blob_memory, blob, blob-IsBlob, old, calls, callback, callback-Stores, after, old-done,
  old-stored, note_id, noting, note_id-Follows, old-IsLocation, any-IsSpared,
}

abbrev quiet : World (List ℕ)
quiet = record old { interrupts = false }

run_calls-Stores_example :
    Stores place 0xa000 (some (λ hdr b. run_calls hdr calls)) (some blob) quiet two_items
run_calls-Stores_example =
    run_calls-Stores place 0xa000 calls (some blob) quiet (tt, (tt, tt))
      (greeting-IsSized, (marker-IsSized, tt)) (omega arith) (omega arith) (omega arith)

update_store_data-IsUpdateStored_example :
    IsUpdateStored crc place 0xa000 quiet two_items
      (update_store_data crc place (some callback) (some blob) quiet)
update_store_data-IsUpdateStored_example =
    update_store_data-IsUpdateStored crc place quiet (some callback) (some blob) two_items 0xa000
      (callback-Stores quiet) (omega arith) (omega arith) (omega arith) (omega arith)

-- A machine whose memory ends in the area.
abbrev small : World (List ℕ)
small = record old { heap_max = 0x9020 }

update_store_data-outside_example :
    (update_store_data crc place (some callback) (some blob) small).0 ≡ throw storage_outside_memory
update_store_data-outside_example =
    update_store_data-outside crc place small (some callback) (some blob) two_items 0xa000
      (callback-Stores small) (omega arith) (omega arith) (omega arith)

update-resume_example :
    Resumed crc place two_items
      (deliver noting 3 two_items [])
      (resume crc 3 [] note_id place (world_of after.mem))
update-resume_example =
    update-resume crc place 0xa000 two_items quiet after (some callback) (some blob)
      (32 + total two_items) (world_of after.mem) 3 [] note_id noting (callback-Stores quiet)
      (greeting-IsSized, (marker-IsSized, tt)) (omega arith) (omega arith) (omega arith)
      (omega arith) (omega arith) refl old-done (λ x p q. refl) (omega arith)
      (note_id-Follows place (place + 20 + total two_items + 8)) (omega arith)

after-set : Storage.get_crc after.mem place ≢ 0
after-set e =
    let sum : Storage.get_crc after.mem place ≡ 1 = old-stored.area.sum in omega (arith, e, sum)

resume-Resumed_example :
    Resumed crc place two_items
      (deliver noting 3 two_items [])
      (resume crc 3 [] note_id place after)
resume-Resumed_example =
    resume-Resumed crc 3 [] note_id place after two_items noting (omega arith) old-stored.area
      after-set (greeting-IsSized, (marker-IsSized, tt)) (omega arith)
      (note_id-Follows place (place + 20 + total two_items + 8)) (omega arith)

resume-refused_example :
    resume crc 3 [] note_id place (world_of cleared) ≡ (ok false, world_of cleared)
unfolding get_magic get load number_of
resume-refused_example =
    resume-refused crc 3 [] note_id place (world_of cleared) (λ x. omega arith)
      (inr (λ v. omega (arith, v.magic)))

-- The image of Examples/Updates.
begin-Started_example :
    Started os
      (read_elf old.mem 0xb000)
      after
      place
      (32 + total two_items)
      (begin os crc place blob (some callback) old)
unfolding read_elf read_elf32 read_ehdr32 read_phdr32 get load number_of is_malformed
begin-Started_example =
    begin-Started os crc place 0xb000 blob (some callback) old after (32 + total two_items)
      (omega arith) (omega arith) old-IsLocation blob-IsBlob old-done refl
      (any-IsSpared 0xb064 80 (omega arith)) (inl (omega arith))
      (any-IsSpared place (32 + total two_items) (omega arith)) (omega arith)

begin-refused_example :
    (e : Error) × (begin os crc 0x7000 blob (some callback) old
      ≡ (throw e, record old { interrupts = false }))
begin-refused_example =
    begin-refused os crc 0x7000 blob (some callback) old (omega arith) (omega arith)
      (λ h. omega (arith, h.0.not_heap))

check_location_iff_example : (check_location os old place ≡ ok tt) ↔ IsLocation os old place
check_location_iff_example = check_location_iff os old place (omega arith) (omega arith)

load-copy_forward_example :
    load (copy_forward 80 0xb064 0xb060 blob_memory) 0xb060 80 ≡ load blob_memory 0xb064 80
load-copy_forward_example = load-copy_forward 80 0xb064 0xb060 blob_memory (inl (omega arith))

-- A world with a blob, and a heap that gives it out at 0x8000.
abbrev armed : World (List ℕ)
armed = record old { rollback_data = 0xb000; rollback_len = 200 }

abbrev heap_os : Os
heap_os = record os { allocate = λ n end. some (end, end + n) }

rollback_now-ends_example :
    ((jump : Jump) × ((rollback_now heap_os crc armed).0 ≡ ok (started jump))
      × (has_rollback_blob armed ≡ true))
    ⊎ (((rollback_now heap_os crc armed).0 ≡ ok rebooted)
        × ((has_rollback_blob armed ≡ true) ⊎ ((rollback_now heap_os crc armed).1 ≡ armed)))
rollback_now-ends_example = rollback_now-ends crc heap_os armed

softreset_service_handler_lem_example :
    let w1 = (softreset_service_handler heap_os 0xb000 200 old).1 in
    let (data_at, len) = get_rollback_location w1 in
    ((softreset_service_handler heap_os 0xb000 200 old).0 ≡ ok tt)
    × (load w1.mem data_at len ≡ load old.mem 0xb000 200)
    × (len ≡ 200)
    × (w1.on_panic ≡ true)
    × ((has_rollback_blob w1 ≡ true) ↔ (164 < 200))
softreset_service_handler_lem_example =
    softreset_service_handler_lem heap_os 0xb000 0x8000 (0x8000 + 200) 200 old refl
      (λ e. omega (arith, e))
