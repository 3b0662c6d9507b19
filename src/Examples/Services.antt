-- ===== src/Examples/Services.antt =====
-- The service's servers and its start, with the library's functions.
use live_update.Base.{ℕ, ◌+◌, ◌≡◌, ◌≢◌, refl, List, [], ◌∷◌, arith, true, some, none, replicate}
use live_update.Memory.{Mem, store, offset}
use live_update.Machine.{ok}
use live_update.World.{World, Os}
use live_update.Storage
use live_update.Storage.Items.{total}
use live_update.Storage.Checksum.{IsSealed, finalize-IsSealed}
use live_update.Storage.Seal.{construct-IsArea}
use live_update.Resume.{resume}
use live_update.Resume.Loop.{deliver}
use live_update.Resume.Whole.{Resumed, resume-Resumed}
use live_update.Server.{
  Server, Event, connected, read, disconnected, Reaches, listening, next, on_connect, on_read,
  on_disconnect, buffer_of, insert_at_end, delete, received, called, blobs, Reaches-received,
  Reaches-called,
}
use live_update.Update.Begin.{begin, check_location, restore_environment}
use live_update.LiveUpdate.{LiveUpdate}
use live_update.LiveUpdate.Instance.{live_updates, live_updates-Laws}
use live_update.Service.{
  Status, running, on_update_blob, on_rollback_blob, serve, start, liveupd_location, copy_buffer,
  catch,
}
use live_update.Service.Start.{start-deaf}
use live_update.Service.Handlers.{Reaches-interrupts}
use live_update.Service.Rollbacks.{RolledBack, on_rollback_blob-RolledBack}
use live_update.Machine.{and_then}
use live_update.Examples.{crc, cleared, os, world_of}
use live_update.Examples.Updates.{callback, note_id, noting, note_id-Follows}

-- A server that keeps the blobs, and the events of two connections, the last first.
abbrev keep : List ℕ → List (List ℕ) → List (List ℕ)
keep blob blobs = blob ∷ blobs

abbrev events : List Event
events = disconnected 1 ∷ read 1 (7 ∷ []) ∷ connected 2 ∷ read 1 (5 ∷ 6 ∷ []) ∷ connected 1 ∷ []

abbrev at_end : Server (List (List ℕ))
at_end = record { buffers = (2, []) ∷ []; state = (5 ∷ 6 ∷ 7 ∷ []) ∷ [] }

at_end-Reaches : Reaches keep [] events at_end
unfolding buffer_of insert_at_end delete
at_end-Reaches =
    next
      (next
        (next (next (next listening (on_connect 1 _ refl)) (on_read 1 (5 ∷ 6 ∷ []) [] _ refl))
          (on_connect 2 _ refl))
        (on_read 1 (7 ∷ []) (5 ∷ 6 ∷ []) _ refl))
      (on_disconnect 1 (5 ∷ 6 ∷ 7 ∷ []) _ refl)

Reaches-received_example : buffer_of 2 at_end.buffers ≡ received 2 events
Reaches-received_example = Reaches-received keep [] events at_end 2 at_end-Reaches

Reaches-called_example : at_end.state ≡ called keep [] (blobs events)
Reaches-called_example = Reaches-called keep [] events at_end at_end-Reaches

-- A machine with a heap that gives out what lies behind its end.
abbrev heap_os : Os
heap_os = record os { allocate = λ n end. some (end, end + n) }

abbrev library : LiveUpdate (List ℕ)
library = live_updates heap_os crc 3

abbrev long_blob : List ℕ
long_blob = replicate 200 7

on_rollback_blob-RolledBack_example :
    RolledBack
      (begin heap_os crc 0xc190
        (record { at = 0x80c8; size = 200 })
        none
        (record (world_of cleared) {
          mem = store (store cleared 0x8000 long_blob) 0x80c8 long_blob;
          heap_end = 0x8190;
          rollback_data = 0x8000;
          rollback_len = 200;
          on_panic = true;
        }))
      (on_rollback_blob heap_os library long_blob (world_of cleared))
unfolding offset
on_rollback_blob-RolledBack_example =
    on_rollback_blob-RolledBack heap_os crc 3 long_blob 0x8000 0x80c8 0x80c8 0x8190
      (world_of cleared) (omega arith) refl (λ e. omega (arith, e)) refl

-- A blob without an ELF header, on a machine that has no memory at the service's location.
abbrev refused : Status × World (List ℕ)
refused =
    serve heap_os library (on_update_blob heap_os library (some callback)) (5 ∷ [])
      (running, world_of cleared)

abbrev update_events : List Event
update_events = disconnected 1 ∷ read 1 (5 ∷ []) ∷ connected 1 ∷ []

abbrev after_refusal : Server (Status × World (List ℕ))
after_refusal = record { buffers = []; state = refused }

after_refusal-Reaches :
    Reaches
      (serve heap_os library (on_update_blob heap_os library (some callback)))
      (running, world_of cleared)
      update_events
      after_refusal
unfolding buffer_of insert_at_end delete
after_refusal-Reaches =
    next (next (next listening (on_connect 1 _ refl)) (on_read 1 (5 ∷ []) [] _ refl))
      (on_disconnect 1 (5 ∷ []) _ refl)

Reaches-interrupts_example : after_refusal.state.1.interrupts ≡ true
unfolding serve on_update_blob copy_buffer catch begin check_location restore_environment
Reaches-interrupts_example =
    Reaches-interrupts heap_os library (live_updates-Laws heap_os crc 3) (some callback)
      (world_of cleared) update_events after_refusal refl after_refusal-Reaches refl

-- An empty area at the service's location.
abbrev stored : Mem
stored = Storage.construct liveupd_location cleared

abbrev stored_sealed : Mem
stored_sealed =
    (finalize-IsSealed crc 0x10000000 (construct-IsArea liveupd_location cleared) (omega arith)
      (omega arith) (omega arith)).0

stored-IsSealed : IsSealed crc stored_sealed liveupd_location []
stored-IsSealed =
    (finalize-IsSealed crc 0x10000000 (construct-IsArea liveupd_location cleared) (omega arith)
      (omega arith) (omega arith)).2

stored-set : Storage.get_crc stored_sealed liveupd_location ≢ 0
stored-set e =
    let sum : Storage.get_crc stored_sealed liveupd_location ≡ 1 = stored-IsSealed.sum in
    omega (arith, e, sum)

stored-Resumed :
    Resumed crc liveupd_location []
      (deliver noting 3 [] [])
      (resume crc 3 [] note_id liveupd_location (world_of stored_sealed))
stored-Resumed =
    resume-Resumed crc 3 [] note_id liveupd_location (world_of stored_sealed) [] noting
      (omega arith) stored-IsSealed stored-set tt (omega arith)
      (note_id-Follows liveupd_location (liveupd_location + 20 + total [] + 8)) (omega arith)

-- A heap that has grown over the area.
abbrev grown : World (List ℕ)
grown = record (world_of stored_sealed) { heap_end = 0x9000000 }

start-deaf_example :
    let r =
      start heap_os library
        (λ w.
          and_then (resume crc 3 [] note_id liveupd_location w) λ _ w1. (ok (some callback), w1))
        grown in
    (r.0 ≡ ok none) × (r.1.user ≡ []) × IsSealed crc r.1.mem liveupd_location []
start-deaf_example =
    start-deaf heap_os crc 3 [] note_id (some callback) [] grown stored-IsSealed stored-set
      (omega arith)
