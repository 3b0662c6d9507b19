-- ===== src/Service/Start.antt =====
-- The service's start where the heap has reached its area.
use live_update.Base.{ℕ, ◌≡◌, ◌≢◌, ◌≤◌, refl, Option, true, none, leb, List, arith}
use live_update.Machine.{ok, and_then}
use live_update.World.{World, Os}
use live_update.Entry.{Crc}
use live_update.Storage.{get_crc}
use live_update.Storage.Items.{Item}
use live_update.Storage.Checksum.{IsSealed}
use live_update.Storage.Validate.{validate-IsSealed}
use live_update.Resume.{ResumeFunc, ResumeFuncs, resume, is_resumable}
use live_update.Update.{StorageFunc}
use live_update.LiveUpdate.Instance.{live_updates}
use live_update.Service.{start, liveupd_location}

-- Where the heap has reached the service's location, and a sealed area with a checksum that is not 0
-- stands there, a service whose start tries to resume it, with the library's functions, sets up no server,
-- its state is as before, and the area is still sealed.
pub start-deaf {ℓ} :
    {U : Type ℓ} (os : Os) (crc : Crc) (rounds : ℕ) (funcs : ResumeFuncs U) (func : ResumeFunc U)
    (save : Option (StorageFunc U)) (is : List Item) (w : World U)
    → IsSealed crc w.mem liveupd_location is
    → get_crc w.mem liveupd_location ≢ 0
    → liveupd_location ≤ w.heap_end
    → let r =
        start os
          (live_updates os crc rounds)
          (λ w. and_then (resume crc rounds funcs func liveupd_location w) λ _ w1. (ok save, w1))
          w in
      (r.0 ≡ ok none) × (r.1.user ≡ w.user) × IsSealed crc r.1.mem liveupd_location is
unfolding start resume is_resumable
start-deaf os crc rounds funcs func save is w sealed set reached =
    let (m1, valid, s1, kept, same) = validate-IsSealed crc w.mem liveupd_location sealed set in
    let above : leb liveupd_location w.heap_end ≡ true = ground arith in
    rw (above, valid) (refl, refl, s1)
