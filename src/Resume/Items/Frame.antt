-- ===== src/Resume/Items/Frame.antt =====
-- What `resume` with handlers that are programs leaves as it is.
use mathlib.Core.Path.{subst}
use live_update.Base.{
  ℕ, ◌+◌, ◌^◌, ◌<◌, ◌≡◌, ◌≢◌, sym, ap, true, false, List, arith, leb, length, All,
}
use live_update.Memory.{Ptr}
use live_update.Machine.{ok}
use live_update.World.{World}
use live_update.Entry.{Crc}
use live_update.Storage
use live_update.Storage.{get_crc}
use live_update.Storage.Items.{Item, total, IsSized}
use live_update.Storage.Checksum.{IsSealed}
use live_update.Storage.Validate.{validate-IsSealed, zero_area_lem}
use live_update.Restore.Programs.{Handler}
use live_update.Resume.{
  resume, resume_helper, resume_begin, resume_loop, is_resumable, wakeup_ip_networks,
}
use live_update.Resume.Whole.{IsComplete-IsRest}
use live_update.Resume.Items.{run_handler, run_handlers, resume_items}
use live_update.Resume.Items.Refine.{SameOutcome, resume_loop-SameOutcome}

-- Where the loop on the items ends, the heap and the memory's end are as before.
pub resume-heap {ℓ} :
    {U : Type ℓ} (crc : Crc) (rounds fuel : ℕ) (handlers : List (ℕ × Handler U))
    (default : Handler U) (sh : Ptr) (w r : World U) (is : List Item) (u : U)
    → w.heap_end < sh
    → IsSealed crc w.mem sh is
    → get_crc w.mem sh ≢ 0
    → All IsSized is
    → sh + 20 + total is + 8 < 2 ^ 64
    → length is < rounds
    → length is < fuel
    → resume_items rounds handlers default is w.user ≡ (ok tt, u)
    → resume crc rounds (run_handlers fuel handlers) (run_handler fuel default) sh w ≡ (ok true, r)
    → (r.heap_end ≡ w.heap_end) × (r.heap_max ≡ w.heap_max)
unfolding resume resume_helper is_resumable resume_begin Storage.begin wakeup_ip_networks
resume-heap crc rounds fuel handlers default sh w r is u above s ne sized fits enough enough' items
      ran =
    let (m1, valid, s1, kept, same) = validate-IsSealed crc w.mem sh s ne in
    let above' : leb sh w.heap_end ≡ false = ground arith in
    let w1 = record w { mem = m1 } in
    let loop : resume_loop rounds (run_handlers fuel handlers) (run_handler fuel default) (sh + 20)
          w1
        ≡ (ok tt, record w1 { user = u }) =
      subst
        (SameOutcome w1
          (resume_loop rounds (run_handlers fuel handlers) (run_handler fuel default) (sh + 20) w1))
        items
        (resume_loop-SameOutcome fuel handlers default rounds (sh + 20) is w1
          (IsComplete-IsRest s1.complete sized fits) enough' enough) in
    let (ended, _, _, _) = zero_area_lem crc m1 sh in
    let out = rw (above', valid, loop, ended) at ran in
    (ap (λ o. o.1.heap_end) (sym out), ap (λ o. o.1.heap_max) (sym out))
