-- ===== src/Service/Handlers.antt =====
-- What the service's servers make of a blob.
use live_update.Base.{
  ℕ, ◌-◌, ◌^◌, ◌≤◌, ◌<◌, ◌≡◌, refl, true, List, [], ◌∷◌, Option, some, arith, length,
}
use live_update.Memory.{Ptr, store}
use live_update.Machine.{Run, ok, throw, aborted, starved, and_then}
use live_update.World.{World, Os}
use live_update.Hotswap.{Jump}
use live_update.Update.{StorageFunc}
use live_update.Resume.{ResumeFunc, ResumeFuncs}
use live_update.Server.{Server, Event, Reaches, called, blobs, Reaches-called}
use live_update.LiveUpdate.{LiveUpdate, Laws}
use live_update.Service.{
  Status, running, replaced, rebooting, panicked, stuck, catch, on_update_blob, serve, start,
  setup_liveupdate_server, liveupd_location, copy_buffer, show_heap_stats,
}

-- Where the heap lies in order below 4 GiB, the bytes that are left are told exactly, and no more kilobytes are
-- used than there are.
pub show_heap_stats_lem {ℓ} :
    {U : Type ℓ} (w : World U)
    → w.heap_begin ≤ w.heap_end
    → w.heap_end ≤ w.heap_max
    → w.heap_max < 2 ^ 32
    → let s = show_heap_stats w in (s.diff ≡ w.heap_max - w.heap_end) × (s.used ≤ s.total)
unfolding show_heap_stats
show_heap_stats_lem w a b c = (omega arith, omega arith)

pub copy_buffer_lem {ℓ} :
    {U : Type ℓ} (os : Os) (bs : List ℕ) (at heap_end : Ptr) (w : World U)
    → os.allocate (length bs) w.heap_end ≡ some (at, heap_end)
    → copy_buffer os bs w ≡ (
      ok (record { at = at; size = length bs }),
      record w { mem = store w.mem at bs; heap_end = heap_end },
    )
unfolding copy_buffer
copy_buffer_lem os bs at heap_end w allocated = rw (copy_buffer, allocated) refl

module _ {ℓ} {U : Type ℓ} (os : Os) (liu : LiveUpdate U) (laws : Laws liu) where
  catch-interrupts :
      (r : Run Jump × World U) → (catch os liu r).0 ≡ running → (catch os liu r).1.interrupts ≡ true
  unfolding catch
  catch-interrupts (ok jump, w) e = absurd cc
  catch-interrupts (throw err, w) e = laws.restored w
  catch-interrupts (aborted, w) e = absurd cc
  catch-interrupts (starved, w) e = absurd cc

  -- A service that runs on after an update blob has the interrupts on.
  pub on_update_blob-interrupts :
      (save_function : Option (StorageFunc U)) (blob : List ℕ) (w : World U)
      → (on_update_blob os liu save_function blob w).0 ≡ running
      → (on_update_blob os liu save_function blob w).1.interrupts ≡ true
  unfolding on_update_blob
  on_update_blob-interrupts save_function blob w e = catch-interrupts _ e

  -- A service whose start resumes the area at the service's location, with success, sets up its servers
  -- with the function that saves, with a library that obeys the laws of its interface.
  pub start-listens :
      (funcs : ResumeFuncs U) (func : ResumeFunc U) (save : Option (StorageFunc U)) (w w1 : World U)
      → liu.resume funcs liveupd_location func w ≡ (ok true, w1)
      → start os liu
          (λ w. and_then (liu.resume funcs liveupd_location func w) λ _ w1. (ok save, w1))
          w
        ≡ (ok (some (setup_liveupdate_server os liu save)), w1)
  unfolding start
  start-listens funcs func save w w1 e =
      rw (e, laws.resumed_once funcs func liveupd_location w w1 e) refl

  serve-interrupts :
      (save : Option (StorageFunc U)) (blob : List ℕ) (s : Status × World U)
      → (s.0 ≡ running → s.1.interrupts ≡ true)
      → (serve os liu (on_update_blob os liu save) blob s).0 ≡ running
      → (serve os liu (on_update_blob os liu save) blob s).1.interrupts ≡ true
  unfolding serve
  serve-interrupts save blob (running, w) h e = on_update_blob-interrupts save blob w e
  serve-interrupts save blob (replaced jump, w) h e = absurd cc
  serve-interrupts save blob (rebooting, w) h e = absurd cc
  serve-interrupts save blob (panicked, w) h e = absurd cc
  serve-interrupts save blob (stuck, w) h e = absurd cc

  called-interrupts :
      (save : Option (StorageFunc U)) (w : World U) (bs : List (List ℕ))
      → w.interrupts ≡ true
      → (called (serve os liu (on_update_blob os liu save)) (running, w) bs).0 ≡ running
      → (called (serve os liu (on_update_blob os liu save)) (running, w) bs).1.interrupts ≡ true
  called-interrupts save w [] on e = on
  called-interrupts save w (blob ∷ bs) on e =
      serve-interrupts save blob
        (called (serve os liu (on_update_blob os liu save)) (running, w) bs)
        (called-interrupts save w bs on) e

  -- In every state that the update server of a service reaches, with a library that obeys the laws of its
  -- interface and interrupts that are on at first: if the machine still runs, the interrupts are on, also
  -- after updates that failed.
  pub Reaches-interrupts :
      (save : Option (StorageFunc U)) (w : World U) (es : List Event)
      (s : Server (Status × World U))
      → w.interrupts ≡ true
      → Reaches (serve os liu (on_update_blob os liu save)) (running, w) es s
      → s.state.0 ≡ running
      → s.state.1.interrupts ≡ true
  Reaches-interrupts save w es s on r up =
      let state = Reaches-called (serve os liu (on_update_blob os liu save)) (running, w) es s r in
      rw state (called-interrupts save w (blobs es) on (rw state at up))
