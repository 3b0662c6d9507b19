-- ===== src/TestBoot/Updating.antt =====
-- A kernel of test_boot.cpp that updates itself again.
use mathlib.Core.Path.{subst}
use mathlib.Core.List.{flatten}
use live_update.Base.{
  ℕ, ◌+◌, ◌-◌, ◌%◌, ◌*◌, ◌^◌, ◌≤◌, ◌<◌, ◌≡◌, refl, sym, ◌⊎◌, inl, inr, ◌∙◌, ap, true, false, Option,
  none, some, List, [], ◌∷◌, ◌++◌, append_assoc, arith, length, length-append, leb, ◌==◌,
  Bool-cases,
}
use live_update.Memory.{Ptr, load, get}
use live_update.Machine.{ok, and_then}
use live_update.World.{World, Buffer, Os}
use live_update.Entry.{Crc}
use live_update.Storage
use live_update.Storage.Seal.{construct-IsArea}
use live_update.Resume.{resume}
use live_update.Resume.Items.{run_handler}
use live_update.Update.{call_back, update_store_data}
use live_update.Update.Storing.{IsUpdateStored, update_store_data-area}
use live_update.Update.Begin.{begin}
use live_update.LiveUpdate.Instance.{live_updates}
use live_update.Service.{copy_buffer, liveupd_location, size_location, data_location}
use live_update.TestBoot.{
  BootTest, BootFate, stamp_bytes, take_blob, boot_save, boot_resume_all, next_update,
  begin_test_boot, run_test_boot,
}
use live_update.TestBoot.Resuming.{resumed_test}
use live_update.TestBoot.Saving.{boot_items, length-stamps, boot_save-BootSaved}
use live_update.TestBoot.Generation.{IsHandover, boot-Resumed}

-- What the taking and the copying of a blob keep.
record Keeps (w w1 : World BootTest) : Type 0 where
  pub timestamps : w1.user.timestamps ≡ w.user.timestamps
  pub is_saved : w1.user.is_saved ≡ w.user.is_saved

copied-Keeps :
    (os : Os) (bs : List ℕ) (w w1 : World BootTest) (b : Buffer) (o : Option (Ptr × Ptr))
    → os.allocate (length bs) w.heap_end ≡ o
    → copy_buffer os bs w ≡ (ok b, w1)
    → Keeps w w1
unfolding copy_buffer
copied-Keeps os bs w w1 b none e ran = let out = rw (copy_buffer, e) at ran in absurd cc
copied-Keeps os bs w w1 b (some (at, end)) e ran =
    let out = rw (copy_buffer, e) at ran in
    record {
      timestamps = ap (λ r. r.1.user.timestamps) (sym out);
      is_saved = ap (λ r. r.1.user.is_saved) (sym out);
    }

taken-Keeps :
    (os : Os) (w w1 : World BootTest) (b : Buffer) (o : Option (Ptr × Ptr))
    → os.allocate (length (load w.mem data_location (get w.mem size_location 8))) w.heap_end ≡ o
    → take_blob os w ≡ (ok b, w1)
    → Keeps w w1
unfolding take_blob copy_buffer
taken-Keeps os w w1 b o e ran = elim (Bool-cases (w.user.bloberino.size == 0)) [
  | inr there ↦
      let out = rw there at ran in
      record {
        timestamps = ap (λ r. r.1.user.timestamps) (sym out);
        is_saved = ap (λ r. r.1.user.is_saved) (sym out);
      }
  | inl empty ↦ fetched o e empty
]
  where
    fetched :
        (o : Option (Ptr × Ptr))
        → os.allocate (length (load w.mem data_location (get w.mem size_location 8))) w.heap_end ≡ o
        → (w.user.bloberino.size == 0) ≡ true
        → Keeps w w1
    fetched none e empty = let out = rw (empty, copy_buffer, e) at ran in absurd cc
    fetched (some (at, end)) e empty =
        let out = rw (empty, copy_buffer, e) at ran in
        record {
          timestamps = ap (λ r. r.1.user.timestamps) (sym out);
          is_saved = ap (λ r. r.1.user.is_saved) (sym out);
        }

-- The memory and the heap that `boot_save` needs, at `later`, in a service that has its blob saved already.
pub record CanStore (os : Os) (later hi at end : ℕ) (w : World BootTest) : Type 0 where
  pub allocated :
      os.allocate (length (flatten (stamp_bytes (w.user.timestamps ++ later ∷ [])))) w.heap_end
      ≡ some (at, end)
  pub apart :
      (at + length (flatten (stamp_bytes (w.user.timestamps ++ later ∷ []))) ≤ liveupd_location)
      ⊎ (hi ≤ at)
  pub room : liveupd_location + 66 + length (w.user.timestamps ++ later ∷ []) * 8 ≤ hi
  pub memory : hi ≤ w.heap_max

-- A kernel of test_boot that is not the last one. The old kernel's `boot_save`, at `t1`, has stored less
-- than 29 timestamps and one for `t1`; the new one's `resume`, at `t2`, ends in `r`, there is a blob to
-- take and room for the copy of it that `begin` gets, in `ready`, and for what `boot_save` needs. Then
-- `begin_test_boot` is the call of `begin` at the area's location, with that copy and with `boot_save` at
-- `later`, in `ready`; it has no other outcome than what `begin` makes of it. What `boot_save` stores in
-- that update is a sealed area of the old timestamps, the time between `t1` and `t2`, and `later`: one
-- timestamp more than the kernel has found.
pub next_generation :
    (os osv : Os) (crc : Crc) (rounds fuel t1 t2 later hi at heap_end n hi' at' end' : ℕ)
    (sorted : List ℕ → List ℕ) (blob kept copy : Buffer) (w w1 v r r1 ready : World BootTest)
    → IsHandover os crc t1 hi at heap_end n blob w w1 v
    → 2 < rounds
    → 2 < fuel
    → length w.user.timestamps + 1 < 30
    → resume crc rounds [] (run_handler fuel (boot_resume_all t2)) liveupd_location v ≡ (ok true, r)
    → take_blob osv r ≡ (ok kept, r1)
    → copy_buffer osv (load r1.mem kept.at kept.size) r1 ≡ (ok copy, ready)
    → CanStore osv later hi' at' end' ready
    → (begin_test_boot osv (live_updates osv crc rounds) fuel t2 later sorted v ≡ (
        and_then
          (begin osv crc liveupd_location copy (some (boot_save osv later)) ready)
          λ jump w2. (ok (BootFate.updating jump), w2)))
      × (saved : World BootTest) × IsUpdateStored crc liveupd_location hi' saved
          (boot_items (w.user.timestamps ++ (t2 + 2 ^ 64 - t1) % 2 ^ 64 ∷ later ∷ []))
          (update_store_data crc liveupd_location
            (some (boot_save osv later))
            (some copy)
            (record ready { interrupts = false }))
unfolding begin_test_boot run_test_boot next_update call_back
next_generation os osv crc rounds fuel t1 t2 later hi at heap_end n hi' at' end' sorted blob kept
      copy w w1 v r r1 ready h enough enough' few ran taken copied can =
    let res = boot-Resumed os crc rounds fuel t1 t2 hi at heap_end n blob w w1 v h enough enough' in
    let user : r.user ≡ resumed_test w.user.timestamps t1 t2 v.user =
      ap (λ o. o.1.user) (sym ran ∙ res.returns) ∙ res.user in
    let k1 = taken-Keeps osv r r1 kept _ refl taken in
    let k2 = copied-Keeps osv (load r1.mem kept.at kept.size) r1 ready copy _ refl copied in
    let diff = (t2 + 2 ^ 64 - t1) % 2 ^ 64 in
    let stamps : ready.user.timestamps ≡ w.user.timestamps ++ diff ∷ [] =
      k2.timestamps ∙ k1.timestamps ∙ ap (λ (s : BootTest). s.timestamps) user in
    let old : ready.user.is_saved ≡ true =
      k2.is_saved ∙ k1.is_saved ∙ ap (λ (s : BootTest). s.is_saved) user in
    let one : length r.user.timestamps ≡ length w.user.timestamps + 1 =
      ap (λ (s : BootTest). length s.timestamps) user ∙ length-append w.user.timestamps _ in
    let test : leb 30 (length w.user.timestamps + 1) ≡ false = ground arith in
    let all = ready.user.timestamps ++ later ∷ [] in
    let count : length all ≡ length w.user.timestamps + 2 =
      length-append ready.user.timestamps (later ∷ [])
      ∙ omega (arith, ap length stamps, length-append w.user.timestamps (diff ∷ [])) in
    let size = length-stamps all in
    let off = record ready { interrupts = false } in
    let m0 = Storage.construct liveupd_location ready.mem in
    let saved =
      boot_save-BootSaved osv later liveupd_location hi' at' end' copy (record off { mem = m0 })
        (construct-IsArea liveupd_location ready.mem) can.allocated can.apart (omega (arith, count))
        (omega (arith, size, can.room)) (inl old) in
    let stored =
      update_store_data-area crc liveupd_location off saved.world (some (boot_save osv later))
        (some copy) (boot_items all) hi' saved.returns saved.area (omega arith)
        (omega (arith, size, count)) (omega (arith, size, can.room, can.memory, saved.heap_max))
        (omega (arith, size, can.room)) in
    let same : all ≡ w.user.timestamps ++ diff ∷ later ∷ [] =
      ap (λ ts. ts ++ later ∷ []) stamps
      ∙ append_assoc w.user.timestamps (diff ∷ []) (later ∷ []) in
    (
      rw (begin_test_boot, ran, one, test, taken, copied) refl,
      saved.world,
      subst
          (λ ts.
            IsUpdateStored crc liveupd_location hi' saved.world (boot_items ts)
              (update_store_data crc liveupd_location (some (boot_save osv later)) (some copy) off))
          same stored,
    )
