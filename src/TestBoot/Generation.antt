-- ===== src/TestBoot/Generation.antt =====
-- From one kernel of test_boot.cpp to the next.
use mathlib.Core.Path.{subst}
use mathlib.Core.List.{flatten}
use live_update.Base.{
  ℕ, ◌+◌, ◌-◌, ◌%◌, ◌/◌, ◌*◌, ◌^◌, ◌≤◌, ◌<◌, ◌≡◌, refl, sym, ◌⊎◌, ◌∙◌, ap, true, false, some, List,
  [], ◌∷◌, ◌++◌, arith, length, length-append, All, leb, ◌==◌, if◌then◌else◌, eq→==,
}
use live_update.Memory.{Ptr, load, store, get, put}
use live_update.Memory.Laws.{
  Apart, load-store_self, get-store_other, get-put_self, load-put_other, get-cong, load-cong,
  length-load,
}
use live_update.Machine.{ok}
use live_update.World.{World, Buffer, Os}
use live_update.Entry.{Crc}
use live_update.Storage
use live_update.Storage.{validate}
use live_update.Storage.Seal.{construct-IsArea}
use live_update.Storage.Checksum.{IsSealed-cong}
use live_update.Resume.{resume}
use live_update.Resume.Whole.{Resumed}
use live_update.Resume.Items.{run_handler}
use live_update.Resume.Items.Whole.{ResumeOutcome, resume-ResumeOutcome}
use live_update.Update.{call_back, update_store_data}
use live_update.Update.Storing.{update_store_data-area, ok-checked}
use live_update.LiveUpdate.Instance.{live_updates}
use live_update.Service.{liveupd_location, size_location, data_location}
use live_update.Service.Handlers.{copy_buffer_lem}
use live_update.TestBoot.{
  BootTest, stamp_bytes, keep_blob, take_blob, boot_save, boot_resume_all, show_samples, BootFate,
  nth, next_update, run_test_boot, begin_test_boot,
}
use live_update.TestBoot.Resuming.{resumed_test, items-resumed}
use live_update.TestBoot.Saving.{
  boot_items, CanKeep, length-stamps, boot_items-IsSized, boot_save-BootSaved,
}

-- An update from one kernel to the next, by what the old one was in when it stored, and what the new one finds.
pub record IsHandover (os : Os) (crc : Crc) (t1 hi at heap_end n : ℕ) (blob : Buffer)
    (w w1 v : World BootTest) : Type 0 where
  pub allocated :
      os.allocate (length (flatten (stamp_bytes (w.user.timestamps ++ t1 ∷ [])))) w.heap_end
      ≡ some (at, heap_end)
  pub apart :
      (at + length (flatten (stamp_bytes (w.user.timestamps ++ t1 ∷ []))) ≤ liveupd_location)
      ⊎ (hi ≤ at)
  pub few : length (w.user.timestamps ++ t1 ∷ []) < 2 ^ 20
  pub room : liveupd_location + 66 + length (w.user.timestamps ++ t1 ∷ []) * 8 ≤ hi
  pub memory : hi ≤ w.heap_max
  pub can : CanKeep liveupd_location blob w.user
  pub small : All (λ t. t < 2 ^ 64) (w.user.timestamps ++ t1 ∷ [])
  pub on : w.sanity_checks ≡ true
  pub done :
      update_store_data crc liveupd_location (some (boot_save os t1)) (some blob) w ≡ (ok n, w1)
  pub kept : (x : Ptr) → liveupd_location ≤ x → x < liveupd_location + n → v.mem x ≡ w1.mem x
  pub above : v.heap_end < liveupd_location

module _ (os : Os) (crc : Crc) (rounds fuel t1 t2 hi at heap_end n : ℕ) (blob : Buffer)
    (w w1 v : World BootTest) (h : IsHandover os crc t1 hi at heap_end n blob w w1 v)
    (enough : 2 < rounds) (enough' : 2 < fuel) where
  pub boot-Resumed :
      Resumed crc liveupd_location
        (boot_items (w.user.timestamps ++ t1 ∷ []))
        (resumed_test w.user.timestamps t1 t2 v.user)
        (resume crc rounds [] (run_handler fuel (boot_resume_all t2)) liveupd_location v)
  unfolding call_back boot_save
  boot-Resumed =
      let stamps = w.user.timestamps ++ t1 ∷ [] in
      let is = boot_items stamps in
      let size = length-stamps stamps in
      let m0 = Storage.construct liveupd_location w.mem in
      let saved =
        boot_save-BootSaved os t1 liveupd_location hi at heap_end blob (record w { mem = m0 })
          (construct-IsArea liveupd_location w.mem) h.allocated h.apart h.few
          (omega (arith, size, h.room)) h.can in
      let stored =
        update_store_data-area crc liveupd_location w saved.world (some (boot_save os t1))
          (some blob) is hi saved.returns saved.area (omega arith) (omega (arith, size, h.few))
          (omega (arith, size, h.room, h.memory, saved.heap_max)) (omega (arith, size, h.room)) in
      let (sealed, set, count) =
        ok-checked crc liveupd_location (saved.sanity_checks ∙ h.on) stored h.done in
      let (sealed', sum) =
        IsSealed-cong crc {m' = v.mem} sealed (λ x a b. h.kept x a (omega (arith, count))) in
      subst
        (ResumeOutcome crc liveupd_location is
          (resume crc rounds [] (run_handler fuel (boot_resume_all t2)) liveupd_location v))
        (items-resumed rounds at t1 t2 w.user.timestamps v.user h.small (omega (arith, h.few))
          (omega arith))
        (resume-ResumeOutcome crc rounds fuel [] (boot_resume_all t2) liveupd_location v is h.above
          sealed' (rw sum set) (boot_items-IsSized stamps h.few) (omega (arith, size, h.few))
          (omega arith) (omega arith))

-- The end of `begin_test_boot`, from the world that the handler's end has left.
pub boot_generation :
    (os osv : Os) (crc : Crc) (rounds fuel t1 t2 later hi at heap_end n : ℕ)
    (sorted : List ℕ → List ℕ) (blob : Buffer) (w w1 v : World BootTest)
    → IsHandover os crc t1 hi at heap_end n blob w w1 v
    → 2 < rounds
    → 2 < fuel
    → let liu = live_updates osv crc rounds in
      (resumed : World BootTest) × (resumed.user ≡ resumed_test w.user.timestamps t1 t2 v.user)
      × (length resumed.user.timestamps ≡ length w.user.timestamps + 1)
      × ((validate crc liveupd_location resumed.mem).0 ≡ false)
      × (begin_test_boot osv liu fuel t2 later sorted v ≡ (
          if leb 30 (length w.user.timestamps + 1)
          then show_samples sorted resumed
          else next_update osv liu later resumed))
unfolding begin_test_boot run_test_boot
boot_generation os osv crc rounds fuel t1 t2 later hi at heap_end n sorted blob w w1 v h enough
      enough' =
    let r = boot-Resumed os crc rounds fuel t1 t2 hi at heap_end n blob w w1 v h enough enough' in
    let one : length r.world.user.timestamps ≡ length w.user.timestamps + 1 =
      ap (λ (s : BootTest). length s.timestamps) r.user ∙ length-append w.user.timestamps _ in
    (r.world, r.user, one, r.gone, rw (begin_test_boot, r.returns, one) refl)

-- The last kernel of test_boot. The old kernel's `boot_save`, at `t1`, has stored 29 timestamps or more
-- and one for `t1`; the new one finds the area as the storing left it, and its `begin_test_boot` asks for
-- the time at `t2`. Then the timestamps are resumed with the time between as the last one, and sorted, the
-- samples and the one in their middle are shown, and the machine is shut down; the service's state has the
-- sorted samples and the mark that the blob is kept, and the area was not valid any more.
pub last_generation :
    (os osv : Os) (crc : Crc) (rounds fuel t1 t2 later hi at heap_end n : ℕ)
    (sorted : List ℕ → List ℕ) (blob : Buffer) (w w1 v : World BootTest)
    → IsHandover os crc t1 hi at heap_end n blob w w1 v
    → 2 < rounds
    → 2 < fuel
    → 30 ≤ length w.user.timestamps + 1
    → let samples = sorted (w.user.timestamps ++ (t2 + 2 ^ 64 - t1) % 2 ^ 64 ∷ []) in
      (resumed : World BootTest) × ((validate crc liveupd_location resumed.mem).0 ≡ false)
      × (begin_test_boot osv (live_updates osv crc rounds) fuel t2 later sorted v ≡ (
        ok (BootFate.shut_down samples (nth (length samples / 2) samples)),
        record resumed { user = record v.user { timestamps = samples; is_saved = true } },
      ))
unfolding show_samples
last_generation os osv crc rounds fuel t1 t2 later hi at heap_end n sorted blob w w1 v h enough
      enough' over =
    let (resumed, user, _, gone, runs) =
      boot_generation os osv crc rounds fuel t1 t2 later hi at heap_end n sorted blob w w1 v h
        enough enough' in
    let test : leb 30 (length w.user.timestamps + 1) ≡ true = ground arith in
    (resumed, gone, runs ∙ rw (test, user) refl)

-- The blob that `boot_save` has kept is the one that a later kernel, which has none, takes: where the blob
-- does not overlap the place of its size, has a size that is not 0, and the heap has room, the buffer has
-- the same size and holds the same bytes, and from then on is the blob.
pub take_blob-keep_blob :
    (os : Os) (blob : Buffer) (at heap_end : ℕ) (w w1 v : World BootTest)
    → blob.size < 2 ^ 64
    → Apart size_location 8 blob.at blob.size
    → keep_blob (some blob) w ≡ (ok tt, w1)
    → ((x : Ptr) → size_location ≤ x → x < data_location + blob.size → v.mem x ≡ w1.mem x)
    → v.user.bloberino.size ≡ 0
    → os.allocate blob.size v.heap_end ≡ some (at, heap_end)
    → let taken : Buffer = record { at = at; size = blob.size } in
      ((take_blob os v).0 ≡ ok taken)
      × ((take_blob os v).1.user ≡ record v.user { bloberino = taken })
      × (load (take_blob os v).1.mem at blob.size ≡ load w.mem blob.at blob.size)
unfolding keep_blob take_blob
take_blob-keep_blob os blob at heap_end w w1 v small apart kept same none_yet allocated =
    let m1 = put w.mem size_location 8 blob.size in
    let bytes = load m1 blob.at blob.size in
    let m2 = store m1 data_location bytes in
    let len = length-load m1 blob.at blob.size in
    let now : w1.mem ≡ m2 = ap (λ r. r.1.mem) (sym kept) in
    let size : get v.mem size_location 8 ≡ blob.size =
      get-cong w1.mem v.mem size_location 8 (λ x p q. same x p (omega arith))
      ∙ ap (λ m. get m size_location 8) now
      ∙ get-store_other m1 data_location bytes size_location 8 (omega arith)
      ∙ get-put_self w.mem size_location 8 blob.size (omega arith) in
    let read : load v.mem data_location blob.size ≡ bytes =
      load-cong w1.mem v.mem data_location blob.size (λ x p q. same x (omega arith) q)
      ∙ ap (λ m. load m data_location blob.size) now
      ∙ subst (λ k. load m2 data_location k ≡ bytes) len (load-store_self m1 data_location bytes) in
    let test : (v.user.bloberino.size == 0) ≡ true = eq→== _ _ none_yet in
    let held : load (store v.mem at bytes) at blob.size ≡ bytes =
      subst (λ k. load (store v.mem at bytes) at k ≡ bytes) len (load-store_self v.mem at bytes) in
    let found : load v.mem data_location (get v.mem size_location 8) ≡ bytes =
      ap (load v.mem data_location) size ∙ read in
    let copied =
      copy_buffer_lem os bytes at heap_end v
        (subst (λ k. os.allocate k v.heap_end ≡ some (at, heap_end)) (sym len) allocated) in
    rw (take_blob, test, found, copied, len)
      (
        refl,
        refl,
        held ∙ load-put_other w.mem size_location 8 blob.size blob.at blob.size (omega arith),
      )
