-- ===== src/TestBoot/Measuring.antt =====
-- The kernels of test_boot.cpp, one after the other.
use live_update.Base.{
  ℕ, suc, ◌+◌, ◌/◌, ◌≤◌, ◌<◌, ◌≡◌, ◌≢◌, refl, sym, ◌∙◌, ap, true, List, [], length, length-append,
  leb, arith, ◌⊎◌, inl, inr, Option, some, Bool-cases,
}
use live_update.Memory.{load}
use live_update.Machine.{Run, ok, throw, aborted, starved, and_then}
use live_update.World.{World, Buffer, Os}
use live_update.Entry.{Crc}
use live_update.Resume.{resume}
use live_update.Resume.Items.{run_handler}
use live_update.Update.Begin.{begin}
use live_update.LiveUpdate.{LiveUpdate}
use live_update.LiveUpdate.Instance.{live_updates}
use live_update.Service.{copy_buffer, liveupd_location}
use live_update.TestBoot.{
  BootTest, BootFate, nth, take_blob, boot_save, boot_resume_all, show_samples, next_update,
  begin_test_boot,
}
use live_update.TestBoot.Generation.{IsHandover, boot-Resumed, boot_generation, last_generation}

-- A kernel has not shut the machine down.
abbrev pub IsUp : Run BootFate × World BootTest → Type 0
IsUp r = (samples : List ℕ) (median : Option ℕ) → r.0 ≢ ok (BootFate.shut_down samples median)

and_then-IsUp {ℓ} :
    {A : Type ℓ} (r : Run A × World BootTest)
    (k : A → World BootTest → Run BootFate × World BootTest)
    → ((a : A) (w : World BootTest) → IsUp (k a w))
    → IsUp (and_then r k)
and_then-IsUp (ok a, w) k h samples median is = h a w samples median is
and_then-IsUp (throw e, w) k h samples median is = cc
and_then-IsUp (aborted, w) k h samples median is = cc
and_then-IsUp (starved, w) k h samples median is = cc

-- An update that begins does not.
pub next_update-IsUp :
    (os : Os) (liu : LiveUpdate BootTest) (later : ℕ) (w : World BootTest)
    → IsUp (next_update os liu later w)
unfolding next_update
next_update-IsUp os liu later w = and_then-IsUp (take_blob os w) _ (λ blob w1.
    and_then-IsUp (copy_buffer os (load w1.mem blob.at blob.size) w1) _ (λ copy w2.
      and_then-IsUp (liu.begin liveupd_location copy (some (boot_save os later)) w2) _
        (λ jump w3 samples median is. cc)))

module _ (os : Os) (crc : Crc) (rounds fuel : ℕ) where
  -- A kernel in the world `w0`, and `k` kernels later, in the world `r` that its `resume` has left. Each
  -- kernel's service has stored what the one before has resumed, and the time; and `begin_test_boot` of none
  -- of the `k` has shut the machine down.
  pub data Generations (w0 : World BootTest) : ℕ → World BootTest → Type 0 where
    first : Generations w0 0 w0
    next :
        {k : ℕ} {r : World BootTest} (t1 t2 later hi at heap_end n : ℕ) (sorted : List ℕ → List ℕ)
        (blob : Buffer) (w w1 v r' : World BootTest)
        → Generations w0 k r
        → w.user.timestamps ≡ r.user.timestamps
        → IsHandover os crc t1 hi at heap_end n blob w w1 v
        → resume crc rounds [] (run_handler fuel (boot_resume_all t2)) liveupd_location v
          ≡ (ok true, r')
        → IsUp (begin_test_boot os (live_updates os crc rounds) fuel t2 later sorted v)
        → Generations w0 (suc k) r'

  -- Each kernel has one timestamp more, and less than 30.
  Generations-length :
      {w0 : World BootTest} {k : ℕ} {r : World BootTest}
      → 2 < rounds
      → 2 < fuel
      → length w0.user.timestamps < 30
      → Generations w0 k r
      → (length r.user.timestamps ≡ length w0.user.timestamps + k) × (length r.user.timestamps < 30)
  Generations-length enough enough' few first = (omega arith, few)
  Generations-length enough enough' few
        (next t1 t2 later hi at heap_end n sorted blob w w1 v r' g same h ran up) =
      let s = boot-Resumed os crc rounds fuel t1 t2 hi at heap_end n blob w w1 v h enough enough' in
      let here : r'.user ≡ s.world.user = ap (λ o. o.1.user) (sym ran ∙ s.returns) in
      let one : length r'.user.timestamps ≡ length w.user.timestamps + 1 =
        ap (λ (u : BootTest). length u.timestamps) (here ∙ s.user)
        ∙ length-append w.user.timestamps _ in
      let before = ap length same in
      let (count, _) = Generations-length enough enough' few g in
      (
        omega (arith, one, before, count),
        elim (Bool-cases (leb 30 (length w.user.timestamps + 1))) [
          | inr less ↦ ground (arith, one)
          | inl over ↦
              let (_, _, down) =
                last_generation os os crc rounds fuel t1 t2 later hi at heap_end n sorted blob w w1
                  v h enough enough' (ground arith) in
              absurd (up _ _ (ap (λ o. o.0) down))
        ],
      )

-- The measurement ends. From a kernel with less than 30 timestamps on, `k` kernels have updated, each
-- storing what it has resumed and the time, and none has shut the machine down; the last of them stores
-- once more, and the next kernel finds what was stored, with a service whose fuel exceeds its two entries.
-- Then that kernel has as many timestamps as the first one and one for each update, and these are 30 at
-- most, so that there is no longer such row of kernels. If they are 30, its `begin_test_boot` sorts and
-- shows them with the one in the middle, and shuts the machine down; if they are less, it takes the blob,
-- copies it, and is the call of `begin` with the copy and with `boot_save`.
pub begin_test_boot-ends :
    (os osv : Os) (crc : Crc) (rounds fuel k t1 t2 later hi at heap_end n : ℕ)
    (sorted : List ℕ → List ℕ) (blob : Buffer) (w0 r w w1 v : World BootTest)
    → 2 < rounds
    → 2 < fuel
    → length w0.user.timestamps < 30
    → Generations os crc rounds fuel w0 k r
    → w.user.timestamps ≡ r.user.timestamps
    → IsHandover os crc t1 hi at heap_end n blob w w1 v
    → let count = length w0.user.timestamps + k + 1 in
      let run = begin_test_boot osv (live_updates osv crc rounds) fuel t2 later sorted v in
      (count ≤ 30)
      × (resumed : World BootTest) × (length resumed.user.timestamps ≡ count)
      × (((count ≡ 30)
            × (run ≡ (
              ok (
                  BootFate.shut_down (sorted resumed.user.timestamps) (
                    nth
                      (length (sorted resumed.user.timestamps) / 2)
                      (sorted resumed.user.timestamps))),
              record resumed {
                user = record resumed.user { timestamps = sorted resumed.user.timestamps };
              },
            )))
          ⊎ ((count < 30)
              × (run ≡ (
                  and_then (take_blob osv resumed) λ kept r1.
                    and_then (copy_buffer osv (load r1.mem kept.at kept.size) r1) λ copy ready.
                      and_then
                        (begin osv crc liveupd_location copy (some (boot_save osv later)) ready)
                        λ jump w2. (ok (BootFate.updating jump), w2)))))
unfolding show_samples next_update
begin_test_boot-ends os osv crc rounds fuel k t1 t2 later hi at heap_end n sorted blob w0 r w w1 v
      enough enough' few g same h =
    let (resumed, _, one, _, runs) =
      boot_generation os osv crc rounds fuel t1 t2 later hi at heap_end n sorted blob w w1 v h
        enough enough' in
    let (count, less) = Generations-length os crc rounds fuel enough enough' few g in
    let before : length w.user.timestamps ≡ length w0.user.timestamps + k =
      ap length same ∙ count in
    (
      omega (arith, before, same, less, count),
      resumed,
      omega (arith, one, before),
      elim (Bool-cases (leb 30 (length w.user.timestamps + 1))) [
        | inl over ↦ inl (ground (arith, before, less, count), runs ∙ rw over refl)
        | inr under ↦ inr (ground (arith, before), runs ∙ rw under refl)
      ],
    )
