-- ===== src/Examples/Boots.antt =====
-- Two kernels of test_boot.cpp, one after the other.
use mathlib.Core.List.{flatten}
use live_update.Base.{
  ℕ, zero, suc, ◌/◌, ◌≤◌, ◌⊎◌, replicate, All-append, ◌+◌, ◌^◌, ◌<◌, ◌≡◌, refl, sym, ◌∙◌, ◌&&◌,
  ◌==◌, ap, inl, inr, false, true, List, [], ◌∷◌, ◌++◌, some, arith, length, length-append, All,
  if◌then◌else◌,
}
use live_update.Memory.{load}
use live_update.Machine.{ok, throw, and_then, sanity_check_failed}
use live_update.World.{World, Os}
use live_update.Storage
use live_update.Storage.{get_crc, validate}
use live_update.Resume.{resume}
use live_update.Resume.Whole.{Resumed}
use live_update.Resume.Items.{run_handler}
use live_update.TestBoot.Resuming.{resumed_test}
use live_update.Storage.Items.{total}
use live_update.Storage.Seal.{construct-IsArea}
use live_update.Update.{call_back, update_store_data}
use live_update.Update.Storing.{IsUpdateStored, update_store_data-area}
use live_update.LiveUpdate.Instance.{live_updates}
use live_update.Service.{liveupd_location, copy_buffer}
use live_update.TestBoot.{
  BootTest, BootFate, nth, stamp_bytes, keep_blob, take_blob, boot_save, boot_resume_all,
  begin_test_boot,
}
use live_update.TestBoot.Saving.{boot_items, length-stamps, BootSaved, boot_save-BootSaved}
use live_update.TestBoot.Generation.{
  IsHandover, boot-Resumed, boot_generation, last_generation, take_blob-keep_blob,
}
use live_update.TestBoot.Measuring.{
  Generations, next, first, IsUp, next_update-IsUp, begin_test_boot-ends,
}
use live_update.Update.Begin.{begin}
use mathlib.Core.Path.{subst}
use live_update.Examples.{crc, cleared, os}
use live_update.Examples.Updates.{blob, blob_memory}

-- An allocator that never fails.
abbrev pub boot_os : Os
boot_os = record os { allocate = λ n end. some (end, end + n) }

abbrev pub boot_world : List ℕ → World BootTest
boot_world ts = record {
  mem = cleared;
  user = record { timestamps = ts; bloberino = blob; is_saved = false };
  heap_begin = 0x4000;
  heap_end = 0x10000;
  heap_max = 0x10000000;
  interrupts = true;
  flushes = 0;
  slumbering = [];
  started = [];
  rollback_data = 0;
  rollback_len = 0;
  on_panic = true;
  sanity_checks = true;
}

module _ (ts : List ℕ) (t1 : ℕ) (few : length ts < 100)
    (small : All (λ t. t < 2 ^ 64) (ts ++ t1 ∷ [])) where
  abbrev stamps : List ℕ
  stamps = ts ++ t1 ∷ []

  count : length stamps < 101
  count = omega (arith, length-append ts (t1 ∷ []))

  pub saved :
      BootSaved liveupd_location stamps
        (record (boot_world ts) { mem = Storage.construct liveupd_location cleared })
        (boot_save boot_os t1 liveupd_location
          (some blob)
          (record (boot_world ts) { mem = Storage.construct liveupd_location cleared }))
  saved =
      boot_save-BootSaved boot_os t1 liveupd_location 0x9000000 0x10000
        (0x10000 + length (flatten (stamp_bytes stamps))) blob
        (record (boot_world ts) { mem = Storage.construct liveupd_location cleared })
        (construct-IsArea liveupd_location cleared) refl
        (inl (omega (arith, length-stamps stamps, count))) (omega (arith, count))
        (omega (arith, length-stamps stamps, count)) (inr (omega arith))

  pub stored : IsUpdateStored crc liveupd_location 0x9000000 saved.world (boot_items stamps) (
      update_store_data crc liveupd_location
        (some (boot_save boot_os t1))
        (some blob)
        (boot_world ts))
  unfolding call_back
  stored =
      update_store_data-area crc liveupd_location (boot_world ts) saved.world
        (some (boot_save boot_os t1)) (some blob) (boot_items stamps) 0x9000000 saved.returns
        saved.area (omega arith) (omega (arith, length-stamps stamps, count))
        (omega (arith, length-stamps stamps, count, saved.heap_max))
        (omega (arith, length-stamps stamps, count))

  abbrev left : World BootTest
  left = record saved.world { mem = stored.mem }

  done :
      update_store_data crc liveupd_location
        (some (boot_save boot_os t1))
        (some blob)
        (boot_world ts)
      ≡ (ok (32 + total (boot_items stamps)), left)
  done =
      let set : get_crc stored.mem liveupd_location ≡ 1 = stored.area.sum in
      let outcome : (if saved.world.sanity_checks && get_crc stored.mem liveupd_location == 0
            then throw sanity_check_failed
            else ok (32 + total (boot_items stamps)))
          ≡ ok (32 + total (boot_items stamps)) =
        rw (saved.sanity_checks, set) refl in
      stored.returns ∙ ap (λ r. (r, left)) outcome

  -- The new kernel finds the memory as it was left, and its service has not resumed yet.
  abbrev found : World BootTest
  found = record (boot_world []) { mem = stored.mem }

  pub handover :
      IsHandover boot_os crc t1 0x9000000 0x10000
        (0x10000 + length (flatten (stamp_bytes stamps)))
        (32 + total (boot_items stamps))
        blob
        (boot_world ts)
        left
        found
  handover = record {
    allocated = refl;
    apart = inl (omega (arith, length-stamps stamps, count));
    few = omega (arith, count);
    room = omega (arith, count);
    memory = omega arith;
    can = inr (omega arith);
    small = small;
    on = refl;
    done = done;
    kept = λ x p q. refl;
    above = omega arith;
  }

-- The first kernel stores at 100, and the second resumes at 105.
abbrev pub one_left : World BootTest
one_left = left [] 100 (omega arith) (omega arith, tt)

abbrev pub one_found : World BootTest
one_found = found [] 100 (omega arith) (omega arith, tt)

pub one_Resumed :
    Resumed crc liveupd_location
      (boot_items (100 ∷ []))
      (resumed_test [] 100 105 one_found.user)
      (resume crc 3 [] (run_handler 3 (boot_resume_all 105)) liveupd_location one_found)
one_Resumed =
    boot-Resumed boot_os crc 3 3 100 105 0x9000000 0x10000
      (0x10000 + length (flatten (stamp_bytes (100 ∷ [])))) (32 + total (boot_items (100 ∷ [])))
      blob (boot_world []) one_left one_found (handover [] 100 (omega arith) (omega arith, tt))
      (omega arith) (omega arith)

-- The second kernel updates again.
one_IsUp :
    IsUp (begin_test_boot boot_os (live_updates boot_os crc 3) 3 105 109 (λ ts. ts) one_found)
one_IsUp =
    let (resumed, _, _, _, runs) =
      boot_generation boot_os boot_os crc 3 3 100 105 109 0x9000000 0x10000
        (0x10000 + length (flatten (stamp_bytes (100 ∷ [])))) (32 + total (boot_items (100 ∷ [])))
        (λ ts. ts) blob (boot_world []) one_left one_found
        (handover [] 100 (omega arith) (omega arith, tt)) (omega arith) (omega arith) in
    subst IsUp (sym runs) (next_update-IsUp boot_os (live_updates boot_os crc 3) 109 resumed)

one_Generations : Generations boot_os crc 3 3 (boot_world []) 1 one_Resumed.world
one_Generations =
    next 100 105 109 0x9000000 0x10000 (0x10000 + length (flatten (stamp_bytes (100 ∷ []))))
      (32 + total (boot_items (100 ∷ []))) (λ ts. ts) blob (boot_world []) one_left one_found
      one_Resumed.world first refl (handover [] 100 (omega arith) (omega arith, tt))
      one_Resumed.returns one_IsUp

abbrev two_left : World BootTest
two_left = left (5 ∷ []) 200 (omega arith) (omega arith, (omega arith, tt))

abbrev two_found : World BootTest
two_found = found (5 ∷ []) 200 (omega arith) (omega arith, (omega arith, tt))

begin_test_boot-ends_example :
    let run = begin_test_boot boot_os (live_updates boot_os crc 3) 3 205 209 (λ ts. ts) two_found in
    let count : ℕ = 2 in
    (count ≤ 30)
    × (resumed : World BootTest) × (length resumed.user.timestamps ≡ count)
    × (((count ≡ 30)
          × (run ≡ (
            ok (
                BootFate.shut_down resumed.user.timestamps
                  (nth (length resumed.user.timestamps / 2) resumed.user.timestamps)),
            resumed,
          )))
        ⊎ ((count < 30)
            × (run ≡ (
                and_then (take_blob boot_os resumed) λ kept r1.
                  and_then (copy_buffer boot_os (load r1.mem kept.at kept.size) r1) λ copy ready.
                    and_then
                      (begin boot_os crc liveupd_location copy (some (boot_save boot_os 209)) ready)
                      λ jump w2. (ok (BootFate.updating jump), w2)))))
begin_test_boot-ends_example =
    begin_test_boot-ends boot_os boot_os crc 3 3 1 200 205 209 0x9000000 0x10000
      (0x10000 + length (flatten (stamp_bytes (5 ∷ 200 ∷ []))))
      (32 + total (boot_items (5 ∷ 200 ∷ []))) (λ ts. ts) blob (boot_world []) one_Resumed.world
      (boot_world (5 ∷ [])) two_left two_found (omega arith) (omega arith) (omega arith)
      one_Generations (sym (ap (λ (s : BootTest). s.timestamps) one_Resumed.user))
      (handover (5 ∷ []) 200 (omega arith) (omega arith, (omega arith, tt)))

-- A kernel whose service has 29 timestamps stores them and one more.
abbrev many : List ℕ
many = replicate 29 5

fives : (n : ℕ) → All (λ t. t < 2 ^ 64) (replicate n 5)
fives zero = tt
fives (suc n) = (omega arith, fives n)

many-small : All (λ t. t < 2 ^ 64) (many ++ 200 ∷ [])
many-small = All-append (λ t. t < 2 ^ 64) many (200 ∷ []) (fives 29) (omega arith, tt)

last_generation_example :
    (resumed : World BootTest) × ((validate crc liveupd_location resumed.mem).0 ≡ false)
    × (begin_test_boot boot_os
          (live_updates boot_os crc 3)
          3
          205
          209
          (λ ts. ts)
          (found many 200 (omega arith) many-small)
        ≡ (
          ok (BootFate.shut_down (replicate 30 5) (some 5)),
          record resumed {
            user = record { timestamps = replicate 30 5; bloberino = blob; is_saved = true };
          },
        ))
last_generation_example =
    last_generation boot_os boot_os crc 3 3 200 205 209 0x9000000 0x10000
      (0x10000 + length (flatten (stamp_bytes (many ++ 200 ∷ []))))
      (32 + total (boot_items (many ++ 200 ∷ []))) (λ ts. ts) blob (boot_world many)
      (left many 200 (omega arith) many-small) (found many 200 (omega arith) many-small)
      (handover many 200 (omega arith) many-small) (omega arith) (omega arith) (omega arith)

-- The blob is kept, and the next kernel takes it.
abbrev keeping : World BootTest
keeping = record (boot_world []) { mem = blob_memory }

abbrev keeper : World BootTest
keeper = (keep_blob (some blob) keeping).1

abbrev taker : World BootTest
taker = record keeper {
  user = record { timestamps = []; bloberino = record { at = 0; size = 0 }; is_saved = true };
}

take_blob-keep_blob_example :
    ((take_blob boot_os taker).0 ≡ ok (record { at = 0x10000; size = 200 }))
    × ((take_blob boot_os taker).1.user ≡ record {
      timestamps = [];
      bloberino = record { at = 0x10000; size = 200 };
      is_saved = true;
    })
    × (load (take_blob boot_os taker).1.mem 0x10000 200 ≡ load blob_memory 0xb000 200)
unfolding keep_blob
take_blob-keep_blob_example =
    take_blob-keep_blob boot_os blob 0x10000 0x100c8 keeping keeper taker (omega arith)
      (inr (omega arith)) refl (λ x p q. refl) refl refl
