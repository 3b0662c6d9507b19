-- ===== src/TestBoot/Saving.antt =====
-- What `boot_save` of test_boot.cpp stores.
use mathlib.Core.List.{flatten}
use live_update.Base.{
  ℕ, ◌+◌, ◌*◌, ◌^◌, ◌≤◌, ◌<◌, ◌≡◌, refl, sym, ◌⊎◌, inl, inr, ◌∙◌, ap, true, false, some, List, [],
  ◌∷◌, ◌++◌, arith, length, All, Bool-cases, if◌then◌else◌,
}
use live_update.Memory.{Ptr, Mem, load, store, put}
use live_update.Memory.Laws.{load-store_self, store-outside, put-outside, length-load}
use live_update.Machine.{Run, ok}
use live_update.World.{World, Buffer, Os}
use live_update.Storage.Items.{Item, IsArea, IsSized}
use live_update.Storage.Grow.{IsArea-cong}
use live_update.Update.Calls.{AllReady, run_calls, run_calls-Stored}
use live_update.Update.Templates.{length-flatten}
use live_update.Service.{copy_buffer, size_location, data_location}
use live_update.Service.Handlers.{copy_buffer_lem}
use live_update.TestBoot.{BootTest, stamp_bytes, boot_calls, keep_blob, boot_save}
use live_update.TestBoot.Resuming.{All-stamp_bytes, length-stamp_bytes}

abbrev pub boot_items : List ℕ → List Item
boot_items stamps =
    Item.vector 0 (length stamps) 8 (flatten (stamp_bytes stamps)) ∷ Item.integer 1 1 ∷ []

-- What `boot_save` leaves: an area of the timestamps with the new one, and of the mark that the blob is kept.
pub record BootSaved (sh : Ptr) (stamps : List ℕ) (w : World BootTest)
    (r : Run (Unit {0}) × World BootTest) : Type 0 where
  pub world : World BootTest
  pub returns : r ≡ (ok tt, world)
  pub area : IsArea world.mem sh (boot_items stamps)
  pub heap_max : world.heap_max ≡ w.heap_max
  pub sanity_checks : world.sanity_checks ≡ w.sanity_checks

-- The blob has been kept before, or there is room for it below the area.
abbrev pub CanKeep : Ptr → Buffer → BootTest → Type 0
CanKeep sh blob s = (s.is_saved ≡ true) ⊎ (data_location + blob.size ≤ sh)

below :
    (sh : Ptr) (blob : Buffer) (s : BootTest)
    → CanKeep sh blob s
    → s.is_saved ≡ false
    → data_location + blob.size ≤ sh
below sh blob s (inl saved) new = cc
below sh blob s (inr room) new = room

pub length-stamps : (ts : List ℕ) → length (flatten (stamp_bytes ts)) ≡ length ts * 8
length-stamps ts =
    sym (length-flatten 8 (stamp_bytes ts) (All-stamp_bytes ts))
    ∙ ap (λ n. n * 8) (length-stamp_bytes ts)

pub boot_items-IsSized : (ts : List ℕ) → length ts < 2 ^ 20 → All IsSized (boot_items ts)
boot_items-IsSized ts few = (
  record {
    id = omega arith;
    type = omega arith;
    len = omega (arith, length-stamps ts);
    size = omega (arith, length-stamps ts);
    entry = λ e. omega (arith, e);
    kind = refl;
  },
  (
    record {
      id = omega arith;
      type = omega arith;
      len = omega arith;
      size = omega arith;
      entry = λ e. omega (arith, e);
      kind = refl;
    },
    tt,
  ),
)

module _ (os : Os) (t sh hi at heap_end : Ptr) (blob : Buffer) (w : World BootTest) where
  abbrev stamps : List ℕ
  stamps = w.user.timestamps ++ t ∷ []

  abbrev bytes : List ℕ
  bytes = flatten (stamp_bytes stamps)

  -- The world after `push_back`, and with the elements on the heap.
  abbrev pushed : World BootTest
  pushed = record w { user = record w.user { timestamps = stamps } }

  abbrev copied : World BootTest
  copied = record pushed { mem = store w.mem at bytes; heap_end = heap_end }

  elements-copied :
      os.allocate (length bytes) w.heap_end ≡ some (at, heap_end)
      → copy_buffer os bytes pushed ≡ (ok (record { at = at; size = length bytes }), copied)
  elements-copied allocated = copy_buffer_lem os bytes at heap_end pushed allocated

  -- The end of `boot_save`, from the memory `m` with the area.
  boot_save-end :
      (m : Mem)
      → os.allocate (length bytes) w.heap_end ≡ some (at, heap_end)
      → run_calls sh (boot_calls at stamps) copied ≡ (ok tt, record copied { mem = m })
      → boot_save os t sh (some blob) w ≡ (
          if w.user.is_saved
          then (ok tt, record copied { mem = m })
          else keep_blob (some blob) (record copied { mem = m }))
  unfolding boot_save
  boot_save-end m allocated ran = rw (boot_save, elements-copied allocated, ran) refl

  pub boot_save-BootSaved :
      IsArea w.mem sh []
      → os.allocate (length bytes) w.heap_end ≡ some (at, heap_end)
      → (at + length bytes ≤ sh) ⊎ (hi ≤ at)
      → length stamps < 2 ^ 20
      → sh + 66 + length bytes ≤ hi
      → CanKeep sh blob w.user
      → BootSaved sh stamps w (boot_save os t sh (some blob) w)
  unfolding keep_blob
  boot_save-BootSaved area allocated apart few room can =
      let m1 = store w.mem at bytes in
      let size = length-stamps stamps in
      let area1 : IsArea m1 sh [] =
        IsArea-cong sh [] area (λ x p q. store-outside w.mem at bytes x (omega (arith, apart))) in
      let ready : AllReady m1 sh hi (sh + 20 + 0) (boot_calls at stamps) = (
        (
          record { held = load-store_self w.mem at bytes; out = apart },
          sym size,
          omega arith,
          omega arith,
        ),
        (tt, tt),
      ) in
      let st =
        run_calls-Stored (boot_calls at stamps) copied sh hi [] area1 ready
          (boot_items-IsSized stamps few) (omega arith) (omega (arith, size)) (omega arith) in
      let end = boot_save-end st.mem allocated st.returns in
      elim (Bool-cases w.user.is_saved) [
        | inl saved ↦ record {
          world = record copied { mem = st.mem };
          returns = end ∙ rw saved refl;
          area = st.area;
          heap_max = refl;
          sanity_checks = refl;
        }
        | inr new ↦
            let m2 = put st.mem size_location 8 blob.size in
            record {
              world = record copied { mem = store m2 data_location (load m2 blob.at blob.size) };
              returns = end ∙ rw new refl;
              area = IsArea-cong sh (boot_items stamps) st.area (λ x p q.
                  store-outside m2 data_location (load m2 blob.at blob.size) x
                    (omega (arith, below sh blob w.user can new, length-load m2 blob.at blob.size))
                  ∙ put-outside st.mem size_location 8 blob.size x
                      (omega (arith, below sh blob w.user can new)));
              heap_max = refl;
              sanity_checks = refl;
            }
      ]
