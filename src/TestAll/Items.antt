-- ===== src/TestAll/Items.antt =====
-- The items of what test_all_save stores, and its handler of the times on them.
use mathlib.Core.List.{flatten}
use live_update.Base.{
  ℕ, ◌*◌, ◌^◌, ◌<◌, ◌≡◌, refl, true, List, [], ◌∷◌, ◌++◌, ltb, arith, length, eq→==, ◌==◌, lt→ltb,
  All,
}
use live_update.Machine.{ok}
use live_update.Storage.Items.{Item}
use live_update.Restore.Programs.{run_on_items}
use live_update.Restore.Programs.Chop.{chop-flatten}
use live_update.Update.Calls.{items_of}
use live_update.Update.Templates.{length-flatten}
use live_update.TestAll.{Service, Sources, test_all_save, the_timing}

pub items-count :
    (at : Sources) (ts final_blob : List ℕ) (old : Service)
    → length (items_of (test_all_save at ts final_blob old)) ≡ 10
unfolding test_all_save
items-count at ts final_blob old = omega arith

pub calls-count :
    (at : Sources) (ts final_blob : List ℕ) (old : Service)
    → length (test_all_save at ts final_blob old) ≡ 10
unfolding test_all_save
calls-count at ts final_blob old = omega arith

module _ (time_since : List ℕ → List ℕ) (message : List ℕ → List ℕ)
    (sorted : List (List ℕ) → List (List ℕ)) where
  -- The state of the service that has resumed what another stored.
  abbrev pub resumed_service : List ℕ → List ℕ → Service → Service → Service
  resumed_service ts final_blob old new = record new {
    savemsg = new.savemsg ++ message (time_since ts) ∷ [];
    timestamps = sorted (old.timestamps ++ time_since ts ∷ []);
    update_areas = final_blob ∷ new.update_areas;
  }

  pub the_timing-items :
      (ts : List ℕ) (stamps : List (List ℕ)) (rest : List Item) (new : Service)
      → length ts ≡ 8
      → All (λ x. length x ≡ 8) stamps
      → length stamps < 2 ^ 61
      → run_on_items
          (the_timing time_since message sorted new)
          (Item.buffer 100 ts ∷ Item.vector 100 (length stamps) 8 (flatten stamps) ∷ rest)
          new
        ≡ (
          ok rest,
          record new {
            savemsg = new.savemsg ++ message (time_since ts) ∷ [];
            timestamps = sorted (stamps ++ time_since ts ∷ []);
          },
        )
  unfolding run_on_items the_timing
  the_timing-items ts stamps rest new h8 all8 few =
      let count : ltb (length stamps) (2 ^ 64) ≡ true =
        lt→ltb (length stamps) (2 ^ 64) (omega arith) in
      let size : (length stamps * 8 == length (flatten stamps)) ≡ true =
        eq→== (length stamps * 8) (length (flatten stamps)) (length-flatten 8 stamps all8) in
      rw (h8, count, size, chop-flatten 8 stamps all8) refl
