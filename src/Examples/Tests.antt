-- ===== src/Examples/Tests.antt =====
-- What the test service stores, without its terminals.
use mathlib.Core.List.{flatten}
use live_update.Base.{ℕ, ◌+◌, ◌<◌, refl, inr, List, [], ◌∷◌, ◌++◌, arith, true, All, replicate}
use live_update.Memory.{Mem, load, store, bytes_of}
use live_update.World.{World}
use live_update.Storage.Items.{total, IsSized}
use live_update.Update.Calls.{Call, items_of, AllReady}
use live_update.TestAll.{Service, Sources, random_buffer, test_all_save}
use live_update.Examples.{cleared, place}

-- A service with a message and a timestamp, and where its objects lie.
abbrev pub zeros : List ℕ
zeros = replicate 8 0

abbrev pub service : Service
service = record {
  saveme = [];
  savemsg = (b'h' ∷ b'i' ∷ []) ∷ [];
  timestamps = zeros ∷ [];
  update_areas = [];
  missing = [];
}

abbrev pub sources : Sources
sources = record { buffer = 0xa000; ts = 0xa100; timestamps = 0xa200; final_blob = 0xa300 }

abbrev saved : List Call
saved = test_all_save sources zeros (0 ∷ 0 ∷ []) service

abbrev pub memory : Mem
memory = store cleared 0xa000 (random_buffer ++ 0 ∷ [])

abbrev pub tested : World Service
tested = record {
  mem = memory;
  user = service;
  heap_begin = 0x4000;
  heap_end = 0x8000;
  heap_max = 0x100000;
  interrupts = true;
  flushes = 0;
  slumbering = [];
  started = [];
  rollback_data = 0;
  rollback_len = 0;
  on_panic = true;
  sanity_checks = true;
}

pub saved-AllReady : AllReady memory place 0xa000 (place + 20) saved
unfolding test_all_save flatten load store
saved-AllReady = (
  tt,
  (
    tt,
    (
      tt,
      (
        tt,
        (
          record { held = refl; out = inr (omega arith) },
          (
            tt,
            (
              record { held = refl; out = inr (omega arith) },
              (
                (record { held = refl; out = inr (omega arith) }, refl, omega arith, omega arith),
                (record { held = refl; out = inr (omega arith) }, (tt, tt)),
              ),
            ),
          ),
        ),
      ),
    ),
  ),
)

pub saved-IsSized : All IsSized (items_of saved)
unfolding test_all_save flatten bytes_of
saved-IsSized = (
  record {
    id = omega arith;
    type = omega arith;
    len = omega arith;
    size = omega arith;
    entry = λ e. omega (arith, e);
    kind = refl;
  },
  (
    record {
      id = omega arith;
      type = omega arith;
      len = omega arith;
      size = omega arith;
      entry = λ e. omega (arith, e);
      kind = refl;
    },
    (
      record {
        id = omega arith;
        type = omega arith;
        len = omega arith;
        size = omega arith;
        entry = λ e. omega (arith, e);
        kind = refl;
      },
      (
        record {
          id = omega arith;
          type = omega arith;
          len = omega arith;
          size = omega arith;
          entry = λ e. omega (arith, e);
          kind = refl;
        },
        (
          record {
            id = omega arith;
            type = omega arith;
            len = omega arith;
            size = omega arith;
            entry = λ e. omega (arith, e);
            kind = refl;
          },
          (
            record {
              id = omega arith;
              type = omega arith;
              len = omega arith;
              size = omega arith;
              entry = λ e. omega (arith, e);
              kind = refl;
            },
            (
              record {
                id = omega arith;
                type = omega arith;
                len = omega arith;
                size = omega arith;
                entry = λ e. omega (arith, e);
                kind = refl;
              },
              (
                record {
                  id = omega arith;
                  type = omega arith;
                  len = omega arith;
                  size = omega arith;
                  entry = λ e. omega (arith, e);
                  kind = refl;
                },
                (
                  record {
                    id = omega arith;
                    type = omega arith;
                    len = omega arith;
                    size = omega arith;
                    entry = λ e. omega (arith, e);
                    kind = refl;
                  },
                  (
                    record {
                      id = omega arith;
                      type = omega arith;
                      len = omega arith;
                      size = omega arith;
                      entry = λ e. omega (arith, e);
                      kind = refl;
                    },
                    tt,
                  ),
                ),
              ),
            ),
          ),
        ),
      ),
    ),
  ),
)

pub saved-total : total (items_of saved) < 0x800
unfolding test_all_save flatten bytes_of
saved-total = omega arith

-- The new kernel's service, before it resumes.
abbrev pub fresh_service : Service
fresh_service = record {
  saveme = [];
  savemsg = [];
  timestamps = [];
  update_areas = [];
  missing = [];
}
