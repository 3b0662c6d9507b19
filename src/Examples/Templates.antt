-- ===== src/Examples/Templates.antt =====
-- Objects, vectors and strings that the templates store and give back.
use mathlib.Core.List.{flatten}
use live_update.Base.{ℕ, ◌+◌, ◌≡◌, refl, List, arith, length}
use live_update.Machine.{ok}
use live_update.Memory.Laws.{load-store_self}
use live_update.World.{World}
use live_update.Restore.{as_type, as_vector}
use live_update.Update.Templates.{
  Vector, add, add_vector_of, add_vector_of_strings, as_vector_of_strings, as_type-add,
  as_vector-add_vector_of, as_vector_of_strings-add_vector_of_strings,
}
use live_update.Examples.{fresh, fresh-IsArea, place, world_of}
use live_update.Examples.Areas.{
  elements_at, elements-IsHeader, four, four-IsSized, four-HasRoom, four-IsSource, pair, names,
  names-IsSized, names-HasRoom,
}

abbrev filled : World (List ℕ)
filled = world_of elements_at

as_type-add_example :
    ((add place 6 0xa000 (length pair) filled).0 ≡ ok tt)
    × (as_type (length pair) (add place 6 0xa000 (length pair) filled).1.mem (place + 20 + 0)
        ≡ ok pair)
as_type-add_example =
    as_type-add filled elements-IsHeader 6 0xa000 pair
      (record {
        id = omega arith;
        type = omega arith;
        len = omega arith;
        size = omega arith;
        entry = λ e. omega (arith, e);
        kind = refl;
      })
      (record { count = omega arith; bytes = omega arith })
      (record { held = load-store_self fresh 0xa000 pair; out = omega arith })

abbrev numbers : Vector
numbers = record { at = 0xa000; size = 2 }

as_vector-add_vector_of_example :
    ((add_vector_of place 5 numbers 2 filled).0 ≡ ok tt)
    × (as_vector 2 (add_vector_of place 5 numbers 2 filled).1.mem (place + 20 + 0) ≡ ok four)
unfolding flatten
as_vector-add_vector_of_example =
    as_vector-add_vector_of filled elements-IsHeader 5 numbers 2 four refl (refl, (refl, tt))
      (omega arith) (omega arith) four-IsSized four-HasRoom four-IsSource

as_vector_of_strings-add_vector_of_strings_example :
    ((add_vector_of_strings place 7 names (world_of fresh)).0 ≡ ok tt)
    × (as_vector_of_strings
          (add_vector_of_strings place 7 names (world_of fresh)).1.mem
          (place + 20 + 0)
        ≡ ok names)
as_vector_of_strings-add_vector_of_strings_example =
    as_vector_of_strings-add_vector_of_strings (world_of fresh) fresh-IsArea.header 7 names
      names-IsSized names-HasRoom
