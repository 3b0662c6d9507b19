-- ===== src/Examples/Readers.antt =====
-- Entries that are read back, the moves over an area's entries, and the registry.
use live_update.Base.{◌+◌, arith}
use live_update.Memory.{Mem}
use live_update.Storage.Items.{Item, HasItem}
use live_update.Storage.Strings.{add_string_vector-Appended}
use live_update.Storage.Checksum.{finalize-IsSealed}
use live_update.Restore.Walk.{IsRest}
use live_update.Resume.Whole.{IsComplete-IsRest}
use live_update.Examples.{crc, place, fresh-IsArea}
use live_update.Examples.Areas.{
  names, names_filled, names-IsSized, names-HasRoom, greeting-IsSized, marker-IsSized,
  two_filled-IsArea, two_items,
}

names-HasItem : HasItem names_filled (place + 20 + 0) (Item.strings 7 names)
names-HasItem =
    (add_string_vector-Appended fresh-IsArea.header 7 names names-IsSized names-HasRoom).2.item

-- The sealed area with a string and a marker, from its first entry on.
abbrev pub sealed : Mem
sealed =
    (finalize-IsSealed crc 0x100000 two_filled-IsArea (omega arith) (omega arith) (omega arith)).0

sealed-IsRest : IsRest sealed (place + 20) two_items
sealed-IsRest =
    let (m, e, s, same) =
      finalize-IsSealed crc 0x100000 two_filled-IsArea (omega arith) (omega arith) (omega arith) in
    IsComplete-IsRest s.complete (greeting-IsSized, (marker-IsSized, tt)) (omega arith)
