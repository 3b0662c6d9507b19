-- ===== src/Update/Begin.antt =====
-- `LiveUpdate::begin` of update.cpp on x86_64, without solo5, and `restore_environment`.
pub mod Guards
pub mod Success
pub mod Handover
use live_update.Base.{
  ℕ, ◌+◌, ◌-◌, ◌%◌, ◌^◌, Bool, true, false, ◌&&◌, Option, none, some, ltb, leb, if◌then◌else◌,
}
use live_update.Memory.{Ptr, Mem, store}
use live_update.Machine.{
  Error, null_location, in_kernel_area, in_heap_area, outside_memory, needs_64kb, no_elf_header,
  elf_incomplete, program_header_malformed, Run, ok, throw, Cmd, and_then,
}
use live_update.World.{World, Buffer, Os}
use live_update.Entry.{Crc}
use live_update.Hotswap.{Jump, hotswap64}
use live_update.Update.{StorageFunc, update_store_data}
use live_update.Update.Elf.{Image, find_header, read_elf, is_whole, is_malformed}

abbrev pub hotswap_area : Ptr
hotswap_area = 0x8000

-- The image's tests and the read of its headers.
unfoldable pub check_blob : Mem → Buffer → Run Image
check_blob m blob = elim (find_header m blob.at) [
  | none ↦ throw no_elf_header
  | some hdr ↦
      let image = read_elf m hdr in
      if is_whole image blob.size then ok image else throw elf_incomplete
]

module _ {ℓ} {U : Type ℓ} where
  -- The five tests of the storage area's address, in order. `heap_max - 0x10000` wraps.
  unfoldable pub check_location : Os → World U → Ptr → Run (Unit {0})
  check_location os w location =
      if ltb location 0x200
      then throw null_location
      else if leb os.elf_start location && ltb location os.elf_end
      then throw in_kernel_area
      else if leb w.heap_begin location && ltb location w.heap_end
      then throw in_heap_area
      else if leb w.heap_max location
      then throw outside_memory
      else if leb ((w.heap_max + 2 ^ 64 - 0x10000) % 2 ^ 64) location
      then throw needs_64kb
      else ok tt

  -- From `flush_all` on: the rollback blob is handed over, and the new kernel takes this one's place.
  unfoldable pub replace : Os → Image → Cmd (World U) Jump
  replace os image w =
      let flushed = os.flush_all w.mem in
      let (sr_data, m1) = os.store_soft_reset w.rollback_data w.rollback_len flushed in
      let w1 = record w { mem = m1; flushes = w.flushes + 1 } in
      let (jump, m2) =
        hotswap64 image.phys_base image.bin_data image.bin_len image.start_offset sr_data
          (store m1 hotswap_area os.hotswap64) in
      if is_malformed image
      then (throw program_header_malformed, w1)
      else (ok jump, record w1 { mem = m2 })

  -- It returns only by an exception; otherwise the new kernel has been started.
  unfoldable pub begin : Os → Crc → Ptr → Buffer → Option (StorageFunc U) → Cmd (World U) Jump
  begin os crc location blob storage_callback w =
      let w1 = record w { interrupts = false } in
      and_then (check_location os w1 location, w1)
        λ _ w2.
          and_then (check_blob w2.mem blob, w2)
            λ image w3.
              and_then (update_store_data crc location storage_callback (some blob) w3)
                λ _ w4. replace os image w4

  unfoldable pub restore_environment : World U → World U
  restore_environment w = record w { interrupts = true }
