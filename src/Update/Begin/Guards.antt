-- ===== src/Update/Begin/Guards.antt =====
-- What `begin` refuses, and what it leaves behind when it throws.
use live_update.Base.{
  ◌+◌, ◌^◌, ◌≤◌, ◌<◌, ◌≡◌, ◌↔◌, refl, ◌⊎◌, inl, inr, true, false, Option, Bool-cases, arith,
}
use live_update.Memory.{Ptr, Mem}
use live_update.Machine.{Error, ok, throw, Run-cases}
use live_update.World.{World, Buffer, Os}
use live_update.Entry.{Crc}
use live_update.Update.{StorageFunc}
use live_update.Update.Elf.{Image, find_header, validate_header, read_elf, is_whole}
use live_update.Update.Begin.{begin, check_location, check_blob}

-- An address that `begin` takes: at least 0x200, outside the kernel and the heap, with 64 KiB of memory
-- from it on.
pub record IsLocation {ℓ} {U : Type ℓ} (os : Os) (w : World U) (a : Ptr) : Type 0 where
  pub not_null : 0x200 ≤ a
  pub not_kernel : (a < os.elf_start) ⊎ (os.elf_end ≤ a)
  pub not_heap : (a < w.heap_begin) ⊎ (w.heap_end ≤ a)
  pub room : a + 0x10000 < w.heap_max

module _ {ℓ} {U : Type ℓ} (os : Os) (w : World U) (a : Ptr) where
  -- With at least 64 KiB and less than 2 ^ 64 bytes of memory, the five tests of `begin` together admit
  -- exactly the addresses from 0x200 on that lie outside the kernel and the heap and have more than 64 KiB
  -- of memory behind them.
  pub check_location_iff :
      0x10000 ≤ w.heap_max
      → w.heap_max < 2 ^ 64
      → (check_location os w a ≡ ok tt) ↔ IsLocation os w a
  unfolding check_location
  check_location_iff lo hi = (λ e. ground arith, λ v. ground arith)

  pub check_location-cases :
      ((check_location os w a) ≡ ok tt) ⊎ ((e : Error) × (check_location os w a ≡ throw e))
  unfolding check_location
  check_location-cases =
      elim (Run-cases (check_location os w a) (λ e. ground arith) (λ e. ground arith)) [
        | inl (tt, e) ↦ inl e
        | inr (x, e) ↦ inr (x, e)
      ]

-- A blob that `begin` takes: an ELF header at its first byte or behind one sector, whose section headers
-- end within the blob's size, with at least 164 bytes.
pub record IsBlob (m : Mem) (blob : Buffer) (hdr : Ptr) : Type 0 where
  pub header : validate_header m hdr ≡ true
  pub place : (hdr ≡ blob.at) ⊎ ((validate_header m blob.at ≡ false) × (hdr ≡ blob.at + 512))
  pub size : (read_elf m hdr).expected_total ≤ blob.size
  pub minimum : 164 ≤ (read_elf m hdr).expected_total

pub check_blob-IsBlob :
    (m : Mem) (blob : Buffer) (image : Image)
    → check_blob m blob ≡ ok image
    → (hdr : Ptr) × IsBlob m blob hdr × (image ≡ read_elf m hdr)
unfolding check_blob find_header is_whole
check_blob-IsBlob m blob image e = elim (Bool-cases (validate_header m blob.at)) [
  | inl first ↦ (blob.at, ground arith, ground arith)
  | inr second ↦ (blob.at + 512, ground arith, ground arith)
]

pub check_blob-cases :
    (m : Mem) (blob : Buffer)
    → ((image : Image) × (check_blob m blob ≡ ok image))
      ⊎ ((e : Error) × (check_blob m blob ≡ throw e))
unfolding check_blob find_header
check_blob-cases m blob = Run-cases (check_blob m blob) (λ e. ground arith) (λ e. ground arith)

pub IsBlob-check_blob :
    (m : Mem) (blob : Buffer) (hdr : Ptr)
    → IsBlob m blob hdr
    → check_blob m blob ≡ ok (read_elf m hdr)
unfolding check_blob find_header is_whole
IsBlob-check_blob m blob hdr b = ground arith

-- Where the address or the blob is not one that `begin` takes, with at least 64 KiB and less than 2 ^ 64
-- bytes of memory, it throws before anything is stored, flushed or copied: only the interrupts have been
-- turned off.
pub begin-refused {ℓ} :
    {U : Type ℓ} (os : Os) (crc : Crc) (location : Ptr) (blob : Buffer)
    (func : Option (StorageFunc U)) (w : World U)
    → 0x10000 ≤ w.heap_max
    → w.heap_max < 2 ^ 64
    → ¬ (IsLocation os w location × ((hdr : Ptr) × IsBlob w.mem blob hdr))
    → (e : Error) × (begin os crc location blob func w ≡ (throw e, record w { interrupts = false }))
unfolding begin
begin-refused os crc location blob func w lo hi h =
    let w1 = record w { interrupts = false } in
    elim (check_location-cases os w1 location) [
      | inr (e, refused) ↦ (e, rw refused refl)
      | inl fine ↦ elim (check_blob-cases w.mem blob) [
        | inr (e, refused) ↦ (e, rw (fine, refused) refl)
        | inl (image, found) ↦
            let (hdr, b, _) = check_blob-IsBlob w.mem blob image found in
            let l = (check_location_iff os w1 location lo hi).0 fine in
            absurd (
              h (
                record {
                  not_null = l.not_null;
                  not_kernel = l.not_kernel;
                  not_heap = l.not_heap;
                  room = l.room;
                },
                (hdr, b),
              ))
      ]
    ]
