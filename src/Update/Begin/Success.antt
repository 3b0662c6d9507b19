-- ===== src/Update/Begin/Success.antt =====
-- When `begin` starts the new kernel, and what that kernel finds in the memory.
use live_update.Base.{
  ℕ, ◌+◌, ◌%◌, ◌^◌, ◌≤◌, ◌<◌, ◌≡◌, refl, ◌⊎◌, ◌∙◌, false, Option, some, length, arith,
}
use live_update.Memory.{Ptr, Mem, load, store}
use live_update.Memory.Laws.{Apart, store-outside, load-cong}
use live_update.Machine.{Run, ok}
use live_update.World.{World, Buffer, Os}
use live_update.Entry.{Crc}
use live_update.Hotswap.{Jump, hotswap64, soft_reset_magic, copy_forward}
use live_update.Hotswap.Copy.{load-copy_forward, copy_forward-outside}
use live_update.Update.{StorageFunc, update_store_data}
use live_update.Update.Elf.{Image, read_elf, is_malformed}
use live_update.Update.Begin.{begin, replace, hotswap_area}
use live_update.Update.Begin.Guards.{IsLocation, IsBlob, check_location_iff, IsBlob-check_blob}

-- The `n` bytes at `a` are spared by the devices' flush, by the storing of the soft-reset data, and by
-- the code of `hotswap64`.
pub record IsSpared (os : Os) (a : Ptr) (n : ℕ) : Type 0 where
  pub flush : (m : Mem) (x : Ptr) → a ≤ x → x < a + n → os.flush_all m x ≡ m x
  pub reset :
      (blob : Ptr) (len : ℕ) (m : Mem) (x : Ptr)
      → a ≤ x
      → x < a + n
      → (os.store_soft_reset blob len m).1 x ≡ m x
  pub code : Apart hotswap_area (length os.hotswap64) a n

module _ {ℓ} {U : Type ℓ} (os : Os) (image : Image) (w : World U) where
  -- The memory in which `hotswap64` starts to copy.
  abbrev before_copy : Mem
  before_copy =
      store (os.store_soft_reset w.rollback_data w.rollback_len (os.flush_all w.mem)).1 hotswap_area
        os.hotswap64

  before_copy-kept :
      {a : Ptr} {n : ℕ} → IsSpared os a n → (x : Ptr) → a ≤ x → x < a + n → before_copy x ≡ w.mem x
  before_copy-kept {a} {n} s x lo hi =
      store-outside _ hotswap_area os.hotswap64 x (omega (arith, s.code))
      ∙ s.reset w.rollback_data w.rollback_len (os.flush_all w.mem) x lo hi
      ∙ s.flush w.mem x lo hi

  -- The new kernel runs: it is entered at its start address with the magic of a soft reset, its image is
  -- in place, and the `n` bytes at `a` are as they were.
  pub record Started (a : Ptr) (n : ℕ) (r : Run Jump × World U) : Type ℓ where
    pub jump : Jump
    pub world : World U
    pub returns : r ≡ (ok jump, world)
    pub entry : jump.entry ≡ image.start_offset % 2 ^ 32
    pub magic : jump.magic ≡ soft_reset_magic
    pub placed :
        load world.mem image.phys_base image.bin_len ≡ load w.mem image.bin_data image.bin_len
    pub kept : (x : Ptr) → a ≤ x → x < a + n → world.mem x ≡ w.mem x

  replace-Started :
      (a : Ptr) (n : ℕ)
      → is_malformed image ≡ false
      → IsSpared os image.bin_data image.bin_len
      → (image.phys_base ≤ image.bin_data) ⊎ (image.bin_data + image.bin_len ≤ image.phys_base)
      → IsSpared os a n
      → Apart image.phys_base image.bin_len a n
      → Started a n (replace os image w)
  unfolding replace hotswap64
  replace-Started a n sound source forward area apart =
      let m = copy_forward image.bin_len image.bin_data image.phys_base before_copy in
      let reset_data =
        (os.store_soft_reset w.rollback_data w.rollback_len (os.flush_all w.mem)).0 in
      record {
        jump = record {
          entry = image.start_offset % 2 ^ 32;
          magic = soft_reset_magic;
          reset_data = reset_data % 2 ^ 32;
        };
        world = record w { mem = m; flushes = w.flushes + 1 };
        returns = rw sound refl;
        entry = refl;
        magic = refl;
        placed =
            load-copy_forward image.bin_len image.bin_data image.phys_base before_copy forward
            ∙ load-cong w.mem before_copy image.bin_data image.bin_len (before_copy-kept source);
        kept = λ x lo hi.
            copy_forward-outside image.bin_len image.bin_data image.phys_base before_copy x
              (omega (arith, apart))
            ∙ before_copy-kept area x lo hi;
      }

-- `begin` at an address and with a blob that it takes, whose program header is sound, whose storing
-- succeeds, and whose image and area are spared and lie apart: the new kernel is entered at its start
-- address with the magic of a soft reset, its image's bytes are in place, and the area is as the storing
-- left it.
pub begin-Started {ℓ} :
    {U : Type ℓ} (os : Os) (crc : Crc) (location hdr : Ptr) (blob : Buffer)
    (func : Option (StorageFunc U)) (w w4 : World U) (n : ℕ)
    → 0x10000 ≤ w.heap_max
    → w.heap_max < 2 ^ 64
    → IsLocation os w location
    → IsBlob w.mem blob hdr
    → update_store_data crc location func (some blob) (record w { interrupts = false }) ≡ (ok n, w4)
    → let image = read_elf w.mem hdr in
      is_malformed image ≡ false
      → IsSpared os image.bin_data image.bin_len
      → (image.phys_base ≤ image.bin_data) ⊎ (image.bin_data + image.bin_len ≤ image.phys_base)
      → IsSpared os location n
      → Apart image.phys_base image.bin_len location n
      → Started os image w4 location n (begin os crc location blob func w)
unfolding begin
begin-Started os crc location hdr blob func w w4 n lo hi l b stored sound source forward area
      apart =
    let w1 = record w { interrupts = false } in
    let here : IsLocation os w1 location = record {
      not_null = l.not_null;
      not_kernel = l.not_kernel;
      not_heap = l.not_heap;
      room = l.room;
    } in
    let fine = (check_location_iff os w1 location lo hi).1 here in
    rw (fine, IsBlob-check_blob w.mem blob hdr b, stored)
      (replace-Started os (read_elf w.mem hdr) w4 location n sound source forward area apart)
