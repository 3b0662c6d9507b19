-- ===== src/Update/Begin/Handover.antt =====
-- From `begin` in the old kernel to `resume` in the new one.
use live_update.Base.{
  ℕ, ◌+◌, ◌^◌, ◌≤◌, ◌<◌, ◌≡◌, ◌⊎◌, ◌∙◌, ap, true, false, Option, some, List, length, arith, All,
}
use live_update.Memory.{Ptr}
use live_update.Memory.Laws.{Apart}
use live_update.Machine.{ok}
use live_update.World.{World, Buffer, Os}
use live_update.Entry.{Crc}
use live_update.Storage.Items.{Item, total, IsSized}
use live_update.Resume.{ResumeFuncs, ResumeFunc, resume}
use live_update.Resume.Loop.{Step, deliver, Follows}
use live_update.Resume.Whole.{Resumed}
use live_update.Update.{StorageFunc, update_store_data}
use live_update.Update.Storing.{Stores}
use live_update.Update.RoundTrip.{update-resume}
use live_update.Update.Elf.{read_elf, is_malformed}
use live_update.Update.Begin.{begin}
use live_update.Update.Begin.Guards.{IsLocation, IsBlob}
use live_update.Update.Begin.Success.{IsSpared, begin-Started}

-- A live update as a whole. `begin` is given an address and a blob that it takes, the callback appends
-- sized items with the sanity checks on, the area ends within the memory, the storing succeeds, the
-- program header is sound, the new image's source is spared by the flush, the soft-reset data and the code
-- of `hotswap64`, its destination does not begin inside the source behind its first byte, and these and
-- the destination lie apart from the area. Then a new kernel that finds the area's bytes as `begin` left
-- them, whose heap ends below it, whose handlers follow a step function, and whose fuel exceeds the number
-- of items, resumes: every item that no handler has passed is delivered, in order, and the area is
-- cleared.
pub begin-resume {ℓ κ} :
    {U : Type ℓ} {V : Type κ} (os : Os) (crc : Crc) (location hdr hi : Ptr) (blob : Buffer)
    (func : Option (StorageFunc U)) (is : List Item) (w w4 : World U) (n : ℕ) (v : World V)
    (rounds : ℕ) (funcs : ResumeFuncs V) (default : ResumeFunc V) (step : Step V)
    → IsLocation os w location
    → w.heap_max < 2 ^ 64
    → IsBlob w.mem blob hdr
    → Stores location hi func (some blob) (record w { interrupts = false }) is
    → All IsSized is
    → length is + 1 < 2 ^ 32
    → total is + 8 < 2 ^ 32
    → location + 20 + total is + 8 ≤ w.heap_max
    → location + 20 + total is + 10 ≤ hi
    → w.sanity_checks ≡ true
    → update_store_data crc location func (some blob) (record w { interrupts = false }) ≡ (ok n, w4)
    → let image = read_elf w.mem hdr in
      is_malformed image ≡ false
      → IsSpared os image.bin_data image.bin_len
      → (image.phys_base ≤ image.bin_data) ⊎ (image.bin_data + image.bin_len ≤ image.phys_base)
      → IsSpared os location n
      → Apart image.phys_base image.bin_len location n
      → ((x : Ptr)
          → location ≤ x
          → x < location + n
          → v.mem x ≡ (begin os crc location blob func w).1.mem x)
      → v.heap_end < location
      → Follows location (location + 20 + total is + 8) funcs default step
      → length is < rounds
      → Resumed crc location is
          (deliver step rounds is v.user)
          (resume crc rounds funcs default location v)
begin-resume os crc location hdr hi blob func is w w4 n v rounds funcs default step l top b stores
      sized count bytes fits room on stored sound source forward area apart found above follows
      enough =
    let r =
      begin-Started os crc location hdr blob func w w4 n (omega (arith, l.room)) top l b stored
        sound source forward area apart in
    let now : (begin os crc location blob func w).1.mem ≡ r.world.mem =
      ap (λ r. r.1.mem) r.returns in
    update-resume crc location hi is (record w { interrupts = false }) w4 func (some blob) n v
      rounds funcs default step stores sized count bytes fits room (omega arith) on stored
      (λ x p q. found x p q ∙ ap (λ m. m x) now ∙ r.kept x p q) above follows enough
