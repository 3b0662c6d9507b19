-- ===== src/Examples/Updates.antt =====
-- A live update of a small kernel, and its parts.
use live_update.Base.{
  ℕ, ◌+◌, ◌≤◌, ◌≡◌, ap, inl, inr, List, [], ◌∷◌, refl, arith, ◌==◌, if◌then◌else◌, some, false,
}
use live_update.Memory.{Ptr, Mem, get, load, number_of}
use live_update.Machine.{ok}
use live_update.World.{World, Buffer}
use live_update.Entry
use live_update.Storage.{get_crc}
use live_update.Storage.Items.{total, id_of}
use live_update.Resume.{ResumeFunc, dispatch, find, resume}
use live_update.Resume.Loop.{Step, Follows, deliver}
use live_update.Resume.Whole.{Resumed}
use live_update.Update.{StorageFunc, update_store_data}
use live_update.Update.Calls.{Call, run_calls}
use live_update.Update.Storing.{Stores, IsUpdateStored, update_store_data-IsUpdateStored}
use live_update.Update.RoundTrip.{run_calls-Stores}
use live_update.Update.Elf.Types.{read_ehdr32, read_phdr32}
use live_update.Update.Elf.{validate_header, read_elf, read_elf32, is_malformed, Image}
use live_update.Update.Begin.{begin}
use live_update.Update.Begin.Guards.{IsLocation, IsBlob}
use live_update.Update.Begin.Success.{IsSpared}
use live_update.Update.Begin.Handover.{begin-resume}
use live_update.Examples.{crc, place, os, world_of}
use live_update.Examples.Areas.{two_items, greeting-IsSized, marker-IsSized}

-- A 32-bit image at 0xb000: its section headers end at 200, its program header is at 64, and its 80
-- bytes at 100 belong at 0x1000.
abbrev pub blob_memory : Mem
blob_memory x =
    if x == 0xb000
    then 0x7f
    else if x == 0xb001
    then b'E'
    else if x == 0xb002
    then b'L'
    else if x == 0xb003
    then b'F'
    else if x == 0xb004
    then 1
    else if x == 0xb01a
    then 1
    else if x == 0xb01c
    then 64
    else if x == 0xb020
    then 200
    else if x == 0xb044
    then 100
    else if x == 0xb04d
    then 0x10
    else if x == 0xb050
    then 80
    else 0

abbrev pub blob : Buffer
blob = record { at = 0xb000; size = 200 }

abbrev pub image : Image
image = record {
  expected_total = 200;
  start_offset = 0x10000;
  bin_data = 0xb064;
  bin_len = 80;
  phys_base = 0x1000;
}

pub image-read : read_elf blob_memory 0xb000 ≡ image
unfolding read_elf read_elf32 read_ehdr32 read_phdr32 get load number_of
image-read = refl

pub blob-IsBlob : IsBlob blob_memory blob 0xb000
unfolding validate_header read_elf read_elf32 read_ehdr32 read_phdr32 get load number_of
blob-IsBlob = record { header = refl; place = inl refl; size = omega arith; minimum = omega arith }

abbrev pub old : World (List ℕ)
old = world_of blob_memory

-- The service stores a string and a marker.
abbrev pub calls : List Call
calls = Call.string 3 (b'h' ∷ b'i' ∷ []) ∷ Call.marker 9 ∷ []

abbrev pub callback : StorageFunc (List ℕ)
callback hdr buffer = run_calls hdr calls

pub callback-Stores :
    (w : World (List ℕ)) → Stores place 0xa000 (some callback) (some blob) w two_items
callback-Stores w =
    run_calls-Stores place 0xa000 calls (some blob) w (tt, (tt, tt))
      (greeting-IsSized, (marker-IsSized, tt)) (omega arith) (omega arith) (omega arith)

pub old-stored :
    IsUpdateStored crc place 0xa000
      (record old { interrupts = false })
      two_items
      (update_store_data crc place (some callback) (some blob) (record old { interrupts = false }))
old-stored =
    update_store_data-IsUpdateStored crc place (record old { interrupts = false }) (some callback)
      (some blob) two_items 0xa000 (callback-Stores (record old { interrupts = false }))
      (omega arith) (omega arith) (omega arith) (omega arith)

-- The world after the storing.
abbrev pub after : World (List ℕ)
after = record old { interrupts = false; mem = old-stored.mem }

pub old-done :
    update_store_data crc place (some callback) (some blob) (record old { interrupts = false })
    ≡ (ok (32 + total two_items), after)
old-done =
    let set : get_crc old-stored.mem place ≡ 1 = old-stored.area.sum in rw set at old-stored.returns

-- The new kernel's handler notes the entry's id, and leaves the step to the loop.
abbrev pub note_id : ResumeFunc (List ℕ)
note_id ptr w = (ok ptr, record w { user = Entry.id w.mem ptr ∷ w.user })

abbrev pub noting : Step (List ℕ)
noting i is u = (0, id_of i ∷ u)

pub note_id-Follows : (lo hi : Ptr) → Follows lo hi [] note_id noting
unfolding dispatch find
note_id-Follows lo hi = record {
  bound = λ i is u. omega arith;
  run = λ p i is w r a b. record {
    at = p;
    world = record w { user = Entry.id w.mem p ∷ w.user };
    returns = refl;
    moved = refl;
    user = ap (λ k. k ∷ w.user) r.chain.0.head.has_id;
    kept = λ x c d. refl;
  };
}

pub old-IsLocation : IsLocation os old place
old-IsLocation = record {
  not_null = omega arith;
  not_kernel = inr (omega arith);
  not_heap = inr (omega arith);
  room = omega arith;
}

pub any-IsSpared : (a : Ptr) (n : ℕ) → 0x8001 ≤ a → IsSpared os a n
any-IsSpared a n h = record {
  flush = λ m x b c. refl;
  reset = λ d k m x b c. refl;
  code = omega arith;
}

abbrev pub new_world : World (List ℕ)
new_world = world_of (begin os crc place blob (some callback) old).1.mem

begin-resume_example :
    Resumed crc place two_items
      (deliver noting 3 two_items [])
      (resume crc 3 [] note_id place new_world)
unfolding validate_header read_elf read_elf32 read_ehdr32 read_phdr32 get load number_of
    is_malformed
begin-resume_example =
    begin-resume os crc place 0xb000 0xa000 blob (some callback) two_items old after
      (32 + total two_items) new_world 3 [] note_id noting old-IsLocation (omega arith) blob-IsBlob
      (callback-Stores (record old { interrupts = false })) (greeting-IsSized, (marker-IsSized, tt))
      (omega arith) (omega arith) (omega arith) (omega arith) refl old-done refl
      (any-IsSpared 0xb064 80 (omega arith)) (inl (omega arith))
      (any-IsSpared place (32 + total two_items) (omega arith)) (omega arith) (λ x p q. refl)
      (omega arith) (note_id-Follows place (place + 20 + total two_items + 8)) (omega arith)
