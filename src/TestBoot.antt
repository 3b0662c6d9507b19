-- ===== src/TestBoot.antt =====
-- test_boot.cpp: a service that updates itself again and again, and measures how long each boot takes.
pub mod Resuming
pub mod Saving
pub mod Generation
pub mod Updating
pub mod Measuring
use mathlib.Core.List.{flatten}
use live_update.Base.{
  ℕ, ◌+◌, ◌-◌, ◌%◌, ◌/◌, ◌^◌, Bool, not, Option, none, some, List, [], ◌∷◌, ◌++◌, map, leb, ◌==◌,
  if◌then◌else◌, length as size_of, drop,
}
use live_update.Memory.{Ptr, Mem, load, store, get, put, bytes_of, number_of}
use live_update.Machine.{Run, ok, aborted, Cmd, and_then}
use live_update.World.{World, Buffer, Os}
use live_update.Hotswap.{Jump}
use live_update.Restore.Programs.{Program, Handler}
use live_update.Resume.Items.{run_handler}
use live_update.Update.{StorageFunc}
use live_update.Update.Calls.{Call, run_calls}
use live_update.LiveUpdate.{LiveUpdate}
use live_update.Service.{copy_buffer, liveupd_location, size_location, data_location}

-- The static variables: the timestamps (each an `int64_t`, by its bit pattern), the blob, and whether it has
-- been saved.
pub record BootTest : Type 0 where
  pub timestamps : List ℕ
  pub bloberino : Buffer
  pub is_saved : Bool

abbrev pub stamp_bytes : List ℕ → List (List ℕ)
stamp_bytes stamps = map (bytes_of 8) stamps

abbrev pub stamps_of : List (List ℕ) → List ℕ
stamps_of pieces = map number_of pieces

-- The calls of class Storage, with the place of the vector's elements.
abbrev pub boot_calls : Ptr → List ℕ → List Call
boot_calls elements stamps =
    Call.vector 0 elements (size_of stamps) 8 (flatten (stamp_bytes stamps)) ∷ Call.integer 1 1 ∷ []

-- The blob is kept for the kernels to come. A null pointer is dereferenced if there is none.
unfoldable pub keep_blob : Option Buffer → Cmd (World BootTest) (Unit {0})
keep_blob none w = (aborted, w)
keep_blob (some blob) w =
    let m = put w.mem size_location 8 blob.size in
    (ok tt, record w { mem = store m data_location (load m blob.at blob.size) })

-- `boot_save`, at `micros_since_boot`. The vector that `push_back` leaves stands on the heap.
unfoldable pub boot_save : Os → ℕ → StorageFunc BootTest
boot_save os micros_since_boot hdr blob w =
    let stamps = w.user.timestamps ++ micros_since_boot ∷ [] in
    let w1 = record w { user = record w.user { timestamps = stamps } } in
    and_then (copy_buffer os (flatten (stamp_bytes stamps)) w1) λ elements w2.
      and_then (run_calls hdr (boot_calls elements.at stamps) w2)
        λ _ w3. if w3.user.is_saved then (ok tt, w3) else keep_blob blob w3

-- `timestamps.back() = t2 - t1`, where there is one.
abbrev pub spent : ℕ → List ℕ → Option (List ℕ)
spent t2 [] = none
spent t2 (t1 ∷ []) = some ((t2 + 2 ^ 64 - t1) % 2 ^ 64 ∷ [])
spent t2 (t ∷ u ∷ ts) = elim (spent t2 (u ∷ ts)) [ none ↦ none | some us ↦ some (t ∷ us) ]

-- The end of the handler, with the timestamps that it has computed; `back()` of none is no value.
abbrev pub boot_resume_rest : BootTest → Option (List ℕ) → Program BootTest
boot_resume_rest s none = Program.abort
boot_resume_rest s (some stamps) =
    let s1 = record s { timestamps = stamps } in
    Program.set s1 (
      Program.as_int λ v.
        Program.set (record s1 { is_saved = not (v == 0) })
          (Program.go_next (Program.pop_marker λ id. Program.done)))

unfoldable pub boot_resume_all : ℕ → Handler BootTest
boot_resume_all t2 s = Program.as_vector 8 λ pieces.
    let stamps = stamps_of pieces in
    Program.set (record s { timestamps = stamps })
      (Program.go_next (boot_resume_rest (record s { timestamps = stamps }) (spent t2 stamps)))

-- What becomes of the service: it waits for an update, another kernel has been started, or the machine is
-- shut down and the sorted samples and their median are shown.
pub data BootFate : Type 0 where
  waiting : BootFate
  updating : Jump → BootFate
  shut_down : List ℕ → Option ℕ → BootFate

-- An element of a list.
abbrev pub nth : ℕ → List ℕ → Option ℕ
nth n xs = elim (drop n xs) [ [] ↦ none | x ∷ rest ↦ some x ]

-- The blob is taken from where it was kept, if there is none.
unfoldable pub take_blob : Os → Cmd (World BootTest) Buffer
take_blob os w =
    let kept = load w.mem data_location (get w.mem size_location 8) in
    if w.user.bloberino.size == 0
    then (and_then (copy_buffer os kept w)
        λ blob w1. (ok blob, record w1 { user = record w1.user { bloberino = blob } }))
    else (ok w.user.bloberino, w)

-- The samples are sorted and shown, with the one in the middle; `sorted` is `std::sort`.
unfoldable pub show_samples : (List ℕ → List ℕ) → Cmd (World BootTest) BootFate
show_samples sorted w =
    let samples = sorted w.user.timestamps in
    (
      ok (BootFate.shut_down samples (nth (size_of samples / 2) samples)),
      record w { user = record w.user { timestamps = samples } },
    )

-- The next update: `begin` takes a copy of the blob. `later` is the time when `boot_save` asks.
unfoldable pub next_update : Os → LiveUpdate BootTest → ℕ → Cmd (World BootTest) BootFate
next_update os liu later w = and_then (take_blob os w) λ blob w1.
    and_then (copy_buffer os (load w1.mem blob.at blob.size) w1) λ copy w2.
      and_then (liu.begin liveupd_location copy (some (boot_save os later)) w2)
        λ jump w3. (ok (BootFate.updating jump), w3)

-- `begin_test_boot`. `now` is the time when the resume handler asks.
unfoldable pub run_test_boot :
    Os → LiveUpdate BootTest → ℕ → (List ℕ → List ℕ) → Bool → Cmd (World BootTest) BootFate
run_test_boot os liu later sorted resumed w =
    let over = leb 30 (size_of w.user.timestamps) in
    if resumed
    then (if over then show_samples sorted w else next_update os liu later w)
    else (ok BootFate.waiting, w)

unfoldable pub begin_test_boot :
    Os → LiveUpdate BootTest → ℕ → ℕ → ℕ → (List ℕ → List ℕ) → Cmd (World BootTest) BootFate
begin_test_boot os liu fuel now later sorted w =
    and_then (liu.resume [] liveupd_location (run_handler fuel (boot_resume_all now)) w)
      λ resumed w1. run_test_boot os liu later sorted resumed w1
