-- ===== src/Update/RoundTrip.antt =====
-- What `store` stores, `resume` delivers.
use mathlib.Core.Path.{subst}
use live_update.Base.{ℕ, ◌+◌, ◌^◌, ◌≤◌, ◌<◌, ◌≡◌, true, Option, some, List, [], arith, length, All}
use live_update.Memory.{Ptr}
use live_update.Machine.{ok}
use live_update.World.{World, Buffer}
use live_update.Entry.{Crc}
use live_update.Storage
use live_update.Storage.{get_crc, total_bytes, validate, finalize, liveupd_magic}
use live_update.Storage.Items.{Item, total, IsSized}
use live_update.Storage.Seal.{construct-IsArea}
use live_update.Resume.{ResumeFunc, ResumeFuncs, resume}
use live_update.Resume.Loop.{Step, deliver, Follows}
use live_update.Resume.Whole.{Resumed, resume-Resumed}
use live_update.Update.{StorageFunc, call_back, update_store_data}
use live_update.Update.Calls.{Call, items_of, AllReady, run_calls, run_calls-Stored, AllReady-kept}
use live_update.Update.Storing.{construct-outside, Stores, update-IsSealed}

-- What `update_store_data` stores, `resume` delivers. A callback appends sized items with the sanity
-- checks on, the area ends within the memory and below 2 ^ 64, and the storing returns a length. Then in
-- any world that agrees on that many bytes, whose heap ends below the area, whose handlers follow a step
-- function, and whose fuel exceeds the number of items, `resume` returns true, every item that no handler
-- has passed is delivered, in order, and the area is cleared.
pub update-resume {ℓ κ} :
    {U : Type ℓ} {V : Type κ} (crc : Crc) (sh hi : Ptr) (is : List Item) (w w1 : World U)
    (func : Option (StorageFunc U)) (blob : Option Buffer) (n : ℕ) (v : World V) (rounds : ℕ)
    (funcs : ResumeFuncs V) (default : ResumeFunc V) (step : Step V)
    → Stores sh hi func blob w is
    → All IsSized is
    → length is + 1 < 2 ^ 32
    → total is + 8 < 2 ^ 32
    → sh + 20 + total is + 8 ≤ w.heap_max
    → sh + 20 + total is + 10 ≤ hi
    → sh + 20 + total is + 8 < 2 ^ 64
    → w.sanity_checks ≡ true
    → update_store_data crc sh func blob w ≡ (ok n, w1)
    → ((x : Ptr) → sh ≤ x → x < sh + n → v.mem x ≡ w1.mem x)
    → v.heap_end < sh
    → Follows sh (sh + 20 + total is + 8) funcs default step
    → length is < rounds
    → Resumed crc sh is (deliver step rounds is v.user) (resume crc rounds funcs default sh v)
update-resume crc sh hi is w w1 func blob n v rounds funcs default step st sized count bytes fits
      room wrap on done kept above follows enough =
    let (sealed, set) =
      update-IsSealed crc sh hi is w w1 func blob n v.mem st count bytes fits room on done kept in
    resume-Resumed crc rounds funcs default sh v is step above sealed set sized wrap follows enough

-- A callback that is a sequence of calls of class Storage stores exactly their items: if each call's
-- source stands outside the area, every item is sized, and counts, lengths and the end mark fit, it
-- returns on a fresh header with an area of the items in order, and has written nowhere outside the area.
pub run_calls-Stores {ℓ} :
    {U : Type ℓ} (sh hi : Ptr) (cs : List Call) (blob : Option Buffer) (w : World U)
    → AllReady w.mem sh hi (sh + 20) cs
    → All IsSized (items_of cs)
    → length cs < 2 ^ 32
    → total (items_of cs) < 2 ^ 32
    → sh + 20 + total (items_of cs) + 2 ≤ hi
    → Stores sh hi (some (λ hdr _. run_calls hdr cs)) blob w (items_of cs)
unfolding call_back
run_calls-Stores sh hi cs blob w ready sized count bytes fits =
    let m1 = Storage.construct sh w.mem in
    let kept =
      AllReady-kept {m = w.mem} {m' = m1} sh hi (sh + 20) (omega arith)
        (λ x a. construct-outside sh w.mem x (omega arith)) (sh + 20) cs (omega arith) ready in
    let start : sh + 20 ≡ sh + 20 + 0 = omega arith in
    run_calls-Stored cs (record w { mem = m1 }) sh hi [] (construct-IsArea sh w.mem)
      (subst (λ p. AllReady m1 sh hi p cs) start kept) sized (omega arith) (omega arith)
      (omega arith)
