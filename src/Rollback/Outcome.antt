-- ===== src/Rollback/Outcome.antt =====
-- How a rollback ends.
use mathlib.Core.Path.{subst}
use live_update.Base.{
  ℕ, ◌<◌, ◌≡◌, ◌≢◌, ◌↔◌, refl, ◌⊎◌, inl, inr, true, false, Option, none, some, arith, Bool-cases,
  ◌==◌,
}
use live_update.Memory.{Ptr, Mem, load, store, offset}
use live_update.Memory.Laws.{length-load, load-store_self}
use live_update.Machine.{Error, Run, ok, throw, aborted, starved, and_then, Run-cases}
use live_update.World.{World, Buffer, Os}
use live_update.Entry.{Crc}
use live_update.Hotswap.{Jump}
use live_update.Storage
use live_update.Storage.{finalize, add_end, get_magic, liveupd_magic}
use live_update.Update.{update_store_data, call_back, stored_data_length}
use live_update.Update.Elf.{Image}
use live_update.Update.Begin.{begin, replace, check_location, check_blob}
use live_update.Update.Begin.Guards.{check_location-cases, check_blob-cases}
use live_update.Rollback.{
  started, rebooted, rollback_now, or_reboot, try_rollback, copy_blob, has_rollback_blob,
  softreset_service_handler, get_rollback_location,
}

-- An outcome that C++ code without assertions and loops has.
abbrev pub Ends {ℓ} : {A : Type ℓ} → Run A → Type ℓ
Ends {A = A} r = ((a : A) × (r ≡ ok a)) ⊎ ((e : Error) × (r ≡ throw e))

and_then-Ends {ℓ κ ι} :
    {S : Type ℓ} {A : Type κ} {B : Type ι} (r : Run A × S) (k : A → S → Run B × S)
    → Ends r.0
    → ((a : A) (s : S) → Ends (k a s).0)
    → Ends (and_then r k).0
and_then-Ends (ok a, s) k h f = f a s
and_then-Ends (throw e, s) k h f = inr (e, refl)
and_then-Ends (aborted, s) k h f = elim h [ inl (a, e) ↦ absurd cc | inr (a, e) ↦ absurd cc ]
and_then-Ends (starved, s) k h f = elim h [ inl (a, e) ↦ absurd cc | inr (a, e) ↦ absurd cc ]

add_end-Ends : (heap_max : ℕ) (sh : Ptr) (m : Mem) → Ends (add_end heap_max sh m).0
unfolding add_end
add_end-Ends heap_max sh m =
    Run-cases (add_end heap_max sh m).0 (λ e. ground arith) (λ e. ground arith)

finalize-Ends :
    (crc : Crc) (heap_max : ℕ) (sh : Ptr) (m : Mem) → Ends (finalize crc heap_max sh m).0
unfolding finalize
finalize-Ends crc heap_max sh m = elim (Bool-cases (get_magic m sh == liveupd_magic)) [
  | inl good ↦
      rw good (
        and_then-Ends (add_end heap_max sh m) _ (add_end-Ends heap_max sh m)
          (λ _ m1. inl (_, refl)))
  | inr bad ↦ rw bad (inr (_, refl))
]

module _ {ℓ} {U : Type ℓ} (crc : Crc) where
  stored_data_length-Ends : (sh : Ptr) (w : World U) → Ends (stored_data_length crc sh w).0
  unfolding stored_data_length
  stored_data_length-Ends sh w =
      Run-cases (stored_data_length crc sh w).0 (λ e. ground arith) (λ e. ground arith)

  update_store_data-Ends :
      (sh : Ptr) (blob : Option Buffer) (w : World U)
      → Ends (update_store_data crc sh none blob w).0
  unfolding update_store_data call_back
  update_store_data-Ends sh blob w =
      let m = Storage.construct sh w.mem in
      let (r, m1) = finalize crc w.heap_max sh m in
      and_then-Ends (r, record w { mem = m1 }) _ (finalize-Ends crc w.heap_max sh m)
        (λ _ w3. stored_data_length-Ends sh w3)

  replace-Ends : (os : Os) (image : Image) (w : World U) → Ends (replace os image w).0
  unfolding replace
  replace-Ends os image w = Run-cases (replace os image w).0 (λ e. ground arith) (λ e. ground arith)

  pub begin-Ends :
      (os : Os) (location : Ptr) (blob : Buffer) (w : World U)
      → Ends (begin os crc location blob none w).0
  unfolding begin
  begin-Ends os location blob w =
      let w1 = record w { interrupts = false } in
      and_then-Ends (check_location os w1 location, w1) _
        (elim (check_location-cases os w1 location) [ inl e ↦ inl (tt, e) | inr e ↦ inr e ])
        (λ _ w2.
          and_then-Ends (check_blob w2.mem blob, w2) _ (check_blob-cases w2.mem blob)
            (λ image w3.
              and_then-Ends (update_store_data crc location none (some blob) w3) _
                (update_store_data-Ends location (some blob) w3)
                (λ _ w4. replace-Ends os image w4)))

  try_rollback-Ends : (os : Os) (w : World U) → Ends (try_rollback os crc w).0
  unfolding try_rollback copy_blob
  try_rollback-Ends os w =
      and_then-Ends (copy_blob os w) _
        (Run-cases (copy_blob os w).0 (λ e. ground arith) (λ e. ground arith))
        (λ vec w1. begin-Ends os (offset w1.heap_end 0x4000) vec w1)

  -- `rollback_now` always ends, either in a new kernel or in a reboot; the former only if there is a blob,
  -- and a reboot without one has changed nothing.
  pub rollback_now-ends :
      (os : Os) (w : World U)
      → ((jump : Jump) × ((rollback_now os crc w).0 ≡ ok (started jump))
          × (has_rollback_blob w ≡ true))
        ⊎ (((rollback_now os crc w).0 ≡ ok rebooted)
            × ((has_rollback_blob w ≡ true) ⊎ ((rollback_now os crc w).1 ≡ w)))
  unfolding rollback_now or_reboot
  rollback_now-ends os w = elim (Bool-cases (has_rollback_blob w)) [
    | inl is ↦ elim (try_rollback-Ends os w) [
      | inl (jump, e) ↦ inl (jump, ground arith, is)
      | inr (x, e) ↦ inr (ground arith, inl is)
    ]
    | inr not ↦ inr (rw not refl, inr (rw not refl))
  ]

-- After the service handler of a soft reset, whose allocation succeeds at an address other than 0, the
-- rollback location holds a copy of the blob that was handed over, the panic handler is registered, and
-- the blob counts as one exactly if it has more than 164 bytes.
pub softreset_service_handler_lem {ℓ} :
    {U : Type ℓ} (os : Os) (opaque at heap_end : Ptr) (n : ℕ) (w : World U)
    → os.allocate n w.heap_end ≡ some (at, heap_end)
    → at ≢ 0
    → let w1 = (softreset_service_handler os opaque n w).1 in
      let (data_at, len) = get_rollback_location w1 in
      ((softreset_service_handler os opaque n w).0 ≡ ok tt)
      × (load w1.mem data_at len ≡ load w.mem opaque n)
      × (len ≡ n)
      × (w1.on_panic ≡ true)
      × ((has_rollback_blob w1 ≡ true) ↔ (164 < n))
unfolding softreset_service_handler get_rollback_location has_rollback_blob
softreset_service_handler_lem os opaque at heap_end n w h ne =
    let bs = load w.mem opaque n in
    let copied : load (store w.mem at bs) at n ≡ bs =
      subst (λ k. load (store w.mem at bs) at k ≡ bs) (length-load w.mem opaque n)
        (load-store_self w.mem at bs) in
    rw (softreset_service_handler, h)
      (refl, copied, refl, refl, (λ e. ground arith, λ e. ground arith))
