-- ===== src/LiveUpdate/Instance.antt =====
-- The library's functions as an instance of the interface.
use mathlib.Core.Path.{subst}
use live_update.Base.{ℕ, ◌≡◌, refl, ap, inl, inr, true, false, Bool-cases, leb}
use live_update.Memory.{Ptr, Mem}
use live_update.Machine.{Run, ok, throw, aborted, starved, and_then}
use live_update.World.{World, Os}
use live_update.Entry.{Crc}
use live_update.Storage
use live_update.Storage.{validate, zero_area}
use live_update.Storage.Validate.{zero_area_lem}
use live_update.Resume.{
  ResumeFunc, ResumeFuncs, on_resume, resume, resume_helper, resume_begin, resume_loop,
  resume_from_heap, is_resumable, wakeup_ip_networks,
}
use live_update.Rollback.{set_rollback_blob, has_rollback_blob, rollback_now}
use live_update.Update
use live_update.Update.{stored_data_length}
use live_update.Update.Begin
use live_update.Update.Begin.{restore_environment}
use live_update.LiveUpdate.{LiveUpdate, Laws}

module _ {ℓ} {U : Type ℓ} (os : Os) (crc : Crc) (rounds : ℕ) where
  abbrev pub live_updates : LiveUpdate U
  live_updates = record {
    begin = Begin.begin os crc;
    restore_environment = restore_environment;
    store = Update.store crc;
    is_resumable = is_resumable crc;
    on_resume = on_resume;
    resume = λ funcs location func. resume crc rounds funcs func location;
    resume_from_heap = λ funcs location func. resume_from_heap crc rounds funcs func location;
    stored_data_length = stored_data_length crc;
    set_rollback_blob = set_rollback_blob;
    has_rollback_blob = has_rollback_blob;
    rollback_now = rollback_now os crc;
  }

  zeroed_once :
      (sh : Ptr) (m : Mem) (w w1 : World U)
      → (and_then ((zero_area sh m).0, record w { mem = (zero_area sh m).1 }) λ _ w3. (ok true, w3))
        ≡ (ok true, w1)
      → is_resumable crc sh w1 ≡ (false, w1)
  unfolding is_resumable
  zeroed_once sh m w w1 e =
      let (ended, cleared, same, gone) = zero_area_lem crc m sh in
      let v = record w { mem = (zero_area sh m).1 } in
      let done : (ok true, v) ≡ (ok true, w1) = rw ended at e in
      subst (λ x. is_resumable crc sh x ≡ (false, x)) (ap (λ r. r.1) done) (rw gone refl)

  begun_once :
      (sh : Ptr) (w1 : World U) (r : Run (Unit {0}) × World U)
      → (and_then r λ _ w1.
          let w2 = wakeup_ip_networks w1 in
          let (r, m) = zero_area sh w2.mem in
          and_then (r, record w2 { mem = m }) λ _ w3. (ok true, w3))
        ≡ (ok true, w1)
      → is_resumable crc sh w1 ≡ (false, w1)
  begun_once sh w1 (ok tt, v) e =
      zeroed_once sh (wakeup_ip_networks v).mem (wakeup_ip_networks v) w1 e
  begun_once sh w1 (throw x, v) e = absurd cc
  begun_once sh w1 (aborted, v) e = absurd cc
  begun_once sh w1 (starved, v) e = absurd cc

  -- Whatever the handlers do and whatever the memory holds: where `resume` returns true, the area is not
  -- resumable again, and asking leaves the world as it is.
  pub is_resumable-resume :
      (funcs : ResumeFuncs U) (func : ResumeFunc U) (location : Ptr) (w w1 : World U)
      → resume crc rounds funcs func location w ≡ (ok true, w1)
      → is_resumable crc location w1 ≡ (false, w1)
  unfolding resume resume_helper resume_begin
  is_resumable-resume funcs func location w w1 e =
      let v = (is_resumable crc location w).1 in
      elim (Bool-cases (leb location w.heap_end)) [
        | inl below ↦ let refused : (ok false, w) ≡ (ok true, w1) = rw below at e in absurd cc
        | inr above ↦ elim (Bool-cases (is_resumable crc location w).0) [
          | inl valid ↦
              begun_once location w1 (resume_loop rounds funcs func (Storage.begin location) v)
                (rw (above, valid) at e)
          | inr bad ↦
              let refused : (ok false, v) ≡ (ok true, w1) = rw (above, bad) at e in absurd cc
        ]
      ]

  pub live_updates-Laws : Laws live_updates
  unfolding restore_environment
  live_updates-Laws = record { restored = λ w. refl; resumed_once = is_resumable-resume }
