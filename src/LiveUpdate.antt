-- ===== src/LiveUpdate.antt =====
-- struct LiveUpdate of liveupdate.hpp: the library's interface, with the laws that a service relies on.
pub mod Instance
use live_update.Base.{ℕ, ◌≡◌, ◌⊎◌, true, false, Bool, Option}
use live_update.Memory.{Ptr}
use live_update.Machine.{ok, Cmd}
use live_update.World.{World, Buffer}
use live_update.Hotswap.{Jump}
use live_update.Resume.{ResumeFunc, ResumeFuncs}
use live_update.Rollback.{Fate, started, rebooted}
use live_update.Update.{StorageFunc}

-- The static member functions. The registry that `on_resume` changes is passed to `resume`.
pub record LiveUpdate {ℓ} (U : Type ℓ) : Type ℓ where
  pub begin : Ptr → Buffer → Option (StorageFunc U) → Cmd (World U) Jump
  pub restore_environment : World U → World U
  pub store : Ptr → Option (StorageFunc U) → Cmd (World U) ℕ
  pub is_resumable : Ptr → World U → Bool × World U
  pub on_resume : ℕ → ResumeFunc U → ResumeFuncs U → ResumeFuncs U
  pub resume : ResumeFuncs U → Ptr → ResumeFunc U → Cmd (World U) Bool
  pub resume_from_heap : ResumeFuncs U → Ptr → ResumeFunc U → Cmd (World U) Bool
  pub stored_data_length : Ptr → Cmd (World U) ℕ
  pub set_rollback_blob : Ptr → ℕ → World U → World U
  pub has_rollback_blob : World U → Bool
  pub rollback_now : Cmd (World U) Fate

-- `restore_environment` turns the interrupts on; and an area is not resumable again once it has been
-- resumed.
pub record Laws {ℓ} {U : Type ℓ} (liu : LiveUpdate U) : Type ℓ where
  pub restored : (w : World U) → (liu.restore_environment w).interrupts ≡ true
  pub resumed_once :
      (funcs : ResumeFuncs U) (func : ResumeFunc U) (location : Ptr) (w w1 : World U)
      → liu.resume funcs location func w ≡ (ok true, w1)
      → liu.is_resumable location w1 ≡ (false, w1)
