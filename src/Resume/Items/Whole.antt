-- ===== src/Resume/Items/Whole.antt =====
-- `resume` of a sealed area with handlers that are programs.
use live_update.Base.{
  ℕ, ◌+◌, ◌^◌, ◌<◌, ◌≡◌, ◌≢◌, refl, sym, ◌∙◌, Bool, false, List, arith, leb, length, All,
}
use live_update.Memory.{Ptr}
use live_update.Machine.{Error, Run, ok, throw, aborted, starved}
use live_update.World.{World}
use live_update.Entry.{Crc}
use live_update.Storage
use live_update.Storage.{get_crc}
use live_update.Storage.Items.{Item, total, IsSized}
use live_update.Storage.Checksum.{IsSealed}
use live_update.Storage.Validate.{validate-IsSealed}
use live_update.Restore.Programs.{Handler}
use live_update.Resume.{resume, resume_helper, resume_begin, resume_loop, is_resumable}
use live_update.Resume.Whole.{Resumed, IsComplete-IsRest, resume_begin-ended}
use live_update.Resume.Items.{run_handler, run_handlers, resume_items}
use live_update.Resume.Items.Refine.{SameOutcome, resume_loop-SameOutcome}

-- A handler's exception has left the loop: it leaves `resume` too, with the area still sealed, so that it can
-- be resumed again.
pub record Interrupted {ℓ} {U : Type ℓ} (crc : Crc) (sh : Ptr) (is : List Item) (e : Error) (u : U)
    (r : Run Bool × World U) : Type ℓ where
  pub world : World U
  pub returns : r ≡ (throw e, world)
  pub user : world.user ≡ u
  pub area : IsSealed crc world.mem sh is
  pub sum : get_crc world.mem sh ≢ 0

-- What the outcome of the loop on the items makes of `resume`.
abbrev pub ResumeOutcome {ℓ} :
    {U : Type ℓ} → Crc → Ptr → List Item → Run Bool × World U → Run (Unit {0}) × U → Type ℓ
ResumeOutcome crc sh is r (ok tt, u) = Resumed crc sh is u r
ResumeOutcome crc sh is r (throw e, u) = Interrupted crc sh is e u r
ResumeOutcome crc sh is r (aborted, u) = (w : World _) × (r ≡ (aborted, w)) × (w.user ≡ u)
ResumeOutcome crc sh is r (starved, u) = Unit

module _ {ℓ} {U : Type ℓ} (crc : Crc) (rounds fuel : ℕ) (handlers : List (ℕ × Handler U))
    (default : Handler U) (sh : Ptr) where
  begin_outcome :
      (w : World U) (is : List Item)
      → IsSealed crc w.mem sh is
      → get_crc w.mem sh ≢ 0
      → (s : Run (Unit {0}) × U)
      → SameOutcome w
          (resume_loop rounds (run_handlers fuel handlers) (run_handler fuel default) (sh + 20) w)
          s
      → ResumeOutcome crc sh is
          (resume_begin rounds (run_handlers fuel handlers) (run_handler fuel default) sh w)
          s
  unfolding resume_begin Storage.begin
  begin_outcome w is sealed set (ok tt, u) e =
      resume_begin-ended crc rounds (run_handlers fuel handlers) (run_handler fuel default) sh w is
        u sealed.complete
        record { world = record w { user = u }; returns = e; user = refl; kept = λ x a b. refl }
  begin_outcome w is sealed set (throw x, u) e = record {
    world = record w { user = u };
    returns = rw e refl;
    user = refl;
    area = sealed;
    sum = set;
  }
  begin_outcome w is sealed set (aborted, u) e = (record w { user = u }, rw e refl, refl)
  begin_outcome w is sealed set (starved, u) e = tt

  -- `resume` of a sealed area with a checksum that is not 0, above the heap and below 2 ^ 64, with sized
  -- items, handlers that are programs of calls of class Restore, and more fuel than items for the loop and
  -- for the handlers' own loops, does what the loop on the list of items does: if that ends, `resume`
  -- returns true with the same state of the service, and the area is cleared and not valid any more; if a
  -- handler throws, `resume` throws the same with the same state, and the area is still sealed; if one
  -- aborts, so does `resume`. (What a program does is left open where it reads an integer as an object, a
  -- vector or a vector of strings whose bytes are not those of one.)
  pub resume-ResumeOutcome :
      (w : World U) (is : List Item)
      → w.heap_end < sh
      → IsSealed crc w.mem sh is
      → get_crc w.mem sh ≢ 0
      → All IsSized is
      → sh + 20 + total is + 8 < 2 ^ 64
      → length is < rounds
      → length is < fuel
      → ResumeOutcome crc sh is
          (resume crc rounds (run_handlers fuel handlers) (run_handler fuel default) sh w)
          (resume_items rounds handlers default is w.user)
  unfolding resume resume_helper is_resumable
  resume-ResumeOutcome w is above s ne sized fits enough enough' =
      let (m1, valid, s1, kept, same) = validate-IsSealed crc w.mem sh s ne in
      let above' : leb sh w.heap_end ≡ false = ground arith in
      let w1 = record w { mem = m1 } in
      rw (above', valid)
        (begin_outcome w1 is s1 (λ z. ne (sym kept ∙ z))
          (resume_items rounds handlers default is w.user)
          (resume_loop-SameOutcome fuel handlers default rounds (sh + 20) is w1
            (IsComplete-IsRest s1.complete sized fits) enough' enough))
