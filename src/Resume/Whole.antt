-- ===== src/Resume/Whole.antt =====
-- `resume`: when it refuses, and what it does with an area that `finalize` has sealed.
use live_update.Base.{
  ℕ, ◌+◌, ◌^◌, ◌≤◌, ◌<◌, ◌≡◌, ◌≢◌, refl, ◌⊎◌, inl, inr, Bool-cases, ap, Bool, true, false, List,
  ◌++◌, arith, length, leb, All,
}
use live_update.Memory.{Ptr, Mem, IsBytes}
use live_update.Machine.{Run, ok}
use live_update.World.{World}
use live_update.Entry.{Crc}
use live_update.Storage
use live_update.Storage.{validate, zero_area, get_crc, get_length}
use live_update.Storage.Items.{Item, total, IsSized}
use live_update.Storage.Append.{IsHeader-cong}
use live_update.Storage.Checksum.{IsSealed}
use live_update.Storage.Validate.{IsValid, validate_iff, validate-IsSealed, zero_area_lem}
use live_update.Storage.Seal.{IsComplete}
use live_update.Restore.Walk.{IsRest}
use live_update.Resume.{
  ResumeFunc, ResumeFuncs, resume, resume_helper, resume_begin, resume_loop, is_resumable,
  wakeup_ip_networks,
}
use live_update.Resume.Loop.{Step, deliver, Follows, Resumes}
use live_update.Resume.Deliver.{resume_loop-Resumes}

-- What makes a complete area's items readable from its first entry on.
pub IsComplete-IsRest :
    {m : Mem} {sh : Ptr} {is : List Item}
    → IsComplete m sh is
    → All IsSized is
    → sh + 20 + total is + 8 < 2 ^ 64
    → IsRest m (sh + 20) is
IsComplete-IsRest c sized fits = record { chain = c.chain; end = c.end; sized = sized; fits = fits }

-- An area is resumed: every item has been delivered, the area is cleared, and is not resumable again.
pub record Resumed {ℓ} {U : Type ℓ} (crc : Crc) (sh : Ptr) (is : List Item) (u : U)
    (r : Run Bool × World U) : Type ℓ where
  pub world : World U
  pub returns : r ≡ (ok true, world)
  pub user : world.user ≡ u
  pub cleared : (x : Ptr) → sh ≤ x → x < sh + 32 + total is → world.mem x ≡ 0
  pub gone : (validate crc sh world.mem).0 ≡ false

module _ {ℓ} {U : Type ℓ} (crc : Crc) (rounds : ℕ) (funcs : ResumeFuncs U) (func : ResumeFunc U)
    (sh : Ptr) where
  -- Behind a loop that has ended and has kept the area.
  pub resume_begin-ended :
      (w : World U) (is : List Item) (u : U)
      → IsComplete w.mem sh is
      → Resumes sh (sh + 20 + total is + 8) w u (resume_loop rounds funcs func (sh + 20) w)
      → Resumed crc sh is u (resume_begin rounds funcs func sh w)
  unfolding resume_begin Storage.begin wakeup_ip_networks get_length
  resume_begin-ended w is u c res =
      let m = res.world.mem in
      let len = (IsHeader-cong {m' = m} c.header (λ x a b d. res.kept x a (omega arith))).length in
      let (ended, cleared, same, gone) = zero_area_lem crc m sh in
      let m1 = (zero_area sh m).1 in
      record {
        world = record res.world { mem = m1; started = res.world.started ++ res.world.slumbering };
        returns = rw (res.returns, ended);
        user = res.user;
        cleared = λ x a b. cleared x a (rw len (omega arith));
        gone = ap (λ r. r.0) gone;
      }

  -- Where the heap reaches the address, or the area there is not valid, `resume` returns false and changes
  -- nothing, in a memory of bytes: no handler runs and nothing is cleared.
  pub resume-refused :
      (w : World U)
      → IsBytes w.mem
      → (sh ≤ w.heap_end) ⊎ (¬ IsValid crc w.mem sh)
      → resume crc rounds funcs func sh w ≡ (ok false, w)
  unfolding resume resume_helper is_resumable
  resume-refused w bytes h =
      let (valid, same) = validate_iff crc w.mem sh bytes in
      elim (Bool-cases (leb sh w.heap_end)) [
        | inl below ↦ rw below refl
        | inr above ↦ elim (Bool-cases (validate crc sh w.mem).0) [
          | inl good ↦
              absurd (elim h [ inl low ↦ ground arith | inr refused ↦ refused (valid.0 good) ])
          | inr bad ↦ rw (above, bad, same) refl
        ]
      ]

  -- `resume` of a sealed area above the heap, where the loop ends from every memory with the sealed area.
  pub resume-ended :
      (w : World U) (is : List Item) (u : U)
      → w.heap_end < sh
      → IsSealed crc w.mem sh is
      → get_crc w.mem sh ≢ 0
      → ((m : Mem)
          → IsSealed crc m sh is
          → let w1 = record w { mem = m } in
            Resumes sh (sh + 20 + total is + 8) w1 u (resume_loop rounds funcs func (sh + 20) w1))
      → Resumed crc sh is u (resume crc rounds funcs func sh w)
  unfolding resume resume_helper is_resumable
  resume-ended w is u above s ne ends =
      let (m1, valid, s1, kept, same) = validate-IsSealed crc w.mem sh s ne in
      let above' : leb sh w.heap_end ≡ false = ground arith in
      rw (above', valid) (resume_begin-ended (record w { mem = m1 }) is u s1.complete (ends m1 s1))

  -- `resume` of a sealed area with a checksum that is not 0, above the heap and below 2 ^ 64, with sized
  -- items, handlers that follow a step function, and more fuel than items: it returns true, the service's
  -- state is that of delivering every item that no handler has passed, in order, the area is cleared, and
  -- it does not validate again.
  pub resume-Resumed :
      (w : World U) (is : List Item) (step : Step U)
      → w.heap_end < sh
      → IsSealed crc w.mem sh is
      → get_crc w.mem sh ≢ 0
      → All IsSized is
      → sh + 20 + total is + 8 < 2 ^ 64
      → Follows sh (sh + 20 + total is + 8) funcs func step
      → length is < rounds
      → Resumed crc sh is (deliver step rounds is w.user) (resume crc rounds funcs func sh w)
  resume-Resumed w is step above s ne sized fits f enough =
      resume-ended w is (deliver step rounds is w.user) above s ne (λ m s1.
        resume_loop-Resumes sh (sh + 20 + total is + 8) funcs func step f rounds is (sh + 20)
          (record w { mem = m }) (IsComplete-IsRest s1.complete sized fits) (omega arith)
          (omega arith) enough)
