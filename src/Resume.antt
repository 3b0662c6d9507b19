-- ===== src/Resume.antt =====
-- resume.cpp: the registry of resume handlers, and the loop that hands them the stored entries.
pub mod Registry
pub mod Loop
pub mod Rounds
pub mod Deliver
pub mod Whole
pub mod Items
use live_update.Base.{
  ℕ, zero, suc, Bool, true, false, List, [], ◌∷◌, ltb, leb, ◌==◌, if◌then◌else◌, Option, none, some,
  map, ◌++◌,
}
use live_update.Memory.{Ptr, Mem}
use live_update.Machine.{Run, ok, throw, aborted, starved, Cmd, and_then}
use live_update.World.{World}
use live_update.Entry
use live_update.Entry.{type_end, Crc}
use live_update.Storage
use live_update.Storage.{validate, zero_area}

-- A `resume_func`: it may work on the world, and moves the pointer that its Restore refers to.
abbrev pub ResumeFunc {ℓ} : Type ℓ → Type ℓ
ResumeFunc U = Ptr → Cmd (World U) Ptr

-- `std::map<uint16_t, resume_func>`
abbrev pub ResumeFuncs {ℓ} : Type ℓ → Type ℓ
ResumeFuncs U = List (ℕ × ResumeFunc U)

module _ {ℓ} {U : Type ℓ} where
  unfoldable pub find : ℕ → ResumeFuncs U → Option (ResumeFunc U)
  find id [] = none
  find id ((k, f) ∷ funcs) = if k == id then some f else find id funcs

  -- `resume_funcs[id] = func`
  unfoldable pub on_resume : ℕ → ResumeFunc U → ResumeFuncs U → ResumeFuncs U
  on_resume id func [] = (id, func) ∷ []
  on_resume id func ((k, f) ∷ funcs) =
      if k == id then (id, func) ∷ funcs else (k, f) ∷ on_resume id func funcs

  -- The registered function for the entry's id, or the default one.
  unfoldable pub dispatch : ResumeFuncs U → ResumeFunc U → ResumeFunc U
  dispatch funcs func ptr w = elim (find (Entry.id w.mem ptr) funcs) [
    | some f ↦ f ptr w
    | none ↦ func ptr w
  ]

  -- Lifts a read of the memory.
  abbrev pub reading {κ} : {A : Type κ} → (Mem → Run A) → Cmd (World U) A
  reading f w = (f w.mem, w)

  -- The loop of `resume_begin`, with fuel for its rounds.
  unfoldable pub resume_loop : ℕ → ResumeFuncs U → ResumeFunc U → Ptr → Cmd (World U) (Unit {0})
  resume_loop zero funcs func ptr w = (starved, w)
  resume_loop (suc rounds) funcs func ptr w =
      let round = and_then (dispatch funcs func ptr w) λ ptr' w'.
        let stay = and_then (reading (λ m. Entry.next m ptr') w') (resume_loop rounds funcs func) in
        let moved = resume_loop rounds funcs func ptr' w' in
        if Entry.type w'.mem ptr' == type_end
        then (ok tt, w')
        else if ptr == ptr'
        then stay
        else moved in
      if Entry.type w.mem ptr == type_end then (ok tt, w) else round

  -- `serialized_tcp::wakeup_ip_networks()`
  unfoldable pub wakeup_ip_networks : World U → World U
  wakeup_ip_networks w = record w { started = w.started ++ w.slumbering }

  unfoldable pub resume_begin : ℕ → ResumeFuncs U → ResumeFunc U → Ptr → Cmd (World U) Bool
  resume_begin rounds funcs func sh w =
      and_then (resume_loop rounds funcs func (Storage.begin sh) w) λ _ w1.
        let w2 = wakeup_ip_networks w1 in
        let (r, m) = zero_area sh w2.mem in
        and_then (r, record w2 { mem = m }) λ _ w3. (ok true, w3)

  unfoldable pub is_resumable : Crc → Ptr → World U → Bool × World U
  is_resumable crc location w =
      let (b, m) = validate crc location w.mem in (b, record w { mem = m })

  unfoldable pub resume_helper : Crc → ℕ → ResumeFuncs U → ResumeFunc U → Ptr → Cmd (World U) Bool
  resume_helper crc rounds funcs func location w =
      let (b, w1) = is_resumable crc location w in
      if b then resume_begin rounds funcs func location w1 else (ok false, w1)

  unfoldable pub resume : Crc → ℕ → ResumeFuncs U → ResumeFunc U → Ptr → Cmd (World U) Bool
  resume crc rounds funcs func location w =
      if leb location w.heap_end
      then (ok false, w)
      else resume_helper crc rounds funcs func location w

  unfoldable pub resume_from_heap :
      Crc → ℕ → ResumeFuncs U → ResumeFunc U → Ptr → Cmd (World U) Bool
  resume_from_heap crc rounds funcs func location w = resume_helper crc rounds funcs func location w
