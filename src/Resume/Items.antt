-- ===== src/Resume/Items.antt =====
-- `resume` with handlers that are programs, as a loop over the list of the items.
pub mod Refine
pub mod Whole
pub mod Frame
use live_update.Base.{
  ℕ, zero, suc, ◌+◌, ◌≡◌, Bool, true, false, List, [], ◌∷◌, ◌==◌, if◌then◌else◌, Option, none, some,
  length, map,
}
use live_update.Memory.{Ptr, Mem}
use live_update.Machine.{Run, ok, throw, aborted, starved, Cmd, and_then}
use live_update.World.{World}
use live_update.Storage.Items.{Item, id_of}
use live_update.Restore.Programs.{Program, Handler, run_program, run_on_items}
use live_update.Resume.{ResumeFunc, ResumeFuncs}

module _ {ℓ} {U : Type ℓ} where
  -- A handler as a `resume_func`: it looks at the service's state, and runs on the entry.
  abbrev pub run_handler : ℕ → Handler U → ResumeFunc U
  run_handler fuel h ptr w = run_program fuel (h w.user) ptr w

  abbrev pub run_handlers : ℕ → List (ℕ × Handler U) → ResumeFuncs U
  run_handlers fuel [] = []
  run_handlers fuel ((id, h) ∷ handlers) = (id, run_handler fuel h) ∷ run_handlers fuel handlers

  -- The handler for an id: the registered one, or the default one.
  abbrev pub handler_for : ℕ → List (ℕ × Handler U) → Handler U → Handler U
  handler_for id [] default = default
  handler_for id ((k, h) ∷ handlers) default =
      if k == id then h else handler_for id handlers default

  -- The loop on the items: it ends where none are left, and passes an item by itself where the handler
  -- has passed none.
  unfoldable pub resume_items : ℕ → List (ℕ × Handler U) → Handler U → List Item → Cmd U (Unit {0})
  resume_items zero handlers default is u = (starved, u)
  resume_items (suc rounds) handlers default [] u = (ok tt, u)
  resume_items (suc rounds) handlers default (i ∷ is) u =
      and_then (run_on_items (handler_for (id_of i) handlers default u) (i ∷ is) u) λ rest u'.
        let stay = resume_items rounds handlers default is u' in
        let moved = resume_items rounds handlers default rest u' in
        if length rest == suc (length is) then stay else moved
