-- ===== src/Resume/Registry.antt =====
-- The registry is a map: the last function registered for an id is the one that is found.
use live_update.Base.{ℕ, ◌≡◌, [], ◌∷◌, some, arith, ◌==◌, if◌then◌else◌}
use live_update.Resume.{ResumeFunc, ResumeFuncs, find, on_resume}

-- Registering a function for an id by `on_resume` replaces what was registered for that id, and nothing
-- else.
pub find-on_resume {ℓ} :
    {U : Type ℓ} (id k : ℕ) (func : ResumeFunc U) (funcs : ResumeFuncs U)
    → find k (on_resume id func funcs) ≡ (if id == k then some func else find k funcs)
unfolding find on_resume
find-on_resume id k func [] = ground arith
find-on_resume id k func ((j, f) ∷ funcs) = ground (arith, find-on_resume id k func funcs)
