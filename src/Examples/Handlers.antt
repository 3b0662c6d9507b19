-- ===== src/Examples/Handlers.antt =====
-- Handlers that are programs, on the sealed area of Examples/Updates.
use live_update.Base.{ℕ, ◌+◌, ◌≡◌, ◌≢◌, refl, List, [], ◌∷◌, arith, length, false}
use live_update.Machine.{ok}
use live_update.Storage
use live_update.Storage.Items.{total}
use live_update.Restore.Walk.{IsRest}
use live_update.Restore.Programs.{Program, Handler, run_program, run_on_items}
use live_update.Restore.Programs.Refine.{Agrees, run_program-Agrees}
use live_update.Resume.{resume, is_resumable}
use live_update.Resume.Loop.{deliver}
use live_update.Resume.Whole.{Resumed, resume-Resumed, IsComplete-IsRest}
use live_update.Resume.Items.{run_handler, run_handlers, resume_items}
use live_update.Resume.Items.Whole.{ResumeOutcome, resume-ResumeOutcome}
use live_update.LiveUpdate.Instance.{is_resumable-resume}
use live_update.Examples.{crc, place, os}
use live_update.Examples.Areas.{two_items, greeting-IsSized, marker-IsSized}
use live_update.Examples.Updates.{after, old-stored, note_id, noting, note_id-Follows}

-- A handler that notes the length of a string, and one that notes the id of a marker.
abbrev string_length : Handler (List ℕ)
string_length u = Program.as_string λ bs. Program.set (length bs ∷ u) (Program.go_next Program.done)

abbrev marker_id : Handler (List ℕ)
marker_id u = Program.pop_marker λ id. Program.set (id ∷ u) Program.done

after-set : Storage.get_crc after.mem place ≢ 0
after-set e =
    let sum : Storage.get_crc after.mem place ≡ 1 = old-stored.area.sum in omega (arith, e, sum)

after-IsRest : IsRest after.mem (place + 20) two_items
after-IsRest =
    IsComplete-IsRest old-stored.area.complete (greeting-IsSized, (marker-IsSized, tt))
      (omega arith)

run_program-Agrees_example :
    Agrees after
      (place + 20)
      two_items
      (run_program 3 (string_length []) (place + 20) after)
      (run_on_items (string_length []) two_items [])
run_program-Agrees_example =
    run_program-Agrees 3 (string_length []) (place + 20) two_items after after-IsRest (omega arith)

resume-ResumeOutcome_example :
    ResumeOutcome crc place two_items
      (resume crc 3
        (run_handlers 3 ((3, string_length) ∷ []))
        (run_handler 3 marker_id)
        place
        after)
      (resume_items 3 ((3, string_length) ∷ []) marker_id two_items [])
resume-ResumeOutcome_example =
    resume-ResumeOutcome crc 3 3 ((3, string_length) ∷ []) marker_id place after two_items
      (omega arith) old-stored.area after-set (greeting-IsSized, (marker-IsSized, tt)) (omega arith)
      (omega arith) (omega arith)

-- What the loop on the items makes of them.
items_resumed :
    resume_items 3 ((3, string_length) ∷ []) marker_id two_items [] ≡ (ok tt, 9 ∷ 2 ∷ [])
unfolding resume_items run_on_items
items_resumed = refl

resumed :
    Resumed crc place two_items
      (deliver noting 3 two_items [])
      (resume crc 3 [] note_id place after)
resumed =
    resume-Resumed crc 3 [] note_id place after two_items noting (omega arith) old-stored.area
      after-set (greeting-IsSized, (marker-IsSized, tt)) (omega arith)
      (note_id-Follows place (place + 20 + total two_items + 8)) (omega arith)

is_resumable-resume_example : is_resumable crc place resumed.world ≡ (false, resumed.world)
is_resumable-resume_example =
    is_resumable-resume os crc 3 [] note_id place after resumed.world resumed.returns
