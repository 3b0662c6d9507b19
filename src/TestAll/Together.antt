-- ===== src/TestAll/Together.antt =====
-- The test service with terminals: what it stores, all of its handlers resume.
use mathlib.Core.Path.{subst}
use mathlib.Core.List.{flatten}
use live_update.Base.{
  ℕ, Bool, suc, ◌+◌, ◌^◌, ◌<◌, ◌≡◌, refl, ◌∙◌, ap, true, ◌≤◌, Option, some, List, [], ◌∷◌, ◌++◌,
  arith, length, length-append, All,
}
use live_update.Memory.{Ptr, Mem}
use live_update.Machine.{ok}
use live_update.World.{World, Buffer, Os}
use live_update.Entry.{Crc}
use live_update.Storage.Items.{Item, body, total, IsSized}
use live_update.Storage.Grow.{total-append}
use live_update.Restore.Walk.{IsRest, go_next-cons}
use live_update.Restore.Programs.{run_on_items}
use live_update.Resume.{on_resume, ResumeFunc, ResumeFuncs, find, resume, resume_loop}
use live_update.Resume.Loop.{Resumes}
use live_update.Resume.Rounds.{dispatch-find, program-stayed, program-moved}
use live_update.Resume.Whole.{Resumed, IsComplete-IsRest, resume-ended}
use live_update.Tcp.{WriteQueue}
use live_update.Tcp.Connections.{Layout, Connection}
use live_update.Update.{update_store_data}
use live_update.Update.Calls.{items_of, AllReady, run_calls}
use live_update.Update.Connections.{items_of-append, length-items_of, AllReady-append}
use live_update.Update.Storing.{update-IsSealed}
use live_update.Update.RoundTrip.{run_calls-Stores}
use live_update.TestAll.Terminals.{
  AllStorable, terminals-AllReady, terminals-count, terminals-Resumes,
}
use live_update.LiveUpdate.Instance.{live_updates}
use live_update.Service.{liveupd_location}
use live_update.Resume.Items.{run_handler}
use live_update.TestAll.{
  on_missing, begin_test_all, Service, Sources, test_all_save, connected, open_terminals,
  restore_term, resume_functions, test_all_calls, strings_and_buffers, the_timing, saved_message,
  on_update_area,
}
use live_update.TestAll.Items.{resumed_service, the_timing-items, items-count}

module _ (time_since : List ℕ → List ℕ) (message : List ℕ → List ℕ)
    (sorted : List (List ℕ) → List (List ℕ)) (term : ResumeFunc Service) (fuel : ℕ)
    (func : ResumeFunc Service) where
  abbrev funcs : ResumeFuncs Service
  funcs = resume_functions time_since message sorted fuel term

  -- The loop over the ten items that stand before those of the terminals.
  ten-resumed :
      (at : Sources) (ts final_blob : List ℕ) (old : Service) (rest : List Item) (k : ℕ) (p : Ptr)
      (w : World Service)
      → IsRest w.mem p (items_of (test_all_save at ts final_blob old) ++ rest)
      → 10 + length rest < fuel
      → length ts ≡ 8
      → All (λ x. length x ≡ 8) old.timestamps
      → length old.timestamps < 2 ^ 61
      → let q = p + total (items_of (test_all_save at ts final_blob old)) in
        let u = resumed_service time_since message sorted ts final_blob old w.user in
        (resume_loop (suc (suc (suc (suc (suc k))))) funcs func p w
          ≡ resume_loop (suc k) funcs func q (record w { user = u }))
        × IsRest w.mem q rest
  unfolding test_all_save strings_and_buffers run_on_items saved_message on_update_area find
  ten-resumed at ts final_blob old rest k p w r enough h8 all8 few =
      let ten = items_of (test_all_save at ts final_blob old) in
      let sum = total-append ten rest in
      let b999 = Item.buffer 999 final_blob in
      let s665 = Item.strings 665 old.savemsg in
      let last = b999 ∷ s665 ∷ rest in
      let stamps = Item.vector 100 (length old.timestamps) 8 (flatten old.timestamps) in
      let timing = Item.buffer 100 ts ∷ stamps ∷ last in
      let (q1, e1, r1, s1) =
        program-moved funcs func fuel strings_and_buffers (suc (suc (suc k))) p
          (Item.integer 0 1234) _ timing w.user w r (omega arith)
          (dispatch-find funcs func p _ 0 _ r.chain.0.head.has_id refl) refl (omega arith) in
      let u = record w.user {
        savemsg = w.user.savemsg ++ message (time_since ts) ∷ [];
        timestamps = sorted (old.timestamps ++ time_since ts ∷ []);
      } in
      let (q2, e2, r2, s2) =
        program-moved funcs func fuel (the_timing time_since message sorted) (suc (suc k)) q1
          (Item.buffer 100 ts) (stamps ∷ last) last u w r1 (omega arith)
          (dispatch-find funcs func q1 _ 100 _ r1.chain.0.head.has_id refl)
          (the_timing-items time_since message sorted ts old.timestamps last w.user h8 all8 few)
          (omega arith) in
      let w2 = record w { user = u } in
      let u3 = record u { update_areas = final_blob ∷ w.user.update_areas } in
      let e3 =
        program-stayed funcs func fuel on_update_area (suc (suc k)) q2 b999 (s665 ∷ rest) u3 w2 r2
          (omega arith) (dispatch-find funcs func q2 _ 999 _ r2.chain.0.head.has_id refl) refl in
      let r3 = (go_next-cons r2).1 in
      let w3 = record w { user = u3 } in
      let e4 =
        program-stayed funcs func fuel saved_message (suc k) (q2 + (8 + body b999)) s665 rest u3 w3
          r3 (omega arith)
          (dispatch-find funcs func (q2 + (8 + body b999)) _ 665 _ r3.chain.0.head.has_id refl)
          refl in
      let r4 = (go_next-cons r3).1 in
      let there : q2 + (8 + body b999) + (8 + body s665) ≡ p + total ten =
        omega (arith, s1, s2, sum) in
      (
        e1 ∙ e2 ∙ e3 ∙ e4 ∙ ap (λ q. resume_loop (suc k) funcs func q w3) there,
        subst (λ q. IsRest w.mem q rest) there r4,
      )

module _ (time_since : List ℕ → List ℕ) (message : List ℕ → List ℕ)
    (sorted : List (List ℕ) → List (List ℕ)) (l : Layout) (sendq_size : WriteQueue → ℕ)
    (stack fuel : ℕ) (func : ResumeFunc Service) where
  abbrev term : ResumeFunc Service
  term = restore_term l 1 sendq_size stack

  -- The state of the service that has resumed what another stored, and its terminals.
  abbrev pub restored_service : List ℕ → List ℕ → List Connection → Service → Service → Service
  restored_service ts final_blob conns old new =
      let u = resumed_service time_since message sorted ts final_blob old new in
      record u { saveme = new.saveme ++ conns }

  all-Resumes :
      (m : Mem) (lo hi : Ptr) (at : Sources) (ts final_blob : List ℕ) (old : Service)
      (conns : List Connection) (rounds : ℕ) (p : Ptr) (v : World Service)
      → let ten = items_of (test_all_save at ts final_blob old) in
        AllStorable l (p + total ten) m conns
        → IsRest v.mem p (ten ++ items_of (open_terminals l (p + total ten) m conns))
        → 10 + length conns < fuel
        → 10 + length conns < rounds
        → length ts ≡ 8
        → All (λ x. length x ≡ 8) old.timestamps
        → length old.timestamps < 2 ^ 61
        → Resumes lo hi v
            (restored_service ts final_blob conns old v.user)
            (resume_loop rounds (resume_functions time_since message sorted fuel term) func p v)
  unfolding find
  all-Resumes m lo hi at ts final_blob old conns (suc (suc (suc (suc (suc k))))) p v s r enough
        enough' h8 all8 few =
      let pos = p + total (items_of (test_all_save at ts final_blob old)) in
      let fs = resume_functions time_since message sorted fuel term in
      let terminals = items_of (open_terminals l pos m conns) in
      let (ten, behind) =
        ten-resumed time_since message sorted term fuel func at ts final_blob old terminals k p v r
          (omega (arith, terminals-count l m pos conns)) h8 all8 few in
      let u = resumed_service time_since message sorted ts final_blob old v.user in
      let res =
        terminals-Resumes l m sendq_size stack fs func lo hi
          (λ q w id. dispatch-find fs func q w 666 term id refl) conns (suc k) pos
          (record v { user = u }) s behind (omega arith) in
      record { world = res.world; returns = ten ∙ res.returns; user = res.user; kept = res.kept }
  all-Resumes m lo hi at ts final_blob old conns _ p v s r enough enough' h8 all8 few =
      absurd (omega arith)

  -- All of what test_all stores, the terminals that are connected included, its handlers resume in a new
  -- kernel that has the area's bytes as the storing left them: no assertion fails, the message about the
  -- time is added, the stored timestamps are back with the new one, the timer is started with the stored
  -- blob, and the connections of the terminals are back, in order, each as it was. The connections fit
  -- where their entries will stand, the objects that are stored by address stand outside the area, the
  -- items are sized, the area ends within the memory and below 2 ^ 64, the sanity checks are on and the
  -- storing returns, the heap ends below the area, the fuel exceeds the number of entries, the count of
  -- cycles and each timestamp have 8 bytes, and there are less than 2 ^ 61 timestamps.
  pub test_all_calls-Resumed {ℓ} :
      {V : Type ℓ} (crc : Crc) (sh hi : Ptr) (rounds n : ℕ) (is_connected : Connection → Bool)
      (at : Sources) (ts final_blob : List ℕ) (old : Service) (blob : Option Buffer)
      (w w1 : World V) (v : World Service)
      → let first = test_all_save at ts final_blob old in
        let conns = connected is_connected old.saveme in
        let cs = test_all_calls l is_connected sh w.mem at ts final_blob old in
        let is = items_of cs in
        AllReady w.mem sh hi (sh + 20) first
        → AllStorable l (sh + 20 + total (items_of first)) w.mem conns
        → All IsSized is
        → length conns < 2 ^ 31
        → total is + 8 < 2 ^ 32
        → sh + 20 + total is + 8 ≤ w.heap_max
        → sh + 20 + total is + 10 ≤ hi
        → sh + 20 + total is + 8 < 2 ^ 64
        → w.sanity_checks ≡ true
        → update_store_data crc sh (some (λ hdr _. run_calls hdr cs)) blob w ≡ (ok n, w1)
        → ((x : Ptr) → sh ≤ x → x < sh + n → v.mem x ≡ w1.mem x)
        → v.heap_end < sh
        → 10 + length conns < rounds
        → 10 + length conns < fuel
        → length ts ≡ 8
        → All (λ x. length x ≡ 8) old.timestamps
        → length old.timestamps < 2 ^ 61
        → Resumed crc sh is
            (restored_service ts final_blob conns old v.user)
            (resume crc rounds (resume_functions time_since message sorted fuel term) func sh v)
  test_all_calls-Resumed crc sh hi rounds n is_connected at ts final_blob old blob w w1 v ready
        storable sized small bytes fits room wrap on done kept above enough enough' h8 all8 few =
      let first = test_all_save at ts final_blob old in
      let pos = sh + 20 + total (items_of first) in
      let conns = connected is_connected old.saveme in
      let more = open_terminals l pos w.mem conns in
      let cs = first ++ more in
      let is = items_of cs in
      let split = items_of-append first more in
      let count : length is ≡ 10 + length conns =
        ap length split
        ∙ length-append (items_of first) (items_of more)
        ∙ omega (arith, items-count at ts final_blob old, terminals-count l w.mem pos conns) in
      let calls = length-items_of cs in
      let all_ready =
        AllReady-append w.mem sh hi (sh + 20) first more ready
          (terminals-AllReady l w.mem sh hi pos conns storable) in
      let stores =
        run_calls-Stores sh hi cs blob w all_ready sized (omega arith) (omega arith)
          (omega arith) in
      let (sealed, set) =
        update-IsSealed crc sh hi is w w1 (some (λ hdr _. run_calls hdr cs)) blob n v.mem stores
          (omega arith) bytes fits room on done kept in
      resume-ended crc rounds (resume_functions time_since message sorted fuel term) func sh v is _
        above sealed set
        (λ m s1.
          all-Resumes w.mem sh (sh + 20 + total is + 8) at ts final_blob old conns rounds (sh + 20)
            (record v { mem = m }) storable
            (subst (IsRest m (sh + 20)) split (IsComplete-IsRest s1.complete sized wrap)) enough'
            enough h8 all8 few)

-- `begin_test_all`, with the library's functions, resumes at the service's location with the functions that
-- it has registered, and `on_missing` for any other id.
begin_test_all_lem :
    (os : Os) (crc : Crc) (rounds fuel : ℕ) (time_since : List ℕ → List ℕ)
    (message : List ℕ → List ℕ) (sorted : List (List ℕ) → List (List ℕ))
    (terminal : ResumeFunc Service) (w : World Service)
    → begin_test_all time_since message sorted (live_updates os crc rounds) fuel terminal w
      ≡ resume crc rounds
          (resume_functions time_since message sorted fuel terminal)
          (run_handler fuel on_missing)
          liveupd_location
          w
unfolding begin_test_all on_resume
begin_test_all_lem os crc rounds fuel time_since message sorted terminal w = refl
