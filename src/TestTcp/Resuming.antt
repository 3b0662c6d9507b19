-- ===== src/TestTcp/Resuming.antt =====
-- What `tcpflow_save` of test_tcp.cpp stores, `tcpflow_resume` restores.
use mathlib.Core.Path.{subst}
use live_update.Base.{
  ℕ, suc, zero, ◌+◌, ◌^◌, ◌≤◌, ◌<◌, ◌≡◌, ◌≢◌, refl, ◌∙◌, true, some, List, [], arith,
}
use live_update.Memory.{Ptr, load}
use live_update.Machine.{ok}
use live_update.World.{World, Buffer, Os}
use live_update.Entry
use live_update.Entry.{Crc, type_end}
use live_update.Storage.Items.{total}
use live_update.Restore.Walk.{IsRest}
use live_update.Restore.Programs.{run_on_items, run_program}
use live_update.Restore.Programs.Refine.{Agrees, run_program-Agrees}
use live_update.Resume.{dispatch, find, resume, resume_loop}
use live_update.Resume.Loop.{Resumes, loop_cons, after-end}
use live_update.Resume.Whole.{Resumed, IsComplete-IsRest, resume-ended}
use live_update.Tcp.{WriteQueue}
use live_update.Tcp.Connections.{Layout, Connection, as_tcp_connection}
use live_update.Tcp.Connections.Sleep.{deserialize_connection-ok}
use live_update.Tcp.Connections.Stored.{connection_bytes-restored}
use live_update.Update.{update_store_data}
use live_update.Update.Calls.{items_of}
use live_update.Update.Storing.{update-IsSealed}
use live_update.LiveUpdate.Instance.{live_updates}
use live_update.Service.{liveupd_location}
use live_update.TestTcp.{
  TcpTest, tcpflow_save, tcpflow_resume, resume_rest, setup_callbacks, begin_test_tcpflow,
}
use live_update.TestTcp.Saving.{IsFlow, calls, calls-total, calls-IsSized, tcpflow_save-Stores}

-- The state of the service behind `tcpflow_resume`.
abbrev pub resumed_flow : Connection → List ℕ → List ℕ → TcpTest → TcpTest
resumed_flow conn blob measurement s = record s {
  conn = some conn;
  timers = s.timers + 1;
  bloberino = blob;
  measurement = measurement;
  updated_yet = true;
}

module _ {l : Layout} {conn : Connection} {now prev sh hi at : ℕ} {blob : Buffer}
    {w : World TcpTest} (f : IsFlow l conn now prev sh hi blob at w) where
  rest-items :
      (s : TcpTest)
      → run_on_items (resume_rest (setup_callbacks conn s)) (items_of (calls f)) s
        ≡ (ok [], resumed_flow conn (load w.mem blob.at blob.size) w.user.measurement s)
  unfolding run_on_items resume_rest
  rest-items s = rw (f.measured) refl

  -- The handler's run on the stored entries, in a memory that has them.
  handler-run :
      (sendq_size : WriteQueue → ℕ) (stack fuel : ℕ) (v : World TcpTest)
      → IsRest v.mem (sh + 20) (items_of (calls f))
      → 4 < fuel
      → (q : Ptr) × (stacks : List ℕ) × (tcpflow_resume l 1 sendq_size stack fuel (sh + 20) v ≡ (
        ok q,
        record v {
          slumbering = stacks;
          user = resumed_flow conn (load w.mem blob.at blob.size) w.user.measurement v.user;
        },
      ))
        × IsRest v.mem q []
  unfolding tcpflow_resume as_tcp_connection
  handler-run sendq_size stack fuel v rest enough =
      let is = items_of (calls f) in
      let fields = connection_bytes-restored v.mem f.storable rest.chain.0.rest in
      let (stacks, restored) =
        deserialize_connection-ok l 1 sendq_size stack (sh + 20 + 8) v conn fields in
      let v1 = record v { slumbering = stacks } in
      let prog = resume_rest (setup_callbacks conn v.user) in
      let (q, e, at_end, _, _) : Agrees v1 (sh + 20) is (run_program fuel prog (sh + 20) v1)
          (ok [], resumed_flow conn (load w.mem blob.at blob.size) w.user.measurement v.user) =
        subst (Agrees v1 (sh + 20) is (run_program fuel prog (sh + 20) v1)) (rest-items v.user)
          (run_program-Agrees fuel prog (sh + 20) is v1 rest (omega arith)) in
      (q, stacks, rw restored e, at_end)

  loop-Resumes :
      (sendq_size : WriteQueue → ℕ) (stack fuel rounds : ℕ) (v : World TcpTest)
      → IsRest v.mem (sh + 20) (items_of (calls f))
      → 4 < fuel
      → 0 < rounds
      → Resumes sh
          (sh + 20 + total (items_of (calls f)) + 8)
          v
          (resumed_flow conn (load w.mem blob.at blob.size) w.user.measurement v.user)
          (resume_loop rounds [] (tcpflow_resume l 1 sendq_size stack fuel) (sh + 20) v)
  unfolding dispatch find
  loop-Resumes sendq_size stack fuel zero v rest enough some_rounds = absurd (omega arith)
  loop-Resumes sendq_size stack fuel (suc k) v rest enough some_rounds =
      let hi' = sh + 20 + total (items_of (calls f)) + 8 in
      let handler = tcpflow_resume l 1 sendq_size stack fuel in
      let (q, stacks, run, at_end) = handler-run sendq_size stack fuel v rest enough in
      let u = resumed_flow conn (load w.mem blob.at blob.size) w.user.measurement v.user in
      let v1 = record v { slumbering = stacks; user = u } in
      let alive : Entry.type v.mem (sh + 20) ≢ type_end =
        rw rest.chain.0.head.has_type rest.sized.0.entry in
      record {
        world = v1;
        returns =
            loop_cons sh hi' [] handler k (sh + 20) v v1 q alive run
            ∙ after-end sh hi' [] handler k (sh + 20) q v1 at_end;
        user = refl;
        kept = λ x a b. refl;
      }

-- An update moves a TCP flow. What `tcpflow_save` stores, of a connection that fits, a blob and a
-- measurement that stand outside the area, with the storing done and the sanity checks on,
-- `tcpflow_resume` restores in a new kernel that has the area's bytes as the storing left them and whose
-- heap ends below it: `resume` returns true; the service has the same connection, with its callbacks and
-- one timer more, the blob's bytes and the measurement, and knows that there has been an update; the area
-- is cleared and not valid any more.
pub tcpflow_resume-Resumed :
    (crc : Crc) (l : Layout) (conn : Connection) (now prev sh hi at stack fuel rounds n : ℕ)
    (sendq_size : WriteQueue → ℕ) (blob : Buffer) (w w1 v : World TcpTest)
    → (f : IsFlow l conn now prev sh hi blob at w) → hi ≤ w.heap_max
    → hi < 2 ^ 64
    → w.sanity_checks ≡ true
    → update_store_data crc sh (some (tcpflow_save l 1 at)) (some blob) w ≡ (ok n, w1)
    → ((x : Ptr) → sh ≤ x → x < sh + n → v.mem x ≡ w1.mem x)
    → v.heap_end < sh
    → 4 < fuel
    → 0 < rounds
    → Resumed crc sh
        (items_of (calls f))
        (resumed_flow conn (load w.mem blob.at blob.size) w.user.measurement v.user)
        (resume crc rounds [] (tcpflow_resume l 1 sendq_size stack fuel) sh v)
tcpflow_resume-Resumed crc l conn now prev sh hi at stack fuel rounds n sendq_size blob w w1 v f
      room wrap on done kept above enough enough' =
    let is = items_of (calls f) in
    let size = calls-total f in
    let (sealed, set) =
      update-IsSealed crc sh hi is w w1 (some (tcpflow_save l 1 at)) (some blob) n v.mem
        (tcpflow_save-Stores f) (omega arith) (omega (arith, size, f.storable.size, f.small))
        (omega (arith, size, f.room)) (omega (arith, size, f.room)) on done kept in
    resume-ended crc rounds [] (tcpflow_resume l 1 sendq_size stack fuel) sh v is _ above sealed set
      (λ m s1.
        loop-Resumes f sendq_size stack fuel rounds (record v { mem = m })
          (IsComplete-IsRest s1.complete (calls-IsSized f) (omega (arith, size, f.room))) enough
          enough')

-- `begin_test_tcpflow`, with the library's functions, resumes a flow that was stored at the service's
-- location.
begin_test_tcpflow-Resumed :
    (os : Os) (crc : Crc) (l : Layout) (conn : Connection) (now prev hi at stack fuel rounds n : ℕ)
    (sendq_size : WriteQueue → ℕ) (blob : Buffer) (w w1 v : World TcpTest)
    → (f : IsFlow l conn now prev liveupd_location hi blob at w) → hi ≤ w.heap_max
    → hi < 2 ^ 64
    → w.sanity_checks ≡ true
    → update_store_data crc liveupd_location (some (tcpflow_save l 1 at)) (some blob) w ≡ (ok n, w1)
    → ((x : Ptr) → liveupd_location ≤ x → x < liveupd_location + n → v.mem x ≡ w1.mem x)
    → v.heap_end < liveupd_location
    → 4 < fuel
    → 0 < rounds
    → Resumed crc liveupd_location
        (items_of (calls f))
        (resumed_flow conn (load w.mem blob.at blob.size) w.user.measurement v.user)
        (begin_test_tcpflow
          (live_updates os crc rounds)
          (tcpflow_resume l 1 sendq_size stack fuel)
          v)
unfolding begin_test_tcpflow
begin_test_tcpflow-Resumed os crc l conn now prev hi at stack fuel rounds n sendq_size blob w w1 v =
    tcpflow_resume-Resumed crc l conn now prev liveupd_location hi at stack fuel rounds n sendq_size
      blob w w1 v
