-- ===== src/TestTcp.antt =====
-- test_tcp.cpp: a service whose TCP connection is moved by an update while it receives a file.
pub mod Saving
pub mod Resuming
pub mod Failing
use live_update.Base.{
  ℕ, ◌+◌, Bool, true, Option, none, some, List, [], ◌∷◌, ◌==◌, if◌then◌else◌, length as size_of,
}
use live_update.Memory.{Ptr}
use live_update.Machine.{Run, ok, throw, aborted, starved, user, Cmd, and_then}
use live_update.World.{World, Buffer, Os}
use live_update.Hotswap.{Jump}
use live_update.Restore.Programs.{Program, run_program}
use live_update.Resume.{ResumeFunc}
use live_update.Update.{StorageFunc, add_connection, add_buffer, put_marker}
use live_update.Update.Templates.{add}
use live_update.Tcp.{WriteQueue}
use live_update.Tcp.Connections.{Layout, Connection, serialize_connection, as_tcp_connection}
use live_update.LiveUpdate.{LiveUpdate}
use live_update.Service.{Status, replaced, running, panicked, stuck, copy_buffer, liveupd_location}

-- `sizeof(measurement_t)`: three `int64_t` and an `int`, with 4 bytes behind it.
abbrev pub measurement_size : ℕ
measurement_size = 32

-- The static variables: the connection, the blob, the measurement as its bytes, whether there has been an
-- update, and how many timers have been started that take a measurement again and again.
pub record TcpTest : Type 0 where
  pub conn : Option Connection
  pub bloberino : List ℕ
  pub measurement : List ℕ
  pub updated_yet : Bool
  pub timers : ℕ

-- The end of `tcpflow_save`; the measurement stands at `at`. A null pointer to the blob is dereferenced.
unfoldable pub save_rest : Ptr → Ptr → Option Buffer → Cmd (World TcpTest) (Unit {0})
save_rest at hdr none w = (aborted, w)
save_rest at hdr (some blob) w =
    and_then (add_buffer hdr 1 blob w)
      λ _ w1. and_then (add hdr 2 at measurement_size w1) λ _ w2. put_marker hdr 10 w2

-- `tcpflow_save`; without a connection it throws.
unfoldable pub tcpflow_save : Layout → ℕ → Ptr → StorageFunc TcpTest
tcpflow_save l version at hdr blob w = elim w.user.conn [
  | none ↦ (throw (user 0), w)
  | some conn ↦
      and_then (add_connection hdr 0 (serialize_connection l version conn) w)
        λ _ w1. save_rest at hdr blob w1
]

-- A timer is started that takes a measurement every 50 milliseconds.
abbrev pub begin_measurements : TcpTest → TcpTest
begin_measurements s = record s { timers = s.timers + 1 }

-- The connection gets its callbacks, and the measurements begin. (What the callbacks do is not modelled.)
abbrev pub setup_callbacks : Connection → TcpTest → TcpTest
setup_callbacks conn s = begin_measurements (record s { conn = some conn })

-- `tcpflow_resume` behind the connection.
unfoldable pub resume_rest : TcpTest → Program TcpTest
resume_rest s = Program.set s (
    Program.go_next (
      Program.as_buffer λ blob.
        let s1 = record s { bloberino = blob } in
        Program.set s1 (
          Program.go_next (
            Program.as_type measurement_size λ m.
              let s2 = record s1 { measurement = m } in
              Program.set s2 (
                Program.pop_marker_id 10
                  (Program.set (record s2 { updated_yet = true }) Program.done))))))

unfoldable pub tcpflow_resume : Layout → ℕ → (WriteQueue → ℕ) → ℕ → ℕ → ResumeFunc TcpTest
tcpflow_resume l version sendq_size stack fuel thing w =
    and_then (as_tcp_connection l version sendq_size stack thing w)
      λ conn w1. run_program fuel (resume_rest (setup_callbacks conn w1.user)) thing w1

-- The `try` of `begin_live_updating`: an exception is shown.
unfoldable pub show_failure : Run Jump × World TcpTest → Status × World TcpTest
show_failure (ok jump, w) = (replaced jump, w)
show_failure (throw err, w) = (running, w)
show_failure (aborted, w) = (panicked, w)
show_failure (starved, w) = (stuck, w)

-- `begin_live_updating`; `begin` takes a copy of the blob.
unfoldable pub begin_live_updating :
    Os → LiveUpdate TcpTest → StorageFunc TcpTest → World TcpTest → Status × World TcpTest
begin_live_updating os liu save w =
    let done = show_failure (
      and_then (copy_buffer os w.user.bloberino w)
        λ blob w1. liu.begin liveupd_location blob (some save) w1) in
    if size_of w.user.bloberino == 0 then (panicked, w) else done

-- `begin_test_tcpflow`, which says whether it has resumed; otherwise it listens for the blob and the file.
unfoldable pub begin_test_tcpflow :
    LiveUpdate TcpTest → ResumeFunc TcpTest → Cmd (World TcpTest) Bool
begin_test_tcpflow liu resume_func w = liu.resume [] liveupd_location resume_func w
