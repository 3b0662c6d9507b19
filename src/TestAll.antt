-- ===== src/TestAll.antt =====
-- test_all.cpp: what the test service stores in an update and how it resumes it.
pub mod Items
pub mod Terminals
pub mod Together
use mathlib.Core.List.{flatten}
use live_update.Base.{
  ℕ, zero, suc, ◌+◌, ◌-◌, Bool, true, false, ◌&&◌, List, [], ◌∷◌, ◌++◌, ◌==◌, if◌then◌else◌,
  length as size_of, take,
}
use live_update.Memory.{Ptr, Mem}
use live_update.Machine.{Cmd, ok, and_then, length_error}
use live_update.World.{World}
use live_update.LiveUpdate.{LiveUpdate}
use live_update.Service.{liveupd_location}
use live_update.Restore.Programs.{Program, Handler}
use live_update.Resume.{ResumeFunc, ResumeFuncs}
use live_update.Resume.Items.{run_handler}
use live_update.Storage.Items.{body, total}
use live_update.Tcp.{WriteQueue}
use live_update.Tcp.Connections.{Layout, Connection, serialize_connection, as_tcp_connection}
use live_update.Tcp.Connections.Stored.{connection_bytes}
use live_update.Update.Calls.{Call, item_of, items_of}

-- The strings that are stored; a string literal that is stored as a buffer has a 0 at its end.
abbrev pub some_string : List ℕ
some_string =
    b'S' ∷ b'o' ∷ b'm' ∷ b'e' ∷ b' ' ∷ b's' ∷ b't' ∷ b'r' ∷ b'i' ∷ b'n' ∷ b'g' ∷ b' ' ∷ b':' ∷ b'('
    ∷ []

abbrev pub some_other_string : List ℕ
some_other_string =
    b'S' ∷ b'o' ∷ b'm' ∷ b'e' ∷ b' ' ∷ b'o' ∷ b't' ∷ b'h' ∷ b'e' ∷ b'r' ∷ b' ' ∷ b's' ∷ b't' ∷ b'r'
    ∷ b'i' ∷ b'n' ∷ b'g' ∷ b' ' ∷ b':' ∷ b'(' ∷ []

abbrev pub random_buffer : List ℕ
random_buffer =
    b'J' ∷ b'u' ∷ b's' ∷ b't' ∷ b' ' ∷ b's' ∷ b'o' ∷ b'm' ∷ b'e' ∷ b' ' ∷ b'r' ∷ b'a' ∷ b'n' ∷ b'd'
    ∷ b'o' ∷ b'm' ∷ b' ' ∷ b'b' ∷ b'u' ∷ b'f' ∷ b'f' ∷ b'e' ∷ b'r' ∷ []

abbrev pub string_1 : List ℕ
string_1 = b'|' ∷ b'S' ∷ b't' ∷ b'r' ∷ b'i' ∷ b'n' ∷ b'g' ∷ b' ' ∷ b'1' ∷ b'|' ∷ []

abbrev pub string_2 : List ℕ
string_2 =
    b'|' ∷ b'S' ∷ b't' ∷ b'r' ∷ b'i' ∷ b'n' ∷ b'g' ∷ b' ' ∷ b'2' ∷ b' ' ∷ b'i' ∷ b's' ∷ b' ' ∷ b's'
    ∷ b'l' ∷ b'i' ∷ b'g' ∷ b'h' ∷ b't' ∷ b'l' ∷ b'y' ∷ b' ' ∷ b'l' ∷ b'o' ∷ b'n' ∷ b'g' ∷ b'e'
    ∷ b'r' ∷ b'|' ∷ []

-- The static variables of the service: the terminals' connections, the messages, the timestamps (each a
-- `double`, as its 8 bytes), the buffers that a timer has been started with, and the ids that were missing.
pub record Service : Type 0 where
  pub saveme : List Connection
  pub savemsg : List (List ℕ)
  pub timestamps : List (List ℕ)
  pub update_areas : List (List ℕ)
  pub missing : List ℕ

-- Where the objects lie that are stored by address.
pub record Sources : Type 0 where
  pub buffer : Ptr
  pub ts : Ptr
  pub timestamps : Ptr
  pub final_blob : Ptr

-- All but the terminals. `ts` is the count of cycles, as the bytes of an `int64_t`.
unfoldable pub test_all_save : Sources → List ℕ → List ℕ → Service → List Call
test_all_save at ts final_blob s =
    Call.integer 0 1234
    ∷ Call.integer 0 5678
    ∷ Call.string 1 some_string
    ∷ Call.string 1 some_other_string
    ∷ Call.bytes 1 at.buffer (random_buffer ++ 0 ∷ [])
    ∷ Call.strings 1 (string_1 ∷ string_2 ∷ [])
    ∷ Call.bytes 100 at.ts ts
    ∷ Call.vector 100 at.timestamps (size_of s.timestamps) 8 (flatten s.timestamps)
    ∷ Call.bytes 999 at.final_blob final_blob
    ∷ Call.strings 665 s.savemsg
    ∷ []

-- The terminals that are connected (which a connection's state says).
abbrev pub connected : (Connection → Bool) → List Connection → List Connection
connected is_connected [] = []
connected is_connected (conn ∷ conns) =
    let rest = connected is_connected conns in if is_connected conn then conn ∷ rest else rest

-- The terminals of a list are stored, from `pos` on; the bytes depend on the memory there.
abbrev pub open_terminal : Layout → Ptr → Mem → Connection → Call
open_terminal l pos m conn =
    Call.connection 666 (serialize_connection l 1 conn) (connection_bytes l conn (pos + 8) m)

abbrev pub open_terminals : Layout → Ptr → Mem → List Connection → List Call
open_terminals l pos m [] = []
open_terminals l pos m (conn ∷ conns) =
    let call = open_terminal l pos m conn in
    call ∷ open_terminals l (pos + (8 + body (item_of call))) m conns

-- All of what is stored in an area at `sh`.
abbrev pub test_all_calls :
    Layout → (Connection → Bool) → Ptr → Mem → Sources → List ℕ → List ℕ → Service → List Call
test_all_calls l is_connected sh m at ts final_blob s =
    let calls = test_all_save at ts final_blob s in
    calls ++ open_terminals l (sh + 20 + total (items_of calls)) m (connected is_connected s.saveme)

abbrev pub same_bytes : List ℕ → List ℕ → Bool
same_bytes [] [] = true
same_bytes [] (y ∷ ys) = false
same_bytes (x ∷ xs) [] = false
same_bytes (x ∷ xs) (y ∷ ys) = x == y && same_bytes xs ys

-- `assert(b)`, and what follows.
abbrev assert : Bool → Program Service → Program Service
assert true next = next
assert false next = Program.abort

-- `str = std::string(buffer.data(), buffer.size()-1)`, whose length wraps for an empty buffer.
abbrev without_last : List ℕ → (List ℕ → Program Service) → Program Service
without_last [] next = Program.fail length_error
without_last (x ∷ xs) next = next (take (size_of xs) (x ∷ xs))

-- The last assertions, of the two strings of a vector.
abbrev assert_strings : List (List ℕ) → Program Service → Program Service
assert_strings vec next = assert (size_of vec == 2) (elim vec [
  | v0 ∷ v1 ∷ rest ↦ assert (same_bytes v0 string_1) (assert (same_bytes v1 string_2) next)
  | _ ↦ Program.abort
])

unfoldable pub strings_and_buffers : Handler Service
strings_and_buffers s = Program.as_int λ v1. Program.go_next (
    assert (v1 == 1234) (
      Program.as_int λ v2. Program.go_next (
        assert (v2 == 5678) (
          Program.as_string λ str. Program.go_next (
            assert (same_bytes str some_string) (
              Program.as_string λ str'. Program.go_next (
                assert (same_bytes str' some_other_string) (
                  Program.as_buffer λ buffer. Program.go_next (
                    without_last buffer λ str''. assert (same_bytes str'' random_buffer) (
                      Program.as_strings
                        λ vec. Program.go_next (assert_strings vec Program.done)))))))))))

-- The connection is kept. (What its callbacks do is not modelled.)
abbrev pub setup_terminal_connection : Connection → Service → Service
setup_terminal_connection conn s = record s { saveme = s.saveme ++ conn ∷ [] }

unfoldable pub restore_term : Layout → ℕ → (WriteQueue → ℕ) → ℕ → ResumeFunc Service
restore_term l version sendq_size stack thing w =
    and_then (as_tcp_connection l version sendq_size stack thing w)
      λ conn w1. (ok thing, record w1 { user = setup_terminal_connection conn w1.user })

-- The messages are printed.
unfoldable pub saved_message : Handler Service
saved_message s = Program.as_strings λ vec. Program.done

unfoldable pub on_missing : Handler Service
on_missing s = Program.get_id λ id. Program.set (record s { missing = id ∷ s.missing }) Program.done

-- The timer is started with the buffer.
unfoldable pub on_update_area : Handler Service
on_update_area s =
    Program.as_buffer
      λ updloc. Program.set (record s { update_areas = updloc ∷ s.update_areas }) Program.done

-- The time that has passed since the count of cycles that was stored, as the bytes of a `double`, the
-- message about it, and the sorting of such numbers, by `std::sort`.
module _ (time_since : List ℕ → List ℕ) (message : List ℕ → List ℕ)
    (sorted : List (List ℕ) → List (List ℕ)) where
  unfoldable pub the_timing : Handler Service
  the_timing s = Program.as_type 8 λ t1.
      let time = time_since t1 in
      let s1 = record s { savemsg = s.savemsg ++ message time ∷ [] } in
      Program.set s1 (
        Program.next_id λ next. Program.get_id λ id. assert (next == id) (
          Program.go_next (
            Program.as_vector 8 λ stamps. Program.go_next (
              Program.set (record s1 { timestamps = sorted (stamps ++ time ∷ []) }) Program.done))))

  -- The functions that `begin_test_all` registers.
  abbrev pub resume_functions : ℕ → ResumeFunc Service → ResumeFuncs Service
  resume_functions fuel term =
      (0, run_handler fuel strings_and_buffers)
      ∷ (100, run_handler fuel the_timing)
      ∷ (665, run_handler fuel saved_message)
      ∷ (666, term)
      ∷ (999, run_handler fuel on_update_area)
      ∷ []

  -- `begin_test_all`, which says whether it has resumed; then it listens for terminals.
  unfoldable pub begin_test_all :
      LiveUpdate Service → ℕ → ResumeFunc Service → Cmd (World Service) Bool
  begin_test_all liu fuel term w =
      let f0 = liu.on_resume 0 (run_handler fuel strings_and_buffers) [] in
      let f1 = liu.on_resume 100 (run_handler fuel the_timing) f0 in
      let f2 = liu.on_resume 665 (run_handler fuel saved_message) f1 in
      let f3 = liu.on_resume 666 term f2 in
      let funcs = liu.on_resume 999 (run_handler fuel on_update_area) f3 in
      liu.resume funcs liveupd_location (run_handler fuel on_missing) w
