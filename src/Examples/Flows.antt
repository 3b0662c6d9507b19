-- ===== src/Examples/Flows.antt =====
-- A TCP flow that is moved by an update, and an update that fails.
use live_update.Base.{
  ℕ, ◌+◌, ◌<◌, ◌≡◌, refl, inl, List, [], ◌∷◌, none, some, true, false, arith, replicate, length,
}
use live_update.Memory.{load, store, bytes_of}
use live_update.Memory.Laws.{load-store_self}
use live_update.Machine.{ok}
use live_update.World.{World, Buffer, Os}
use live_update.Storage.{get_crc}
use live_update.Storage.Items.{total}
use live_update.Resume.{resume}
use live_update.Resume.Whole.{Resumed}
use live_update.Update.{update_store_data}
use live_update.Update.Calls.{items_of}
use live_update.Update.Storing.{IsUpdateStored, update_store_data-IsUpdateStored}
use live_update.LiveUpdate.Instance.{live_updates}
use live_update.Service.{running}
use live_update.TestTcp.{TcpTest, tcpflow_save, tcpflow_resume, begin_live_updating}
use live_update.TestTcp.Saving.{IsFlow, calls, calls-total, tcpflow_save-Stores}
use live_update.TestTcp.Resuming.{resumed_flow, tcpflow_resume-Resumed}
use live_update.TestTcp.Failing.{begin_live_updating-deaf}
use live_update.Examples.{crc, cleared, place, os}
use live_update.Examples.Connections.{
  layout, connection, connection-IsConnection, request-CanRestore,
}

abbrev measurement : List ℕ
measurement = replicate 32 7

abbrev flow_world : World TcpTest
flow_world = record {
  mem = store cleared 0x5000 measurement;
  user = record {
    conn = some connection;
    bloberino = 0 ∷ [];
    measurement = measurement;
    updated_yet = false;
    timers = 1;
  };
  heap_begin = 0x4000;
  heap_end = 0x8000;
  heap_max = 0x100000;
  interrupts = true;
  flushes = 0;
  slumbering = [];
  started = [];
  rollback_data = 0;
  rollback_len = 0;
  on_panic = true;
  sanity_checks = true;
}

abbrev flow_blob : Buffer
flow_blob = record { at = 0x6000; size = 3 }

flow : IsFlow layout connection 4 3 place 0xa000 flow_blob 0x5000 flow_world
unfolding bytes_of
flow = record {
  connected = refl;
  storable = record {
    connection = connection-IsConnection;
    layout = omega arith;
    size = omega arith;
    wrap = omega arith;
    request = request-CanRestore flow_world.mem (place + 20 + 8 + 49 + 34);
  };
  held = load-store_self cleared 0x5000 measurement;
  measured = refl;
  blob_out = inl (omega arith);
  measurement_out = inl (omega arith);
  small = omega arith;
  room = omega arith;
}

flow-total : total (items_of (calls flow)) < 0x800
unfolding bytes_of
flow-total = omega (arith, calls-total flow)

flow-Stored :
    IsUpdateStored crc place 0xa000 flow_world (items_of (calls flow)) (
      update_store_data crc place (some (tcpflow_save layout 1 0x5000)) (some flow_blob) flow_world)
flow-Stored =
    update_store_data-IsUpdateStored crc place flow_world (some (tcpflow_save layout 1 0x5000))
      (some flow_blob) (items_of (calls flow)) 0xa000 (tcpflow_save-Stores flow) (omega arith)
      (omega (arith, flow-total)) (omega (arith, flow-total)) (omega (arith, flow-total))

abbrev flow_left : World TcpTest
flow_left = record flow_world { mem = flow-Stored.mem }

flow-done :
    update_store_data crc place (some (tcpflow_save layout 1 0x5000)) (some flow_blob) flow_world
    ≡ (ok (32 + total (items_of (calls flow))), flow_left)
flow-done =
    let set : get_crc flow-Stored.mem place ≡ 1 = flow-Stored.area.sum in
    rw set at flow-Stored.returns

-- The new kernel, whose service has not resumed yet.
abbrev flow_found : World TcpTest
flow_found = record flow_left {
  user = record { conn = none; bloberino = []; measurement = []; updated_yet = false; timers = 0 };
}

tcpflow_resume-Resumed_example :
    Resumed crc place
      (items_of (calls flow))
      (resumed_flow connection (load flow_world.mem 0x6000 3) measurement flow_found.user)
      (resume crc 1 [] (tcpflow_resume layout 1 (λ queue. length queue.q) 7 5) place flow_found)
tcpflow_resume-Resumed_example =
    tcpflow_resume-Resumed crc layout connection 4 3 place 0xa000 0x5000 7 5 1
      (32 + total (items_of (calls flow))) (λ queue. length queue.q) flow_blob flow_world flow_left
      flow_found flow (omega arith) (omega arith) refl flow-done (λ x p q. refl) (omega arith)
      (omega arith) (omega arith)

-- The memory ends below the place of the update.
abbrev flow_os : Os
flow_os = record os { allocate = λ n end. some (end, end + n) }

begin_live_updating-deaf_example :
    begin_live_updating flow_os
      (live_updates flow_os crc 3)
      (tcpflow_save layout 1 0x5000)
      flow_world
    ≡ (
      running,
      record flow_world {
        mem = store flow_world.mem 0x8000 (0 ∷ []);
        heap_end = 0x8001;
        interrupts = false;
      },
    )
begin_live_updating-deaf_example =
    begin_live_updating-deaf flow_os crc 3 (tcpflow_save layout 1 0x5000) flow_world 0x8000 0x8001
      (λ e. omega (arith, e)) refl (omega arith) (omega arith) (λ h. omega (arith, h.0.room))
