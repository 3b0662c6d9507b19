-- ===== src/Examples/Terminals.antt =====
-- The test service with two terminals, of which one is connected.
use mathlib.Core.Path.{subst}
use live_update.Base.{
  ◌+◌, ◌<◌, ◌≡◌, refl, sym, ap, Bool, true, false, List, [], ◌∷◌, arith, none, some, All,
  All-append, length, length-append,
}
use live_update.Memory.{bytes_of}
use live_update.Memory.Laws.{length-load}
use live_update.Machine.{ok}
use live_update.World.{World}
use live_update.Storage.{get_crc}
use live_update.Storage.Items.{total, IsSized}
use live_update.Storage.Grow.{total-append}
use live_update.Resume.{resume}
use live_update.Resume.Whole.{Resumed}
use live_update.Resume.Items.{run_handler}
use live_update.Tcp.{State, established, closed}
use live_update.Tcp.Connections.{Connection}
use live_update.Tcp.Connections.Stored.{connection_bytes, connection_size}
use live_update.Update.{update_store_data}
use live_update.Update.Calls.{Call, items_of, run_calls}
use live_update.Update.Connections.{items_of-append, length-items_of, AllReady-append}
use live_update.Update.Storing.{Stores, IsUpdateStored, update_store_data-IsUpdateStored}
use live_update.Update.RoundTrip.{run_calls-Stores}
use live_update.TestAll.{
  Service, test_all_save, test_all_calls, open_terminals, restore_term, resume_functions,
  on_missing,
}
use live_update.TestAll.Items.{calls-count}
use live_update.TestAll.Terminals.{AllStorable, terminals-AllReady}
use live_update.TestAll.Together.{restored_service, test_all_calls-Resumed}
use live_update.Examples.{crc, place}
use live_update.Examples.Connections.{
  layout, connection, connection-IsConnection, request-CanRestore,
}
use live_update.Examples.Tests.{
  zeros, service, sources, memory, tested, fresh_service, saved-AllReady, saved-IsSized,
  saved-total,
}

is_open : State → Bool
is_open established = true
is_open _ = false

abbrev is_connected : Connection → Bool
is_connected conn = is_open conn.state

abbrev busy_service : Service
busy_service = record service { saveme = record connection { state = closed } ∷ connection ∷ [] }

abbrev busy : World Service
busy = record tested { user = busy_service }

abbrev first : List Call
first = test_all_save sources zeros (0 ∷ 0 ∷ []) busy_service

abbrev second : List Call
second = open_terminals layout (place + 20 + total (items_of first)) memory (connection ∷ [])

abbrev saved : List Call
saved = test_all_calls layout is_connected place memory sources zeros (0 ∷ 0 ∷ []) busy_service

terminal-size :
    length (connection_bytes layout connection (place + 20 + total (items_of first) + 8) memory)
    ≡ connection_size layout connection
terminal-size = length-load _ (place + 20 + total (items_of first) + 8) _

storable : AllStorable layout (place + 20 + total (items_of first)) memory (connection ∷ [])
unfolding bytes_of test_all_save
storable = (
  (
    4,
    3,
    record {
      connection = connection-IsConnection;
      layout = omega arith;
      size = omega arith;
      wrap = omega (arith, saved-total);
      request = request-CanRestore memory (place + 20 + total (items_of first) + 8 + 49 + 34);
    },
  ),
  tt,
)

second-IsSized : All IsSized (items_of second)
unfolding bytes_of
second-IsSized = (
  record {
    id = omega arith;
    type = omega arith;
    len = omega (arith, terminal-size);
    size = omega (arith, terminal-size);
    entry = λ e. omega (arith, e);
    kind = refl;
  },
  tt,
)

busy-IsSized : All IsSized (items_of saved)
unfolding is_open test_all_save
busy-IsSized =
    subst (All IsSized) (sym (items_of-append first second))
      (All-append IsSized (items_of first) (items_of second) saved-IsSized second-IsSized)

busy-total : total (items_of saved) < 0xa00
unfolding is_open bytes_of test_all_save
busy-total = omega (
  arith,
  ap total (items_of-append first second),
  total-append (items_of first) (items_of second),
  saved-total,
  terminal-size,
)

busy-count : length (items_of saved) < 20
unfolding is_open
busy-count = omega (
  arith,
  length-items_of saved,
  length-append first second,
  calls-count sources zeros (0 ∷ 0 ∷ []) busy_service,
)

busy-Stores : Stores place 0xa000 (some (λ hdr _. run_calls hdr saved)) none busy (items_of saved)
unfolding is_open test_all_save
busy-Stores =
    run_calls-Stores place 0xa000 saved none busy
      (AllReady-append memory place 0xa000 (place + 20) first second saved-AllReady (
        terminals-AllReady layout memory place 0xa000 (place + 20 + total (items_of first))
          (connection ∷ []) storable))
      busy-IsSized (omega (arith, busy-count, length-items_of saved)) (omega (arith, busy-total))
      (omega (arith, busy-total))

busy-Stored :
    IsUpdateStored crc place 0xa000 busy
      (items_of saved)
      (update_store_data crc place (some (λ hdr _. run_calls hdr saved)) none busy)
busy-Stored =
    update_store_data-IsUpdateStored crc place busy (some (λ hdr _. run_calls hdr saved)) none
      (items_of saved) 0xa000 busy-Stores (omega (arith, busy-count)) (omega (arith, busy-total))
      (omega (arith, busy-total)) (omega (arith, busy-total))

abbrev busy_left : World Service
busy_left = record busy { mem = busy-Stored.mem }

busy-done :
    update_store_data crc place (some (λ hdr _. run_calls hdr saved)) none busy
    ≡ (ok (32 + total (items_of saved)), busy_left)
busy-done =
    let set : get_crc busy-Stored.mem place ≡ 1 = busy-Stored.area.sum in
    rw set at busy-Stored.returns

test_all_calls-Resumed_example :
    Resumed crc place
      (items_of saved)
      (restored_service
        (λ t. t)
        (λ t. t)
        (λ xs. xs)
        layout
        (λ queue. length queue.q)
        7
        12
        (run_handler 12 on_missing)
        zeros
        (0 ∷ 0 ∷ [])
        (connection ∷ [])
        busy_service
        fresh_service)
      (resume crc 12
        (resume_functions
          (λ t. t)
          (λ t. t)
          (λ xs. xs)
          12
          (restore_term layout 1 (λ queue. length queue.q) 7))
        (run_handler 12 on_missing)
        place
        (record busy_left { user = fresh_service }))
unfolding is_open test_all_save
test_all_calls-Resumed_example =
    test_all_calls-Resumed (λ t. t) (λ t. t) (λ xs. xs) layout (λ queue. length queue.q) 7 12
      (run_handler 12 on_missing) crc place 0xa000 12 (32 + total (items_of saved)) is_connected
      sources zeros (0 ∷ 0 ∷ []) busy_service none busy busy_left
      (record busy_left { user = fresh_service }) saved-AllReady storable busy-IsSized (omega arith)
      (omega (arith, busy-total)) (omega (arith, busy-total)) (omega (arith, busy-total))
      (omega (arith, busy-total)) refl busy-done (λ x a b. refl) (omega arith) (omega arith)
      (omega arith) refl (refl, tt) (omega arith)
