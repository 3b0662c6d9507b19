-- ===== src/Examples/Kept.antt =====
-- A connection between a string and a marker in an update.
use live_update.Base.{
  ℕ, ◌+◌, ◌<◌, ◌≡◌, refl, ◌&&◌, ltb, ◌==◌, if◌then◌else◌, List, [], ◌∷◌, none, some, arith, length,
}
use live_update.Memory.{Ptr, bytes_of}
use live_update.Memory.Laws.{length-load}
use live_update.Machine.{ok}
use live_update.World.{World}
use live_update.Entry
use live_update.Entry.{type_tcp}
use live_update.Storage.{get_crc}
use live_update.Storage.Items.{total, IsSized}
use live_update.Tcp.Connections.{serialize_connection, as_tcp_connection}
use live_update.Tcp.Connections.Sleep.{count}
use live_update.Tcp.Connections.Stored.{
  IsStorable, connection_size, connection_bytes, serialize_connection-Writes,
}
use live_update.Update.{update_store_data}
use live_update.Update.Calls.{Call, item_of, items_of, run_calls}
use live_update.Update.Storing.{Stores, IsUpdateStored, update_store_data-IsUpdateStored}
use live_update.Update.RoundTrip.{run_calls-Stores}
use live_update.Update.Connections.{stored_connection-restored}
use live_update.Examples.{crc, cleared, place, world_of}
use live_update.Examples.Areas.{greeting-IsSized, marker-IsSized}
use live_update.Examples.Connections.{
  layout, connection, connection-IsConnection, request-CanRestore,
}

-- Where the connection's entry will stand, behind the string's.
abbrev at : Ptr
at = place + 30

abbrev conn_bytes : List ℕ
conn_bytes = connection_bytes layout connection (at + 8) cleared

abbrev conn_call : Call
conn_call = Call.connection 5 (serialize_connection layout 1 connection) conn_bytes

abbrev calls : List Call
calls = Call.string 3 (b'h' ∷ b'i' ∷ []) ∷ conn_call ∷ Call.marker 9 ∷ []

connection-IsStorable : IsStorable layout connection 4 3 (at + 8) cleared
unfolding bytes_of
connection-IsStorable = record {
  connection = connection-IsConnection;
  layout = omega arith;
  size = omega arith;
  wrap = omega arith;
  request = request-CanRestore cleared (at + 8 + 49 + 34);
}

conn_bytes-length : length conn_bytes ≡ connection_size layout connection
conn_bytes-length = length-load _ (at + 8) (connection_size layout connection)

conn_call-IsSized : IsSized (item_of conn_call)
unfolding bytes_of
conn_call-IsSized = record {
  id = omega arith;
  type = omega arith;
  len = omega (arith, conn_bytes-length);
  size = omega (arith, conn_bytes-length);
  entry = λ e. omega (arith, e);
  kind = refl;
}

calls-total : total (items_of calls) < 0x800
unfolding bytes_of
calls-total = omega (arith, conn_bytes-length)

abbrev storing : World (List ℕ)
storing = world_of cleared

calls-Stores :
    Stores place 0xa000 (some (λ hdr _. run_calls hdr calls)) none storing (items_of calls)
calls-Stores =
    run_calls-Stores place 0xa000 calls none storing
      (tt, (λ m1 same. serialize_connection-Writes m1 connection-IsStorable same, (tt, tt)))
      (greeting-IsSized, (conn_call-IsSized, (marker-IsSized, tt))) (omega arith)
      (omega (arith, calls-total)) (omega (arith, calls-total))

calls-Stored :
    IsUpdateStored crc place 0xa000 storing
      (items_of calls)
      (update_store_data crc place (some (λ hdr _. run_calls hdr calls)) none storing)
calls-Stored =
    update_store_data-IsUpdateStored crc place storing (some (λ hdr _. run_calls hdr calls)) none
      (items_of calls) 0xa000 calls-Stores (omega arith) (omega (arith, calls-total))
      (omega (arith, calls-total)) (omega (arith, calls-total))

abbrev left : World (List ℕ)
left = record storing { mem = calls-Stored.mem }

calls-done :
    update_store_data crc place (some (λ hdr _. run_calls hdr calls)) none storing
    ≡ (ok (32 + total (items_of calls)), left)
calls-done =
    let set : get_crc calls-Stored.mem place ≡ 1 = calls-Stored.area.sum in
    rw set at calls-Stored.returns

stored_connection-restored_example :
    let (r, v1) = as_tcp_connection layout 1 (λ queue. length queue.q) 7 at left in
    (Entry.type left.mem at ≡ type_tcp)
    × (Entry.id left.mem at ≡ 5)
    × (r ≡ ok connection)
    × (v1.mem ≡ left.mem)
    × (count 7 v1.slumbering ≡ (
        if 7 == 7 && ltb 0 (length connection.writeq.q)
        then (if ltb 0 (count 7 left.slumbering) then count 7 left.slumbering else 1)
        else count 7 left.slumbering))
stored_connection-restored_example =
    stored_connection-restored crc place 0xa000 layout connection 4 3 5 (λ queue. length queue.q) 7
      7 (Call.string 3 (b'h' ∷ b'i' ∷ []) ∷ []) (Call.marker 9 ∷ []) none storing left
      (32 + total (items_of calls)) left connection-IsStorable (tt, tt) (tt, tt)
      (greeting-IsSized, (conn_call-IsSized, (marker-IsSized, tt))) (omega arith)
      (omega (arith, calls-total)) (omega (arith, calls-total)) (omega (arith, calls-total)) refl
      calls-done (λ x p q. refl)
