-- ===== src/Tcp/Connections/Stale.antt =====
-- A connection without a read request, serialized over memory that has been used before.
use live_update.Base.{ℕ, ◌+◌, ◌%◌, ◌^◌, ◌≤◌, ◌<◌, ◌≡◌, ◌≢◌, refl, ◌∙◌, ap, none, some, arith}
use live_update.Memory.{Ptr, Mem, get}
use live_update.Memory.Laws.{get-cong}
use live_update.Machine.{ok}
use live_update.Tcp.{ReadBuffer}
use live_update.Tcp.Connections.{
  Layout, Connection, serialize_request, serialize_connection, deserialize_fields,
}
use live_update.Tcp.Connections.Requests.{request-stale}
use live_update.Tcp.Connections.Shape.{queue_size, IsConnection}
use live_update.Tcp.Connections.RoundTrip.{with_queue, queue-outside, serialized, fields_restored}

-- A connection without a read request is serialized over memory that holds a number other than 0 at the
-- place of the capacity, in a layout, with states, fields, a write queue and an address as for a round
-- trip. `serialize_to` succeeds and counts 32 bytes for the request, and from any memory that keeps the
-- bytes counted, the connection that is restored is the same but for a read request, of the capacity that
-- happened to stand there.
pub connection-stale :
    (l : Layout) (conn : Connection) (a : Ptr) (m m' : Mem) (now prev : ℕ)
    → let silent = record conn { read_request = none } in
      let readq = a + l.vla + queue_size conn in
      IsConnection l silent now prev
      → readq + 32 < 2 ^ 64
      → get m (readq + 8) 8 ≢ 0
      → ((x : Ptr) → a ≤ x → x < readq + 32 → m' x ≡ (serialize_connection l 1 silent a m).1 x)
      → ((serialize_connection l 1 silent a m).0 ≡ ok ((l.size + queue_size conn + 32) % 2 ^ 32))
        × (buffer : ReadBuffer) × (deserialize_fields l 1 m' a
            ≡ ok (record conn { read_request = some buffer }))
        × (buffer.cap ≡ get m (readq + 8) 8)
unfolding serialize_request
connection-stale l conn a m m' now prev w fits set same =
    let silent = record conn { read_request = none } in
    let readq = a + l.vla + queue_size conn in
    let m1 = with_queue l silent a m now prev in
    let out = serialized l silent a m now prev w fits refl in
    let kept : (x : Ptr) → a ≤ x → x < readq + 32 → m' x ≡ m1 x =
      λ x p q. same x p q ∙ ap (λ r. r.1 x) out in
    let there : get m1 (readq + 8) 8 ≡ get m (readq + 8) 8 =
      get-cong m m1 (readq + 8) 8
        (λ x p q. queue-outside l silent a m now prev w fits x (omega arith) (omega arith)) in
    let (buffer, read, cap) =
      request-stale readq m1 m' (λ e. set (rw (← there) e)) (λ x p q. kept x (omega arith) q) in
    (
      ap (λ r. r.0) out,
      buffer,
      fields_restored l silent a m now prev w fits m' kept (some buffer) read,
      cap ∙ there,
    )
