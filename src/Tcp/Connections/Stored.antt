-- ===== src/Tcp/Connections/Stored.antt =====
-- The bytes that a connection's serializer leaves in an entry, and what they stand for.
use mathlib.Core.Path.{subst}
use live_update.Base.{ℕ, ◌+◌, ◌%◌, ◌^◌, ◌≤◌, ◌<◌, ◌≡◌, sym, ◌∙◌, ap, List, arith, length}
use live_update.Memory.{Ptr, Mem, load}
use live_update.Memory.Laws.{Apart, Holds, load-cong, load-at, length-load}
use live_update.Machine.{ok}
use live_update.Storage.Strings.{Writes}
use live_update.Tcp.WriteQueues.{serialize_write_queue-QueueAt, serialize_write_queue-cong}
use live_update.Tcp.Connections.{Layout, Connection, serialize_connection, deserialize_fields}
use live_update.Tcp.Connections.Fields.{write_fields-outside, write_fields-cong}
use live_update.Tcp.Connections.Requests.{
  request_size, request_size-ge, CanRestore, CanRestore-cong, request-outside, request-cong,
}
use live_update.Tcp.Connections.Shape.{all_fields, queue_size, IsConnection}
use live_update.Tcp.Connections.RoundTrip.{
  with_fields, with_queue, with_request, serialize_connection-outcome, connection-round_trip,
}

-- The number of bytes that `serialize_to` returns, and the bytes that stand at `a` then.
abbrev pub connection_size : Layout → Connection → ℕ
connection_size l conn = l.size + queue_size conn + request_size conn.read_request

abbrev pub connection_bytes : Layout → Connection → Ptr → Mem → List ℕ
connection_bytes l conn a m = load (serialize_connection l 1 conn a m).1 a (connection_size l conn)

-- A connection whose bytes fit at `a`, in a layout whose structure ends behind its fields.
pub record IsStorable (l : Layout) (conn : Connection) (now prev : ℕ) (a : Ptr) (m : Mem)
    : Type 0 where
  pub connection : IsConnection l conn now prev
  pub layout : l.vla ≤ l.size
  pub size : connection_size l conn < 2 ^ 31
  pub wrap : a + connection_size l conn < 2 ^ 64
  pub request : CanRestore m (a + l.vla + queue_size conn) conn.read_request

module _ {l : Layout} {conn : Connection} {now prev : ℕ} {a : Ptr} {m : Mem}
    (s : IsStorable l conn now prev a m) where
  -- Memories that agree on the place are as good.
  IsStorable-cong :
      (m1 : Mem)
      → ((x : Ptr) → a ≤ x → x < a + connection_size l conn → m1 x ≡ m x)
      → IsStorable l conn now prev a m1
  IsStorable-cong m1 same = record {
    connection = s.connection;
    layout = s.layout;
    size = s.size;
    wrap = s.wrap;
    request =
        CanRestore-cong conn.read_request
          (λ x p q.
            same x (omega arith) (omega (arith, s.layout, request_size-ge conn.read_request)))
          s.request;
  }

  outcome :
      serialize_connection l 1 conn a m
      ≡ (ok (connection_size l conn), with_request l conn a m now prev)
  outcome =
      let cut : connection_size l conn % 2 ^ 32 ≡ connection_size l conn = omega (arith, s.size) in
      serialize_connection-outcome l conn a m now prev s.connection
        (omega (arith, s.layout, s.wrap)) s.request
      ∙ ap (λ n. (ok n, with_request l conn a m now prev)) cut

  -- Nothing is written outside of the bytes counted.
  outside :
      (x : Ptr) → Apart a (connection_size l conn) x 1 → with_request l conn a m now prev x ≡ m x
  outside x h =
      let (_, _, queue) =
        serialize_write_queue-QueueAt conn.writeq (a + l.vla) (with_fields l conn a m now prev)
          s.connection.writeq (omega (arith, s.layout, s.wrap)) in
      request-outside conn.read_request (a + l.vla + queue_size conn)
        (with_queue l conn a m now prev) x (omega (arith, s.layout))
      ∙ queue x (omega (arith, s.layout))
      ∙ write_fields-outside (all_fields l conn now prev) a l.vla m x s.connection.within
          (omega (arith, s.layout))

  -- What is written depends on what stood there, and on nothing else.
  local :
      (m1 : Mem) (x : Ptr)
      → m1 x ≡ m x
      → with_request l conn a m1 now prev x ≡ with_request l conn a m now prev x
  local m1 x h = request-cong conn.read_request (a + l.vla + queue_size conn) _ _ x (
      serialize_write_queue-cong conn.writeq (a + l.vla) _ _ x s.connection.writeq
        (omega (arith, s.layout, s.wrap))
        (write_fields-cong (all_fields l conn now prev) a m m1 x h))

-- The serializer of a storable connection writes its bytes and returns their number, on every memory that
-- agrees on the place.
pub serialize_connection-Writes :
    {l : Layout} {conn : Connection} {now prev : ℕ} {a : Ptr} {m : Mem} (m1 : Mem)
    → IsStorable l conn now prev a m
    → ((x : Ptr) → a ≤ x → x < a + length (connection_bytes l conn a m) → m1 x ≡ m x)
    → Writes (serialize_connection l 1 conn) a (connection_bytes l conn a m) m1
serialize_connection-Writes {l} {conn} {a} {m} m1 s same =
    let size : length (connection_bytes l conn a m) ≡ connection_size l conn =
      length-load _ a (connection_size l conn) in
    let s1 = IsStorable-cong s m1 (λ x p q. same x p (omega (arith, size))) in
    let equal : load (serialize_connection l 1 conn a m1).1 a (connection_size l conn)
        ≡ connection_bytes l conn a m =
      load-cong _ _ a (connection_size l conn) (λ x p q.
        ap (λ r. r.1 x) (outcome s1)
        ∙ local s m1 x (same x p (omega (arith, size)))
        ∙ ap (λ r. r.1 x) (sym (outcome s))) in
    record {
      result = ap (λ r. r.0) (outcome s1) ∙ ap ok (sym size);
      held = ap (load (serialize_connection l 1 conn a m1).1 a) size ∙ equal;
      same = λ x h. ap (λ r. r.1 x) (outcome s1) ∙ outside s1 x (omega (arith, size));
    }

-- Where the bytes stand, the connection is restored.
pub connection_bytes-restored :
    {l : Layout} {conn : Connection} {now prev : ℕ} {a : Ptr} {m : Mem} (m' : Mem)
    → IsStorable l conn now prev a m
    → Holds m' a (connection_bytes l conn a m)
    → deserialize_fields l 1 m' a ≡ ok conn
connection_bytes-restored {l} {conn} {now} {prev} {a} {m} m' s held =
    let size = connection_size l conn in
    let m2 = (serialize_connection l 1 conn a m).1 in
    let read : load m' a size ≡ load m2 a size =
      subst (λ n. load m' a n ≡ load m2 a size) (length-load m2 a size) held in
    (connection-round_trip l conn a m m' now prev s.connection (omega (arith, s.layout, s.wrap))
      s.request (λ x p q. load-at m2 m' a size x read p (omega (arith, s.layout)))).1
