-- ===== src/Tcp/Connections.antt =====
-- serialize_tcp.cpp and serialize_tcp.hpp: a connection as bytes of the memory. The offsets of struct
-- serialized_tcp depend on types of IncludeOS, and are a parameter.
pub mod Fields
pub mod Requests
pub mod Shape
pub mod RoundTrip
pub mod Stale
pub mod Sleep
pub mod Stored
use live_update.Base.{
  ℕ, ◌+◌, ◌%◌, ◌^◌, Bool, true, false, Option, none, some, List, [], ◌∷◌, ltb, ◌==◌, if◌then◌else◌,
  not,
}
use live_update.Memory.{Ptr, Mem, load, store, get, bytes_of, sign_extend, offset}
use live_update.Machine.{Run, ok, throw, tcp_version_mismatch, Cmd, and_then, ◌>>=◌}
use live_update.World.{World}
use live_update.Entry
use live_update.Tcp.{
  State, to_state, of_state, WriteQueue, serialize_write_queue, deserialize_write_queue, ReadBuffer,
  serialize_read_buffer, deserialize_read_buffer,
}

-- struct serialized_tcp: the sizes of Socket, TCB and RTTM, each field's offset, and `sizeof`.
pub record Layout : Type 0 where
  pub socket_size : ℕ
  pub tcb_size : ℕ
  pub rttm_size : ℕ
  pub local : ℕ
  pub remote : ℕ
  pub state_now : ℕ
  pub state_prev : ℕ
  pub tcb : ℕ
  pub rttm : ℕ
  pub rtx_att : ℕ
  pub syn_rtx : ℕ
  pub queued : ℕ
  pub fast_recovery : ℕ
  pub reno_fpack_seen : ℕ
  pub limited_tx : ℕ
  pub dup_acks : ℕ
  pub dack : ℕ
  pub highest_ack : ℕ
  pub prev_highest_ack : ℕ
  pub last_acked_ts : ℕ
  pub last_ack_sent : ℕ
  pub rtx_is_running : ℕ
  pub vla : ℕ
  pub size : ℕ

-- What a Connection holds that is stored. The objects are their bytes, a `bool` is 0 or 1, and
-- `rtx_is_running` says that the retransmission timer runs.
pub record Connection : Type 0 where
  pub local : List ℕ
  pub remote : List ℕ
  pub cb : List ℕ
  pub state : State
  pub prev_state : State
  pub rttm : List ℕ
  pub rtx_attempt : ℕ
  pub syn_rtx : ℕ
  pub queued : ℕ
  pub fast_recovery : ℕ
  pub reno_fpack_seen : ℕ
  pub limited_tx : ℕ
  pub dup_acks : ℕ
  pub highest_ack : ℕ
  pub prev_highest_ack : ℕ
  pub last_acked_ts : ℕ
  pub dack : ℕ
  pub last_ack_sent : ℕ
  pub rtx_is_running : ℕ
  pub writeq : WriteQueue
  pub read_request : Option ReadBuffer

-- A field's offset and bytes.
pub record Field : Type 0 where
  pub at : ℕ
  pub bytes : List ℕ

abbrev pub number : ℕ → ℕ → ℕ → Field
number at size value = record { at = at; bytes = bytes_of size value }

unfoldable pub write_fields : Ptr → List Field → Mem → Mem
write_fields area [] m = m
write_fields area (f ∷ fs) m = write_fields area fs (store m (area + f.at) f.bytes)

-- The assignments before the first state, and those behind the second, in the source's order, in which
-- `dup_acks` is assigned twice.
abbrev pub fields_before : Layout → Connection → List Field
fields_before l conn =
    record { at = l.local; bytes = conn.local }
    ∷ record { at = l.remote; bytes = conn.remote }
    ∷ record { at = l.tcb; bytes = conn.cb }
    ∷ []

abbrev pub fields_behind : Layout → Connection → List Field
fields_behind l conn =
    record { at = l.rttm; bytes = conn.rttm }
    ∷ number l.rtx_att 1 conn.rtx_attempt
    ∷ number l.syn_rtx 1 conn.syn_rtx
    ∷ number l.dup_acks 1 conn.dup_acks
    ∷ number l.queued 1 conn.queued
    ∷ number l.fast_recovery 1 conn.fast_recovery
    ∷ number l.reno_fpack_seen 1 conn.reno_fpack_seen
    ∷ number l.limited_tx 1 conn.limited_tx
    ∷ number l.dup_acks 1 conn.dup_acks
    ∷ number l.highest_ack 4 conn.highest_ack
    ∷ number l.prev_highest_ack 4 conn.prev_highest_ack
    ∷ number l.last_acked_ts 4 conn.last_acked_ts
    ∷ number l.dack 1 conn.dack
    ∷ number l.last_ack_sent 4 conn.last_ack_sent
    ∷ number l.rtx_is_running 1 conn.rtx_is_running
    ∷ []

-- The read buffer. Without a read request the size of a read_buffer is counted, and nothing is written.
unfoldable pub serialize_request : Option ReadBuffer → Ptr → Mem → ℕ × Mem
serialize_request none readq m = (32, m)
serialize_request (some buffer) readq m = serialize_read_buffer buffer readq m

-- Behind the fields: the write queue, then the read buffer.
unfoldable pub serialize_queues : Layout → Connection → Ptr → Mem → ℕ × Mem
serialize_queues l conn area m =
    let (writeq_len, m1) = serialize_write_queue conn.writeq (area + l.vla) m in
    let readq = offset (area + l.vla) (sign_extend writeq_len) in
    let (readq_len, m2) = serialize_request conn.read_request readq m1 in
    ((l.size + writeq_len + readq_len) % 2 ^ 32, m2)

-- Connection::serialize_to; `version` is Connection::VERSION, and serialized_tcp::VERSION is 1.
unfoldable pub serialize_connection : Layout → ℕ → Connection → Ptr → Cmd Mem ℕ
serialize_connection l version conn area m =
    if version == 1
    then (and_then (of_state conn.state, write_fields area (fields_before l conn) m)
        λ now m1.
          and_then (of_state conn.prev_state, write_fields area (number l.state_now 1 now ∷ []) m1)
            λ prev m2.
              let m3 = write_fields area (number l.state_prev 1 prev ∷ fields_behind l conn) m2 in
              let (len, m4) = serialize_queues l conn area m3 in (ok len, m4))
    else (throw tcp_version_mismatch, m)

-- The read request: one with the stored capacity and sequence number if the capacity is not 0.
unfoldable pub deserialize_request : Mem → Ptr → Option ReadBuffer
deserialize_request m readq =
    let cap = get m (readq + 8) 8 in
    let fresh : ReadBuffer = record {
      start = get m readq 4;
      cap = cap;
      head = 0;
      hole = 0;
      push_seen = 0;
      buf = [];
    } in
    if cap == 0 then none else some (deserialize_read_buffer m readq fresh).0

-- The constructor's arguments and Connection::deserialize_from, on a new connection.
unfoldable pub deserialize_fields : Layout → ℕ → Mem → Ptr → Run Connection
deserialize_fields l version m area =
    if version == 1
    then (to_state (get m (area + l.state_now) 1) >>= λ now.
        to_state (get m (area + l.state_prev) 1) >>= λ prev.
        let (writeq, writeq_len) =
          deserialize_write_queue m (area + l.vla)
            (record { current = 0; offset = 0; acked = 0; q = [] }) in
        ok (record {
          local = load m (area + l.local) l.socket_size;
          remote = load m (area + l.remote) l.socket_size;
          cb = load m (area + l.tcb) l.tcb_size;
          state = now;
          prev_state = prev;
          rttm = load m (area + l.rttm) l.rttm_size;
          rtx_attempt = get m (area + l.rtx_att) 1;
          syn_rtx = get m (area + l.syn_rtx) 1;
          queued = get m (area + l.queued) 1;
          fast_recovery = get m (area + l.fast_recovery) 1;
          reno_fpack_seen = get m (area + l.reno_fpack_seen) 1;
          limited_tx = get m (area + l.limited_tx) 1;
          dup_acks = get m (area + l.dup_acks) 1;
          highest_ack = get m (area + l.highest_ack) 4;
          prev_highest_ack = get m (area + l.prev_highest_ack) 4;
          last_acked_ts = get m (area + l.last_acked_ts) 4;
          dack = get m (area + l.dack) 1;
          last_ack_sent = get m (area + l.last_ack_sent) 4;
          rtx_is_running = get m (area + l.rtx_is_running) 1;
          writeq = writeq;
          read_request = deserialize_request m (offset (area + l.vla) (sign_extend writeq_len));
        }))
    else throw tcp_version_mismatch

-- std::unordered_set::insert
unfoldable pub insert : ℕ → List ℕ → List ℕ
insert x [] = x ∷ []
insert x (y ∷ ys) = let rest = insert x ys in if x == y then y ∷ ys else y ∷ rest

-- `deserialize_connection`: a connection that has something left to send puts its IP stack to sleep.
-- `sendq_size` is that of IncludeOS, and `stack` is the connection's IP stack.
unfoldable pub deserialize_connection {ℓ} :
    {U : Type ℓ} → Layout → ℕ → (WriteQueue → ℕ) → ℕ → Ptr → Cmd (World U) Connection
deserialize_connection l version sendq_size stack area w =
    and_then (deserialize_fields l version w.mem area, w)
      λ conn w1.
        if ltb 0 (sendq_size conn.writeq)
        then (ok conn, record w1 { slumbering = insert stack w1.slumbering })
        else (ok conn, w1)

-- Restore::as_tcp_connection, of the entry at `ent`; its type is not checked.
unfoldable pub as_tcp_connection {ℓ} :
    {U : Type ℓ} → Layout → ℕ → (WriteQueue → ℕ) → ℕ → Ptr → Cmd (World U) Connection
as_tcp_connection l version sendq_size stack ent =
    deserialize_connection l version sendq_size stack (Entry.vla ent)
