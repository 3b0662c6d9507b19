-- ===== src/Tcp.antt =====
-- serialize_tcp.cpp: a TCP connection's queues as bytes of the memory, and the codes of its states.
-- Offsets and sizes are those of x86_64.
pub mod States
pub mod WriteQueues
pub mod QueueRoundTrip
pub mod ReadBuffers
pub mod Connections
use live_update.Base.{
  ℕ, zero, suc, ◌+◌, ◌%◌, ◌^◌, List, [], ◌∷◌, ◌++◌, ltb, ◌==◌, if◌then◌else◌, length,
}
use live_update.Memory.{Ptr, Mem, load, store, get, put, sign_extend, offset}
use live_update.Machine.{Run, ok, throw, unknown_tcp_state, length_error}

-- The states of net::tcp::Connection, by their instances. `other` is a pointer to none of them.
pub data State : Type 0 where
  closed listen syn_sent syn_received established fin_wait_1 fin_wait_2 close_wait : State
  closing last_ack time_wait other : State

-- `to_state(int8_t)`; the code is an `int8_t` by its bit pattern.
unfoldable pub to_state : ℕ → Run State
to_state state =
    if state == 0
    then ok closed
    else if state == 1
    then ok listen
    else if state == 2
    then ok syn_sent
    else if state == 3
    then ok syn_received
    else if state == 4
    then ok established
    else if state == 5
    then ok fin_wait_1
    else if state == 6
    then ok fin_wait_2
    else if state == 7
    then ok close_wait
    else if state == 8
    then ok closing
    else if state == 9
    then ok last_ack
    else if state == 10
    then ok time_wait
    else throw unknown_tcp_state

-- `to_state(State*)`
unfoldable pub of_state : State → Run ℕ
of_state closed = ok 0
of_state listen = ok 1
of_state syn_sent = ok 2
of_state syn_received = ok 3
of_state established = ok 4
of_state fin_wait_1 = ok 5
of_state fin_wait_2 = ok 6
of_state close_wait = ok 7
of_state closing = ok 8
of_state last_ack = ok 9
of_state time_wait = ok 10
of_state other = throw unknown_tcp_state

-- What a Write_queue holds: three `uint32_t`, and the chunks with their bytes.
pub record WriteQueue : Type 0 where
  pub current : ℕ
  pub offset : ℕ
  pub acked : ℕ
  pub q : List (List ℕ)

-- struct serialized_writeq: `current` (4 bytes), `offset` (4), `acked` (4), 4 of padding, `buffers` (8),
-- `vla`. The offset `len` into `vla` is an `int`.
-- struct write_buffer: `length` (8), `vla`.
abbrev sizeof_write_buffer : ℕ
sizeof_write_buffer = 8

abbrev write_buffer_length : Ptr → Ptr
write_buffer_length current = current

unfoldable pub write_chunks : Ptr → ℕ → List (List ℕ) → Mem → ℕ × Mem
write_chunks vla len [] m = (len, m)
write_chunks vla len (chunk ∷ q) m =
    let current = offset vla (sign_extend len) in
    let m1 = put m (write_buffer_length current) 8 (length chunk) in
    let len1 = (len + sizeof_write_buffer) % 2 ^ 32 in
    let m2 = store m1 (offset vla (sign_extend len1)) chunk in
    write_chunks vla ((len1 + get m2 (write_buffer_length current) 8) % 2 ^ 32) q m2

-- Write_queue::serialize_to, which returns the number of bytes
unfoldable pub serialize_write_queue : WriteQueue → Ptr → Mem → ℕ × Mem
serialize_write_queue queue addr m =
    let m1 =
      put (put (put m addr 4 queue.current) (addr + 4) 4 queue.offset) (addr + 8) 4 queue.acked in
    let (len, m2) = write_chunks (addr + 24) 0 queue.q (put m1 (addr + 16) 8 (length queue.q)) in
    ((24 + len) % 2 ^ 32, m2)

-- `while (total--)`, which runs as often as the bit pattern of the `int` says: the chunks, and `len`.
unfoldable pub read_chunks : Mem → Ptr → ℕ → ℕ → List (List ℕ) × ℕ
read_chunks m vla zero len = ([], len)
read_chunks m vla (suc total) len =
    let current = offset vla (sign_extend len) in
    let len1 = (len + sizeof_write_buffer) % 2 ^ 32 in
    let chunk = load m (offset vla (sign_extend len1)) (get m (write_buffer_length current) 8) in
    let (q, end) =
      read_chunks m vla total ((len1 + get m (write_buffer_length current) 8) % 2 ^ 32) in
    (chunk ∷ q, end)

-- Write_queue::deserialize_from: the chunks are added to those that the queue has.
unfoldable pub deserialize_write_queue : Mem → Ptr → WriteQueue → WriteQueue × ℕ
deserialize_write_queue m addr queue =
    let (chunks, len) = read_chunks m (addr + 24) (get m (addr + 16) 8 % 2 ^ 32) 0 in
    (
      record {
        current = get m addr 4;
        offset = get m (addr + 4) 4;
        acked = get m (addr + 8) 4;
        q = queue.q ++ chunks;
      },
      (24 + len) % 2 ^ 32,
    )

-- What a Read_buffer holds: `start` and `cap`, which its constructor sets, `head` and `hole` (`int32_t`,
-- by their bit patterns), `push_seen` (0 or 1), and the `head` bytes received.
pub record ReadBuffer : Type 0 where
  pub start : ℕ
  pub cap : ℕ
  pub head : ℕ
  pub hole : ℕ
  pub push_seen : ℕ
  pub buf : List ℕ

-- struct read_buffer: `seq` (4 bytes), 4 of padding, `cap` (8), `head` (4), `hole` (4), `push` (1), and
-- `vla` at 25; its size is 32. `size()` of a Read_buffer is the number of its bytes.
unfoldable pub serialize_read_buffer : ReadBuffer → Ptr → Mem → ℕ × Mem
serialize_read_buffer buffer addr m =
    let m1 = put (put m (addr + 8) 8 buffer.cap) addr 4 buffer.start in
    let m2 = put (put m1 (addr + 16) 4 buffer.head) (addr + 20) 4 buffer.hole in
    let m3 = put m2 (addr + 24) 1 buffer.push_seen in
    ((32 + length buffer.buf) % 2 ^ 32, store m3 (addr + 25) buffer.buf)

-- Read_buffer::deserialize_from: `start` and `cap` stay, and the bytes, if there are any, are copied to
-- the front of the buffer; the number of bytes is `sizeof(read_buffer)` and the `head` as a `size_t`.
unfoldable pub deserialize_read_buffer : Mem → Ptr → ReadBuffer → ReadBuffer × ℕ
deserialize_read_buffer m addr buffer =
    let head = get m (addr + 16) 4 in
    let size = sign_extend head in
    (
      record buffer {
        head = head;
        hole = get m (addr + 20) 4;
        push_seen = get m (addr + 24) 1;
        buf = if ltb 0 size then load m (addr + 25) size else [];
      },
      (32 + size) % 2 ^ 32,
    )
