-- ===== src/Tcp/Connections/RoundTrip.antt =====
-- A connection that is serialized is restored.
use mathlib.Core.Path.{subst}
use live_update.Base.{
  ℕ, ◌+◌, ◌%◌, ◌^◌, ◌≤◌, ◌<◌, ◌≡◌, refl, ◌∙◌, ap, List, [], Option, arith, length,
}
use live_update.Memory.{Ptr, Mem, load, sign_extend, offset}
use live_update.Memory.Laws.{Holds, get-Holds}
use live_update.Machine.{ok}
use live_update.Tcp.{ReadBuffer, serialize_write_queue, deserialize_write_queue}
use live_update.Tcp.States.{of_state_iff}
use live_update.Tcp.QueueRoundTrip.{write_queue-round_trip}
use live_update.Tcp.WriteQueues.{offset-small, serialize_write_queue-QueueAt}
use live_update.Tcp.Connections.{
  Layout, Connection, write_fields, serialize_request, serialize_queues, serialize_connection,
  deserialize_request, deserialize_fields,
}
use live_update.Tcp.Connections.Fields.{
  HoldsAll, write_fields-HoldsAll, HoldsAll-cong, write_fields-outside,
}
use live_update.Tcp.Connections.Requests.{
  request_size, request_size-ge, CanRestore, request-round_trip, request-outside, request-length,
  CanRestore-cong,
}
use live_update.Tcp.Connections.Shape.{all_fields, queue_size, IsConnection}

module _ (l : Layout) (conn : Connection) (a : Ptr) (m : Mem) (now prev : ℕ) where
  -- The memory behind the fields, and behind the write queue.
  abbrev pub with_fields : Mem
  with_fields = write_fields a (all_fields l conn now prev) m

  abbrev pub with_queue : Mem
  with_queue = (serialize_write_queue conn.writeq (a + l.vla) with_fields).1

  abbrev readq : Ptr
  readq = a + l.vla + queue_size conn

  abbrev pub with_request : Mem
  with_request = (serialize_request conn.read_request readq with_queue).1

  module _ (w : IsConnection l conn now prev)
      (fits : a + l.vla + queue_size conn + request_size conn.read_request < 2 ^ 64) where
    -- The place of the read request holds what stood there.
    pub queue-outside :
        (x : Ptr) → readq ≤ x → x < readq + request_size conn.read_request → with_queue x ≡ m x
    queue-outside x p q =
        let (_, _, same) =
          serialize_write_queue-QueueAt conn.writeq (a + l.vla) with_fields w.writeq
            (omega arith) in
        same x (omega arith)
        ∙ write_fields-outside (all_fields l conn now prev) a l.vla m x w.within (omega arith)

    request_in_place :
        CanRestore m readq conn.read_request → CanRestore with_queue readq conn.read_request
    request_in_place request =
        CanRestore-cong conn.read_request
          (λ x p q. queue-outside x p (omega (arith, request_size-ge conn.read_request))) request

    readq-place : offset (a + l.vla) (sign_extend (queue_size conn)) ≡ readq
    readq-place = offset-small (a + l.vla) (queue_size conn) w.writeq.size (omega arith)

    pub serialized :
        (serialize_request conn.read_request readq with_queue).0 ≡ request_size conn.read_request
        → serialize_connection l 1 conn a m ≡ (
          ok ((l.size + queue_size conn + request_size conn.read_request) % 2 ^ 32),
          with_request,
        )
    unfolding serialize_connection serialize_queues write_fields
    serialized count =
        let (n, _, _) =
          serialize_write_queue-QueueAt conn.writeq (a + l.vla) with_fields w.writeq
            (omega arith) in
        rw (w.state_now, w.state_prev, n, readq-place, count) refl

    pub serialize_connection-outcome :
        CanRestore m readq conn.read_request
        → serialize_connection l 1 conn a m ≡ (
          ok ((l.size + queue_size conn + request_size conn.read_request) % 2 ^ 32),
          with_request,
        )
    serialize_connection-outcome request =
        serialized (request-length conn.read_request readq with_queue (request_in_place request))

    module _ (m' : Mem)
        (same : (x : Ptr)
          → a ≤ x
          → x < readq + request_size conn.read_request
          → m' x ≡ with_request x) where
      queue_kept : (x : Ptr) → a ≤ x → x < readq → m' x ≡ with_queue x
      queue_kept x p q =
          same x p (omega arith)
          ∙ request-outside conn.read_request readq with_queue x (omega arith)

      fields_kept : (x : Ptr) → a ≤ x → x < a + l.vla → m' x ≡ with_fields x
      fields_kept x p q =
          let (_, _, out) =
            serialize_write_queue-QueueAt conn.writeq (a + l.vla) with_fields w.writeq
              (omega arith) in
          queue_kept x p (omega arith) ∙ out x (omega arith)

      fields_held : HoldsAll m' a (all_fields l conn now prev)
      fields_held =
          HoldsAll-cong a l.vla (all_fields l conn now prev) w.within fields_kept
            (write_fields-HoldsAll (all_fields l conn now prev) a m w.separate)

      queue_restored :
          deserialize_write_queue m'
            (a + l.vla)
            (record { current = 0; offset = 0; acked = 0; q = [] })
          ≡ (conn.writeq, queue_size conn)
      queue_restored =
          let (n, _, _) =
            serialize_write_queue-QueueAt conn.writeq (a + l.vla) with_fields w.writeq
              (omega arith) in
          write_queue-round_trip conn.writeq (record { current = 0; offset = 0; acked = 0; q = [] })
            (a + l.vla) with_fields m' w.writeq (omega arith)
            (λ x p q. queue_kept x (omega arith) (omega arith))
          ∙ ap (λ k. (conn.writeq, k)) n

      object :
          (at : ℕ) (bs : List ℕ) (n : ℕ)
          → length bs ≡ n
          → Holds m' (a + at) bs
          → load m' (a + at) n ≡ bs
      object at bs n e h = subst (λ k. load m' (a + at) k ≡ bs) e h

      -- The connection is restored, with the read request that is read at its place.
      pub fields_restored :
          (request : Option ReadBuffer)
          → deserialize_request m' readq ≡ request
          → deserialize_fields l 1 m' a ≡ ok (record conn { read_request = request })
      unfolding deserialize_fields
      fields_restored request request_restored =
          let (
            local,
            (
              remote,
              (
                tcb,
                (
                  now_at,
                  (
                    prev_at,
                    (
                      rttm,
                      (
                        rtx_att,
                        (
                          syn_rtx,
                          (
                            _,
                            (
                              queued,
                              (
                                fast,
                                (
                                  reno,
                                  (
                                    limited,
                                    (
                                      dup_acks,
                                      (
                                        highest,
                                        (prev_highest, (ts, (dack, (last_sent, (running, _))))),
                                      ),
                                    ),
                                  ),
                                ),
                              ),
                            ),
                          ),
                        ),
                      ),
                    ),
                  ),
                ),
              ),
            ),
          ) =
            fields_held in
          let (b1, b2, b3, b4, b5, b6, b7, b8, b9) = w.bytes in
          let (w1, w2, w3, w4) = w.words in
          rw
            (
              get-Holds m' (a + l.state_now) 1 now now_at w.codes.0,
              get-Holds m' (a + l.state_prev) 1 prev prev_at w.codes.1,
              (of_state_iff conn.state now).0 w.state_now,
              (of_state_iff conn.prev_state prev).0 w.state_prev,
              queue_restored,
              readq-place,
              request_restored,
              object l.local conn.local l.socket_size w.local local,
              object l.remote conn.remote l.socket_size w.remote remote,
              object l.tcb conn.cb l.tcb_size w.cb tcb,
              object l.rttm conn.rttm l.rttm_size w.rttm rttm,
              get-Holds m' (a + l.rtx_att) 1 conn.rtx_attempt rtx_att b1,
              get-Holds m' (a + l.syn_rtx) 1 conn.syn_rtx syn_rtx b2,
              get-Holds m' (a + l.queued) 1 conn.queued queued b3,
              get-Holds m' (a + l.fast_recovery) 1 conn.fast_recovery fast b4,
              get-Holds m' (a + l.reno_fpack_seen) 1 conn.reno_fpack_seen reno b5,
              get-Holds m' (a + l.limited_tx) 1 conn.limited_tx limited b6,
              get-Holds m' (a + l.dup_acks) 1 conn.dup_acks dup_acks b7,
              get-Holds m' (a + l.dack) 1 conn.dack dack b8,
              get-Holds m' (a + l.rtx_is_running) 1 conn.rtx_is_running running b9,
              get-Holds m' (a + l.highest_ack) 4 conn.highest_ack highest w1,
              get-Holds m' (a + l.prev_highest_ack) 4 conn.prev_highest_ack prev_highest w2,
              get-Holds m' (a + l.last_acked_ts) 4 conn.last_acked_ts ts w3,
              get-Holds m' (a + l.last_ack_sent) 4 conn.last_ack_sent last_sent w4,
            )
            refl

-- A connection is serialized and restored: in a layout whose fields do not overlap and end before the
-- queues, with states that have codes, fields of their widths, a write queue of less than 2 GiB, no
-- address that wraps, and a read request with a capacity (or none, where the memory already holds a 0 at
-- the place of the capacity), `serialize_to` returns the size of the structure and the two queues, and
-- from any memory that keeps those bytes the same connection is restored.
pub connection-round_trip :
    (l : Layout) (conn : Connection) (a : Ptr) (m m' : Mem) (now prev : ℕ)
    → IsConnection l conn now prev
    → a + l.vla + queue_size conn + request_size conn.read_request < 2 ^ 64
    → CanRestore m (a + l.vla + queue_size conn) conn.read_request
    → ((x : Ptr)
        → a ≤ x
        → x < a + l.vla + queue_size conn + request_size conn.read_request
        → m' x ≡ (serialize_connection l 1 conn a m).1 x)
    → ((serialize_connection l 1 conn a m).0
        ≡ ok ((l.size + queue_size conn + request_size conn.read_request) % 2 ^ 32))
      × (deserialize_fields l 1 m' a ≡ ok conn)
connection-round_trip l conn a m m' now prev w fits request same =
    let out = serialize_connection-outcome l conn a m now prev w fits request in
    let kept : (x : Ptr)
        → a ≤ x
        → x < a + l.vla + queue_size conn + request_size conn.read_request
        → m' x ≡ with_request l conn a m now prev x =
      λ x p q. same x p q ∙ ap (λ r. r.1 x) out in
    (
      ap (λ r. r.0) out,
      fields_restored l conn a m now prev w fits m' kept conn.read_request (
          request-round_trip conn.read_request (a + l.vla + queue_size conn)
            (with_queue l conn a m now prev) m'
            (request_in_place l conn a m now prev w fits request)
            (λ x p q. kept x (omega arith) q)),
    )
