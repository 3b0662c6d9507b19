-- ===== src/TestTcp/Saving.antt =====
-- What `tcpflow_save` of test_tcp.cpp stores.
use live_update.Base.{
  ℕ, ◌+◌, ◌^◌, ◌≤◌, ◌<◌, ◌≡◌, refl, ap, ◌∙◌, some, List, [], ◌∷◌, arith, length, ◌⊎◌, All,
}
use live_update.Memory.{Ptr, Mem, load}
use live_update.Memory.Laws.{Holds, length-load}
use live_update.World.{World, Buffer}
use live_update.Storage.Items.{IsSized, total}
use live_update.Tcp.Connections.{Layout, Connection, serialize_connection}
use live_update.Tcp.Connections.Stored.{
  IsStorable, connection_size, connection_bytes, serialize_connection-Writes,
}
use live_update.Update.{call_back, add_buffer, add_bytes, put_marker}
use live_update.Update.Calls.{Call, items_of, AllReady, run_calls, run_call}
use live_update.Update.Templates.{add}
use live_update.Update.Storing.{Stores}
use live_update.Update.RoundTrip.{run_calls-Stores}
use live_update.TestTcp.{TcpTest, measurement_size, save_rest, tcpflow_save}

-- The calls, with the bytes that they store.
abbrev pub tcp_calls : Layout → Connection → Ptr → Buffer → Ptr → Mem → TcpTest → List Call
tcp_calls l conn sh blob at m s =
    Call.connection 0 (serialize_connection l 1 conn) (connection_bytes l conn (sh + 20 + 8) m)
    ∷ Call.bytes 1 blob.at (load m blob.at blob.size)
    ∷ Call.bytes 2 at s.measurement
    ∷ Call.marker 10
    ∷ []

module _ (l : Layout) (conn : Connection) (sh : Ptr) (blob : Buffer) (at : Ptr) where
  tcpflow_save-calls :
      (m : Mem) (w : World TcpTest)
      → w.user.conn ≡ some conn
      → length w.user.measurement ≡ measurement_size
      → tcpflow_save l 1 at sh (some blob) w ≡ run_calls sh (tcp_calls l conn sh blob at m w.user) w
  unfolding tcpflow_save save_rest run_calls run_call add add_buffer add_bytes put_marker
  tcpflow_save-calls m w here size = rw (here, size, length-load m blob.at blob.size) refl

-- A flow that can be stored at `sh` in a world: the connection fits, the blob and the measurement stand
-- outside the area, and the area ends before `hi`.
pub record IsFlow (l : Layout) (conn : Connection) (now prev : ℕ) (sh hi : Ptr) (blob : Buffer)
    (at : Ptr) (w : World TcpTest) : Type 0 where
  pub connected : w.user.conn ≡ some conn
  pub storable : IsStorable l conn now prev (sh + 20 + 8) w.mem
  pub held : Holds w.mem at w.user.measurement
  pub measured : length w.user.measurement ≡ measurement_size
  pub blob_out : (blob.at + blob.size ≤ sh) ⊎ (hi ≤ blob.at)
  pub measurement_out : (at + measurement_size ≤ sh) ⊎ (hi ≤ at)
  pub small : blob.size < 2 ^ 30
  pub room : sh + 200 + connection_size l conn + blob.size ≤ hi

module _ {l : Layout} {conn : Connection} {now prev sh hi at : ℕ} {blob : Buffer}
    {w : World TcpTest} (f : IsFlow l conn now prev sh hi blob at w) where
  abbrev pub calls : List Call
  calls = tcp_calls l conn sh blob at w.mem w.user

  pub bytes-length :
      (length (connection_bytes l conn (sh + 20 + 8) w.mem) ≡ connection_size l conn)
      × (length (load w.mem blob.at blob.size) ≡ blob.size)
  bytes-length =
      (length-load _ (sh + 20 + 8) (connection_size l conn), length-load w.mem blob.at blob.size)

  pub calls-total : total (items_of calls) ≡ connection_size l conn + blob.size + 64
  calls-total = omega (arith, bytes-length.0, bytes-length.1, f.measured)

  pub calls-IsSized : All IsSized (items_of calls)
  calls-IsSized = (
    record {
      id = omega arith;
      type = omega arith;
      len = omega (arith, bytes-length.0, f.storable.size);
      size = omega (arith, bytes-length.0, f.storable.size);
      entry = λ e. omega (arith, e);
      kind = refl;
    },
    (
      record {
        id = omega arith;
        type = omega arith;
        len = omega (arith, bytes-length.1, f.small);
        size = omega (arith, bytes-length.1, f.small);
        entry = λ e. omega (arith, e);
        kind = refl;
      },
      (
        record {
          id = omega arith;
          type = omega arith;
          len = omega (arith, f.measured);
          size = omega (arith, f.measured);
          entry = λ e. omega (arith, e);
          kind = refl;
        },
        (
          record {
            id = omega arith;
            type = omega arith;
            len = omega arith;
            size = omega arith;
            entry = λ e. omega (arith, e);
            kind = refl;
          },
          tt,
        ),
      ),
    ),
  )

  calls-AllReady : AllReady w.mem sh hi (sh + 20) calls
  calls-AllReady = (
    λ m1 same. serialize_connection-Writes m1 f.storable (λ x p q. same x p q),
    (
      record {
        held = ap (load w.mem blob.at) bytes-length.1;
        out = omega (arith, bytes-length.1, f.blob_out);
      },
      (record { held = f.held; out = omega (arith, f.measured, f.measurement_out) }, (tt, tt)),
    ),
  )

  -- `tcpflow_save` stores the connection, the blob, the measurement and a marker.
  pub tcpflow_save-Stores : Stores sh hi (some (tcpflow_save l 1 at)) (some blob) w (items_of calls)
  unfolding call_back
  tcpflow_save-Stores =
      let st =
        run_calls-Stores sh hi calls (some blob) w calls-AllReady calls-IsSized (omega arith)
          (omega (arith, calls-total, f.storable.size, f.small))
          (omega (arith, calls-total, f.room)) in
      record {
        mem = st.mem;
        returns = tcpflow_save-calls l conn sh blob at w.mem _ f.connected f.measured ∙ st.returns;
        area = st.area;
        same = st.same;
      }
