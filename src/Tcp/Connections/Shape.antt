-- ===== src/Tcp/Connections/Shape.antt =====
-- What a connection and a layout are for the round trip.
use live_update.Base.{ℕ, ◌+◌, ◌^◌, ◌<◌, ◌≡◌, List, ◌∷◌, length, All}
use live_update.Machine.{ok}
use live_update.Storage.Items.{packed}
use live_update.Tcp.{of_state}
use live_update.Tcp.WriteQueues.{IsQueue}
use live_update.Tcp.Connections.{Layout, Connection, Field, number, fields_behind}
use live_update.Tcp.Connections.Fields.{Separate, Within}

-- All fields, with the states' codes.
abbrev pub all_fields : Layout → Connection → ℕ → ℕ → List Field
all_fields l conn now prev =
    record { at = l.local; bytes = conn.local }
    ∷ record { at = l.remote; bytes = conn.remote }
    ∷ record { at = l.tcb; bytes = conn.cb }
    ∷ number l.state_now 1 now
    ∷ number l.state_prev 1 prev
    ∷ fields_behind l conn

-- The bytes of the queues.
abbrev pub queue_size : Connection → ℕ
queue_size conn = 24 + length (packed conn.writeq.q)

-- The layout is one: no two fields overlap, and all end before `vla`. The connection's objects and numbers have
-- their sizes.
pub record IsConnection (l : Layout) (conn : Connection) (now prev : ℕ) : Type 0 where
  pub state_now : of_state conn.state ≡ ok now
  pub state_prev : of_state conn.prev_state ≡ ok prev
  pub separate : Separate (all_fields l conn now prev)
  pub within : All (Within l.vla) (all_fields l conn now prev)
  pub local : length conn.local ≡ l.socket_size
  pub remote : length conn.remote ≡ l.socket_size
  pub cb : length conn.cb ≡ l.tcb_size
  pub rttm : length conn.rttm ≡ l.rttm_size
  pub codes : (now < 256) × (prev < 256)
  pub bytes :
      (conn.rtx_attempt < 256)
      × (conn.syn_rtx < 256)
      × (conn.queued < 256)
      × (conn.fast_recovery < 256)
      × (conn.reno_fpack_seen < 256)
      × (conn.limited_tx < 256)
      × (conn.dup_acks < 256)
      × (conn.dack < 256)
      × (conn.rtx_is_running < 256)
  pub words :
      (conn.highest_ack < 2 ^ 32)
      × (conn.prev_highest_ack < 2 ^ 32)
      × (conn.last_acked_ts < 2 ^ 32)
      × (conn.last_ack_sent < 2 ^ 32)
  pub writeq : IsQueue conn.writeq
