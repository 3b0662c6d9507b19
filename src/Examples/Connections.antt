-- ===== src/Examples/Connections.antt =====
-- A connection in a small layout, written and restored.
use live_update.Base.{
  ℕ, ◌+◌, ◌≡◌, ◌≢◌, ◌%◌, ◌^◌, inl, inr, Bool, true, false, List, [], ◌∷◌, refl, ap₂, arith, length,
  All, leb, ◌==◌, if◌then◌else◌, none, some, Bool-cases,
}
use live_update.Memory.{Ptr, Mem, get, put, bytes_of}
use live_update.Memory.Laws.{get-put_self}
use live_update.Machine.{ok}
use live_update.Tcp.{established, syn_received, of_state, ReadBuffer}
use live_update.Tcp.Connections.{
  Layout, Connection, Field, serialize_connection, deserialize_fields,
}
use live_update.Tcp.Connections.Fields.{Fits, Separate, Within}
use live_update.Tcp.Connections.Requests.{request_size, CanRestore}
use live_update.Tcp.Connections.Stale.{connection-stale}
use live_update.Tcp.Connections.Shape.{all_fields, queue_size, IsConnection}
use live_update.Tcp.Connections.RoundTrip.{connection-round_trip}
use live_update.Examples.{cleared, place}

-- A test that tells fields apart.
same_bytes : List ℕ → List ℕ → Bool
same_bytes [] [] = true
same_bytes [] (y ∷ ys) = false
same_bytes (x ∷ xs) [] = false
same_bytes (x ∷ xs) (y ∷ ys) = let rest = same_bytes xs ys in if x == y then rest else false

same_bytes-equal : (xs ys : List ℕ) → same_bytes xs ys ≡ true → xs ≡ ys
unfolding same_bytes
same_bytes-equal [] [] h = refl
same_bytes-equal [] (y ∷ ys) h = ground arith
same_bytes-equal (x ∷ xs) [] h = ground arith
same_bytes-equal (x ∷ xs) (y ∷ ys) h = ground (arith, same_bytes-equal xs ys)

fits : Field → Field → Bool
fits f g =
    if leb (f.at + length f.bytes) g.at
    then true
    else if leb (g.at + length g.bytes) f.at
    then true
    else if f.at == g.at
    then same_bytes f.bytes g.bytes
    else false

fits-Fits : (f g : Field) → fits f g ≡ true → Fits f g
unfolding fits
fits-Fits f g h = elim (Bool-cases (leb (f.at + length f.bytes) g.at)) [
  | inl low ↦ inl (ground arith)
  | inr low ↦ elim (Bool-cases (leb (g.at + length g.bytes) f.at)) [
    | inl high ↦ inl (ground arith)
    | inr high' ↦
        let at : f.at ≡ g.at = ground arith in
        let bytes : same_bytes f.bytes g.bytes ≡ true = ground arith in
        inr
          (ap₂ (λ a bs. record { at = a; bytes = bs }) at (same_bytes-equal f.bytes g.bytes bytes))
  ]
]

all_fit : Field → List Field → Bool
all_fit f [] = true
all_fit f (g ∷ gs) = let rest = all_fit f gs in if fits f g then rest else false

all_fit-All : (f : Field) (gs : List Field) → all_fit f gs ≡ true → All (Fits f) gs
unfolding all_fit
all_fit-All f [] h = tt
all_fit-All f (g ∷ gs) h = (fits-Fits f g (ground arith), all_fit-All f gs (ground arith))

separate : List Field → Bool
separate [] = true
separate (f ∷ fs) = let rest = separate fs in if all_fit f fs then rest else false

separate-Separate : (fs : List Field) → separate fs ≡ true → Separate fs
unfolding separate
separate-Separate [] h = tt
separate-Separate (f ∷ fs) h =
    (all_fit-All f fs (ground arith), separate-Separate fs (ground arith))

within : ℕ → List Field → Bool
within n [] = true
within n (f ∷ fs) = let rest = within n fs in if leb (f.at + length f.bytes) n then rest else false

within-All : (n : ℕ) (fs : List Field) → within n fs ≡ true → All (Within n) fs
unfolding within
within-All n [] h = tt
within-All n (f ∷ fs) h = (ground arith, within-All n fs (ground arith))

abbrev pub layout : Layout
layout = record {
  socket_size = 6;
  tcb_size = 4;
  rttm_size = 4;
  local = 0;
  remote = 6;
  state_now = 12;
  state_prev = 13;
  tcb = 16;
  rttm = 20;
  rtx_att = 24;
  syn_rtx = 25;
  queued = 26;
  fast_recovery = 27;
  reno_fpack_seen = 28;
  limited_tx = 29;
  dup_acks = 30;
  dack = 31;
  highest_ack = 32;
  prev_highest_ack = 36;
  last_acked_ts = 40;
  last_ack_sent = 44;
  rtx_is_running = 48;
  vla = 49;
  size = 52;
}

abbrev pub connection : Connection
connection = record {
  local = 10 ∷ 0 ∷ 0 ∷ 42 ∷ 80 ∷ 0 ∷ [];
  remote = 10 ∷ 0 ∷ 0 ∷ 1 ∷ 81 ∷ 0 ∷ [];
  cb = 1 ∷ 2 ∷ 3 ∷ 4 ∷ [];
  state = established;
  prev_state = syn_received;
  rttm = 5 ∷ 6 ∷ 7 ∷ 8 ∷ [];
  rtx_attempt = 0;
  syn_rtx = 1;
  queued = 0;
  fast_recovery = 0;
  reno_fpack_seen = 1;
  limited_tx = 1;
  dup_acks = 2;
  highest_ack = 1000;
  prev_highest_ack = 900;
  last_acked_ts = 77;
  dack = 1;
  last_ack_sent = 1001;
  rtx_is_running = 1;
  writeq = record { current = 0; offset = 1; acked = 0; q = (1 ∷ 2 ∷ []) ∷ [] };
  read_request =
      some (record { start = 9; cap = 16; head = 2; hole = 0; push_seen = 1; buf = 5 ∷ 6 ∷ [] });
}

pub connection-IsConnection : IsConnection layout connection 4 3
unfolding of_state bytes_of separate all_fit fits same_bytes within
connection-IsConnection = record {
  state_now = refl;
  state_prev = refl;
  separate = separate-Separate (all_fields layout connection 4 3) refl;
  within = within-All 49 (all_fields layout connection 4 3) refl;
  local = refl;
  remote = refl;
  cb = refl;
  rttm = refl;
  codes = (omega arith, omega arith);
  bytes = (
    omega arith,
    omega arith,
    omega arith,
    omega arith,
    omega arith,
    omega arith,
    omega arith,
    omega arith,
    omega arith,
  );
  words = (omega arith, omega arith, omega arith, omega arith);
  writeq = record {
    current = omega arith;
    offset = omega arith;
    acked = omega arith;
    size = omega arith;
  };
}

pub request-CanRestore : (m : Mem) (readq : Ptr) → CanRestore m readq connection.read_request
request-CanRestore m readq = (
  record {
    cap = omega arith;
    start = omega arith;
    hole = omega arith;
    push_seen = omega arith;
    head = refl;
    size = omega arith;
  },
  λ e. omega (arith, e),
)

connection-round_trip_example :
    ((serialize_connection layout 1 connection place cleared).0
      ≡ ok ((52 + queue_size connection + request_size connection.read_request) % 2 ^ 32))
    × (deserialize_fields layout 1 (serialize_connection layout 1 connection place cleared).1 place
        ≡ ok connection)
unfolding bytes_of
connection-round_trip_example =
    connection-round_trip layout connection place cleared
      (serialize_connection layout 1 connection place cleared).1 4 3 connection-IsConnection
      (omega arith) (request-CanRestore cleared (place + 49 + 34)) (λ x p q. refl)

-- A memory in which something is left where the capacity will be read.
abbrev used : Mem
used = put cleared (place + 83 + 8) 8 64

used-set : get used (place + 83 + 8) 8 ≢ 0
used-set e = omega (arith, e, get-put_self cleared (place + 83 + 8) 8 64 (omega arith))

abbrev silent : Connection
silent = record connection { read_request = none }

silent-IsConnection : IsConnection layout silent 4 3
silent-IsConnection = record {
  state_now = connection-IsConnection.state_now;
  state_prev = connection-IsConnection.state_prev;
  separate = connection-IsConnection.separate;
  within = connection-IsConnection.within;
  local = connection-IsConnection.local;
  remote = connection-IsConnection.remote;
  cb = connection-IsConnection.cb;
  rttm = connection-IsConnection.rttm;
  codes = connection-IsConnection.codes;
  bytes = connection-IsConnection.bytes;
  words = connection-IsConnection.words;
  writeq = connection-IsConnection.writeq;
}

connection-stale_example :
    ((serialize_connection layout 1 silent place used).0
      ≡ ok ((52 + queue_size connection + 32) % 2 ^ 32))
    × (buffer : ReadBuffer) × (deserialize_fields layout 1
          (serialize_connection layout 1 silent place used).1
          place
        ≡ ok (record connection { read_request = some buffer }))
    × (buffer.cap ≡ get used (place + 83 + 8) 8)
unfolding bytes_of
connection-stale_example =
    connection-stale layout connection place used
      (serialize_connection layout 1 silent place used).1 4 3 silent-IsConnection (omega arith)
      used-set (λ x p q. refl)
