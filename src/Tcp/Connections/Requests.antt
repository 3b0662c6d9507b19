-- ===== src/Tcp/Connections/Requests.antt =====
-- The read request of a connection.
use live_update.Base.{
  ℕ, ◌+◌, ◌≤◌, ◌<◌, ◌≡◌, ◌≢◌, refl, ◌∙◌, [], Option, none, some, arith, length, ne→==, ◌==◌, false,
}
use live_update.Memory.{Ptr, Mem, get}
use live_update.Memory.Laws.{Apart, get-cong}
use live_update.Tcp.{ReadBuffer, deserialize_read_buffer}
use live_update.Tcp.ReadBuffers.{
  IsBuffer, read_buffer-round_trip, serialize_read_buffer-outside, serialize_read_buffer-cong,
  serialize_read_buffer-BufferAt,
}
use live_update.Tcp.Connections.{serialize_request, deserialize_request}

-- The number of bytes of the read buffer.
abbrev pub request_size : Option ReadBuffer → ℕ
request_size none = 32
request_size (some buffer) = 32 + length buffer.buf

pub request_size-ge : (request : Option ReadBuffer) → 32 ≤ request_size request
request_size-ge none = omega arith
request_size-ge (some buffer) = omega arith

-- A read request can be restored: it has a capacity and its buffer is as IncludeOS keeps it. Without one,
-- the memory happens to hold a capacity of 0 already.
abbrev pub CanRestore : Mem → Ptr → Option ReadBuffer → Type 0
CanRestore m readq none = get m (readq + 8) 8 ≡ 0
CanRestore m readq (some buffer) = IsBuffer buffer × (buffer.cap ≢ 0)

pub request-round_trip :
    (request : Option ReadBuffer) (readq : Ptr) (m m' : Mem)
    → CanRestore m readq request
    → ((x : Ptr)
        → readq ≤ x
        → x < readq + request_size request
        → m' x ≡ (serialize_request request readq m).1 x)
    → deserialize_request m' readq ≡ request
unfolding serialize_request deserialize_request
request-round_trip none readq m m' zeroed same =
    let cap' = get-cong m m' (readq + 8) 8 (λ x p q. same x (omega arith) (omega arith)) ∙ zeroed in
    rw cap' refl
request-round_trip (some buffer) readq m m' fits same =
    let (seq, cap', _) = read_buffer-round_trip buffer buffer readq m m' fits.0 refl refl same in
    let fresh : ReadBuffer = record {
      start = get m' readq 4;
      cap = get m' (readq + 8) 8;
      head = 0;
      hole = 0;
      push_seen = 0;
      buf = [];
    } in
    let restored = (read_buffer-round_trip buffer fresh readq m m' fits.0 seq cap' same).2 in
    let set : (get m' (readq + 8) 8 == 0) ≡ false = rw cap' (ne→== buffer.cap 0 fits.1) in
    rw (set, restored) refl

pub request-outside :
    (request : Option ReadBuffer) (readq : Ptr) (m : Mem) (x : Ptr)
    → Apart readq (request_size request) x 1
    → (serialize_request request readq m).1 x ≡ m x
unfolding serialize_request
request-outside none readq m x h = refl
request-outside (some buffer) readq m x h = serialize_read_buffer-outside buffer readq m x h

pub request-cong :
    (request : Option ReadBuffer) (readq : Ptr) (m m' : Mem) (x : Ptr)
    → m' x ≡ m x
    → (serialize_request request readq m').1 x ≡ (serialize_request request readq m).1 x
unfolding serialize_request
request-cong none readq m m' x h = h
request-cong (some buffer) readq m m' x h = serialize_read_buffer-cong buffer readq m m' x h

pub CanRestore-cong :
    {m m' : Mem} {readq : Ptr} (request : Option ReadBuffer)
    → ((x : Ptr) → readq ≤ x → x < readq + 32 → m' x ≡ m x)
    → CanRestore m readq request
    → CanRestore m' readq request
CanRestore-cong {m} {m'} {readq} none same h =
    get-cong m m' (readq + 8) 8 (λ x p q. same x (omega arith) (omega arith)) ∙ h
CanRestore-cong (some buffer) same h = h

pub request-length :
    (request : Option ReadBuffer) (readq : Ptr) (m : Mem)
    → CanRestore m readq request
    → (serialize_request request readq m).0 ≡ request_size request
unfolding serialize_request
request-length none readq m h = refl
request-length (some buffer) readq m h = (serialize_read_buffer-BufferAt buffer readq m h.0).0

-- Without a read request nothing is written, and one is read where the memory holds a capacity other than 0.
pub request-stale :
    (readq : Ptr) (m m' : Mem)
    → get m (readq + 8) 8 ≢ 0
    → ((x : Ptr) → readq ≤ x → x < readq + 32 → m' x ≡ (serialize_request none readq m).1 x)
    → (buffer : ReadBuffer) × (deserialize_request m' readq ≡ some buffer)
      × (buffer.cap ≡ get m (readq + 8) 8)
unfolding serialize_request deserialize_request deserialize_read_buffer
request-stale readq m m' set same =
    let cap' = get-cong m m' (readq + 8) 8 (λ x p q. same x (omega arith) (omega arith)) in
    let test : (get m' (readq + 8) 8 == 0) ≡ false = rw cap' (ne→== _ 0 set) in
    let fresh : ReadBuffer = record {
      start = get m' readq 4;
      cap = get m' (readq + 8) 8;
      head = 0;
      hole = 0;
      push_seen = 0;
      buf = [];
    } in
    ((deserialize_read_buffer m' readq fresh).0, rw test refl, cap')
