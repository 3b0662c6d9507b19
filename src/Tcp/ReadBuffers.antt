-- ===== src/Tcp/ReadBuffers.antt =====
-- The read buffer: what `serialize_to` writes, `deserialize_from` reads back.
use live_update.Base.{
  ℕ, zero, suc, true, ◌+◌, ◌%◌, ◌^◌, ◌≤◌, ◌<◌, ◌≡◌, refl, sym, ◌∙◌, ap, [], length, arith, lt→ltb,
  if◌then◌else◌, ltb,
}
use live_update.Memory.{Ptr, Mem, load, get, put}
use live_update.Memory.Laws.{
  Apart, store-outside, put-outside, get-cong, load-cong, load-store_self, get-put_self,
  get-put_other, get-store_other, store-cong, put-cong,
}
use live_update.Tcp.{ReadBuffer, serialize_read_buffer, deserialize_read_buffer}

-- Its fields have the widths of their types, and `head` counts the bytes.
pub record IsBuffer (buffer : ReadBuffer) : Type 0 where
  pub cap : buffer.cap < 2 ^ 64
  pub start : buffer.start < 2 ^ 32
  pub hole : buffer.hole < 2 ^ 32
  pub push_seen : buffer.push_seen < 2
  pub head : buffer.head ≡ length buffer.buf
  pub size : 32 + length buffer.buf < 2 ^ 31

-- The buffer's bytes at `a`.
pub record BufferAt (m : Mem) (a : Ptr) (buffer : ReadBuffer) : Type 0 where
  pub seq : get m a 4 ≡ buffer.start
  pub cap : get m (a + 8) 8 ≡ buffer.cap
  pub head : get m (a + 16) 4 ≡ buffer.head
  pub hole : get m (a + 20) 4 ≡ buffer.hole
  pub push : get m (a + 24) 1 ≡ buffer.push_seen
  pub bytes : load m (a + 25) (length buffer.buf) ≡ buffer.buf

pub serialize_read_buffer-BufferAt :
    (buffer : ReadBuffer) (a : Ptr) (m : Mem)
    → IsBuffer buffer
    → let (n, m1) = serialize_read_buffer buffer a m in
      (n ≡ 32 + length buffer.buf) × BufferAt m1 a buffer
unfolding serialize_read_buffer
serialize_read_buffer-BufferAt buffer a m w =
    let bs = buffer.buf in
    let m1 = put m (a + 8) 8 buffer.cap in
    let m2 = put m1 a 4 buffer.start in
    let m3 = put m2 (a + 16) 4 buffer.head in
    let m4 = put m3 (a + 20) 4 buffer.hole in
    let m5 = put m4 (a + 24) 1 buffer.push_seen in
    (
      omega (arith, w.size),
      record {
        seq =
            get-store_other m5 (a + 25) bs a 4 (omega arith)
            ∙ get-put_other m4 (a + 24) 1 buffer.push_seen a 4 (omega arith)
            ∙ get-put_other m3 (a + 20) 4 buffer.hole a 4 (omega arith)
            ∙ get-put_other m2 (a + 16) 4 buffer.head a 4 (omega arith)
            ∙ get-put_self m1 a 4 buffer.start w.start;
        cap =
            get-store_other m5 (a + 25) bs (a + 8) 8 (omega arith)
            ∙ get-put_other m4 (a + 24) 1 buffer.push_seen (a + 8) 8 (omega arith)
            ∙ get-put_other m3 (a + 20) 4 buffer.hole (a + 8) 8 (omega arith)
            ∙ get-put_other m2 (a + 16) 4 buffer.head (a + 8) 8 (omega arith)
            ∙ get-put_other m1 a 4 buffer.start (a + 8) 8 (omega arith)
            ∙ get-put_self m (a + 8) 8 buffer.cap w.cap;
        head =
            get-store_other m5 (a + 25) bs (a + 16) 4 (omega arith)
            ∙ get-put_other m4 (a + 24) 1 buffer.push_seen (a + 16) 4 (omega arith)
            ∙ get-put_other m3 (a + 20) 4 buffer.hole (a + 16) 4 (omega arith)
            ∙ get-put_self m2 (a + 16) 4 buffer.head (omega (arith, w.head, w.size));
        hole =
            get-store_other m5 (a + 25) bs (a + 20) 4 (omega arith)
            ∙ get-put_other m4 (a + 24) 1 buffer.push_seen (a + 20) 4 (omega arith)
            ∙ get-put_self m3 (a + 20) 4 buffer.hole w.hole;
        push =
            get-store_other m5 (a + 25) bs (a + 24) 1 (omega arith)
            ∙ get-put_self m4 (a + 24) 1 buffer.push_seen (omega (arith, w.push_seen));
        bytes = load-store_self m5 (a + 25) bs;
      },
    )

pub serialize_read_buffer-outside :
    (buffer : ReadBuffer) (a : Ptr) (m : Mem) (x : Ptr)
    → Apart a (32 + length buffer.buf) x 1
    → (serialize_read_buffer buffer a m).1 x ≡ m x
unfolding serialize_read_buffer
serialize_read_buffer-outside buffer a m x h =
    store-outside _ (a + 25) buffer.buf x (omega arith)
    ∙ put-outside _ (a + 24) 1 buffer.push_seen x (omega arith)
    ∙ put-outside _ (a + 20) 4 buffer.hole x (omega arith)
    ∙ put-outside _ (a + 16) 4 buffer.head x (omega arith)
    ∙ put-outside _ a 4 buffer.start x (omega arith)
    ∙ put-outside m (a + 8) 8 buffer.cap x (omega arith)

pub serialize_read_buffer-cong :
    (buffer : ReadBuffer) (a : Ptr) (m m' : Mem) (x : Ptr)
    → m' x ≡ m x
    → (serialize_read_buffer buffer a m').1 x ≡ (serialize_read_buffer buffer a m).1 x
unfolding serialize_read_buffer
serialize_read_buffer-cong buffer a m m' x h = store-cong _ _ (a + 25) buffer.buf x (
    put-cong _ _ (a + 24) 1 buffer.push_seen x (
      put-cong _ _ (a + 20) 4 buffer.hole x (
        put-cong _ _ (a + 16) 4 buffer.head x
          (put-cong _ _ a 4 buffer.start x (put-cong m m' (a + 8) 8 buffer.cap x h)))))

-- A copy only if there is something to copy is a copy.
guarded_load : (m : Mem) (a : Ptr) (n : ℕ) → (if ltb 0 n then load m a n else []) ≡ load m a n
unfolding load
guarded_load m a zero = refl
guarded_load m a (suc n) = ground arith

-- A read buffer whose fields have their widths, whose `head` counts its bytes and which is smaller than 2
-- GiB, is serialized; in any memory that keeps those bytes, the fields `seq` and `cap` are those with
-- which the new buffer is constructed, and `deserialize_from` of a buffer constructed with them restores
-- the whole, and both sides count the same number of bytes.
pub read_buffer-round_trip :
    (buffer old : ReadBuffer) (a : Ptr) (m m' : Mem)
    → IsBuffer buffer
    → old.start ≡ buffer.start
    → old.cap ≡ buffer.cap
    → ((x : Ptr)
        → a ≤ x
        → x < a + (32 + length buffer.buf)
        → m' x ≡ (serialize_read_buffer buffer a m).1 x)
    → (get m' a 4 ≡ buffer.start)
      × (get m' (a + 8) 8 ≡ buffer.cap)
      × (deserialize_read_buffer m' a old ≡ (buffer, (serialize_read_buffer buffer a m).0))
unfolding deserialize_read_buffer
read_buffer-round_trip buffer old a m m' w start cap same =
    let (n, at) = serialize_read_buffer-BufferAt buffer a m w in
    let m1 = (serialize_read_buffer buffer a m).1 in
    let seq = get-cong m1 m' a 4 (λ x p q. same x (omega arith) (omega arith)) ∙ at.seq in
    let cap' = get-cong m1 m' (a + 8) 8 (λ x p q. same x (omega arith) (omega arith)) ∙ at.cap in
    let head : get m' (a + 16) 4 ≡ length buffer.buf =
      get-cong m1 m' (a + 16) 4 (λ x p q. same x (omega arith) (omega arith)) ∙ at.head ∙ w.head in
    let hole = get-cong m1 m' (a + 20) 4 (λ x p q. same x (omega arith) (omega arith)) ∙ at.hole in
    let push = get-cong m1 m' (a + 24) 1 (λ x p q. same x (omega arith) (omega arith)) ∙ at.push in
    let bytes =
      load-cong m1 m' (a + 25) (length buffer.buf) (λ x p q. same x (omega arith) (omega arith))
      ∙ at.bytes in
    let small : ltb (length buffer.buf) (2 ^ 31) ≡ true = lt→ltb _ _ (omega (arith, w.size)) in
    let copied = guarded_load m' (a + 25) (length buffer.buf) ∙ bytes in
    let total : (32 + length buffer.buf) % 2 ^ 32 ≡ (serialize_read_buffer buffer a m).0 =
      omega (arith, w.size, n) in
    (
      seq,
      cap',
      rw (head, small, hole, push, copied, total, start, cap)
          (ap (λ k. (record buffer { head = k }, (serialize_read_buffer buffer a m).0))
            (sym w.head)),
    )
