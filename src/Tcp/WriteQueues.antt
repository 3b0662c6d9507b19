-- ===== src/Tcp/WriteQueues.antt =====
-- The write queue: what `serialize_to` writes.
use mathlib.Core.Path.{subst}
use live_update.Base.{ℕ, ◌+◌, ◌%◌, ◌^◌, ◌<◌, ◌≡◌, refl, ◌∙◌, List, [], ◌∷◌, arith, length, lt→ltb}
use live_update.Memory.{Ptr, Mem, load, store, get, put, sign_extend, offset}
use live_update.Memory.Laws.{
  Apart, Holds, get-cong, put-outside, get-put_self, get-put_other, put-cong, store-cong,
}
use live_update.Storage.Items.{packed}
use live_update.Storage.Packed.{
  length-le-packed, length-packed, one_string, one_string-outside, one_string-length,
  one_string-append,
}
use live_update.Tcp.{WriteQueue, write_chunks, serialize_write_queue}

-- An `int` that is not negative, added to an address that does not wrap.
pub offset-small :
    (vla : Ptr) (len : ℕ)
    → len < 2 ^ 31
    → vla + len < 2 ^ 64
    → offset vla (sign_extend len) ≡ vla + len
offset-small vla len h fits = rw (lt→ltb len (2 ^ 31) h) (omega arith)

write_chunks-cons :
    (vla len : ℕ) (c : List ℕ) (q : List (List ℕ)) (m : Mem)
    → len + 8 + length c < 2 ^ 31
    → vla + len + 8 < 2 ^ 64
    → write_chunks vla len (c ∷ q) m
      ≡ write_chunks vla (len + 8 + length c) q (one_string (vla + len) c m)
unfolding write_chunks one_string
write_chunks-cons vla len c q m h fits =
    let len1 : (len + 8) % 2 ^ 32 ≡ len + 8 = omega arith in
    let size : get (store (put m (vla + len) 8 (length c)) (vla + len + 8) c) (vla + len) 8
        ≡ length c =
      unfold one_string in one_string-length (vla + len) c m (omega arith) in
    let next : (len + 8 + length c) % 2 ^ 32 ≡ len + 8 + length c = omega arith in
    let shift : vla + (len + 8) ≡ vla + len + 8 = omega arith in
    rw
      (
        offset-small vla len (omega arith) (omega arith),
        len1,
        offset-small vla (len + 8) (omega arith) (omega arith),
        shift,
        size,
        next,
      )
      refl

-- The outcome of the loop over the chunks.
record Chunks (vla : Ptr) (len : ℕ) (q : List (List ℕ)) (m : Mem) (r : ℕ × Mem) : Type 0 where
  result : r.0 ≡ len + length (packed q)
  held : Holds r.1 (vla + len) (packed q)
  same : (x : Ptr) → Apart (vla + len) (length (packed q)) x 1 → r.1 x ≡ m x

write_chunks-Chunks :
    (vla len : ℕ) (q : List (List ℕ)) (m : Mem)
    → len + length (packed q) < 2 ^ 31
    → vla + len + length (packed q) < 2 ^ 64
    → Chunks vla len q m (write_chunks vla len q m)
unfolding write_chunks load
write_chunks-Chunks vla len [] m h fits = record {
  result = omega arith;
  held = refl;
  same = λ x a. refl;
}
write_chunks-Chunks vla len (c ∷ q) m h fits =
    let at = vla + len in
    let m1 = one_string at c m in
    let size = length-packed c q in
    let step = write_chunks-cons vla len c q m (omega (arith, size)) (omega (arith, size)) in
    let ih =
      write_chunks-Chunks vla (len + 8 + length c) q m1 (omega (arith, size))
        (omega (arith, size)) in
    let out = (write_chunks vla (len + 8 + length c) q m1).1 in
    let shift : vla + (len + 8 + length c) ≡ at + 8 + length c = omega arith in
    rw step (record {
      result = ih.result ∙ omega (arith, size);
      held =
          one_string-append at c (packed q) m out
            (subst (λ b. Holds out b (packed q)) shift ih.held) (λ x a. ih.same x (omega arith));
      same = λ x a.
          ih.same x (omega (arith, size)) ∙ one_string-outside at c m x (omega (arith, size));
    })

-- The queue stands at `a`.
pub record QueueAt (m : Mem) (a : Ptr) (queue : WriteQueue) : Type 0 where
  pub current : get m a 4 ≡ queue.current
  pub offset : get m (a + 4) 4 ≡ queue.offset
  pub acked : get m (a + 8) 4 ≡ queue.acked
  pub buffers : get m (a + 16) 8 ≡ length queue.q
  pub chunks : Holds m (a + 24) (packed queue.q)

-- Its fields have the widths of their types, and it is smaller than 2 GiB.
pub record IsQueue (queue : WriteQueue) : Type 0 where
  pub current : queue.current < 2 ^ 32
  pub offset : queue.offset < 2 ^ 32
  pub acked : queue.acked < 2 ^ 32
  pub size : 24 + length (packed queue.q) < 2 ^ 31

pub serialize_write_queue-QueueAt :
    (queue : WriteQueue) (a : Ptr) (m : Mem)
    → IsQueue queue
    → a + 24 + length (packed queue.q) < 2 ^ 64
    → let (n, m1) = serialize_write_queue queue a m in
      (n ≡ 24 + length (packed queue.q))
      × QueueAt m1 a queue
      × ((x : Ptr) → Apart a (24 + length (packed queue.q)) x 1 → m1 x ≡ m x)
unfolding serialize_write_queue
serialize_write_queue-QueueAt queue a m w fits =
    let m1 = put m a 4 queue.current in
    let m2 = put m1 (a + 4) 4 queue.offset in
    let m3 = put m2 (a + 8) 4 queue.acked in
    let m4 = put m3 (a + 16) 8 (length queue.q) in
    let r = write_chunks-Chunks (a + 24) 0 queue.q m4 (omega (arith, w.size)) (omega arith) in
    let out = write_chunks (a + 24) 0 queue.q m4 in
    let kept : (x : Ptr) → x < a + 24 → out.1 x ≡ m4 x = λ x p. r.same x (omega arith) in
    let shift : a + 24 + 0 ≡ a + 24 = omega arith in
    (
      rw r.result (omega (arith, w.size)),
      record {
        current =
            get-cong m4 out.1 a 4 (λ x p q. kept x (omega arith))
            ∙ get-put_other m3 (a + 16) 8 (length queue.q) a 4 (omega arith)
            ∙ get-put_other m2 (a + 8) 4 queue.acked a 4 (omega arith)
            ∙ get-put_other m1 (a + 4) 4 queue.offset a 4 (omega arith)
            ∙ get-put_self m a 4 queue.current w.current;
        offset =
            get-cong m4 out.1 (a + 4) 4 (λ x p q. kept x (omega arith))
            ∙ get-put_other m3 (a + 16) 8 (length queue.q) (a + 4) 4 (omega arith)
            ∙ get-put_other m2 (a + 8) 4 queue.acked (a + 4) 4 (omega arith)
            ∙ get-put_self m1 (a + 4) 4 queue.offset w.offset;
        acked =
            get-cong m4 out.1 (a + 8) 4 (λ x p q. kept x (omega arith))
            ∙ get-put_other m3 (a + 16) 8 (length queue.q) (a + 8) 4 (omega arith)
            ∙ get-put_self m2 (a + 8) 4 queue.acked w.acked;
        buffers =
            get-cong m4 out.1 (a + 16) 8 (λ x p q. kept x (omega arith))
            ∙ get-put_self m3 (a + 16) 8 (length queue.q)
                (omega (arith, w.size, length-le-packed queue.q));
        chunks = subst (λ b. Holds out.1 b (packed queue.q)) shift r.held;
      },
      λ x p.
          r.same x (omega arith)
          ∙ put-outside m3 (a + 16) 8 (length queue.q) x (omega arith)
          ∙ put-outside m2 (a + 8) 4 queue.acked x (omega arith)
          ∙ put-outside m1 (a + 4) 4 queue.offset x (omega arith)
          ∙ put-outside m a 4 queue.current x (omega arith),
    )

one_string-cong :
    (el : Ptr) (c : List ℕ) (m m' : Mem) (x : Ptr)
    → m' x ≡ m x
    → one_string el c m' x ≡ one_string el c m x
unfolding one_string
one_string-cong el c m m' x h =
    store-cong (put m el 8 (length c)) (put m' el 8 (length c)) (el + 8) c x
      (put-cong m m' el 8 (length c) x h)

write_chunks-cong :
    (vla len : ℕ) (q : List (List ℕ)) (m m' : Mem) (x : Ptr)
    → len + length (packed q) < 2 ^ 31
    → vla + len + length (packed q) < 2 ^ 64
    → m' x ≡ m x
    → (write_chunks vla len q m').1 x ≡ (write_chunks vla len q m).1 x
unfolding write_chunks
write_chunks-cong vla len [] m m' x h fits same = same
write_chunks-cong vla len (c ∷ q) m m' x h fits same =
    let size = length-packed c q in
    let step =
      λ (m1 : Mem). write_chunks-cons vla len c q m1 (omega (arith, size)) (omega (arith, size)) in
    rw (step m, step m')
      (write_chunks-cong vla (len + 8 + length c) q (one_string (vla + len) c m)
        (one_string (vla + len) c m') x (omega (arith, size)) (omega (arith, size))
        (one_string-cong (vla + len) c m m' x same))

-- What the queue's bytes are at an address depends on what stood there, and on nothing else.
pub serialize_write_queue-cong :
    (queue : WriteQueue) (a : Ptr) (m m' : Mem) (x : Ptr)
    → IsQueue queue
    → a + 24 + length (packed queue.q) < 2 ^ 64
    → m' x ≡ m x
    → (serialize_write_queue queue a m').1 x ≡ (serialize_write_queue queue a m).1 x
unfolding serialize_write_queue
serialize_write_queue-cong queue a m m' x w fits same =
    write_chunks-cong (a + 24) 0 queue.q _ _ x (omega (arith, w.size)) (omega arith) (
      put-cong _ _ (a + 16) 8 (length queue.q) x (
        put-cong _ _ (a + 8) 4 queue.acked x
          (put-cong _ _ (a + 4) 4 queue.offset x (put-cong m m' a 4 queue.current x same))))
