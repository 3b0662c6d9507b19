-- ===== src/Tcp/QueueRoundTrip.antt =====
-- The write queue: what `serialize_to` writes, `deserialize_from` reads back.
use mathlib.Core.Path.{subst}
use live_update.Base.{
  ℕ, ◌+◌, ◌%◌, ◌^◌, ◌≤◌, ◌<◌, ◌≡◌, refl, sym, ◌∙◌, ap, List, [], ◌∷◌, ◌++◌, arith, length,
}
use live_update.Memory.{Ptr, Mem, load, get, bytes_of}
use live_update.Memory.Words.{length-bytes_of}
use live_update.Memory.Laws.{Holds, Holds-split, Holds-cong, get-Holds, get-cong}
use live_update.Storage.Items.{packed}
use live_update.Storage.Packed.{length-le-packed, length-packed}
use live_update.Tcp.{WriteQueue, read_chunks, serialize_write_queue, deserialize_write_queue}
use live_update.Tcp.WriteQueues.{offset-small, QueueAt, IsQueue, serialize_write_queue-QueueAt}

read_chunks-packed :
    (m : Mem) (vla len : ℕ) (q : List (List ℕ))
    → len + length (packed q) < 2 ^ 31
    → vla + len + length (packed q) < 2 ^ 64
    → Holds m (vla + len) (packed q)
    → read_chunks m vla (length q) len ≡ (q, len + length (packed q))
unfolding read_chunks
read_chunks-packed m vla len [] h fits held = ap (λ k. ([], k)) (omega arith)
read_chunks-packed m vla len (c ∷ q) h fits held =
    let size = length-packed c q in
    let at = vla + len in
    let eight = length-bytes_of 8 (length c) in
    let (head, tail) = Holds-split m at (bytes_of 8 (length c)) (c ++ packed q) held in
    let tail' = subst (λ k. Holds m (at + k) (c ++ packed q)) eight tail in
    let (first, rest) = Holds-split m (at + 8) c (packed q) tail' in
    let count : get m at 8 ≡ length c = get-Holds m at 8 (length c) head (omega (arith, size)) in
    let len1 : (len + 8) % 2 ^ 32 ≡ len + 8 = omega (arith, size) in
    let next : (len + 8 + length c) % 2 ^ 32 ≡ len + 8 + length c = omega (arith, size) in
    let shift : at + 8 ≡ vla + (len + 8) = omega arith in
    let shift' : at + 8 + length c ≡ vla + (len + 8 + length c) = omega arith in
    let chunk : load m (vla + (len + 8)) (length c) ≡ c =
      subst (λ b. load m b (length c) ≡ c) shift first in
    let ih =
      read_chunks-packed m vla (len + 8 + length c) q (omega (arith, size)) (omega (arith, size))
        (subst (λ b. Holds m b (packed q)) shift' rest) in
    rw
      (
        offset-small vla len (omega (arith, size)) (omega (arith, size)),
        len1,
        count,
        next,
        offset-small vla (len + 8) (omega (arith, size)) (omega (arith, size)),
        chunk,
        ih,
      )
      (ap (λ k. (c ∷ q, k)) (omega (arith, size)))

pub deserialize_write_queue-QueueAt :
    (m : Mem) (a : Ptr) (queue old : WriteQueue)
    → IsQueue queue
    → a + 24 + length (packed queue.q) < 2 ^ 64
    → QueueAt m a queue
    → deserialize_write_queue m a old
      ≡ (record queue { q = old.q ++ queue.q }, 24 + length (packed queue.q))
unfolding deserialize_write_queue
deserialize_write_queue-QueueAt m a queue old w fits at =
    let count : length queue.q % 2 ^ 32 ≡ length queue.q =
      omega (arith, w.size, length-le-packed queue.q) in
    let shift : a + 24 ≡ a + 24 + 0 = omega arith in
    let chunks =
      read_chunks-packed m (a + 24) 0 queue.q (omega (arith, w.size)) (omega arith)
        (subst (λ b. Holds m b (packed queue.q)) shift at.chunks) in
    let size : (24 + (0 + length (packed queue.q))) % 2 ^ 32 ≡ 24 + length (packed queue.q) =
      omega (arith, w.size) in
    rw (at.buffers, count, chunks, at.current, at.offset, at.acked, size) refl

-- A write queue whose fields have their widths, smaller than 2 GiB and not at the end of the address
-- space, is serialized and read back from any memory that keeps those bytes: the fields and all chunks are
-- restored, the chunks behind those that the new queue has, and both sides count the same number of bytes.
pub write_queue-round_trip :
    (queue old : WriteQueue) (a : Ptr) (m m' : Mem)
    → IsQueue queue
    → a + 24 + length (packed queue.q) < 2 ^ 64
    → ((x : Ptr)
        → a ≤ x
        → x < a + (24 + length (packed queue.q))
        → m' x ≡ (serialize_write_queue queue a m).1 x)
    → deserialize_write_queue m' a old
      ≡ (record queue { q = old.q ++ queue.q }, (serialize_write_queue queue a m).0)
write_queue-round_trip queue old a m m' w fits same =
    let (n, at, _) = serialize_write_queue-QueueAt queue a m w fits in
    let m1 = (serialize_write_queue queue a m).1 in
    let at' : QueueAt m' a queue = record {
      current = get-cong m1 m' a 4 (λ x p q. same x (omega arith) (omega arith)) ∙ at.current;
      offset = get-cong m1 m' (a + 4) 4 (λ x p q. same x (omega arith) (omega arith)) ∙ at.offset;
      acked = get-cong m1 m' (a + 8) 4 (λ x p q. same x (omega arith) (omega arith)) ∙ at.acked;
      buffers =
          get-cong m1 m' (a + 16) 8 (λ x p q. same x (omega arith) (omega arith)) ∙ at.buffers;
      chunks =
          Holds-cong m1 m' (a + 24) (packed queue.q) at.chunks
            (λ x p q. same x (omega arith) (omega arith));
    } in
    deserialize_write_queue-QueueAt m' a queue old w fits at'
    ∙ ap (λ k. (record queue { q = old.q ++ queue.q }, k)) (sym n)
