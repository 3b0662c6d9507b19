-- ===== src/Update/Connections.antt =====
-- A TCP connection that a service stores with `add_connection`, and takes with `as_tcp_connection`.
use mathlib.Core.Path.{subst}
use live_update.Base.{
  ℕ, ◌+◌, ◌^◌, ◌≤◌, ◌<◌, ◌≡◌, refl, ap, true, ltb, ◌==◌, ◌&&◌, if◌then◌else◌, Option, some, List,
  [], ◌∷◌, ◌++◌, arith, length, All,
}
use live_update.Memory.{Ptr, Mem}
use live_update.Machine.{ok}
use live_update.World.{World, Buffer}
use live_update.Entry
use live_update.Entry.{Crc, type_tcp}
use live_update.Storage.Items.{total, body, IsSized, Chain}
use live_update.Storage.Grow.{Chain-at}
use live_update.Tcp.{WriteQueue}
use live_update.Tcp.Connections.{Layout, Connection, serialize_connection, as_tcp_connection}
use live_update.Tcp.Connections.Sleep.{count, deserialize_connection-sleeps}
use live_update.Tcp.Connections.Stored.{
  IsStorable, connection_bytes, serialize_connection-Writes, connection_bytes-restored,
}
use live_update.Update.{update_store_data}
use live_update.Update.Calls.{Call, item_of, items_of, AllReady, run_calls}
use live_update.Update.Storing.{update-IsSealed}
use live_update.Update.RoundTrip.{run_calls-Stores}

pub items_of-append : (cs ds : List Call) → items_of (cs ++ ds) ≡ items_of cs ++ items_of ds
items_of-append [] ds = refl
items_of-append (c ∷ cs) ds = ap (λ is. item_of c ∷ is) (items_of-append cs ds)

pub length-items_of : (cs : List Call) → length (items_of cs) ≡ length cs
length-items_of [] = refl
length-items_of (c ∷ cs) = omega (arith, length-items_of cs)

pub AllReady-append :
    (m : Mem) (lo hi pos : Ptr) (cs ds : List Call)
    → AllReady m lo hi pos cs
    → AllReady m lo hi (pos + total (items_of cs)) ds
    → AllReady m lo hi pos (cs ++ ds)
AllReady-append m lo hi pos [] ds r q = subst (λ p. AllReady m lo hi p ds) (omega arith) q
AllReady-append m lo hi pos (c ∷ cs) ds r q = (
  r.0,
  AllReady-append m lo hi (pos + (8 + body (item_of c))) cs ds r.1
      (subst (λ p. AllReady m lo hi p ds) (omega arith) q),
)

-- A connection that `add_connection` stores is the one that `as_tcp_connection` restores. Calls before and
-- behind it store what they like, the connection fits where its entry will stand, items are sized, and the
-- storing returns. Then in a world that agrees on the area's bytes, the entry has the type of a TCP
-- connection and the id, `as_tcp_connection` of it returns the connection and leaves the memory, and puts
-- the connection's IP stack to sleep exactly if it has something to send, and no other stack.
pub stored_connection-restored {ℓ κ} :
    {U : Type ℓ} {V : Type κ} (crc : Crc) (sh hi : Ptr) (l : Layout) (conn : Connection)
    (now prev id : ℕ) (sendq_size : WriteQueue → ℕ) (stack y : ℕ) (before after : List Call)
    (blob : Option Buffer) (w w1 : World U) (n : ℕ) (v : World V)
    → let pos = sh + 20 + total (items_of before) in
      let bs = connection_bytes l conn (pos + 8) w.mem in
      let cs = before ++ (Call.connection id (serialize_connection l 1 conn) bs ∷ after) in
      IsStorable l conn now prev (pos + 8) w.mem
      → AllReady w.mem sh hi (sh + 20) before
      → AllReady w.mem sh hi (pos + (8 + length bs)) after
      → All IsSized (items_of cs)
      → length cs + 1 < 2 ^ 32
      → total (items_of cs) + 8 < 2 ^ 32
      → sh + 20 + total (items_of cs) + 8 ≤ w.heap_max
      → sh + 20 + total (items_of cs) + 10 ≤ hi
      → w.sanity_checks ≡ true
      → update_store_data crc sh (some (λ hdr _. run_calls hdr cs)) blob w ≡ (ok n, w1)
      → ((x : Ptr) → sh ≤ x → x < sh + n → v.mem x ≡ w1.mem x)
      → let (r, v1) = as_tcp_connection l 1 sendq_size stack pos v in
        (Entry.type v.mem pos ≡ type_tcp)
        × (Entry.id v.mem pos ≡ id)
        × (r ≡ ok conn)
        × (v1.mem ≡ v.mem)
        × (count y v1.slumbering ≡ (
            if y == stack && ltb 0 (sendq_size conn.writeq)
            then (if ltb 0 (count y v.slumbering) then count y v.slumbering else 1)
            else count y v.slumbering))
unfolding as_tcp_connection
stored_connection-restored crc sh hi l conn now prev id sendq_size stack y before after blob w w1 n
      v s ready_before ready_after sized few bytes fits room on done kept =
    let pos = sh + 20 + total (items_of before) in
    let bs = connection_bytes l conn (pos + 8) w.mem in
    let call = Call.connection id (serialize_connection l 1 conn) bs in
    let cs = before ++ (call ∷ after) in
    let ready =
      AllReady-append w.mem sh hi (sh + 20) before (call ∷ after) ready_before
        (λ m1 same. serialize_connection-Writes m1 s same, ready_after) in
    let stores =
      run_calls-Stores sh hi cs blob w ready sized (omega arith) (omega arith) (omega arith) in
    let (sealed, _) =
      update-IsSealed crc sh hi (items_of cs) w w1 (some (λ hdr _. run_calls hdr cs)) blob n v.mem
        stores (omega (arith, length-items_of cs)) bytes fits room on done kept in
    let item = Chain-at (sh + 20) (items_of before) (item_of call) (items_of after) (
      subst (Chain v.mem (sh + 20)) (items_of-append before (call ∷ after))
        sealed.complete.chain) in
    let restored = connection_bytes-restored v.mem s item.rest in
    let (r, m, c) =
      deserialize_connection-sleeps l 1 sendq_size stack (Entry.vla pos) v conn y restored in
    (item.head.has_type, item.head.has_id, r, m, c)
