-- ===== src/Tcp/Connections/Sleep.antt =====
-- Which IP stacks a restored connection puts to sleep.
use live_update.Base.{
  ℕ, ◌≡◌, refl, ◌∙◌, Bool, true, false, ◌&&◌, List, [], ◌∷◌, ltb, ◌==◌, if◌then◌else◌, arith, ◌+◌,
  Bool-cases, inl, inr,
}
use live_update.Memory.{Ptr}
use live_update.Machine.{ok}
use live_update.World.{World}
use live_update.Tcp.{WriteQueue}
use live_update.Tcp.Connections.{
  Layout, Connection, deserialize_fields, deserialize_connection, insert,
}

-- How often a stack is in the list: a set has each once at most.
abbrev pub count : ℕ → List ℕ → ℕ
count y [] = 0
count y (x ∷ xs) = (if y == x then 1 else 0) + count y xs

count-insert :
    (y x : ℕ) (xs : List ℕ)
    → count y (insert x xs)
      ≡ (if y == x then (if ltb 0 (count y xs) then count y xs else 1) else count y xs)
unfolding insert
count-insert y x [] = ground arith
count-insert y x (z ∷ zs) = ground (arith, count-insert y x zs)

if-and_true : (b : Bool) (m n : ℕ) → (if b then m else n) ≡ (if b && true then m else n)
if-and_true true m n = refl
if-and_true false m n = refl

if-and_false : (b : Bool) (m n : ℕ) → n ≡ (if b && false then m else n)
if-and_false true m n = refl
if-and_false false m n = refl

-- Where the stored fields decode to a connection, `deserialize_connection` returns it and leaves the
-- memory; it puts the connection's IP stack to sleep exactly if the connection has something to send, a
-- stack that sleeps already is not entered twice, and no other stack's entry changes.
pub deserialize_connection-sleeps {ℓ} :
    {U : Type ℓ} (l : Layout) (version : ℕ) (sendq_size : WriteQueue → ℕ) (stack : ℕ) (area : Ptr)
    (w : World U) (conn : Connection) (y : ℕ)
    → deserialize_fields l version w.mem area ≡ ok conn
    → let (r, w1) = deserialize_connection l version sendq_size stack area w in
      (r ≡ ok conn)
      × (w1.mem ≡ w.mem)
      × (count y w1.slumbering ≡ (
          if y == stack && ltb 0 (sendq_size conn.writeq)
          then (if ltb 0 (count y w.slumbering) then count y w.slumbering else 1)
          else count y w.slumbering))
unfolding deserialize_connection
deserialize_connection-sleeps l version sendq_size stack area w conn y h =
    elim (Bool-cases (ltb 0 (sendq_size conn.writeq))) [
      | inl sends ↦
          rw (h, sends)
            (refl, refl, count-insert y stack w.slumbering ∙ if-and_true (y == stack) _ _)
      | inr idle ↦ rw (h, idle) (refl, refl, if-and_false (y == stack) _ _)
    ]

-- The same as one equation: of the world, only the set of sleeping stacks may have changed.
pub deserialize_connection-ok {ℓ} :
    {U : Type ℓ} (l : Layout) (version : ℕ) (sendq_size : WriteQueue → ℕ) (stack : ℕ) (area : Ptr)
    (w : World U) (conn : Connection)
    → deserialize_fields l version w.mem area ≡ ok conn
    → (stacks : List ℕ) × (deserialize_connection l version sendq_size stack area w
        ≡ (ok conn, record w { slumbering = stacks }))
unfolding deserialize_connection
deserialize_connection-ok l version sendq_size stack area w conn h =
    elim (Bool-cases (ltb 0 (sendq_size conn.writeq))) [
      | inl sends ↦ (insert stack w.slumbering, rw (h, sends) refl)
      | inr idle ↦ (w.slumbering, rw (h, idle) refl)
    ]
