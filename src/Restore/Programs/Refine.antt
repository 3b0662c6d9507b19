-- ===== src/Restore/Programs/Refine.antt =====
-- A handler's program does on the memory what it does on the items.
use mathlib.Core.Path.{subst}
use live_update.Base.{ℕ, ◌+◌, ◌<◌, ◌≡◌, refl, sym, ◌∙◌, List, [], ◌∷◌, arith, ◌==◌, length}
use live_update.Memory.{Ptr}
use live_update.Machine.{Run, ok, throw, aborted, starved, and_then}
use live_update.World.{World}
use live_update.Entry.{type_end, type_marker, type_integer, type_string, type_buffer}
use live_update.Storage.Items.{Item, body, total}
use live_update.Restore
use live_update.Restore.{get_type, is_end, is_int, is_marker}
use live_update.Restore.Walk.{IsRest, go_next-cons, go_next-nil}
use live_update.Restore.Markers.{
  past_marker, pop_marker_id_spec, Lands, pop_marker_lem, pop_marker_id_lem, cancel_lem,
}
use live_update.Restore.Programs.{
  Program, run_program, run_on_items, type_at, id_at, len_at, int_at, bytes_at, object_at,
  vector_at, strings_at, next_id_at,
}
use live_update.Restore.Programs.Readers.{
  Refines, ≡-Refines, get_type-IsRest, get_id-IsRest, length-IsRest, as_int-IsRest,
  as_string-IsRest, as_buffer-IsRest, as_type-IsRest, strings-IsRest, next_id-IsRest,
}
use live_update.Restore.Programs.Suffix.{
  Suffix, here, skip, Suffix-trans, Suffix-nil, Suffix-length, past_marker-Suffix,
  pop_marker_id_spec-Suffix,
}
use live_update.Restore.Programs.Vectors.{as_vector-IsRest}

module _ {ℓ} {U : Type ℓ} where
  -- The outcome `r` on the memory, of a program that starts at `p` with the items `is`, is the outcome `s` on
  -- the items: the entry at which it ends has exactly the items that are left, and the service's state is the
  -- same; the memory is as before.
  abbrev pub Agrees : World U → Ptr → List Item → Run Ptr × World U → Run (List Item) × U → Type ℓ
  Agrees w p is r (ok rest, u) =
      (q : Ptr) × (r ≡ (ok q, record w { user = u }))
      × IsRest w.mem q rest
      × (q + total rest ≡ p + total is)
      × Suffix rest is
  Agrees w p is r (throw e, u) = r ≡ (throw e, record w { user = u })
  Agrees w p is r (aborted, u) = r ≡ (aborted, record w { user = u })
  Agrees w p is r (starved, u) = Unit

  -- From a later entry on.
  Agrees-shift :
      (w : World U) (p q : Ptr) (is rest : List Item) (r : Run Ptr × World U)
      (s : Run (List Item) × U)
      → q + total rest ≡ p + total is
      → Suffix rest is
      → Agrees w q rest r s
      → Agrees w p is r s
  Agrees-shift w p q is rest r (ok left, u) e t (at, out, at_rest, sum, left_of) =
      (at, out, at_rest, sum ∙ e, Suffix-trans left_of t)
  Agrees-shift w p q is rest r (throw x, u) e t a = a
  Agrees-shift w p q is rest r (aborted, u) e t a = a
  Agrees-shift w p q is rest r (starved, u) e t a = a

  -- A call that reads, and what follows.
  Agrees-read {κ} :
      {A : Type κ} (w : World U) (p : Ptr) (is : List Item) (r s : Run A)
      (k : A → World U → Run Ptr × World U) (k' : A → U → Run (List Item) × U)
      → Refines r s
      → ((v : A) → Agrees w p is (k v w) (k' v w.user))
      → Agrees w p is (and_then (r, w) k) (and_then (s, w.user) k')
  Agrees-read w p is r (ok v) k k' e h =
      subst (λ x. Agrees w p is (and_then (x, w) k) (k' v w.user)) (sym e) (h v)
  Agrees-read w p is r (throw x) k k' e h = rw e refl
  Agrees-read w p is r aborted k k' e h = rw e refl
  Agrees-read w p is r starved k k' e h = tt

  -- A call that moves, and what follows.
  Agrees-move {κ} :
      {A : Type κ} (w : World U) (p q : Ptr) (is rest : List Item) (r : Run A) (v : A)
      (k : A → World U → Run Ptr × World U) (s : Run (List Item) × U)
      → r ≡ ok v
      → q + total rest ≡ p + total is
      → Suffix rest is
      → Agrees w q rest (k v w) s
      → Agrees w p is (and_then (r, w) k) s
  Agrees-move w p q is rest r v k s e sum t a =
      subst (λ x. Agrees w p is (and_then (x, w) k) s) (sym e)
        (Agrees-shift w p q is rest (k v w) s sum t a)

  -- A program of calls of class Restore, at an entry of a complete area and with more fuel than entries,
  -- does on the memory what it does on the list of the items from there on: it ends at the entry that has
  -- exactly the items that are left, with the same state of the service, or throws or aborts alike, and
  -- the memory is as before. (It is left open where the program reads an integer as an object, a vector or
  -- a vector of strings whose bytes are not those of one.)
  pub run_program-Agrees :
      (fuel : ℕ) (prog : Program U) (p : Ptr) (is : List Item) (w : World U)
      → IsRest w.mem p is
      → length is < fuel
      → Agrees w p is (run_program fuel prog p w) (run_on_items prog is w.user)
  unfolding run_program run_on_items is_end is_int is_marker
  run_program-Agrees fuel Program.done p is w r h = (p, refl, r, refl, here)
  run_program-Agrees fuel Program.abort p is w r h = refl
  run_program-Agrees fuel (Program.fail e) p is w r h = refl
  run_program-Agrees fuel (Program.set u k) p is w r h =
      run_program-Agrees fuel k p is (record w { user = u }) r h
  run_program-Agrees fuel (Program.get_type k) p is w r h =
      rw (get_type-IsRest is r) (run_program-Agrees fuel (k (type_at is)) p is w r h)
  run_program-Agrees fuel (Program.get_id k) p is w r h =
      rw (get_id-IsRest is r) (run_program-Agrees fuel (k (id_at is)) p is w r h)
  run_program-Agrees fuel (Program.length k) p is w r h =
      rw (length-IsRest is r) (run_program-Agrees fuel (k (len_at is)) p is w r h)
  run_program-Agrees fuel (Program.is_end k) p is w r h =
      rw (get_type-IsRest is r) (run_program-Agrees fuel (k (type_at is == type_end)) p is w r h)
  run_program-Agrees fuel (Program.is_int k) p is w r h =
      rw (get_type-IsRest is r)
        (run_program-Agrees fuel (k (type_at is == type_integer)) p is w r h)
  run_program-Agrees fuel (Program.is_marker k) p is w r h =
      rw (get_type-IsRest is r) (run_program-Agrees fuel (k (type_at is == type_marker)) p is w r h)
  run_program-Agrees fuel (Program.as_int k) p is w r h =
      Agrees-read w p is (Restore.as_int w.mem p) (int_at is) _ (λ v. run_on_items (k v) is)
        (≡-Refines _ (int_at is) (as_int-IsRest is r))
        (λ v. run_program-Agrees fuel (k v) p is w r h)
  run_program-Agrees fuel (Program.next_id k) p is w r h =
      Agrees-read w p is (Restore.next_id w.mem p) (next_id_at is) _ (λ v. run_on_items (k v) is)
        (≡-Refines _ (next_id_at is) (next_id-IsRest is r))
        (λ v. run_program-Agrees fuel (k v) p is w r h)
  run_program-Agrees fuel (Program.as_string k) p is w r h =
      Agrees-read w p is (Restore.as_string w.mem p) (bytes_at type_string is) _
        (λ v. run_on_items (k v) is) (≡-Refines _ (bytes_at type_string is) (as_string-IsRest is r))
        (λ v. run_program-Agrees fuel (k v) p is w r h)
  run_program-Agrees fuel (Program.as_buffer k) p is w r h =
      Agrees-read w p is (Restore.as_buffer w.mem p) (bytes_at type_buffer is) _
        (λ v. run_on_items (k v) is) (≡-Refines _ (bytes_at type_buffer is) (as_buffer-IsRest is r))
        (λ v. run_program-Agrees fuel (k v) p is w r h)
  run_program-Agrees fuel (Program.as_type size k) p is w r h =
      Agrees-read w p is (Restore.as_type size w.mem p) (object_at size is) _
        (λ v. run_on_items (k v) is) (as_type-IsRest size is r)
        (λ v. run_program-Agrees fuel (k v) p is w r h)
  run_program-Agrees fuel (Program.as_vector size k) p is w r h =
      Agrees-read w p is (Restore.as_vector size w.mem p) (vector_at size is) _
        (λ v. run_on_items (k v) is) (as_vector-IsRest size is r)
        (λ v. run_program-Agrees fuel (k v) p is w r h)
  run_program-Agrees fuel (Program.as_strings k) p is w r h =
      Agrees-read w p is (Restore.rebuild_string_vector w.mem p) (strings_at is) _
        (λ v. run_on_items (k v) is) (strings-IsRest is r)
        (λ v. run_program-Agrees fuel (k v) p is w r h)
  run_program-Agrees fuel (Program.pop_marker k) p is w r h =
      let (q, e, at, sum) = pop_marker_lem fuel p is r h in
      let id = (past_marker is).0 in
      let rest = (past_marker is).1 in
      Agrees-move w p q is rest (Restore.pop_marker fuel w.mem p) (id, q) _
        (run_on_items (k id) rest w.user) e sum (past_marker-Suffix is)
        (run_program-Agrees fuel (k id) q rest w at
          (omega (arith, Suffix-length (past_marker-Suffix is))))
  run_program-Agrees fuel (Program.go_next k) p [] w r h = rw (go_next-nil r) refl
  run_program-Agrees fuel (Program.go_next k) p (i ∷ is) w r h =
      let (step, rest) = go_next-cons r in
      let q = p + (8 + body i) in
      Agrees-move w p q (i ∷ is) is (Restore.go_next w.mem p) q _ (run_on_items k is w.user) step
        (omega arith) (skip here) (run_program-Agrees fuel k q is w rest (omega arith))
  run_program-Agrees fuel (Program.cancel k) p is w r h =
      let (q, e, at, sum) = cancel_lem fuel p is r h in
      Agrees-move w p q is [] (Restore.cancel fuel w.mem p) q _ (run_on_items k [] w.user) e sum
        (Suffix-nil is) (run_program-Agrees fuel k q [] w at (omega arith))
  run_program-Agrees fuel (Program.pop_marker_id id k) p is w r h =
      past (λ q rest at h'. run_program-Agrees fuel k q rest w at h') (pop_marker_id_spec id is)
        refl (pop_marker_id_lem id fuel p is r h)
    where
      past :
          ((q : Ptr) (rest : List Item)
            → IsRest w.mem q rest
            → length rest < fuel
            → Agrees w q rest (run_program fuel k q w) (run_on_items k rest w.user))
          → (s : Run (List Item)) → pop_marker_id_spec id is ≡ s
          → Lands w.mem p is s (Restore.pop_marker_id id fuel w.mem p)
          → Agrees w p is
              (and_then (Restore.pop_marker_id id fuel w.mem p, w) (run_program fuel k))
              (and_then (s, w.user) (run_on_items k))
      past ih (ok rest) e (q, e', at, sum) =
          Agrees-move w p q is rest (Restore.pop_marker_id id fuel w.mem p) q _
            (run_on_items k rest w.user) e' sum (pop_marker_id_spec-Suffix id is rest e)
            (ih q rest at (omega (arith, Suffix-length (pop_marker_id_spec-Suffix id is rest e))))
      past ih (throw x) e e' = rw e' refl
      past ih aborted e f = absurd f
      past ih starved e f = absurd f
