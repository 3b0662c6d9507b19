-- ===== src/Update/Storing.antt =====
-- What `update_store_data` leaves behind, for a callback that appends items.
use mathlib.Core.Path.{subst}
use live_update.Base.{
  ℕ, ◌+◌, ◌^◌, ◌≤◌, ◌<◌, ◌≡◌, ◌≢◌, refl, sym, ◌⊎◌, inl, inr, ◌∙◌, ap, Bool, true, false, Option,
  List, arith, length, if◌then◌else◌, ◌&&◌, ◌==◌, Bool-cases,
}
use live_update.Memory.{Ptr, Mem}
use live_update.Memory.Laws.{put-outside}
use live_update.Machine.{
  Run, ok, throw, sanity_check_failed, storage_outside_memory, Error, and_then, and_then-throw,
}
use live_update.World.{World, Buffer}
use live_update.Entry.{Crc}
use live_update.Storage
use live_update.Storage.{get_crc, total_bytes, validate, finalize, liveupd_magic}
use live_update.Storage.Items.{Item, total, IsArea}
use live_update.Storage.Checksum.{IsSealed, finalize-IsSealed, finalize-outside, IsSealed-cong}
use live_update.Storage.Validate.{validate-IsSealed, validate-unset}
use live_update.Update.{StorageFunc, lift, call_back, update_store_data, stored_data_length}
use live_update.Update.Calls.{Stored}

-- The constructor writes the 20 bytes of the header only.
pub construct-outside :
    (sh : Ptr) (m : Mem) (x : Ptr) → (x < sh) ⊎ (sh + 20 ≤ x) → Storage.construct sh m x ≡ m x
unfolding Storage.construct
construct-outside sh m x h =
    put-outside _ (sh + 16) 4 0 x (omega arith)
    ∙ put-outside _ (sh + 12) 4 0 x (omega arith)
    ∙ put-outside _ (sh + 8) 4 0 x (omega arith)
    ∙ put-outside m sh 8 liveupd_magic x (omega arith)

-- The callback, if there is one, appends the items to a fresh header.
abbrev pub Stores {ℓ} :
    {U : Type ℓ} → Ptr → Ptr → Option (StorageFunc U) → Option Buffer → World U → List Item → Type ℓ
Stores sh hi func blob w is =
    let w1 = record w { mem = Storage.construct sh w.mem } in
    Stored sh hi w1 is (call_back func sh blob w1)

total_bytes-IsSealed :
    {crc : Crc} {sh : Ptr} {m : Mem} {is : List Item}
    → IsSealed crc m sh is
    → total_bytes m sh ≡ 32 + total is
unfolding total_bytes
total_bytes-IsSealed s = rw s.complete.header.length (omega arith)

module _ {ℓ} {U : Type ℓ} (crc : Crc) (sh : Ptr) where
  -- The outcome of storing: a sealed area, and the number of its bytes; if the sanity checks are on, an
  -- area whose checksum happens to be 0 is refused.
  pub record IsUpdateStored (hi : Ptr) (w : World U) (is : List Item) (r : Run ℕ × World U)
      : Type ℓ where
    pub mem : Mem
    pub area : IsSealed crc mem sh is
    pub same : (x : Ptr) → (x < sh) ⊎ (hi ≤ x) → mem x ≡ w.mem x
    pub returns : r ≡ (
      (if w.sanity_checks && get_crc mem sh == 0
          then throw sanity_check_failed
          else ok (32 + total is)),
      record w { mem = mem },
    )

  -- The end of `update_store_data`: the area is validated if the sanity checks are on.
  stored_data_length-IsUpdateStored :
      (w : World U) (is : List Item)
      → IsSealed crc w.mem sh is
      → IsUpdateStored (sh + 20) w is (stored_data_length crc sh w)
  unfolding stored_data_length
  stored_data_length-IsUpdateStored w is s = elim (Bool-cases w.sanity_checks) [
    | inl on ↦ elim (Bool-cases (get_crc w.mem sh == 0)) [
      | inl bad ↦ record {
        mem = w.mem;
        area = s;
        same = λ x a. refl;
        returns = rw (on, bad, validate-unset crc w.mem sh (ground arith));
      }
      | inr good ↦
          let (m1, valid, s1, kept, same) = validate-IsSealed crc w.mem sh s (λ e. ground arith) in
          record {
            mem = m1;
            area = s1;
            same = λ x a. same x (omega arith);
            returns = rw (on, valid, total_bytes-IsSealed s1, kept, good);
          }
    ]
    | inr off ↦ record {
      mem = w.mem;
      area = s;
      same = λ x a. refl;
      returns = rw (off, total_bytes-IsSealed s);
    }
  ]

  -- `finalize` and what follows it, on the area that a callback has filled.
  sealing :
      (w : World U) (is : List Item) (hi : Ptr)
      → IsArea w.mem sh is
      → length is + 1 < 2 ^ 32
      → total is + 8 < 2 ^ 32
      → sh + 20 + total is + 8 ≤ w.heap_max
      → sh + 20 + total is + 10 ≤ hi
      → IsUpdateStored hi w is
          (and_then (lift (finalize crc w.heap_max sh) w) λ _ w3. stored_data_length crc sh w3)
  sealing w is hi area count bytes fits room =
      let (m2, e, s, same) = finalize-IsSealed crc w.heap_max area count bytes fits in
      let end = stored_data_length-IsUpdateStored (record w { mem = m2 }) is s in
      record {
        mem = end.mem;
        area = end.area;
        same = λ x a. end.same x (omega arith) ∙ same x (omega arith);
        returns = rw e end.returns;
      }

  -- A callback that has left an area in some world.
  pub update_store_data-area :
      (w w2 : World U) (func : Option (StorageFunc U)) (blob : Option Buffer) (is : List Item)
      (hi : Ptr)
      → call_back func sh blob (record w { mem = Storage.construct sh w.mem }) ≡ (ok tt, w2)
      → IsArea w2.mem sh is
      → length is + 1 < 2 ^ 32
      → total is + 8 < 2 ^ 32
      → sh + 20 + total is + 8 ≤ w2.heap_max
      → sh + 20 + total is + 10 ≤ hi
      → IsUpdateStored hi w2 is (update_store_data crc sh func blob w)
  unfolding update_store_data
  update_store_data-area w w2 func blob is hi returns area count bytes fits room =
      rw returns (sealing w2 is hi area count bytes fits room)

  -- `update_store_data` with a callback that appends items, whose counts and lengths fit and whose area
  -- ends within the memory: it leaves a sealed area of the items and writes nowhere outside of it, and
  -- returns the number of the area's bytes; with the sanity checks on, an area whose checksum happens to
  -- be 0 is refused with an exception.
  pub update_store_data-IsUpdateStored :
      (w : World U) (func : Option (StorageFunc U)) (blob : Option Buffer) (is : List Item)
      (hi : Ptr)
      → Stores sh hi func blob w is
      → length is + 1 < 2 ^ 32
      → total is + 8 < 2 ^ 32
      → sh + 20 + total is + 8 ≤ w.heap_max
      → sh + 20 + total is + 10 ≤ hi
      → IsUpdateStored hi w is (update_store_data crc sh func blob w)
  update_store_data-IsUpdateStored w func blob is hi st count bytes fits room =
      let w2 = record w { mem = st.mem } in
      let end =
        update_store_data-area w w2 func blob is hi st.returns st.area count bytes fits room in
      record {
        mem = end.mem;
        area = end.area;
        same = λ x a. end.same x a ∙ st.same x a ∙ construct-outside sh w.mem x (omega arith);
        returns = end.returns;
      }

  -- A callback that throws: nothing is sealed, and the exception comes out.
  pub update_store_data-throws :
      (w w1 : World U) (func : Option (StorageFunc U)) (blob : Option Buffer) (e : Error)
      → call_back func sh blob (record w { mem = Storage.construct sh w.mem }) ≡ (throw e, w1)
      → update_store_data crc sh func blob w ≡ (throw e, w1)
  unfolding update_store_data
  update_store_data-throws w w1 func blob e h = rw h

  -- `update_store_data` throws where the callback's items, whose counts and lengths fit, end behind the
  -- memory.
  pub update_store_data-outside :
      (w : World U) (func : Option (StorageFunc U)) (blob : Option Buffer) (is : List Item)
      (hi : Ptr)
      → Stores sh hi func blob w is
      → length is + 1 < 2 ^ 32
      → total is + 8 < 2 ^ 32
      → w.heap_max < sh + 20 + total is + 8
      → (update_store_data crc sh func blob w).0 ≡ throw storage_outside_memory
  unfolding update_store_data
  update_store_data-outside w func blob is hi st count bytes over = rw st.returns (
      and_then-throw (lift (finalize crc w.heap_max sh) (record w { mem = st.mem })) _ _
        (finalize-outside crc w.heap_max st.area count bytes over))

  pub ok-checked :
      {w w1 : World U} {is : List Item} {hi : Ptr} {r : Run ℕ × World U} {n : ℕ}
      → w.sanity_checks ≡ true
      → IsUpdateStored hi w is r
      → r ≡ (ok n, w1)
      → IsSealed crc w1.mem sh is × (get_crc w1.mem sh ≢ 0) × (n ≡ 32 + total is)
  ok-checked {w} {w1} {is} {n} on u e =
      let refused = w.sanity_checks && get_crc u.mem sh == 0 in
      let outcome = λ (b : Bool). (if b then throw sanity_check_failed else ok (32 + total is)) in
      let known : outcome refused ≡ ok n = ap (λ r. r.0) (sym u.returns ∙ e) in
      let mem : u.mem ≡ w1.mem = ap (λ r. r.1.mem) (sym u.returns ∙ e) in
      elim (Bool-cases (get_crc u.mem sh == 0)) [
        | inl bad ↦
            let test : refused ≡ true = rw (on, bad) in
            let clash : throw sanity_check_failed ≡ ok n = rw test at known in cc
        | inr good ↦
            let test : refused ≡ false = rw (on, good) in
            let count : ok (32 + total is) ≡ ok n = rw test at known in
            (subst (λ m. IsSealed crc m sh is) mem u.area, rw (← mem) (λ z. ground arith), cc)
      ]

-- What a new kernel finds that has the area's bytes as the storing left them: a sealed area of the items,
-- with a checksum that is not 0.
pub update-IsSealed {ℓ} :
    {U : Type ℓ} (crc : Crc) (sh hi : Ptr) (is : List Item) (w w1 : World U)
    (func : Option (StorageFunc U)) (blob : Option Buffer) (n : ℕ) (m : Mem)
    → Stores sh hi func blob w is
    → length is + 1 < 2 ^ 32
    → total is + 8 < 2 ^ 32
    → sh + 20 + total is + 8 ≤ w.heap_max
    → sh + 20 + total is + 10 ≤ hi
    → w.sanity_checks ≡ true
    → update_store_data crc sh func blob w ≡ (ok n, w1)
    → ((x : Ptr) → sh ≤ x → x < sh + n → m x ≡ w1.mem x)
    → IsSealed crc m sh is × (get_crc m sh ≢ 0)
update-IsSealed crc sh hi is w w1 func blob n m st count bytes fits room on done kept =
    let stored =
      update_store_data-IsUpdateStored crc sh w func blob is hi st count bytes fits room in
    let (sealed, set, size) = ok-checked crc sh on stored done in
    let (sealed', crc') = IsSealed-cong crc {m' = m} sealed (λ x a b. kept x a (omega arith)) in
    (sealed', rw crc' set)
