-- ===== src/Storage/Seal.antt =====
-- The constructor, `add_end`, `finalize`, `validate` and `zero`: how an area begins and ends.
use live_update.Base.{ℕ, ◌+◌, ◌^◌, ◌≤◌, ◌<◌, ◌≡◌, ◌⊎◌, ◌∙◌, List, [], arith, length, lt→ltb, le→ltb}
use live_update.Memory.{Ptr, Mem, put}
use live_update.Memory.Laws.{Apart, put-outside, get-put_self, get-put_other}
use live_update.Machine.{ok, throw, storage_outside_memory}
use live_update.Entry
use live_update.Entry.{type_end, Crc}
use live_update.Storage.{
  get_magic, get_entries, get_length, construct, create_entry, add_end, end_canary, liveupd_magic,
}
use live_update.Storage.Items.{Item, Chain, total, HasHead, IsHeader, IsArea}
use live_update.Storage.Append.{HasHead-put_len, create_entry-Created, IsHeader-cong}
use live_update.Storage.Grow.{Chain-cong}

-- A fresh header counts no entries in no bytes.
pub construct-IsArea : (sh : Ptr) (m : Mem) → IsArea (construct sh m) sh []
unfolding construct get_magic get_entries get_length
construct-IsArea sh m = record {
  header = record {
    magic =
        get-put_other _ (sh + 16) 4 0 sh 8 (omega arith)
        ∙ get-put_other _ (sh + 12) 4 0 sh 8 (omega arith)
        ∙ get-put_other _ (sh + 8) 4 0 sh 8 (omega arith)
        ∙ get-put_self m sh 8 liveupd_magic (omega arith);
    entries =
        get-put_other _ (sh + 16) 4 0 (sh + 12) 4 (omega arith)
        ∙ get-put_self _ (sh + 12) 4 0 (omega arith);
    length = get-put_self _ (sh + 16) 4 0 (omega arith);
  };
  chain = tt;
}

-- The area is complete: its items, then an entry of type END, which the header counts too.
pub record IsComplete (m : Mem) (sh : Ptr) (is : List Item) : Type 0 where
  pub header : IsHeader m sh (length is + 1) (total is + 8)
  pub chain : Chain m (sh + 20) is
  pub end : HasHead m (sh + 20 + total is) type_end 0 0

module _ {m : Mem} {sh : Ptr} {is : List Item} (area : IsArea m sh is) (heap_max : ℕ)
    (count : length is + 1 < 2 ^ 32) (bytes : total is + 8 < 2 ^ 32) where
  pub add_end-IsComplete :
      sh + 20 + total is + 8 ≤ heap_max
      → (m2 : Mem) × (add_end heap_max sh m ≡ (ok tt, m2))
        × IsComplete m2 sh is
        × ((x : Ptr) → (x < sh + 12) ⊎ (sh + 20 + total is + 10 ≤ x) → m2 x ≡ m x)
  unfolding add_end
  add_end-IsComplete fits =
      let p = sh + 20 + total is in
      let (at, c) =
        create_entry-Created type_end 0 0 area.header (omega arith) (omega arith) (omega arith)
          count (omega arith) in
      let m1 = (create_entry sh type_end 0 0 m).1 in
      let m2 = put m1 (p + 4) 4 end_canary in
      let m3 = put m2 (p + 4) 4 0 in
      let kept : Entry.len m2 p ≡ end_canary =
        (HasHead-put_len end_canary c.head (omega arith)).has_len in
      let same : (x : Ptr) → Apart (p + 4) 4 x 1 → m3 x ≡ m1 x =
        λ x a. put-outside m2 (p + 4) 4 0 x a ∙ put-outside m1 (p + 4) 4 end_canary x a in
      (
        m3,
        rw (at, le→ltb heap_max (p + 8) fits, kept),
        record {
          header = IsHeader-cong c.header (λ x a b d. same x (omega arith));
          chain =
              Chain-cong (sh + 20) is area.chain (λ x a b.
                same x (omega arith) ∙ c.same x (omega arith) (omega arith) (omega arith));
          end = HasHead-put_len 0 (HasHead-put_len end_canary c.head (omega arith)) (omega arith);
        },
        λ x a. same x (omega arith) ∙ c.same x (omega arith) (omega arith) (omega arith),
      )

  -- An area that ends outside the memory is refused.
  pub add_end-throws :
      heap_max < sh + 20 + total is + 8 → (add_end heap_max sh m).0 ≡ throw storage_outside_memory
  unfolding add_end
  add_end-throws over =
      let p = sh + 20 + total is in
      let (at, c) =
        create_entry-Created type_end 0 0 area.header (omega arith) (omega arith) (omega arith)
          count (omega arith) in
      rw (at, lt→ltb heap_max (p + 8) over)
