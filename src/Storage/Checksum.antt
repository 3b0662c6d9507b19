-- ===== src/Storage/Checksum.antt =====
-- The checksum: `finalize` sets it.
use live_update.Base.{
  ℕ, ◌+◌, ◌^◌, ◌≤◌, ◌<◌, ◌≡◌, ◌≢◌, sym, ◌⊎◌, ◌∙◌, ap, List, arith, ne→==, length,
}
use live_update.Memory.{Ptr, Mem, load, get, put}
use live_update.Memory.Laws.{
  put-cong, put-outside, get-put_self, get-put_other, put-put, get-cong, load-cong,
}
use live_update.Machine.{ok, throw, magic_invalidated, storage_outside_memory, and_then-throw}
use live_update.Entry.{Crc}
use live_update.Storage.{
  get_magic, get_length, get_crc, add_end, finalize, generate_checksum, liveupd_magic,
}
use live_update.Storage.Items.{Item, total, IsArea}
use live_update.Storage.Append.{IsHeader-cong, HasHead-cong}
use live_update.Storage.Grow.{Chain-cong}
use live_update.Storage.Seal.{IsComplete, add_end-IsComplete, add_end-throws}

module _ (crc : Crc) where
  -- The checksum of an area: of the header's and the entries' bytes, the field `crc` read as 0.
  abbrev pub checksum_of : Mem → Ptr → ℕ
  checksum_of m sh = crc.run (load (put m (sh + 8) 4 0) sh (24 + get_length m sh))

  checksum_of-put :
      (m : Mem) (sh : Ptr) (v : ℕ) → checksum_of (put m (sh + 8) 4 v) sh ≡ checksum_of m sh
  unfolding get_length
  checksum_of-put m sh v =
      ap (λ m1. crc.run (load m1 sh (24 + get (put m (sh + 8) 4 v) (sh + 16) 4)))
        (put-put m (sh + 8) 4 v 0)
      ∙ ap (λ k. crc.run (load (put m (sh + 8) 4 0) sh (24 + k)))
          (get-put_other m (sh + 8) 4 v (sh + 16) 4 (omega arith))

  -- `generate_checksum` computes it, and restores the field.
  pub generate_checksum_lem :
      (m : Mem) (sh : Ptr)
      → generate_checksum crc sh m ≡ (checksum_of m sh, put m (sh + 8) 4 (get_crc m sh))
  unfolding generate_checksum get_length
  generate_checksum_lem m sh = rw (
    put-put m (sh + 8) 4 0 (get_crc m sh),
    get-put_other m (sh + 8) 4 0 (sh + 16) 4 (omega arith),
  )

  -- An area is sealed: complete, with its checksum in the field `crc`.
  pub record IsSealed (m : Mem) (sh : Ptr) (is : List Item) : Type 0 where
    pub complete : IsComplete m sh is
    pub sum : get_crc m sh ≡ checksum_of m sh

  -- A write to the field `crc` spares all else.
  IsComplete-put_crc :
      {m : Mem} {sh : Ptr} {is : List Item} (v : ℕ)
      → IsComplete m sh is
      → IsComplete (put m (sh + 8) 4 v) sh is
  IsComplete-put_crc {m} {sh} {is} v c = record {
    header = IsHeader-cong c.header (λ x a b d. put-outside m (sh + 8) 4 v x (omega arith));
    chain = Chain-cong (sh + 20) is c.chain (λ x a b. put-outside m (sh + 8) 4 v x (omega arith));
    end = HasHead-cong c.end (λ x a b. put-outside m (sh + 8) 4 v x (omega arith));
  }

  pub IsSealed-put_crc :
      {m : Mem} {sh : Ptr} {is : List Item} (v : ℕ)
      → IsComplete m sh is
      → v ≡ checksum_of m sh
      → IsSealed (put m (sh + 8) 4 v) sh is
  unfolding get_crc
  IsSealed-put_crc {m} {sh} v c e = record {
    complete = IsComplete-put_crc v c;
    sum = get-put_self m (sh + 8) 4 v (rw e (crc.bound _)) ∙ e ∙ sym (checksum_of-put m sh v);
  }

  covered_size :
      {m : Mem} {sh : Ptr} {is : List Item}
      → IsComplete m sh is
      → 24 + get_length m sh ≡ 32 + total is
  covered_size c = rw c.header.length (omega arith)

  -- A sealed area is sealed in every memory with the same bytes there.
  pub IsSealed-cong :
      {m m' : Mem} {sh : Ptr} {is : List Item}
      → IsSealed m sh is
      → ((x : Ptr) → sh ≤ x → x < sh + 32 + total is → m' x ≡ m x)
      → IsSealed m' sh is × (get_crc m' sh ≡ get_crc m sh)
  unfolding get_crc get_length
  IsSealed-cong {m} {m'} {sh} {is} s same =
      let c = s.complete in
      let field : get m' (sh + 8) 4 ≡ get m (sh + 8) 4 =
        get-cong m m' (sh + 8) 4 (λ x a b. same x (omega arith) (omega arith)) in
      let c' : IsComplete m' sh is = record {
        header = IsHeader-cong c.header (λ x a b d. same x a (omega arith));
        chain = Chain-cong (sh + 20) is c.chain (λ x a b. same x (omega arith) (omega arith));
        end = HasHead-cong c.end (λ x a b. same x (omega arith) (omega arith));
      } in
      let bytes : load (put m' (sh + 8) 4 0) sh (32 + total is)
          ≡ load (put m (sh + 8) 4 0) sh (32 + total is) =
        load-cong _ _ sh (32 + total is)
          (λ x a b. put-cong m m' (sh + 8) 4 0 x (same x a (omega arith))) in
      let covered : checksum_of m' sh ≡ checksum_of m sh =
        ap (λ k. crc.run (load (put m' (sh + 8) 4 0) sh k)) (covered_size c')
        ∙ ap crc.run bytes
        ∙ sym (ap (λ k. crc.run (load (put m (sh + 8) 4 0) sh k)) (covered_size c)) in
      (record { complete = c'; sum = field ∙ s.sum ∙ sym covered }, field)

  -- `finalize` of an area that holds some items, with fields that do not overflow and an end within the
  -- memory, succeeds and seals it: the same items, an entry of type END behind them, and the checksum set;
  -- it writes nowhere outside the area.
  pub finalize-IsSealed :
      {m : Mem} {sh : Ptr} {is : List Item} (heap_max : ℕ)
      → IsArea m sh is
      → length is + 1 < 2 ^ 32
      → total is + 8 < 2 ^ 32
      → sh + 20 + total is + 8 ≤ heap_max
      → (m2 : Mem) × (finalize crc heap_max sh m ≡ (ok tt, m2))
        × IsSealed m2 sh is
        × ((x : Ptr) → (x < sh) ⊎ (sh + 20 + total is + 10 ≤ x) → m2 x ≡ m x)
  unfolding finalize
  finalize-IsSealed {m} {sh} {is} heap_max area count bytes fits =
      let (m1, e, c, same) = add_end-IsComplete area heap_max count bytes fits in
      let m2 = put m1 (sh + 8) 4 (get_crc m1 sh) in
      let sum = checksum_of m1 sh in
      (
        put m2 (sh + 8) 4 sum,
        rw (area.header.magic, e, generate_checksum_lem m1 sh),
        IsSealed-put_crc sum (IsComplete-put_crc (get_crc m1 sh) c)
            (sym (checksum_of-put m1 sh (get_crc m1 sh))),
        λ x a.
            put-outside m2 (sh + 8) 4 sum x (omega arith)
            ∙ put-outside m1 (sh + 8) 4 (get_crc m1 sh) x (omega arith)
            ∙ same x (omega arith),
      )

  -- An area that ends behind the memory is not sealed.
  pub finalize-outside :
      {m : Mem} {sh : Ptr} {is : List Item} (heap_max : ℕ)
      → IsArea m sh is
      → length is + 1 < 2 ^ 32
      → total is + 8 < 2 ^ 32
      → heap_max < sh + 20 + total is + 8
      → (finalize crc heap_max sh m).0 ≡ throw storage_outside_memory
  unfolding finalize
  finalize-outside {m} {sh} heap_max area count bytes over =
      rw area.header.magic
        (and_then-throw (add_end heap_max sh m) _ _ (add_end-throws area heap_max count bytes over))

  -- A header whose magic has been overwritten is refused before anything is written.
  pub finalize-throws :
      (heap_max : ℕ) (m : Mem) (sh : Ptr)
      → get_magic m sh ≢ liveupd_magic
      → finalize crc heap_max sh m ≡ (throw magic_invalidated, m)
  unfolding finalize
  finalize-throws heap_max m sh h = rw (ne→== _ _ h)
