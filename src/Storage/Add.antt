-- ===== src/Storage/Add.antt =====
-- Each `add_` function of the storage area appends the item that it is named after.
use mathlib.Core.Path.{subst}
use live_update.Base.{
  ℕ, ◌+◌, ◌*◌, ◌%◌, ◌^◌, ◌≤◌, ◌<◌, ◌≡◌, refl, ◌⊎◌, ◌∙◌, List, ◌++◌, arith, length, lt→ltb,
}
use live_update.Memory.{Ptr, Mem, load, store, get, put, bytes_of}
use live_update.Memory.Words.{length-bytes_of}
use live_update.Memory.Laws.{
  Apart, Holds, Holds-append, Holds-put, Holds-cong, put-outside, get-put_self, get-put_other,
  load-store_self, store-outside,
}
use live_update.Entry.{type_marker, type_integer, type_string, type_buffer, type_vector}
use live_update.Storage.{
  create_entry, add_marker, add_int, add_string, add_buffer, add_struct, add_vector,
}
use live_update.Storage.Items.{Item, IsHeader, Appended, HasRoom, IsSized}
use live_update.Storage.Append.{Created, create_entry-Created, body_of}
use live_update.Storage.Grow.{Created-Appended}

-- The three writes of a segmented_entry at `a`.
abbrev segments : Ptr → ℕ → ℕ → List ℕ → Mem → Mem
segments a cnt esize bytes m = store (put (put m a 8 cnt) (a + 8) 8 esize) (a + 16) bytes

segments-outside :
    (a : Ptr) (cnt esize : ℕ) (bytes : List ℕ) (m : Mem) (x : Ptr)
    → Apart a (16 + length bytes) x 1
    → segments a cnt esize bytes m x ≡ m x
segments-outside a cnt esize bytes m x h =
    store-outside _ (a + 16) bytes x (omega arith)
    ∙ put-outside _ (a + 8) 8 esize x (omega arith)
    ∙ put-outside m a 8 cnt x (omega arith)

segments-Holds :
    (a : Ptr) (cnt esize : ℕ) (bytes : List ℕ) (m : Mem)
    → Holds (segments a cnt esize bytes m) a (bytes_of 8 cnt ++ (bytes_of 8 esize ++ bytes))
segments-Holds a cnt esize bytes m =
    let m1 = put m a 8 cnt in
    let m2 = put m1 (a + 8) 8 esize in
    let m3 = store m2 (a + 16) bytes in
    let one =
      Holds-cong m2 m3 a (bytes_of 8 cnt)
        (Holds-cong m1 m2 a (bytes_of 8 cnt) (Holds-put m a 8 cnt)
          (λ x p q. put-outside m1 (a + 8) 8 esize x (omega (arith, length-bytes_of 8 cnt))))
        (λ x p q. store-outside m2 (a + 16) bytes x (omega (arith, length-bytes_of 8 cnt))) in
    let two =
      Holds-cong m2 m3 (a + 8) (bytes_of 8 esize) (Holds-put m1 (a + 8) 8 esize)
        (λ x p q. store-outside m2 (a + 16) bytes x (omega (arith, length-bytes_of 8 esize))) in
    let shift : a + 16 ≡ a + 8 + length (bytes_of 8 esize) =
      omega (arith, length-bytes_of 8 esize) in
    let shift' : a + 8 ≡ a + length (bytes_of 8 cnt) = omega (arith, length-bytes_of 8 cnt) in
    let three = subst (λ b. Holds m3 b bytes) shift (load-store_self m2 (a + 16) bytes) in
    Holds-append m3 a (bytes_of 8 cnt) _ one (
      subst (λ b. Holds m3 b (bytes_of 8 esize ++ bytes)) shift'
        (Holds-append m3 (a + 8) (bytes_of 8 esize) bytes two three))

module _ {m : Mem} {sh : Ptr} {n len : ℕ} (h : IsHeader m sh n len) where
  pub add_marker-Appended :
      (id : ℕ)
      → IsSized (Item.marker id)
      → HasRoom n len (Item.marker id)
      → Appended m (add_marker sh id m) sh n len (Item.marker id)
  unfolding add_marker load
  add_marker-Appended id sized room =
      Created-Appended (Item.marker id)
        (create_entry-Created type_marker id 0 h sized.type sized.id sized.len room.count
          room.bytes).1
        sized (λ x a. refl) refl

  pub add_int-Appended :
      (id value : ℕ)
      → IsSized (Item.integer id value)
      → HasRoom n len (Item.integer id value)
      → Appended m (add_int sh id value m) sh n len (Item.integer id value)
  unfolding add_int load
  add_int-Appended id value sized room =
      Created-Appended (Item.integer id value)
        (create_entry-Created type_integer id value h sized.type sized.id sized.len room.count
          room.bytes).1
        sized (λ x a. refl) refl

  -- `add_string` of a string shorter than 2 ^ 31, to an area with room for it, appends exactly that item,
  -- with the header's fields and the end mark updated, and nothing else changed.
  pub add_string-Appended :
      (id : ℕ) (bytes : List ℕ)
      → IsSized (Item.string id bytes)
      → HasRoom n len (Item.string id bytes)
      → Appended m (add_string sh id bytes m) sh n len (Item.string id bytes)
  unfolding add_string
  add_string-Appended id bytes sized room =
      let wrap : length bytes % 2 ^ 32 ≡ length bytes = omega (arith, sized.size) in
      let (at, c) =
        create_entry-Created type_string id (length bytes) h sized.type sized.id sized.len
          room.count room.bytes in
      rw (wrap, at)
        (Created-Appended (Item.string id bytes) c sized (store-outside _ (sh + 20 + len + 8) bytes)
          (load-store_self _ (sh + 20 + len + 8) bytes))

  pub add_struct-Appended :
      (type id : ℕ) (bytes : List ℕ)
      → IsSized (Item.struct type id bytes)
      → HasRoom n len (Item.struct type id bytes)
      → ((add_struct sh type id (length bytes) m).0 ≡ sh + 20 + len)
        × Appended m
            (store (add_struct sh type id (length bytes) m).1 (sh + 20 + len + 8) bytes)
            sh
            n
            len
            (Item.struct type id bytes)
  unfolding add_struct
  add_struct-Appended type id bytes sized room =
      let fits : len + (8 + body_of type (length bytes)) < 2 ^ 32 = rw (← sized.kind) room.bytes in
      let (at, c) =
        create_entry-Created type id (length bytes) h sized.type sized.id sized.len room.count
          fits in
      (
        at,
        Created-Appended (Item.struct type id bytes) c sized
            (store-outside _ (sh + 20 + len + 8) bytes)
            (load-store_self _ (sh + 20 + len + 8) bytes),
      )

  -- The bytes at `src` lie outside what appending an entry of `size` bytes writes: the header, and
  -- from the new entry to the end mark behind it.
  pub record IsSource (src : Ptr) (bytes : List ℕ) (size : ℕ) : Type 0 where
    pub held : Holds m src bytes
    pub out : (src + length bytes ≤ sh) ⊎ (sh + 20 + (len + size) + 2 ≤ src)

  source_kept :
      {m1 : Mem} {t id v : ℕ} (src : Ptr) (bytes : List ℕ)
      → Created m m1 sh n len t id v
      → IsSource src bytes (8 + body_of t v)
      → Holds m1 src bytes
  source_kept {m1} src bytes c s =
      Holds-cong m m1 src bytes s.held (λ x a b. c.same x (omega arith) (omega arith) (omega arith))

  -- `add_buffer` of bytes that stand apart from what is written, to an area with room for them, appends
  -- exactly that item, with the header's fields and the end mark updated, and nothing else changed.
  pub add_buffer-Appended :
      (id : ℕ) (src : Ptr) (bytes : List ℕ)
      → IsSized (Item.buffer id bytes)
      → HasRoom n len (Item.buffer id bytes)
      → IsSource src bytes (8 + length bytes)
      → Appended m (add_buffer sh id src (length bytes) m) sh n len (Item.buffer id bytes)
  unfolding add_buffer
  add_buffer-Appended id src bytes sized room source =
      let (at, c) =
        create_entry-Created type_buffer id (length bytes) h sized.type sized.id sized.len
          room.count room.bytes in
      rw (at, lt→ltb (length bytes) (2 ^ 31) sized.size, source_kept src bytes c source)
        (Created-Appended (Item.buffer id bytes) c sized (store-outside _ (sh + 20 + len + 8) bytes)
          (load-store_self _ (sh + 20 + len + 8) bytes))

  -- `add_vector` of elements whose bytes stand apart from what is written, to an area with room for them,
  -- appends exactly that item: the count, the elements' size and their bytes, with the header's fields and
  -- the end mark updated, and nothing else changed.
  pub add_vector-Appended :
      (id : ℕ) (src : Ptr) (cnt esize : ℕ) (bytes : List ℕ)
      → cnt * esize ≡ length bytes
      → cnt < 2 ^ 64
      → esize < 2 ^ 64
      → IsSized (Item.vector id cnt esize bytes)
      → HasRoom n len (Item.vector id cnt esize bytes)
      → IsSource src bytes (8 + (16 + length bytes))
      → Appended m (add_vector sh id src cnt esize m) sh n len (Item.vector id cnt esize bytes)
  unfolding add_vector
  add_vector-Appended id src cnt esize bytes e hc he sized room source =
      let (at, c) =
        create_entry-Created type_vector id (16 + length bytes) h sized.type sized.id sized.len
          room.count room.bytes in
      let m1 = (create_entry sh type_vector id (16 + length bytes) m).1 in
      let segs = sh + 20 + len + 8 in
      let m2 = put (put m1 segs 8 cnt) (segs + 8) 8 esize in
      let wrap : (16 + length bytes) % 2 ^ 32 ≡ 16 + length bytes = omega (arith, sized.size) in
      let wrap' : length bytes % 2 ^ 64 ≡ length bytes = omega (arith, sized.size) in
      let first : get m2 segs 8 ≡ cnt =
        get-put_other _ (segs + 8) 8 esize segs 8 (omega arith) ∙ get-put_self m1 segs 8 cnt hc in
      let second : get m2 (segs + 8) 8 ≡ esize = get-put_self _ (segs + 8) 8 esize he in
      let kept : Holds m2 src bytes =
        Holds-cong m1 m2 src bytes (source_kept src bytes c source) (λ x a b.
          put-outside _ (segs + 8) 8 esize x (omega (arith, source.out))
          ∙ put-outside m1 segs 8 cnt x (omega (arith, source.out))) in
      rw (e, wrap, at, first, second, e, wrap', kept)
        (Created-Appended (Item.vector id cnt esize bytes) c sized
          (segments-outside segs cnt esize bytes m1) (segments-Holds segs cnt esize bytes m1))
