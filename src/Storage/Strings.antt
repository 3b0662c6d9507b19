-- ===== src/Storage/Strings.antt =====
-- `add_string_vector` and `add_struct` with a function that writes the payload.
use mathlib.Core.Path.{subst}
use live_update.Base.{
  ℕ, ◌+◌, ◌^◌, ◌≤◌, ◌<◌, ◌≡◌, refl, sym, ◌⊎◌, ◌∙◌, ap, List, ◌++◌, arith, length, length-append,
}
use live_update.Memory.{Ptr, Mem, put, bytes_of}
use live_update.Memory.Words.{length-bytes_of}
use live_update.Memory.Laws.{Apart, Holds, Holds-append, Holds-put, Holds-cong, put-outside}
use live_update.Machine.{ok}
use live_update.Entry
use live_update.Entry.{type_str_vector, type_integer}
use live_update.Storage.{
  ConstructFunc, account, var_entry, write_strings, string_vector_func, add_string_vector,
  add_struct_func,
}
use live_update.Storage.Items.{
  Item, packed, body, type_of, id_of, len_of, payload, HasHead, IsHeader, Appended, HasRoom,
  IsSized,
}
use live_update.Storage.Append.{
  HasHead-cong, HasHead-put_len, IsHeader-cong, Created-account, construct-HasHead,
  construct-outside,
}
use live_update.Storage.Packed.{write_strings-Packed}
use live_update.Storage.Grow.{Created-Appended, payload-le-body}

-- `func` writes the bytes at `a`, writes nowhere else, and returns their number.
pub record Writes (func : ConstructFunc) (a : Ptr) (bytes : List ℕ) (m : Mem) : Type 0 where
  pub result : (func a m).0 ≡ ok (length bytes)
  pub held : Holds (func a m).1 a bytes
  pub same : (x : Ptr) → Apart a (length bytes) x 1 → (func a m).1 x ≡ m x

-- The function that `add_string_vector` hands to `var_entry` writes the vector's payload.
string_vector_func-Writes :
    (vec : List (List ℕ)) (a : Ptr) (m : Mem)
    → 8 + length (packed vec) < 2 ^ 31
    → Writes (string_vector_func vec) a (bytes_of 8 (length vec) ++ packed vec) m
unfolding string_vector_func
string_vector_func-Writes vec a m h =
    let m1 = put m a 8 (length vec) in
    let m2 = (write_strings (a + 8) 8 vec m1).1 in
    let out = write_strings-Packed (a + 8) 8 vec m1 (omega arith) in
    let size : length (bytes_of 8 (length vec) ++ packed vec) ≡ 8 + length (packed vec) =
      length-append (bytes_of 8 (length vec)) (packed vec)
      ∙ omega (arith, length-bytes_of 8 (length vec)) in
    let shift : a + 8 ≡ a + length (bytes_of 8 (length vec)) =
      omega (arith, length-bytes_of 8 (length vec)) in
    record {
      result = ap ok (out.result ∙ sym size);
      held =
          Holds-append m2 a (bytes_of 8 (length vec)) (packed vec)
            (Holds-cong m1 m2 a _ (Holds-put m a 8 (length vec))
              (λ x p q. out.same x (omega (arith, length-bytes_of 8 (length vec)))))
            (subst (λ b. Holds m2 b (packed vec)) shift out.held);
      same = λ x p.
          out.same x (omega (arith, size)) ∙ put-outside m a 8 (length vec) x (omega (arith, size));
    }

-- The head is complete when `len` has been set behind the payload.
head_completed :
    (m m1 : Mem) (p : Ptr) (t id v : ℕ)
    → t < 2 ^ 16
    → id < 2 ^ 16
    → v < 2 ^ 32
    → ((x : Ptr) → x < p + 8 → m1 x ≡ Entry.construct p t id 0 m x)
    → HasHead (put m1 (p + 4) 4 v) p t id v
head_completed m m1 p t id v ht hi hv same =
    HasHead-put_len v
      (HasHead-cong (construct-HasHead p t id 0 m ht hi (omega arith)) (λ x a b. same x b)) hv

-- The end of `var_entry`, from the memory `m1` that the function left.
var_entry_end :
    {m1 : Mem} {sh : Ptr} {n len : ℕ} (i : Item)
    → IsHeader m1 sh n len
    → HasHead
        (put m1 (sh + 20 + len + 4) 4 (len_of i))
        (sh + 20 + len)
        (type_of i)
        (id_of i)
        (len_of i)
    → Holds m1 (sh + 20 + len + 8) (payload i)
    → IsSized i
    → HasRoom n len i
    → Appended m1 (account sh (sh + 20 + len) (put m1 (sh + 20 + len + 4) 4 (len_of i))) sh n len i
var_entry_end {m1} {sh} {n} {len} i h head held sized room =
    let c =
      Created-account h head
        (λ x a. put-outside m1 (sh + 20 + len + 4) 4 (len_of i) x (omega arith)) room.count
        (rw (← sized.kind) room.bytes) in
    Created-Appended i c sized (λ x a. refl)
      (Holds-cong m1 _ (sh + 20 + len + 8) (payload i) held (λ x a b.
        c.same x (omega arith) (omega arith)
          (rw (← sized.kind) (omega (arith, payload-le-body i)))))

module _ {m : Mem} {sh : Ptr} {n len : ℕ} (h : IsHeader m sh n len) where
  -- `var_entry` with a function that writes an item's payload appends the item.
  pub var_entry-Appended :
      (i : Item) (func : ConstructFunc)
      → IsSized i
      → HasRoom n len i
      → len_of i ≡ length (payload i)
      → body i ≡ length (payload i)
      → Writes func
          (sh + 20 + len + 8)
          (payload i)
          (Entry.construct (sh + 20 + len) (type_of i) (id_of i) 0 m)
      → (m2 : Mem) × (var_entry sh (type_of i) (id_of i) func m ≡ (ok (sh + 20 + len), m2))
        × Appended m m2 sh n len i
  unfolding var_entry
  var_entry-Appended i func sized room el eb w =
      let p = sh + 20 + len in
      let m0 = Entry.construct p (type_of i) (id_of i) 0 m in
      let m1 = (func (p + 8) m0).1 in
      let kept : (x : Ptr) → (x < p) ⊎ (p + (8 + body i) ≤ x) → m1 x ≡ m x = λ x a.
        w.same x (omega arith) ∙ construct-outside p (type_of i) (id_of i) 0 m x (omega arith) in
      let h1 : IsHeader m1 sh n len = IsHeader-cong h (λ x a b c. kept x (omega arith)) in
      let head =
        head_completed m m1 p (type_of i) (id_of i) (len_of i) sized.type sized.id sized.len
          (λ x a. w.same x (omega arith)) in
      let a = var_entry_end i h1 head w.held sized room in
      (
        account sh p (put m1 (p + 4) 4 (len_of i)),
        rw (h.length, w.result, el),
        record {
          header = a.header;
          item = a.item;
          eof = a.eof;
          before = λ x b. a.before x b ∙ kept x (omega arith);
          items = λ x b c. a.items x b c ∙ kept x (omega arith);
          behind = λ x b. a.behind x b ∙ kept x (omega arith);
        },
      )

  -- `add_string_vector` of a vector whose packed size is below 2 ^ 31, to an area with room for it,
  -- returns the new entry's address and appends exactly that item: the count and each string behind its
  -- length, with the header's fields and the end mark updated, and nothing else changed.
  pub add_string_vector-Appended :
      (id : ℕ) (vec : List (List ℕ))
      → IsSized (Item.strings id vec)
      → HasRoom n len (Item.strings id vec)
      → (m2 : Mem) × (add_string_vector sh id vec m ≡ (ok (sh + 20 + len), m2))
        × Appended m m2 sh n len (Item.strings id vec)
  unfolding add_string_vector
  add_string_vector-Appended id vec sized room =
      let size : 8 + length (packed vec) ≡ length (bytes_of 8 (length vec) ++ packed vec) = sym (
        length-append (bytes_of 8 (length vec)) (packed vec)
        ∙ omega (arith, length-bytes_of 8 (length vec))) in
      var_entry-Appended (Item.strings id vec) (string_vector_func vec) sized room size size
        (string_vector_func-Writes vec _ _ sized.size)

  pub add_struct_func-Appended :
      (type id : ℕ) (bytes : List ℕ) (func : ConstructFunc)
      → IsSized (Item.struct type id bytes)
      → HasRoom n len (Item.struct type id bytes)
      → Writes func (sh + 20 + len + 8) bytes (Entry.construct (sh + 20 + len) type id 0 m)
      → (m2 : Mem) × (add_struct_func sh type id func m ≡ (ok (sh + 20 + len), m2))
        × Appended m m2 sh n len (Item.struct type id bytes)
  unfolding add_struct_func
  add_struct_func-Appended type id bytes func sized room writes =
      var_entry-Appended (Item.struct type id bytes) func sized room refl refl writes
