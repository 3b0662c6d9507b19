-- ===== src/Update/Calls.antt =====
-- A service's callback as the sequence of its calls of class Storage, and what they store.
use mathlib.Core.Path.{subst}
use live_update.Base.{
  ℕ, ◌+◌, ◌*◌, ◌%◌, ◌^◌, ◌≤◌, ◌<◌, ◌≡◌, refl, ◌⊎◌, inl, inr, ◌∙◌, List, [], ◌∷◌, ◌++◌, arith,
  length, length-append, append-nil, append_assoc, All,
}
use live_update.Memory.{Ptr, Mem}
use live_update.Memory.Laws.{Holds, Holds-cong}
use live_update.Machine.{Run, ok, Cmd, and_then}
use live_update.World.{World}
use live_update.Entry
use live_update.Entry.{type_tcp}
use live_update.Storage.Append.{construct-outside}
use live_update.Storage.{ConstructFunc}
use live_update.Storage.Items.{Item, body, total, IsHeader, IsArea, Appended, HasRoom, IsSized}
use live_update.Storage.Add.{
  add_marker-Appended, add_int-Appended, add_string-Appended, add_buffer-Appended,
  add_vector-Appended,
}
use live_update.Storage.Strings.{Writes, add_string_vector-Appended, add_struct_func-Appended}
use live_update.Storage.Grow.{Appended-IsArea, total-append}
use live_update.Update.{
  put_marker, add_int, add_string, add_bytes, add_vector, add_string_vector, add_connection,
}

-- A call, with the bytes that it stores where it is given an address.
pub data Call : Type 0 where
  marker : (id : ℕ) → Call
  integer : (id value : ℕ) → Call
  string : (id : ℕ) → List ℕ → Call
  bytes : (id : ℕ) → Ptr → List ℕ → Call
  vector : (id : ℕ) → Ptr → (cnt esize : ℕ) → List ℕ → Call
  strings : (id : ℕ) → List (List ℕ) → Call
  connection : (id : ℕ) → ConstructFunc → List ℕ → Call

abbrev pub item_of : Call → Item
item_of (Call.marker id) = Item.marker id
item_of (Call.integer id value) = Item.integer id value
item_of (Call.string id bs) = Item.string id bs
item_of (Call.bytes id src bs) = Item.buffer id bs
item_of (Call.vector id src cnt esize bs) = Item.vector id cnt esize bs
item_of (Call.strings id ss) = Item.strings id ss
item_of (Call.connection id func bs) = Item.struct type_tcp id bs

abbrev pub items_of : List Call → List Item
items_of [] = []
items_of (c ∷ cs) = item_of c ∷ items_of cs

-- What a call is given at an address stands there, outside the memory from `lo` to `hi`.
pub record IsSource (m : Mem) (lo hi src : Ptr) (bs : List ℕ) : Type 0 where
  pub held : Holds m src bs
  pub out : (src + length bs ≤ lo) ⊎ (hi ≤ src)

-- A call is ready whose entry will stand at `pos`. What the function for a connection writes may depend on
-- what the place of its payload holds, and on nothing else.
abbrev pub IsReady : Mem → Ptr → Ptr → Ptr → Call → Type 0
IsReady m lo hi pos (Call.bytes id src bs) = IsSource m lo hi src bs
IsReady m lo hi pos (Call.vector id src cnt esize bs) =
    IsSource m lo hi src bs × (cnt * esize ≡ length bs) × (cnt < 2 ^ 64) × (esize < 2 ^ 64)
IsReady m lo hi pos (Call.connection id func bs) =
    (m1 : Mem)
    → ((x : Ptr) → pos + 8 ≤ x → x < pos + 8 + length bs → m1 x ≡ m x)
    → Writes func (pos + 8) bs m1
IsReady m lo hi pos (Call.marker id) = Unit
IsReady m lo hi pos (Call.integer id value) = Unit
IsReady m lo hi pos (Call.string id bs) = Unit
IsReady m lo hi pos (Call.strings id ss) = Unit

-- The calls are ready whose entries will stand from `pos` on.
abbrev pub AllReady : Mem → Ptr → Ptr → Ptr → List Call → Type 0
AllReady m lo hi pos [] = Unit
AllReady m lo hi pos (c ∷ cs) =
    IsReady m lo hi pos c × AllReady m lo hi (pos + (8 + body (item_of c))) cs

-- Sources outside of where is written stay.
IsSource-kept :
    {m m' : Mem} {lo hi src : Ptr} {bs : List ℕ}
    → ((x : Ptr) → (x < lo) ⊎ (hi ≤ x) → m' x ≡ m x)
    → IsSource m lo hi src bs
    → IsSource m' lo hi src bs
IsSource-kept {m} {m'} {src} {bs} same s = record {
  held = Holds-cong m m' src bs s.held (λ x a b. same x (omega (arith, s.out)));
  out = s.out;
}

-- Calls stay ready where only what lies below their entries is written.
module _ {m m' : Mem} (lo hi from : Ptr) (room : from + 2 ≤ hi)
    (same : (x : Ptr) → (x < lo) ⊎ (from + 2 ≤ x) → m' x ≡ m x) where
  IsReady-kept :
      (pos : Ptr) (c : Call) → from ≤ pos → IsReady m lo hi pos c → IsReady m' lo hi pos c
  IsReady-kept pos (Call.bytes id src bs) h r = IsSource-kept (λ x a. same x (omega arith)) r
  IsReady-kept pos (Call.vector id src cnt esize bs) h r =
      (IsSource-kept (λ x a. same x (omega arith)) r.0, r.1, r.2, r.3)
  IsReady-kept pos (Call.connection id func bs) h r =
      λ m1 agrees. r m1 (λ x p q. agrees x p q ∙ same x (omega arith))
  IsReady-kept pos (Call.marker id) h r = r
  IsReady-kept pos (Call.integer id value) h r = r
  IsReady-kept pos (Call.string id bs) h r = r
  IsReady-kept pos (Call.strings id ss) h r = r

  pub AllReady-kept :
      (pos : Ptr) (cs : List Call) → from ≤ pos → AllReady m lo hi pos cs → AllReady m' lo hi pos cs
  AllReady-kept pos [] h r = tt
  AllReady-kept pos (c ∷ cs) h r =
      (IsReady-kept pos c h r.0, AllReady-kept (pos + (8 + body (item_of c))) cs (omega arith) r.1)

module _ {ℓ} {U : Type ℓ} where
  unfoldable pub run_call : Ptr → Call → Cmd (World U) (Unit {0})
  run_call hdr (Call.marker id) = put_marker hdr id
  run_call hdr (Call.integer id value) = add_int hdr id value
  run_call hdr (Call.string id bs) = add_string hdr id bs
  run_call hdr (Call.bytes id src bs) = add_bytes hdr id src (length bs)
  run_call hdr (Call.vector id src cnt esize bs) = add_vector hdr id src cnt esize
  run_call hdr (Call.strings id ss) = add_string_vector hdr id ss
  run_call hdr (Call.connection id func bs) = add_connection hdr id func

  unfoldable pub run_calls : Ptr → List Call → Cmd (World U) (Unit {0})
  run_calls hdr [] w = (ok tt, w)
  run_calls hdr (c ∷ cs) w = and_then (run_call hdr c w) λ _ w'. run_calls hdr cs w'

  run_call-Appended :
      {w : World U} {sh hi : Ptr} {n len : ℕ} (c : Call)
      → IsHeader w.mem sh n len
      → IsReady w.mem sh hi (sh + 20 + len) c
      → IsSized (item_of c)
      → HasRoom n len (item_of c)
      → sh + 20 + (len + (8 + body (item_of c))) + 2 ≤ hi
      → (m : Mem) × (run_call sh c w ≡ (ok tt, record w { mem = m }))
        × Appended w.mem m sh n len (item_of c)
  unfolding run_call put_marker add_int add_string add_bytes add_vector add_string_vector
      add_connection
  run_call-Appended (Call.marker id) h ready sized room fits =
      (_, refl, add_marker-Appended h id sized room)
  run_call-Appended (Call.integer id value) h ready sized room fits =
      (_, refl, add_int-Appended h id value sized room)
  run_call-Appended (Call.string id bs) h ready sized room fits =
      (_, refl, add_string-Appended h id bs sized room)
  run_call-Appended {w} {sh} (Call.bytes id src bs) h ready sized room fits =
      let cut : length bs % 2 ^ 32 ≡ length bs = omega (arith, sized.size) in
      (
        _,
        rw cut refl,
        add_buffer-Appended h id src bs sized room
            (record { held = ready.held; out = omega (arith, ready.out) }),
      )
  run_call-Appended (Call.vector id src cnt esize bs) h ready sized room fits =
      let (s, e, a, b) = ready in
      (
        _,
        refl,
        add_vector-Appended h id src cnt esize bs e a b sized room
            (record { held = s.held; out = omega (arith, s.out) }),
      )
  run_call-Appended (Call.strings id ss) h ready sized room fits =
      let (m, e, a) = add_string_vector-Appended h id ss sized room in (m, rw e, a)
  run_call-Appended {w} {sh} {len} (Call.connection id func bs) h ready sized room fits =
      let writes =
        ready (Entry.construct (sh + 20 + len) type_tcp id 0 w.mem)
          (λ x p q. construct-outside (sh + 20 + len) type_tcp id 0 w.mem x (omega arith)) in
      let (m, e, a) = add_struct_func-Appended h type_tcp id bs func sized room writes in
      (m, rw e, a)

  -- The outcome of a callback that appends items to an area: it returns, and has changed only the
  -- memory, from `sh` to `hi`.
  pub record Stored (sh hi : Ptr) (w : World U) (is : List Item) (r : Run (Unit {0}) × World U)
      : Type ℓ where
    pub mem : Mem
    pub returns : r ≡ (ok tt, record w { mem = mem })
    pub area : IsArea mem sh is
    pub same : (x : Ptr) → (x < sh) ⊎ (hi ≤ x) → mem x ≡ w.mem x

  pub run_calls-Stored :
      (cs : List Call) (w : World U) (sh hi : Ptr) (is : List Item)
      → IsArea w.mem sh is
      → AllReady w.mem sh hi (sh + 20 + total is) cs
      → All IsSized (items_of cs)
      → length is + length cs < 2 ^ 32
      → total is + total (items_of cs) < 2 ^ 32
      → sh + 20 + total is + total (items_of cs) + 2 ≤ hi
      → Stored sh hi w (is ++ items_of cs) (run_calls sh cs w)
  unfolding run_calls
  run_calls-Stored [] w sh hi is area ready sized count room fits = record {
    mem = w.mem;
    returns = refl;
    area = rw append-nil area;
    same = λ x a. refl;
  }
  run_calls-Stored (c ∷ cs) w sh hi is area ready sized count room fits =
      let i = item_of c in
      let (m, e, a) =
        run_call-Appended {w = w} {sh = sh} {hi = hi} c area.header ready.0 sized.0
          (record { count = omega arith; bytes = omega arith }) (omega arith) in
      let same' : (x : Ptr)
          → (x < sh) ⊎ (sh + 20 + (total is + (8 + body i)) + 2 ≤ x)
          → m x ≡ w.mem x =
        λ x. elim [ inl low ↦ a.before x (omega arith) | inr high ↦ a.behind x (omega arith) ] in
      let same : (x : Ptr) → (x < sh) ⊎ (hi ≤ x) → m x ≡ w.mem x = λ x b. same' x (omega arith) in
      let sum = total-append is (i ∷ []) in
      let len = length-append is (i ∷ []) in
      let w1 = record w { mem = m } in
      let next : sh + 20 + total is + (8 + body i) ≡ sh + 20 + total (is ++ (i ∷ [])) =
        omega (arith, sum) in
      let kept =
        AllReady-kept {m = w.mem} {m' = m} sh hi (sh + 20 + (total is + (8 + body i))) (omega arith)
          (λ x b. same' x (omega arith)) (sh + 20 + total is + (8 + body i)) cs (omega arith)
          ready.1 in
      let ih =
        run_calls-Stored cs w1 sh hi (is ++ (i ∷ [])) (Appended-IsArea is i area a)
          (subst (λ p. AllReady m sh hi p cs) next kept) sized.1 (omega (arith, len))
          (omega (arith, sum)) (omega (arith, sum)) in
      record {
        mem = ih.mem;
        returns = rw e ih.returns;
        area = subst (IsArea ih.mem sh) (append_assoc is (i ∷ []) (items_of cs)) ih.area;
        same = λ x b. ih.same x b ∙ same x b;
      }
