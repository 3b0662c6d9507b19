-- ===== src/Storage/Grow.antt =====
-- A created entry whose payload has been written is an item appended to the area.
use mathlib.Core.Path.{subst}
use live_update.Base.{ℕ, ◌+◌, ◌≤◌, ◌<◌, ◌≡◌, ◌∙◌, List, [], ◌∷◌, ◌++◌, arith, length, length-append}
use live_update.Memory.{Ptr, Mem, load, bytes_of}
use live_update.Memory.Words.{length-bytes_of}
use live_update.Memory.Laws.{Apart, load-cong, get-cong}
use live_update.Entry
use live_update.Storage.Items.{
  Item, type_of, id_of, len_of, body, payload, total, HasItem, Chain, IsArea, Appended, IsSized,
  packed,
}
use live_update.Storage.Append.{Created, HasHead-cong, IsHeader-cong}

-- The payload fits in the entry's body.
pub payload-le-body : (i : Item) → length (payload i) ≤ body i
payload-le-body (Item.marker i) = omega arith
payload-le-body (Item.integer i v) = omega arith
payload-le-body (Item.vector i c e bs) =
    rw (length-append (bytes_of 8 c) (bytes_of 8 e ++ bs), length-append (bytes_of 8 e) bs)
      (omega (arith, length-bytes_of 8 c, length-bytes_of 8 e))
payload-le-body (Item.strings i ss) =
    rw (length-append (bytes_of 8 (length ss)) (packed ss))
      (omega (arith, length-bytes_of 8 (length ss)))
payload-le-body (Item.string i bs) = omega arith
payload-le-body (Item.buffer i bs) = omega arith
payload-le-body (Item.struct t i bs) = omega arith

pub Created-Appended :
    {m m1 m2 : Mem} {sh : Ptr} {n len : ℕ} (i : Item)
    → Created m m1 sh n len (type_of i) (id_of i) (len_of i)
    → IsSized i
    → ((x : Ptr) → Apart (sh + 20 + len + 8) (body i) x 1 → m2 x ≡ m1 x)
    → load m2 (sh + 20 + len + 8) (length (payload i)) ≡ payload i
    → Appended m m2 sh n len i
unfolding Entry.type
Created-Appended {m} {m1} {m2} {sh} {n} {len} i c sized same written =
    let k = sized.kind in
    record {
      header = IsHeader-cong (rw k c.header) (λ x a b d. same x (omega arith));
      item = record { head = HasHead-cong c.head (λ x a b. same x (omega arith)); rest = written };
      eof = get-cong m1 m2 _ 2 (λ x a b. same x (omega arith)) ∙ rw k c.eof;
      before = λ x a. same x (omega arith) ∙ c.same x (omega arith) (omega arith) (omega arith);
      items = λ x a b. same x (omega arith) ∙ c.same x (omega arith) (omega arith) (omega arith);
      behind = λ x a. same x (omega arith) ∙ c.same x (omega arith) (omega arith) (omega arith);
    }

pub HasItem-cong :
    {m m' : Mem} {p : Ptr} (i : Item)
    → HasItem m p i
    → ((x : Ptr) → p ≤ x → x < p + (8 + body i) → m' x ≡ m x)
    → HasItem m' p i
HasItem-cong {m} {m'} {p} i h same = record {
  head = HasHead-cong h.head (λ x a b. same x a (omega arith));
  rest =
      load-cong m m' (p + 8) (length (payload i))
        (λ x a b. same x (omega arith) (omega (arith, payload-le-body i)))
      ∙ h.rest;
}

pub Chain-cong :
    {m m' : Mem} (p : Ptr) (is : List Item)
    → Chain m p is
    → ((x : Ptr) → p ≤ x → x < p + total is → m' x ≡ m x)
    → Chain m' p is
Chain-cong p [] h same = tt
Chain-cong p (i ∷ is) h same = (
  HasItem-cong i h.0 (λ x a b. same x a (omega arith)),
  Chain-cong (p + (8 + body i)) is h.1 (λ x a b. same x (omega arith) (omega arith)),
)

-- An area stays where its bytes stay.
pub IsArea-cong :
    {m m' : Mem} (sh : Ptr) (is : List Item)
    → IsArea m sh is
    → ((x : Ptr) → sh ≤ x → x < sh + 20 + total is → m' x ≡ m x)
    → IsArea m' sh is
IsArea-cong sh is h same = record {
  header = IsHeader-cong h.header (λ x a b c. same x (omega arith) (omega arith));
  chain = Chain-cong (sh + 20) is h.chain (λ x a b. same x (omega arith) b);
}

pub Chain-append :
    {m : Mem} (p : Ptr) (is : List Item) (i : Item)
    → Chain m p is
    → HasItem m (p + total is) i
    → Chain m p (is ++ (i ∷ []))
Chain-append {m} p [] i h hi = (subst (λ q. HasItem m q i) (omega arith) hi, tt)
Chain-append {m} p (j ∷ is) i h hi =
    (h.0, Chain-append (p + (8 + body j)) is i h.1 (subst (λ q. HasItem m q i) (omega arith) hi))

pub total-append : (is : List Item) (js : List Item) → total (is ++ js) ≡ total is + total js
total-append [] js = omega arith
total-append (i ∷ is) js = omega (arith, total-append is js)

-- An appended item makes the area hold one item more.
pub Appended-IsArea :
    {m m' : Mem} {sh : Ptr} (is : List Item) (i : Item)
    → IsArea m sh is
    → Appended m m' sh (length is) (total is) i
    → IsArea m' sh (is ++ (i ∷ []))
Appended-IsArea {m} {m'} {sh} is i area a = record {
  header = record {
    magic = a.header.magic;
    entries = a.header.entries ∙ omega (arith, length-append is (i ∷ []));
    length = a.header.length ∙ omega (arith, total-append is (i ∷ []));
  };
  chain = Chain-append (sh + 20) is i (Chain-cong (sh + 20) is area.chain a.items) a.item;
}

-- The item behind others.
pub Chain-at :
    {m : Mem} (p : Ptr) (is : List Item) (i : Item) (js : List Item)
    → Chain m p (is ++ (i ∷ js))
    → HasItem m (p + total is) i
Chain-at {m} p [] i js h = subst (λ q. HasItem m q i) (omega arith) h.0
Chain-at {m} p (j ∷ is) i js h =
    subst (λ q. HasItem m q i) (omega arith) (Chain-at (p + (8 + body j)) is i js h.1)
