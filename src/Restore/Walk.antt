-- ===== src/Restore/Walk.antt =====
-- Moving over the entries of a complete area: each step leads to the next item or to the end.
use mathlib.Core.Path.{subst}
use live_update.Base.{
  ℕ, zero, suc, ◌+◌, ◌%◌, ◌^◌, ◌≤◌, ◌<◌, ◌≡◌, sym, List, [], ◌∷◌, arith, lt→ltb, ne→==, length,
  drop, All,
}
use live_update.Memory.{Ptr, Mem}
use live_update.Machine.{ok, throw, already_at_end}
use live_update.Entry
use live_update.Entry.{type_end, type_marker, type_integer}
use live_update.Storage.Items.{Item, id_of, body, total, HasHead, HasItem, Chain, IsSized}
use live_update.Storage.Append.{HasHead-cong}
use live_update.Storage.Grow.{Chain-cong}
use live_update.Restore.{get_type, is_end, go_next, next_id}

-- The items from `p` on, and the entry of type END behind them. No address wraps.
pub record IsRest (m : Mem) (p : Ptr) (is : List Item) : Type 0 where
  pub chain : Chain m p is
  pub end : HasHead m (p + total is) type_end 0 0
  pub sized : All IsSized is
  pub fits : p + total is + 8 < 2 ^ 64

module _ {m : Mem} where
  pub length-HasItem : {p : Ptr} (i : Item) → IsSized i → HasItem m p i → Entry.length m p ≡ body i
  unfolding Entry.length
  length-HasItem i s h = rw (h.head.has_type, h.head.has_len) (sym s.kind)

  -- `next` of an item is the address behind it.
  pub next-HasItem :
      {p : Ptr} (i : Item)
      → IsSized i
      → HasItem m p i
      → p + (8 + body i) < 2 ^ 64
      → Entry.next m p ≡ ok (p + (8 + body i))
  unfolding Entry.next
  next-HasItem {p} i s h fits =
      let wrap : (p + 8 + body i) % 2 ^ 64 ≡ p + (8 + body i) = omega arith in
      rw (h.head.has_type, ne→== _ _ s.entry, length-HasItem i s h, lt→ltb _ _ s.size, wrap)

  pub go_next-cons :
      {p : Ptr} {i : Item} {is : List Item}
      → IsRest m p (i ∷ is)
      → (go_next m p ≡ ok (p + (8 + body i))) × IsRest m (p + (8 + body i)) is
  unfolding go_next is_end get_type
  go_next-cons {p} {i} {is} r =
      let s = r.sized.0 in
      let shift : p + (8 + body i + total is) ≡ p + (8 + body i) + total is = omega arith in
      (
        rw (r.chain.0.head.has_type, ne→== _ _ s.entry)
            (next-HasItem i s r.chain.0 (omega (arith, r.fits))),
        record {
          chain = r.chain.1;
          end = subst (λ q. HasHead m q type_end 0 0) shift r.end;
          sized = r.sized.1;
          fits = omega (arith, r.fits);
        },
      )

  pub end-nil : {p : Ptr} → IsRest m p [] → Entry.type m p ≡ type_end
  end-nil {p} r = subst (λ q. Entry.type m q ≡ type_end) (omega arith) r.end.has_type

  -- At the end there is no next entry.
  pub go_next-nil : {p : Ptr} → IsRest m p [] → go_next m p ≡ throw already_at_end
  unfolding go_next is_end get_type
  go_next-nil r = rw (end-nil r)

  -- `next_id` peeks at the entry behind.
  pub next_id-cons :
      {p : Ptr} {i j : Item} {is : List Item} → IsRest m p (i ∷ j ∷ is) → next_id m p ≡ ok (id_of j)
  unfolding next_id
  next_id-cons {p} {i} r =
      let rest = (go_next-cons r).1 in
      rw (next-HasItem i r.sized.0 r.chain.0 (omega (arith, r.fits)), rest.chain.0.head.has_id)

-- The same at any later item: `q` is where the last `drop n is` begin.
pub IsRest-drop :
    {m : Mem} (q : Ptr) (n : ℕ) (is : List Item) {p : Ptr}
    → IsRest m p is
    → n ≤ length is
    → q + total (drop n is) ≡ p + total is
    → IsRest m q (drop n is)
IsRest-drop {m} q zero is {p} r h e = subst (λ a. IsRest m a is) (omega arith) r
IsRest-drop q (suc n) [] r h e = absurd (omega arith)
IsRest-drop q (suc n) (i ∷ is) r h e =
    IsRest-drop q n is (go_next-cons r).1 (omega arith) (omega arith)

pub IsRest-cong :
    {m m' : Mem} {p : Ptr} {is : List Item}
    → IsRest m p is
    → ((x : Ptr) → p ≤ x → x < p + total is + 8 → m' x ≡ m x)
    → IsRest m' p is
IsRest-cong {m} {m'} {p} {is} r same = record {
  chain = Chain-cong p is r.chain (λ x a b. same x a (omega arith));
  end = HasHead-cong r.end (λ x a b. same x (omega arith) b);
  sized = r.sized;
  fits = r.fits;
}
