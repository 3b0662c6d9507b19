-- ===== src/Storage/Append.antt =====
-- The two ways to append an entry, `create_entry` and `var_entry`.
use live_update.Base.{ℕ, ◌+◌, ◌%◌, ◌^◌, ◌≤◌, ◌<◌, ◌≡◌, refl, ◌⊎◌, ◌∙◌, arith, ◌==◌, if◌then◌else◌}
use live_update.Memory.{Ptr, Mem, get, put}
use live_update.Memory.Laws.{Apart, get-put_self, get-put_other, get-cong, put-outside}
use live_update.Entry
use live_update.Entry.{type_end, type_integer}
use live_update.Storage.{get_magic, get_entries, get_length, account, append_eof, create_entry}
use live_update.Storage.Items.{HasHead, IsHeader}

-- `storage_entry`'s constructor writes the three fields, and nothing else.
pub construct-HasHead :
    (p : Ptr) (t i v : ℕ) (m : Mem)
    → t < 2 ^ 16
    → i < 2 ^ 16
    → v < 2 ^ 32
    → HasHead (Entry.construct p t i v m) p t i v
unfolding Entry.construct Entry.type Entry.id Entry.len
construct-HasHead p t i v m ht hi hv = record {
  has_type =
      rw
        (
          get-put_other _ (p + 4) 4 v p 2 (omega arith),
          get-put_other _ (p + 2) 2 i p 2 (omega arith),
        )
        (get-put_self m p 2 t ht);
  has_id = rw (get-put_other _ (p + 4) 4 v (p + 2) 2 (omega arith)) (get-put_self _ (p + 2) 2 i hi);
  has_len = get-put_self _ (p + 4) 4 v hv;
}

pub construct-outside :
    (p : Ptr) (t i v : ℕ) (m : Mem) (x : Ptr) → Apart p 8 x 1 → Entry.construct p t i v m x ≡ m x
unfolding Entry.construct
construct-outside p t i v m x h =
    put-outside _ (p + 4) 4 v x (omega arith)
    ∙ put-outside _ (p + 2) 2 i x (omega arith)
    ∙ put-outside m p 2 t x (omega arith)

-- What `account` does to a header, an entry of `k` bytes at `p` being written.
pub record Accounted (m m' : Mem) (sh : Ptr) (n len : ℕ) : Type 0 where
  pub header : IsHeader m' sh n len
  pub eof : Entry.type m' (sh + 20 + len) ≡ type_end
  pub same : (x : Ptr) → (x < sh + 12) ⊎ (sh + 20 ≤ x) → Apart (sh + 20 + len) 2 x 1 → m' x ≡ m x

module _ {m : Mem} {sh : Ptr} {n len : ℕ} (h : IsHeader m sh n len) where
  account_lem :
      (p : Ptr) (k : ℕ)
      → Entry.size m p ≡ k
      → n + 1 < 2 ^ 32
      → len + k < 2 ^ 32
      → account sh p m
        ≡ put
            (put (put m (sh + 16) 4 (len + k)) (sh + 12) 4 (n + 1))
            (sh + 20 + (len + k))
            2
            type_end
  unfolding account append_eof get_length get_entries
  account_lem p k e hn hl =
      let wrap : (len + k) % 2 ^ 32 ≡ len + k = omega arith in
      let wrap_n : (n + 1) % 2 ^ 32 ≡ n + 1 = omega arith in
      let m1 = put m (sh + 16) 4 (len + k) in
      let count : get m1 (sh + 12) 4 ≡ n =
        get-put_other m (sh + 16) 4 (len + k) (sh + 12) 4 (omega arith) ∙ h.entries in
      let new : get (put m1 (sh + 12) 4 (n + 1)) (sh + 16) 4 ≡ len + k =
        get-put_other m1 (sh + 12) 4 (n + 1) (sh + 16) 4 (omega arith)
        ∙ get-put_self m (sh + 16) 4 (len + k) hl in
      rw (h.length, e, wrap, count, wrap_n, new) refl

  -- `account` with the size of the entry at `p` known.
  pub account-Accounted :
      (p : Ptr) (k : ℕ)
      → Entry.size m p ≡ k
      → n + 1 < 2 ^ 32
      → len + k < 2 ^ 32
      → Accounted m (account sh p m) sh (n + 1) (len + k)
  unfolding get_magic get_entries get_length Entry.type
  account-Accounted p k e hn hl =
      let end = sh + 20 + (len + k) in
      let m1 = put m (sh + 16) 4 (len + k) in
      let m2 = put m1 (sh + 12) 4 (n + 1) in
      rw (account_lem p k e hn hl) record {
        header = record {
          magic =
              get-put_other m2 end 2 type_end sh 8 (omega arith)
              ∙ get-put_other m1 (sh + 12) 4 (n + 1) sh 8 (omega arith)
              ∙ get-put_other m (sh + 16) 4 (len + k) sh 8 (omega arith)
              ∙ h.magic;
          entries =
              get-put_other m2 end 2 type_end (sh + 12) 4 (omega arith)
              ∙ get-put_self m1 (sh + 12) 4 (n + 1) hn;
          length =
              get-put_other m2 end 2 type_end (sh + 16) 4 (omega arith)
              ∙ get-put_other m1 (sh + 12) 4 (n + 1) (sh + 16) 4 (omega arith)
              ∙ get-put_self m (sh + 16) 4 (len + k) hl;
        };
        eof = get-put_self m2 end 2 type_end (omega arith);
        same = λ x a b.
            put-outside m2 end 2 type_end x b
            ∙ put-outside m1 (sh + 12) 4 (n + 1) x (omega arith)
            ∙ put-outside m (sh + 16) 4 (len + k) x (omega arith);
      }

-- Heads and headers stay where their bytes stay.
pub HasHead-cong :
    {m m' : Mem} {p : Ptr} {t i v : ℕ}
    → HasHead m p t i v
    → ((x : Ptr) → p ≤ x → x < p + 8 → m' x ≡ m x)
    → HasHead m' p t i v
unfolding Entry.type Entry.id Entry.len
HasHead-cong {m} {m'} {p} h same = record {
  has_type = get-cong m m' p 2 (λ x a b. same x (omega arith) (omega arith)) ∙ h.has_type;
  has_id = get-cong m m' (p + 2) 2 (λ x a b. same x (omega arith) (omega arith)) ∙ h.has_id;
  has_len = get-cong m m' (p + 4) 4 (λ x a b. same x (omega arith) (omega arith)) ∙ h.has_len;
}

pub IsHeader-cong :
    {m m' : Mem} {sh : Ptr} {n len : ℕ}
    → IsHeader m sh n len
    → ((x : Ptr) → sh ≤ x → x < sh + 20 → (x < sh + 8) ⊎ (sh + 12 ≤ x) → m' x ≡ m x)
    → IsHeader m' sh n len
unfolding get_magic get_entries get_length
IsHeader-cong {m} {m'} {sh} h same = record {
  magic = get-cong m m' sh 8 (λ x a b. same x (omega arith) (omega arith) (omega arith)) ∙ h.magic;
  entries =
      get-cong m m' (sh + 12) 4 (λ x a b. same x (omega arith) (omega arith) (omega arith))
      ∙ h.entries;
  length =
      get-cong m m' (sh + 16) 4 (λ x a b. same x (omega arith) (omega arith) (omega arith))
      ∙ h.length;
}

-- Setting `len` changes that field only.
pub HasHead-put_len :
    {m : Mem} {p : Ptr} {t i v : ℕ} (w : ℕ)
    → HasHead m p t i v
    → w < 2 ^ 32
    → HasHead (put m (p + 4) 4 w) p t i w
unfolding Entry.type Entry.id Entry.len
HasHead-put_len {m} {p} w h hw = record {
  has_type = get-put_other m (p + 4) 4 w p 2 (omega arith) ∙ h.has_type;
  has_id = get-put_other m (p + 4) 4 w (p + 2) 2 (omega arith) ∙ h.has_id;
  has_len = get-put_self m (p + 4) 4 w hw;
}

-- The bytes that an entry takes behind its head, from its type and `len`.
abbrev pub body_of : ℕ → ℕ → ℕ
body_of t v = if t == type_integer then 4 else v

pub size-HasHead :
    {m : Mem} {p : Ptr} {t i v : ℕ}
    → HasHead m p t i v
    → 8 + body_of t v < 2 ^ 32
    → Entry.size m p ≡ 8 + body_of t v
unfolding Entry.size Entry.length
size-HasHead {m} {p} {t} {v} h fits = rw (h.has_type, h.has_len) (omega arith)

-- An entry has been created behind the `len` bytes of an area, its payload not yet written.
pub record Created (m m' : Mem) (sh : Ptr) (n len t i v : ℕ) : Type 0 where
  pub header : IsHeader m' sh (n + 1) (len + (8 + body_of t v))
  pub head : HasHead m' (sh + 20 + len) t i v
  pub eof : Entry.type m' (sh + 20 + (len + (8 + body_of t v))) ≡ type_end
  pub same :
      (x : Ptr)
      → (x < sh + 12) ⊎ (sh + 20 ≤ x)
      → Apart (sh + 20 + len) 8 x 1
      → Apart (sh + 20 + (len + (8 + body_of t v))) 2 x 1
      → m' x ≡ m x

-- What `create_entry` and `var_entry` share: an entry stands complete behind an area, and is counted.
pub Created-account :
    {m m1 : Mem} {sh : Ptr} {n len t i v : ℕ}
    → IsHeader m sh n len
    → HasHead m1 (sh + 20 + len) t i v
    → ((x : Ptr) → Apart (sh + 20 + len) 8 x 1 → m1 x ≡ m x)
    → n + 1 < 2 ^ 32
    → len + (8 + body_of t v) < 2 ^ 32
    → Created m (account sh (sh + 20 + len) m1) sh n len t i v
Created-account {m} {m1} {sh} {n} {len} {t} {i} {v} h head same hn hl =
    let h1 : IsHeader m1 sh n len = IsHeader-cong h (λ x a b c. same x (omega arith)) in
    let acc =
      account-Accounted h1 (sh + 20 + len) (8 + body_of t v) (size-HasHead head (omega arith)) hn
        hl in
    record {
      header = acc.header;
      head = HasHead-cong head (λ x a b. acc.same x (omega arith) (omega arith));
      eof = acc.eof;
      same = λ x a b c. acc.same x a c ∙ same x b;
    }

pub create_entry-Created :
    {m : Mem} {sh : Ptr} {n len : ℕ} (t i v : ℕ)
    → IsHeader m sh n len
    → t < 2 ^ 16
    → i < 2 ^ 16
    → v < 2 ^ 32
    → n + 1 < 2 ^ 32
    → len + (8 + body_of t v) < 2 ^ 32
    → ((create_entry sh t i v m).0 ≡ sh + 20 + len)
      × Created m (create_entry sh t i v m).1 sh n len t i v
unfolding create_entry
create_entry-Created {m} {sh} {n} {len} t i v h ht hi hv hn hl = rw h.length (
  refl,
  Created-account h (construct-HasHead _ t i v m ht hi hv) (construct-outside _ t i v m) hn hl,
)
