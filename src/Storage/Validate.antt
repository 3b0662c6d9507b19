-- ===== src/Storage/Validate.antt =====
-- `validate`: to which areas it says yes; and `zero`, which clears an area.
use live_update.Base.{
  ℕ, zero, suc, ◌↔◌, ◌+◌, ◌^◌, ◌≤◌, ◌<◌, ◌≡◌, ◌≢◌, refl, ◌⊎◌, true, false, List, arith, eq→==,
  ne→==, length-replicate, replicate,
}
use live_update.Memory.{Ptr, Mem, IsBytes, load, store, get, put, number_of}
use live_update.Memory.Laws.{
  get-lt, Apart, put-outside, get-put_self, put-get, store-outside, get-cong,
}
use live_update.Machine.{ok}
use live_update.Entry.{Crc}
use live_update.Storage.{get_magic, get_length, get_crc, validate, zero_area, liveupd_magic}
use live_update.Storage.Items.{Item}
use live_update.Storage.Checksum.{checksum_of, generate_checksum_lem, IsSealed, IsSealed-put_crc}

zeroed : (m : Mem) (a : Ptr) (n : ℕ) (x : Ptr) → a ≤ x → x < a + n → store m a (replicate n 0) x ≡ 0
unfolding store
zeroed m a zero x p q = absurd (omega arith)
zeroed m a (suc n) x p q = ground (arith, zeroed m (a + 1) n x)

get-zeroed : (m : Mem) (a : Ptr) → ((x : Ptr) → a ≤ x → x < a + 8 → m x ≡ 0) → get m a 8 ≡ 0
unfolding get load number_of
get-zeroed m a h = get-cong (λ x. 0) m a 8 h

module _ (crc : Crc) where
  -- When `validate` says yes.
  pub record IsValid (m : Mem) (sh : Ptr) : Type 0 where
    pub magic : get_magic m sh ≡ liveupd_magic
    pub set : get_crc m sh ≢ 0
    pub sum : get_crc m sh ≡ checksum_of crc m sh

  module _ (m : Mem) (sh : Ptr) where
    get_crc-restored :
        get_crc m sh < 2 ^ 32 → get_crc (put m (sh + 8) 4 (get_crc m sh)) sh ≡ get_crc m sh
    unfolding get_crc
    get_crc-restored = get-put_self m (sh + 8) 4 (get m (sh + 8) 4)

    validate_to : get_crc m sh < 2 ^ 32 → (validate crc sh m).0 ≡ true → IsValid m sh
    unfolding validate
    validate_to fits h = ground (arith, generate_checksum_lem crc m sh, get_crc-restored fits)

    validate_from : get_crc m sh < 2 ^ 32 → IsValid m sh → (validate crc sh m).0 ≡ true
    unfolding validate
    validate_from fits v = ground (arith, generate_checksum_lem crc m sh, get_crc-restored fits)

    validate-same : IsBytes m → (validate crc sh m).1 ≡ m
    unfolding validate get_crc
    validate-same h =
        let restored : put m (sh + 8) 4 (get_crc m sh) ≡ m = put-get m (sh + 8) 4 h in
        ground (arith, generate_checksum_lem crc m sh)

    -- In a memory of bytes, `validate` says yes exactly to an area with the magic and with a checksum that
    -- is not 0 and is that of the area's bytes with the field at 0, and leaves the memory as it is.
    pub validate_iff :
        IsBytes m → (((validate crc sh m).0 ≡ true) ↔ IsValid m sh) × ((validate crc sh m).1 ≡ m)
    unfolding get_crc
    validate_iff h =
        let fits = get-lt m (sh + 8) 4 h in
        ((validate_to fits, validate_from fits), validate-same h)

    -- Without a checksum it says no.
    pub validate-unset : get_crc m sh ≡ 0 → validate crc sh m ≡ (false, m)
    unfolding validate
    validate-unset h = ground arith

    -- The same of an area that `finalize` has sealed, whatever the other bytes of the memory.
    pub validate-IsSealed :
        {is : List Item}
        → IsSealed crc m sh is
        → get_crc m sh ≢ 0
        → (m1 : Mem) × (validate crc sh m ≡ (true, m1))
          × IsSealed crc m1 sh is
          × (get_crc m1 sh ≡ get_crc m sh)
          × ((x : Ptr) → Apart (sh + 8) 4 x 1 → m1 x ≡ m x)
    unfolding validate
    validate-IsSealed s ne =
        let fits : get_crc m sh < 2 ^ 32 = rw s.sum (crc.bound _) in
        (
          put m (sh + 8) 4 (get_crc m sh),
          rw (
            s.complete.header.magic,
            ne→== _ _ ne,
            generate_checksum_lem crc m sh,
            get_crc-restored fits,
            eq→== _ _ s.sum,
          ),
          IsSealed-put_crc crc (get_crc m sh) s.complete s.sum,
          get_crc-restored fits,
          put-outside m (sh + 8) 4 (get_crc m sh),
        )

  -- `zero` passes its assertion, clears the header and as many bytes as its length says behind its 24,
  -- leaves all other memory, and leaves nothing that validates.
  pub zero_area_lem :
      (m : Mem) (sh : Ptr)
      → let m1 = (zero_area sh m).1 in
        ((zero_area sh m).0 ≡ ok tt)
        × ((x : Ptr) → sh ≤ x → x < sh + (24 + get_length m sh) → m1 x ≡ 0)
        × ((x : Ptr) → (x < sh) ⊎ (sh + (24 + get_length m sh) ≤ x) → m1 x ≡ m x)
        × (validate crc sh m1 ≡ (false, m1))
  unfolding zero_area validate get_magic
  zero_area_lem m sh =
      let n = 24 + get_length m sh in
      let m1 = store m sh (replicate n 0) in
      let cleared : (x : Ptr) → sh ≤ x → x < sh + n → m1 x ≡ 0 = zeroed m sh n in
      let magic : get m1 sh 8 ≡ 0 = get-zeroed m1 sh (λ x p q. cleared x p (omega arith)) in
      let whole : zero_area sh m ≡ (ok tt, m1) = rw magic in
      rw whole (
        refl,
        cleared,
        λ x a.
            store-outside m sh (replicate n 0) x (rw (length-replicate {A = ℕ} n 0) (omega arith)),
        rw magic,
      )
