-- ===== src/Memory/Words.antt =====
-- Integers as bytes.
use live_update.Base.{
  ℕ, zero, suc, ◌+◌, ◌*◌, ◌/◌, ◌%◌, ◌^◌, ◌<◌, ◌≡◌, refl, List, [], ◌∷◌, ap, arith, length, All,
}
use native.Mathlib.Nat.{pow-suc}
use live_update.Memory.{bytes_of, number_of}

pub length-bytes_of : (n v : ℕ) → length (bytes_of n v) ≡ n
unfolding bytes_of
length-bytes_of zero v = refl
length-bytes_of (suc n) v = ap suc (length-bytes_of n (v / 256))

pub number_of-bytes_of : (n v : ℕ) → v < 256 ^ n → number_of (bytes_of n v) ≡ v
unfolding bytes_of number_of
number_of-bytes_of zero v h = omega arith
number_of-bytes_of (suc n) v h =
    omega (arith, pow-suc 256 n, number_of-bytes_of n (v / 256) (omega (arith, pow-suc 256 n)))

pub bytes_of-number_of :
    (bs : List ℕ) → All (λ b. b < 256) bs → bytes_of (length bs) (number_of bs) ≡ bs
unfolding bytes_of number_of
bytes_of-number_of [] h = refl
bytes_of-number_of (x ∷ bs) h =
    let low : (x + 256 * number_of bs) % 256 ≡ x = omega arith in
    let high : (x + 256 * number_of bs) / 256 ≡ number_of bs = omega arith in
    rw (low, high, bytes_of-number_of bs h.1)
