-- ===== src/Machine.antt =====
-- Outcomes of the C++ code: a value, an exception, an abort, or a loop that ran out of fuel.
use live_update.Base.{ℕ, ◌≡◌, ◌≢◌, refl, ◌⊎◌, inl, inr}

-- The exceptions. All are `std::runtime_error` but `length_error`, which `std::string` and
-- `std::vector` throw when they are asked for more than they can hold, `bad_alloc`, and `user`, which
-- stands for what a callback of the service throws.
pub data Error : Type 0 where
  magic_invalidated storage_outside_memory canary_failed sanity_check_failed : Error
  null_location in_kernel_area in_heap_area outside_memory needs_64kb : Error
  no_elf_header elf_incomplete program_header_malformed solo5_returned : Error
  incorrect_type : ℕ → Error
  incorrect_type_size : ℕ → ℕ → Error
  mismatching_length : ℕ → Error
  already_at_end : Error
  another_marker : ℕ → Error
  unknown_tcp_state tcp_version_mismatch : Error
  length_error bad_alloc : Error
  user : ℕ → Error

-- `aborted` is a failed assertion, or an exception that leaves a `noexcept` function. `starved` is
-- no C++ outcome: the fuel of a loop ran out.
pub data Run {ℓ} (A : Type ℓ) : Type ℓ where
  ok : A → Run A
  throw : Error → Run A
  aborted : Run A
  starved : Run A

infixl 5 ◌>>=◌
abbrev pub ◌>>=◌ {ℓ κ} : {A : Type ℓ} {B : Type κ} → Run A → (A → Run B) → Run B
ok a >>= f = f a
throw e >>= f = throw e
aborted >>= f = aborted
starved >>= f = starved

-- The same over a state of type `S`, which every outcome comes with.
abbrev pub Cmd {ℓ κ} : Type ℓ → Type κ → Type (ℓ ⊔ κ)
Cmd S A = S → Run A × S

-- What follows a command that has run.
abbrev pub and_then {ℓ κ ι} :
    {S : Type ℓ} {A : Type κ} {B : Type ι} → Run A × S → (A → Cmd S B) → Run B × S
and_then (ok a, s) k = k a s
and_then (throw e, s) k = (throw e, s)
and_then (aborted, s) k = (aborted, s)
and_then (starved, s) k = (starved, s)

-- An outcome of a function without loops and assertions.
pub Run-cases {ℓ} :
    {A : Type ℓ} (r : Run A)
    → r ≢ aborted
    → r ≢ starved
    → ((a : A) × (r ≡ ok a)) ⊎ ((e : Error) × (r ≡ throw e))
Run-cases (ok a) p q = inl (a, refl)
Run-cases (throw e) p q = inr (e, refl)
Run-cases aborted p q = absurd (p refl)
Run-cases starved p q = absurd (q refl)

pub and_then-throw {ℓ κ ι} :
    {S : Type ℓ} {A : Type κ} {B : Type ι} (r : Run A × S) (k : A → Cmd S B) (e : Error)
    → r.0 ≡ throw e
    → (and_then r k).0 ≡ throw e
and_then-throw (ok a, s) k e h = cc
and_then-throw (throw e', s) k e h = cc
and_then-throw (aborted, s) k e h = cc
and_then-throw (starved, s) k e h = cc
