-- ===== src/TestBoot/Resuming.antt =====
-- What the resume handler of test_boot.cpp does with what `boot_save` stores.
use mathlib.Core.List.{flatten}
use live_update.Base.{
  ℕ, suc, ◌+◌, ◌*◌, ◌%◌, ◌^◌, ◌<◌, ◌≡◌, refl, sym, ◌∙◌, ◌-◌, ap, ap₂, true, some, List, [], ◌∷◌,
  ◌++◌, ltb, ◌==◌, arith, length, lt→ltb, eq→==, All,
}
use live_update.Memory.Words.{length-bytes_of, number_of-bytes_of}
use live_update.Machine.{ok}
use live_update.Restore.Programs.{run_on_items, chop}
use live_update.Restore.Programs.Chop.{chop-flatten}
use live_update.Resume.Items.{resume_items}
use live_update.Update.Calls.{items_of}
use live_update.Update.Templates.{length-flatten}
use live_update.TestBoot.{BootTest, stamp_bytes, stamps_of, boot_calls, spent, boot_resume_all}

pub spent-append :
    (t1 t2 : ℕ) (ts : List ℕ)
    → spent t2 (ts ++ t1 ∷ []) ≡ some (ts ++ (t2 + 2 ^ 64 - t1) % 2 ^ 64 ∷ [])
spent-append t1 t2 [] = refl
spent-append t1 t2 (t ∷ []) = refl
spent-append t1 t2 (t ∷ u ∷ ts) = rw (spent-append t1 t2 (u ∷ ts)) refl

pub All-stamp_bytes : (ts : List ℕ) → All (λ x. length x ≡ 8) (stamp_bytes ts)
All-stamp_bytes [] = tt
All-stamp_bytes (t ∷ ts) = (length-bytes_of 8 t, All-stamp_bytes ts)

pub length-stamp_bytes : (ts : List ℕ) → length (stamp_bytes ts) ≡ length ts
length-stamp_bytes [] = refl
length-stamp_bytes (t ∷ ts) = ap suc (length-stamp_bytes ts)

stamps_of-stamp_bytes : (ts : List ℕ) → All (λ t. t < 2 ^ 64) ts → stamps_of (stamp_bytes ts) ≡ ts
stamps_of-stamp_bytes [] h = refl
stamps_of-stamp_bytes (t ∷ ts) h =
    ap₂ ◌∷◌ (number_of-bytes_of 8 t (omega (arith, h.0))) (stamps_of-stamp_bytes ts h.1)

-- The state of the service behind the handler.
abbrev pub resumed_test : List ℕ → ℕ → ℕ → BootTest → BootTest
resumed_test ts t1 t2 s = record s {
  timestamps = ts ++ (t2 + 2 ^ 64 - t1) % 2 ^ 64 ∷ [];
  is_saved = true;
}

pub items-resumed :
    (rounds elements t1 t2 : ℕ) (ts : List ℕ) (s : BootTest)
    → All (λ t. t < 2 ^ 64) (ts ++ t1 ∷ [])
    → length (ts ++ t1 ∷ []) < 2 ^ 61
    → 1 < rounds
    → resume_items rounds [] (boot_resume_all t2) (items_of (boot_calls elements (ts ++ t1 ∷ []))) s
      ≡ (ok tt, resumed_test ts t1 t2 s)
unfolding resume_items run_on_items boot_resume_all
items-resumed (suc (suc k)) elements t1 t2 ts s small few enough =
    let all = ts ++ t1 ∷ [] in
    let pieces = stamp_bytes all in
    let number = length-stamp_bytes all in
    let size : (length all * 8 == length (flatten pieces)) ≡ true =
      eq→== _ _ (ap (λ n. n * 8) (sym number) ∙ length-flatten 8 pieces (All-stamp_bytes all)) in
    let count : ltb (length all) (2 ^ 64) ≡ true = lt→ltb (length all) (2 ^ 64) (omega arith) in
    let cut : chop (length all) 8 (flatten pieces) ≡ pieces =
      ap (λ n. chop n 8 (flatten pieces)) (sym number)
      ∙ chop-flatten 8 pieces (All-stamp_bytes all) in
    rw (count, size, cut, stamps_of-stamp_bytes all small, spent-append t1 t2 ts) refl
items-resumed _ elements t1 t2 ts s small few enough = absurd (omega arith)
