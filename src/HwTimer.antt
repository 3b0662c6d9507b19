-- ===== src/HwTimer.antt =====
-- hw_timer.hpp: a timer that tells, when it goes out of scope, how many cycles have passed.
use live_update.Base.{ℕ, ◌+◌, ◌-◌, ◌%◌, ◌^◌, ◌<◌, ◌≡◌, List, arith}

-- `context` is a string; `time` is an `int64_t`, as its bit pattern.
pub record HwTimer : Type 0 where
  pub context : List ℕ
  pub time : ℕ

-- The constructor, at a count of cycles that is 64 bits wide.
unfoldable pub construct : List ℕ → ℕ → HwTimer
construct ctx cycles_since_boot = record { context = ctx; time = cycles_since_boot % 2 ^ 64 }

-- `diff` of the destructor, an unsigned difference of 64 bits. The milliseconds are a floating-point number.
unfoldable pub destruct : ℕ → HwTimer → ℕ
destruct cycles_since_boot timer = (cycles_since_boot % 2 ^ 64 + 2 ^ 64 - timer.time) % 2 ^ 64

-- The timer tells the cycles between, also where the count has wrapped, if they are less than 2 ^ 64.
pub destruct-construct :
    (ctx : List ℕ) (start elapsed : ℕ)
    → elapsed < 2 ^ 64
    → destruct (start + elapsed) (construct ctx start) ≡ elapsed
unfolding destruct construct
destruct-construct ctx start elapsed h = omega arith
