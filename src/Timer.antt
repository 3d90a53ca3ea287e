-- ===== src/Timer.antt =====
-- Interval timers: check_timer of jab_simul/jab_simul-main.c. A time is in seconds and
-- microseconds.
pub mod Interval
use jab_simul.Shared.{ℕ, ◌+◌, ◌*◌, ◌/◌, Bool, true, false, ltb, ◌==◌, if◌then◌else◌}
use jab_simul.Shared.Int.{ℤ, pos, ◌-ℤ◌, leb_ℤ}

pub record Time : Type 0 where
  pub sec : ℕ
  pub usec : ℕ

abbrev pub max_timers : ℕ
max_timers = 10

-- Milliseconds, as the difference is taken of them.
abbrev pub millis : Time → ℕ
millis t = t.sec * 1000 + t.usec / 1000

-- The table after its first use, which sets all of it to 0; `num` is not negative.
unfoldable pub check_timer : (ℕ → Time) → ℕ → ℤ → Time → (ℕ → Time) × Bool
check_timer timer num interval now =
    if ltb num max_timers
    then (if leb_ℤ interval (pos (millis now) -ℤ pos (millis (timer num)))
        then ((λ k. if k == num then now else timer k), true)
        else (timer, false))
    else (timer, false)
