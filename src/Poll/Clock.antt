-- ===== src/Poll/Clock.antt =====
-- The time that stat_printf of jab_simul/thread-main.c shows, and the start of the events.
use jab_simul.Shared.{ℕ, ◌+◌, ◌*◌, ◌/◌, ◌<◌, ◌≡◌, arith}
use jab_simul.Poll.{clock_of}

-- The hours, minutes and seconds shown are the whole seconds of the time, with less than sixty
-- minutes and less than sixty seconds.
pub clock_of-seconds :
    (usecs : ℕ)
    → let (hours, minutes, seconds) = clock_of usecs in
      (hours * 3600 + minutes * 60 + seconds ≡ usecs / 1000000) × (minutes < 60) × (seconds < 60)
unfolding clock_of
clock_of-seconds usecs = (omega arith, omega arith, omega arith)
