-- ===== src/Timer/Interval.antt =====
-- How often a timer fires: check_timer of jab_simul/jab_simul-main.c.
use jab_simul.Shared.{
  ℕ, ◌≡◌, subst, inl, inr, Bool-cases, List, [], ◌∷◌, true, false, arith, if◌then◌else◌,
}
use jab_simul.Shared.Int.{ℤ, pos, ◌-ℤ◌, ◌≤ℤ◌}
use jab_simul.Timer.{Time, millis, check_timer}

-- The times at which the timer `num` fires, of those at which it is asked.
abbrev pub firings : (ℕ → Time) → ℕ → ℤ → List Time → List Time
firings timer num interval [] = []
firings timer num interval (now ∷ times) =
    let r = check_timer timer num interval now in
    let rest = firings r.0 num interval times in if r.1 then now ∷ rest else rest

-- Each time is at least `interval` milliseconds after the one before it, the first after `last`.
abbrev pub Spaced : ℤ → Time → List Time → Type 0
Spaced interval last [] = Unit
Spaced interval last (t ∷ ts) =
    (interval ≤ℤ pos (millis t) -ℤ pos (millis last)) × Spaced interval t ts

check_timer-fired :
    (timer : ℕ → Time) (num : ℕ) (interval : ℤ) (now : Time)
    → (check_timer timer num interval now).1 ≡ true
    → (interval ≤ℤ pos (millis now) -ℤ pos (millis (timer num)))
      × ((check_timer timer num interval now).0 num ≡ now)
unfolding check_timer
check_timer-fired timer num interval now h = ground arith

check_timer-idle :
    (timer : ℕ → Time) (num : ℕ) (interval : ℤ) (now : Time)
    → (check_timer timer num interval now).1 ≡ false
    → (check_timer timer num interval now).0 num ≡ timer num
unfolding check_timer
check_timer-idle timer num interval now h = ground arith

-- Two firings of a timer are at least its interval apart, and the first is so from the time in the
-- table, whenever the timer is asked.
pub firings-Spaced :
    (timer : ℕ → Time) (num : ℕ) (interval : ℤ) (times : List Time)
    → Spaced interval (timer num) (firings timer num interval times)
firings-Spaced timer num interval [] = tt
firings-Spaced timer num interval (now ∷ times) =
    let timer' : ℕ → Time = (check_timer timer num interval now).0 in
    let later = firings-Spaced timer' num interval times in
    let Holds : Time → Type 0 = λ t. Spaced interval t (firings timer' num interval times) in
    elim (Bool-cases (check_timer timer num interval now).1) [
      | inl fires ↦
          let (late, set) = check_timer-fired timer num interval now fires in
          rw fires (late, subst Holds set later)
      | inr idle ↦ rw idle (subst Holds (check_timer-idle timer num interval now idle) later)
    ]
