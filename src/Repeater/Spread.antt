-- ===== src/Repeater/Spread.antt =====
-- How far the next activation of an event lies: EVENTS_FREQ_DISPERTION of jab_simul/jab_simul-user.c.
use jab_simul.Shared.{ℕ, ◌+◌, ◌-◌, ◌*◌, ◌/◌, ◌%◌, ◌≤◌, ◌≡◌, arith}
use jab_simul.Shared.Int.{ℤ, pos, ◌+ℤ◌, ◌-ℤ◌, ◌*ℤ◌, ◌≤ℤ◌, pos_part, neg_part, int_laws}
use jab_simul.Repeater.{next_activation}

not_negative_parts : (a : ℤ) → pos 0 ≤ℤ a → (neg_part a ≡ 0) × (a ≡ pos (pos_part a))
not_negative_parts a h = ground arith

times_parts :
    (q : ℕ) (b : ℤ)
    → pos_part (pos q *ℤ b) + q * neg_part b ≡ neg_part (pos q *ℤ b) + q * pos_part b
unfolding ◌*ℤ◌
times_parts q b = ground arith

difference_bounds :
    (d c : ℕ) → (pos_part (pos d -ℤ pos c) ≤ d - c) × (neg_part (pos d -ℤ pos c) ≤ c)
unfolding ◌-ℤ◌
difference_bounds d c = ground arith

times_le : (q a m : ℕ) → a ≤ m → q * a ≤ q * m
times_le q a m h = grind arith

-- A random part of at most fifteen percent of `f`.
spread_bounds :
    (f r : ℕ)
    → let part = pos (f / 10000) *ℤ (pos (r % 3000) -ℤ pos 1500) in
      (100 * neg_part part ≤ 15 * f + 100 * pos_part part)
      × (100 * pos_part part ≤ 15 * f + 100 * neg_part part)
spread_bounds f r =
    let q = f / 10000 in
    let b = pos (r % 3000) -ℤ pos 1500 in
    let (high, low) = difference_bounds (r % 3000) 1500 in
    let up : q * pos_part b ≤ q * 1500 = times_le q (pos_part b) 1500 (omega (arith, high)) in
    let down : q * neg_part b ≤ q * 1500 = times_le q (neg_part b) 1500 low in
    (omega (arith, times_parts q b, up, down), omega (arith, times_parts q b, up, down))

-- For a frequency of `f` microseconds the next activation is between 85 and 115 percent of it later
-- than now, whatever the random number is.
pub next_activation-spread :
    (f now r : ℕ)
    → (n : ℕ) × (next_activation (pos f) now r ≡ pos n)
      × (100 * now + 85 * f ≤ 100 * n)
      × (100 * n ≤ 100 * now + 115 * f)
unfolding next_activation
next_activation-spread f now r =
    let part = pos (f / 10000) *ℤ (pos (r % 3000) -ℤ pos 1500) in
    let bounds = spread_bounds f r in
    let (zero_below, same) =
      not_negative_parts (pos now +ℤ pos f +ℤ part) (omega (int_laws, bounds)) in
    (
      pos_part (pos now +ℤ pos f +ℤ part),
      same,
      omega (int_laws, bounds, zero_below),
      omega (int_laws, bounds, zero_below),
    )
