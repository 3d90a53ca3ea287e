-- ===== src/Stats.antt =====
-- Statistics over the last values of a measurement: s_stat and stat_t in jab_simul/jab_simul-user.c.
-- A `long long` is an integer without bounds.
pub mod Window
use jab_simul.Shared.{
  ℕ, zero, ◌+◌, List, [], ◌∷◌, ltb, leb, ◌==◌, if◌then◌else◌, get_or, set, replicate,
}
use jab_simul.Shared.Int.{ℤ, pos, ◌+ℤ◌, ◌-ℤ◌, div_ℤ}

pub record Stat : Type 0 where
  pub stat_pos : ℕ
  pub stat_size : ℕ
  pub stat_intable : ℕ
  pub stat_times : List ℤ
  pub stat_sum_times : ℤ

-- The array stat_t, by number.
abbrev pub StatTable : Type 0
StatTable = ℕ → Stat

abbrev pub mesg_stat : ℕ
mesg_stat = 0

abbrev pub diff_stat : ℕ
diff_stat = 1

abbrev pub radd_stat : ℕ
radd_stat = 2

abbrev pub rdel_stat : ℕ
rdel_stat = 3

unfoldable pub update_stat : StatTable → ℕ → Stat → StatTable
update_stat t num s k = if k == num then s else t k

-- A table of `size` zeros: pmalloco clears what it allocates.
unfoldable pub empty_stat : ℕ → Stat
empty_stat size = record {
  stat_pos = 0;
  stat_size = size;
  stat_intable = 0;
  stat_times = replicate size (pos 0);
  stat_sum_times = pos 0;
}

unfoldable pub init_stat : StatTable → ℕ → ℕ → StatTable
unfolding update_stat empty_stat
init_stat t num size = update_stat t num (empty_stat size)

-- One value replaces the oldest; the position wraps at the size.
unfoldable pub add_time : Stat → ℤ → Stat
add_time s time = record s {
  stat_sum_times = s.stat_sum_times -ℤ get_or s.stat_times s.stat_pos (pos 0) +ℤ time;
  stat_times = set s.stat_times s.stat_pos time;
  stat_intable = if ltb s.stat_intable s.stat_size then s.stat_intable + 1 else s.stat_intable;
  stat_pos = if leb s.stat_size (s.stat_pos + 1) then 0 else s.stat_pos + 1;
}

unfoldable pub add_stat : StatTable → ℕ → ℤ → StatTable
unfolding update_stat add_time
add_stat t num time = update_stat t num (add_time (t num) time)

unfoldable pub get_div_stat : StatTable → ℕ → ℤ
get_div_stat t num =
    div_ℤ (t num).stat_sum_times (if (t num).stat_intable == 0 then 1 else (t num).stat_intable)

unfoldable pub get_stat : StatTable → ℕ → ℤ
get_stat t num = (t num).stat_sum_times

-- The calls of add_stat over a run, oldest first.
unfoldable pub add_stats : StatTable → ℕ → List ℤ → StatTable
add_stats t num [] = t
add_stats t num (x ∷ xs) = add_stats (add_stat t num x) num xs
