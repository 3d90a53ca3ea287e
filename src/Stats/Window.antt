-- ===== src/Stats/Window.antt =====
-- The table of jab_simul/jab_simul-user.c, add_stat, against the window of the last values.
use jab_simul.Shared.{
  ℕ, zero, suc, ◌+◌, ◌≤◌, ◌<◌, min, ◌≡◌, refl, sym, ap, ◌∙◌, List, [], ◌∷◌, ◌++◌, arith, length,
  length-append, length-replicate, get_or, set, replicate, drop, append-nil, append_assoc,
}
use jab_simul.Shared.Int.{ℤ, pos, ◌+ℤ◌, ◌-ℤ◌, div_ℤ, int_laws}
use jab_simul.Stats.{
  Stat, StatTable, empty_stat, init_stat, add_time, add_stat, add_stats, get_stat, get_div_stat,
}

abbrev pub total : List ℤ → ℤ
total [] = pos 0
total (x ∷ xs) = x +ℤ total xs

total-append : (xs ys : List ℤ) → total (xs ++ ys) ≡ total xs +ℤ total ys
total-append [] ys = omega int_laws
total-append (x ∷ xs) ys = rw (total-append xs ys) (omega int_laws)

total-zeros : (n : ℕ) → total (replicate n (pos 0)) ≡ pos 0
total-zeros zero = refl
total-zeros (suc n) = rw (total-zeros n) (omega int_laws)

get_or-middle :
    (xs : List ℤ) (x : ℤ) (ys : List ℤ) (d : ℤ) → get_or (xs ++ x ∷ ys) (length xs) d ≡ x
get_or-middle [] x ys d = refl
get_or-middle (z ∷ xs) x ys d = get_or-middle xs x ys d

set-middle :
    (xs : List ℤ) (x : ℤ) (ys : List ℤ) (v : ℤ) → set (xs ++ x ∷ ys) (length xs) v ≡ xs ++ v ∷ ys
set-middle [] x ys v = refl
set-middle (z ∷ xs) x ys v = ap (◌∷◌ z) (set-middle xs x ys v)

-- The table is cut at the position: what stands from there on is older than what stands before.
pub record Holds (s : Stat) (front back : List ℤ) : Type 0 where
  pub table : s.stat_times ≡ front ++ back
  pub cut : s.stat_pos ≡ length front
  pub full : s.stat_size ≡ length front + length back
  pub room : 0 < length back
  pub summed : s.stat_sum_times ≡ total back +ℤ total front

empty-Holds : (n : ℕ) → 0 < n → Holds (empty_stat n) [] (replicate n (pos 0))
unfolding empty_stat
empty-Holds n h = record {
  table = refl;
  cut = refl;
  full = omega (arith, length-replicate {0} n (pos 0));
  room = omega (arith, length-replicate {0} n (pos 0));
  summed = rw (total-zeros n) (omega int_laws);
}

swap_sum :
    (t old rest front : ℤ) → old +ℤ rest +ℤ front -ℤ old +ℤ t ≡ rest +ℤ (front +ℤ (t +ℤ pos 0))
swap_sum t old rest front = omega int_laws

-- The oldest value leaves the window and the new one enters it.
abbrev Next : Stat → List ℤ → Type 0
Next s w = (front : List ℤ) × (back : List ℤ) × Holds s front back × (w ≡ back ++ front)

add-Next :
    (s : Stat) (t old : ℤ) (front rest : List ℤ)
    → Holds s front (old ∷ rest)
    → Next (add_time s t) ((rest ++ front) ++ t ∷ [])
unfolding add_time
add-Next s t old front [] h = (
  [],
  front ++ t ∷ [],
  record {
    table = rw (h.table, h.cut, set-middle front old [] t);
    cut = ground (arith, h.cut, h.full);
    full = omega (arith, h.full, length-append front (t ∷ []));
    room = omega (arith, length-append front (t ∷ []));
    summed =
        rw
          (
            h.table,
            h.cut,
            get_or-middle front old [] (pos 0),
            h.summed,
            total-append front (t ∷ []),
          )
          (omega int_laws);
  },
  sym (append-nil _),
)
add-Next s t old front (x ∷ rest) h = (
  front ++ t ∷ [],
  x ∷ rest,
  record {
    table =
        rw (h.table, h.cut, set-middle front old (x ∷ rest) t)
          (sym (append_assoc front (t ∷ []) _));
    cut = ground (arith, h.cut, h.full, length-append front (t ∷ []));
    full = omega (arith, h.full, length-append front (t ∷ []));
    room = omega arith;
    summed =
        rw
          (
            h.table,
            h.cut,
            get_or-middle front old (x ∷ rest) (pos 0),
            h.summed,
            total-append front (t ∷ []),
          )
          (omega int_laws);
  },
  append_assoc (x ∷ rest) front (t ∷ []),
)

-- Whatever the window holds before a value comes, it holds the rest and the value afterwards.
add_time-Next :
    (s : Stat) (t x : ℤ) (w : List ℤ) → Next s (x ∷ w) → Next (add_time s t) (w ++ t ∷ [])
add_time-Next s t x w (front, [], h, e) = absurd (omega (arith, h.room))
add_time-Next s t x w (front, old ∷ rest, h, e) = rw (ap (drop 1) e) (add-Next s t old front rest h)

Next-sum : (s : Stat) (w : List ℤ) → Next s w → s.stat_sum_times ≡ total w
Next-sum s w (front, back, h, e) = rw (h.summed, e, total-append back front)

Next-room : (s : Stat) → ¬ Next s []
Next-room s (front, [], h, e) = absurd (omega (arith, h.room))
Next-room s (front, x ∷ back, h, e) = cc

add_stat_self : (t : StatTable) (num : ℕ) (x : ℤ) → add_stat t num x num ≡ add_time (t num) x
unfolding add_stat
add_stat_self t num x = ground arith

add_stats-Next :
    (t : StatTable) (num : ℕ) (xs w : List ℤ)
    → Next (t num) w
    → get_stat (add_stats t num xs) num ≡ total (drop (length xs) (w ++ xs))
unfolding add_stats get_stat
add_stats-Next t num [] w h = rw append-nil (Next-sum (t num) w h)
add_stats-Next t num (x ∷ xs) [] h = absurd (Next-room (t num) h)
add_stats-Next t num (x ∷ xs) (old ∷ w) h = rw (← append_assoc w (x ∷ []) xs) (
    add_stats-Next (add_stat t num x) num xs (w ++ x ∷ [])
      (rw (add_stat_self t num x) (add_time-Next (t num) x old w h)))

add_time-counts :
    (s : Stat) (x : ℤ)
    → ((add_time s x).stat_size ≡ s.stat_size)
      × (s.stat_intable ≤ s.stat_size
          → (add_time s x).stat_intable ≡ min s.stat_size (s.stat_intable + 1))
unfolding add_time
add_time-counts s x = (refl, λ h. ground arith)

add_stats-counts :
    (t : StatTable) (num n k : ℕ) (xs : List ℤ)
    → (t num).stat_size ≡ n
    → (t num).stat_intable ≡ k
    → k ≤ n
    → (add_stats t num xs num).stat_intable ≡ min n (k + length xs)
unfolding add_stats
add_stats-counts t num n k [] size table h = omega arith
add_stats-counts t num n k (x ∷ xs) size table h =
    add_stats-counts (add_stat t num x) num n (min n (k + 1)) xs
      (rw (add_stat_self t num x) ((add_time-counts (t num) x).0 ∙ size))
      (rw (add_stat_self t num x) (omega (arith, (add_time-counts (t num) x).1))) (omega arith)
    ∙ omega arith

init_stat_self : (t : StatTable) (num n : ℕ) → init_stat t num n num ≡ empty_stat n
unfolding init_stat
init_stat_self t num n = ground arith

-- The last `n` of `n` zeros and the values that came.
abbrev pub last_values : ℕ → List ℤ → List ℤ
last_values n xs = drop (length xs) (replicate n (pos 0) ++ xs)

-- After init_stat with a size `n` above 0 and any run of add_stat, get_stat is the sum of the last `n`
-- values, with zeros for those that have not come yet.
pub get_stat-add_stats :
    (t : StatTable) (num n : ℕ) (xs : List ℤ)
    → 0 < n
    → get_stat (add_stats (init_stat t num n) num xs) num ≡ total (last_values n xs)
get_stat-add_stats t num n xs h =
    add_stats-Next (init_stat t num n) num xs (replicate n (pos 0))
      (rw (init_stat_self t num n) ([], replicate n (pos 0), empty-Holds n h, sym (append-nil _)))

get_div_stat-of_parts :
    (t : StatTable) (num d : ℕ) (s : ℤ)
    → get_stat t num ≡ s
    → (t num).stat_intable ≡ d
    → 0 < d
    → get_div_stat t num ≡ div_ℤ s d
unfolding get_div_stat get_stat
get_div_stat-of_parts t num d s e k h = ground arith

init_stat-counts :
    (t : StatTable) (num n : ℕ)
    → ((init_stat t num n num).stat_size ≡ n) × ((init_stat t num n num).stat_intable ≡ 0)
unfolding empty_stat
init_stat-counts t num n = rw (init_stat_self t num n) (refl, refl)

-- After init_stat with a size `n` above 0 and at least one value, get_div_stat divides the sum of the last `n` values by the number of
-- values that came, or by `n` if more than `n` came: it is their average.
pub get_div_stat-add_stats :
    (t : StatTable) (num n : ℕ) (x : ℤ) (xs : List ℤ)
    → 0 < n
    → get_div_stat (add_stats (init_stat t num n) num (x ∷ xs)) num
      ≡ div_ℤ (total (last_values n (x ∷ xs))) (min n (length (x ∷ xs)))
get_div_stat-add_stats t num n x xs h =
    let (size, table) = init_stat-counts t num n in
    get_div_stat-of_parts _ num _ _ (get_stat-add_stats t num n (x ∷ xs) h)
      (add_stats-counts (init_stat t num n) num n 0 (x ∷ xs) size table (omega arith) ∙ omega arith)
      (omega arith)
