-- ===== src/Primes/Fit.antt =====
-- The size that fit_prime of jab_simul/libjabber_ext.c chooses for a hash table.
use jab_simul.Shared.{
  ℕ, ◌≤◌, ◌<◌, ◌≡◌, refl, List, [], ◌∷◌, Option, none, some, Bool, true, false, ◌&&◌, ◌||◌, arith,
  ltb, leb, ◌==◌, Bool-cases, inl, inr,
}
use jab_simul.Primes.{prime_numbers, first_fitting, fit_prime}

abbrev pub listed : ℕ → List ℕ → Bool
listed q [] = false
listed q (p ∷ ps) = q == p || listed q ps

-- No number of the list is smaller than `p`.
abbrev none_below : ℕ → List ℕ → Bool
none_below p [] = true
none_below p (q ∷ qs) = leb p q && none_below p qs

abbrev ascends : List ℕ → Bool
ascends [] = true
ascends (p ∷ ps) = none_below p ps && ascends ps

none_below-listed : (p q : ℕ) (ps : List ℕ) → none_below p ps ≡ true → listed q ps ≡ true → p ≤ q
none_below-listed p q [] h m = cc
none_below-listed p q (x ∷ xs) h m = ground (arith, none_below-listed p q xs)

-- The least number of the table that is no smaller than `size`; or all of them are smaller.
abbrev pub Fits : List ℕ → ℕ → Option ℕ → Type 0
Fits ps size none = (q : ℕ) → listed q ps ≡ true → q < size
Fits ps size (some p) =
    (listed p ps ≡ true) × (size ≤ p) × ((q : ℕ) → listed q ps ≡ true → size ≤ q → p ≤ q)

skip_small :
    (p size : ℕ) (ps : List ℕ) (r : Option ℕ) → p < size → Fits ps size r → Fits (p ∷ ps) size r
skip_small p size ps none lt h = λ q m. ground (arith, h q)
skip_small p size ps (some r) lt h = (ground (arith, h.0), h.1, λ q m le. ground (arith, h.2 q))

first_fitting-Fits :
    (ps : List ℕ) (size : ℕ) → ascends ps ≡ true → Fits ps size (first_fitting ps size)
unfolding first_fitting
first_fitting-Fits [] size h = λ q m. cc
first_fitting-Fits (p ∷ ps) size h = elim (Bool-cases (ltb p size)) [
  | inl small ↦
      rw small
        (skip_small p size ps _ (ground arith) (first_fitting-Fits ps size (ground (arith, h))))
  | inr large ↦
      rw large
        (ground arith, ground arith, λ q m le. ground (arith, none_below-listed p q ps, h, m))
]

-- For a `size` that is not negative, fit_prime chooses the least number of its table that is no
-- smaller; where the table has none, and the C code reads past its end, every number of the table is
-- smaller.
pub fit_prime-Fits : (size : ℕ) → Fits prime_numbers size (fit_prime size)
unfolding fit_prime
fit_prime-Fits size = first_fitting-Fits prime_numbers size refl
