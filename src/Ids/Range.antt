-- ===== src/Ids/Range.antt =====
-- For how many requests of a user the identifiers differ.
use jab_simul.Shared.{
  ℕ, zero, suc, ◌+◌, ◌-◌, ◌*◌, ◌/◌, ◌%◌, ◌^◌, ◌≤◌, ◌<◌, ◌≡◌, refl, sym, ap, ◌∙◌, [], ◌∷◌, ◌++◌,
  Bool, true, ◌&&◌, Text, codes, take, drop, length, length-append, arith, ◌==◌, ==_iff,
}
use native.Mathlib.Nat.{pow-succ'}
use jab_simul.Ids.{digits_of, print_unsigned, make_jcom_id}

read_digits : ℕ → Text → ℕ
read_digits acc [] = acc
read_digits acc (c ∷ cs) = read_digits (acc * 10 + (c - 48)) cs

-- The number back from an identifier: its digits follow the five bytes of `JCOM_`.
read_id : Text → ℕ
unfolding read_digits
read_id t = read_digits 0 (drop 5 t)

-- Whether the numbers below the bound come back from their identifiers.
come_back : ℕ → Bool
come_back zero = true
come_back (suc k) = let smaller = come_back k in read_id (make_jcom_id k) == k && smaller

ten_thousand_come_back : come_back 10000 ≡ true
unfolding come_back read_id make_jcom_id print_unsigned digits_of
ten_thousand_come_back = refl

come_back-read :
    (bound n : ℕ) → n < bound → come_back bound ≡ true → (read_id (make_jcom_id n) == n) ≡ true
unfolding come_back
come_back-read zero n below all = absurd (omega (arith, below))
come_back-read (suc k) n below all = ground (arith, come_back-read k n, all)

read_id-make : (n : ℕ) → n < 10000 → read_id (make_jcom_id n) ≡ n
read_id-make n h = (==_iff _ n).0 (come_back-read 10000 n h ten_thousand_come_back)

-- The first 10000 identifiers of a user are all different.
pub make_jcom_id-injective :
    (m n : ℕ) → m < 10000 → n < 10000 → make_jcom_id m ≡ make_jcom_id n → m ≡ n
make_jcom_id-injective m n hm hn e = sym (read_id-make m hm) ∙ ap read_id e ∙ read_id-make n hn

take-append : (k : ℕ) (xs ys : Text) → k ≤ length xs → take k (xs ++ ys) ≡ take k xs
take-append zero xs ys h = refl
take-append (suc k) [] ys h = absurd (omega arith)
take-append (suc k) (x ∷ xs) ys h = ap (◌∷◌ x) (take-append k xs ys (omega arith))

power_of_ten : (f : ℕ) → 10 ^ suc f ≡ 10 * 10 ^ f
power_of_ten f = pow-succ' 10 f

digits_of-fuel : (f n : ℕ) → n < 10 ^ suc f → digits_of (suc (suc f)) n ≡ digits_of (suc f) n
unfolding digits_of
digits_of-fuel zero n h = ground arith
digits_of-fuel (suc f) n h = ground (arith, digits_of-fuel f (n / 10), power_of_ten (suc f))

one_digit : (f n : ℕ) → 1 ≤ length (digits_of (suc f) n)
unfolding digits_of
one_digit f n = ground (arith, length-append (digits_of f (n / 10)) ((48 + n % 10) ∷ []))

more_digits :
    (k f n : ℕ) → k ≤ length (digits_of f (n / 10)) → 10 ≤ n → suc k ≤ length (digits_of (suc f) n)
unfolding digits_of
more_digits k f n h big = ground (arith, length-append (digits_of f (n / 10)) ((48 + n % 10) ∷ []))

four_digits : (f n : ℕ) → 1000 ≤ n → 4 ≤ length (digits_of (suc (suc (suc (suc f)))) n)
four_digits f n h =
    more_digits 3 _ n
      (more_digits 2 _ (n / 10)
        (more_digits 1 _ (n / 10 / 10) (one_digit f (n / 10 / 10 / 10)) (omega arith))
        (omega arith))
      (omega arith)

last_digit : (f n : ℕ) → 10 ≤ n → digits_of (suc f) n ≡ digits_of f (n / 10) ++ (48 + n % 10) ∷ []
unfolding digits_of
last_digit f n h = ground arith

print_unsigned-prefix :
    (n : ℕ) → 10000 ≤ n → n < 10 ^ 10 → take 4 (print_unsigned n) ≡ take 4 (print_unsigned (n / 10))
unfolding print_unsigned
print_unsigned-prefix n lo hi = rw (last_digit 9 n (omega arith)) (
    take-append 4 (digits_of 9 (n / 10)) ((48 + n % 10) ∷ []) (four_digits 5 (n / 10) (omega arith))
    ∙ ap (take 4) (sym (digits_of-fuel 8 (n / 10) (omega arith))))

-- From the number 10000 on, up to ten digits, the buffer cuts the last digit off: the identifier is
-- that of the number divided by ten.
pub make_jcom_id-repeats :
    (n : ℕ) → 10000 ≤ n → n < 10 ^ 10 → make_jcom_id n ≡ make_jcom_id (n / 10)
unfolding make_jcom_id
make_jcom_id-repeats n lo hi = ap (λ (t : Text). codes "JCOM_" ++ t) (print_unsigned-prefix n lo hi)
