-- ===== src/Tests/Shipped.antt =====
-- The patterns of jab_simul/jab_simul.xml and jab_simul/jab_simul.xml.example print for every user.
use jab_simul.Shared.{
  ℕ, zero, suc, ◌-◌, ◌/◌, ◌%◌, ◌++◌, length-append, lt→ltb, ◌≡◌, ◌∙◌, subst, ◌<◌, ◌≤◌, ◌+◌, ◌*◌,
  refl, [], ◌∷◌, some, List, none, codes, Text, arith, length,
}
use jab_simul.Shared.Int.{pos, ℤ}
use jab_simul.Pattern.{initial, parsed}
use jab_simul.Pattern.Parser.{sprintf_pattern, outcome, apply, plus, mul, div, rem, emit, quotient}
use jab_simul.Pattern.Printf.{printf_int}
use jab_simul.Ids.{digits_of, print_unsigned}
use jab_simul.Events.{max_users}
use jab_simul.Pattern.Meaning.{Piece, char, meaning_of}
use jab_simul.Pattern.Render.{render, has_paren}
use jab_simul.Pattern.ReadBack.{sprintf_pattern-render, Writable}
use jab_simul.Tests.Patterns.{piece_u, full_name}
use jab_simul.Config.Returns.{Prints}

digits-length : (f n : ℕ) → length (digits_of f n) ≤ f
unfolding digits_of
digits-length zero n = omega arith
digits-length (suc f) n =
    ground
      (arith, digits-length f (n / 10), length-append (digits_of f (n / 10)) ((48 + n % 10) ∷ []))

printed : (m : ℕ) → printf_int (codes "u") (pos m) ≡ some (print_unsigned m ++ [])
unfolding printf_int
printed m = rw (none_missing (length (print_unsigned m))) refl
  where
    none_missing : (k : ℕ) → 0 - k ≡ 0
    none_missing k = omega arith

sum_of : (a b : ℕ) → a + b < 2147483648 → apply plus (pos a) (pos b) ≡ some (pos (a + b))
unfolding apply
sum_of a b h = ground (arith, h)

product_of : (a b : ℕ) → a * b < 2147483648 → apply mul (pos a) (pos b) ≡ some (pos (a * b))
unfolding apply
product_of a b h = ground (arith, h)

emitted :
    (i : ℤ) (random : ℕ → ℕ) (size d : ℕ) (before t : Text)
    → length before + length t < size
    → emit i random size t (record { mode = initial; drawn = d; out = some before })
      ≡ parsed tt (record { mode = initial; drawn = d; out = some (before ++ t) })
unfolding emit
emitted i random size d before t h =
    rw (lt→ltb (length (before ++ t)) size (omega (arith, length-append before t, h))) refl

-- A number printed behind a text of `k` bytes.
room_for : (k m size : ℕ) → k + 10 < size → k + length (print_unsigned m ++ []) < size
unfolding print_unsigned
room_for k m size h = omega (arith, h, digits-length 10 m, length-append (digits_of 10 m) [])

twice : (n : ℕ) → n < max_users → n * 2 < 2147483648
twice n h = omega (arith, h)

pub index-Prints : (random : ℕ → ℕ) → Prints random 50 (some (codes "u%(num:u)"))
unfolding sprintf_pattern
index-Prints random n d old small = (
  b'u' ∷ (print_unsigned n ++ []),
  d,
  rw
      (
        printed n,
        emitted (pos n) random 50 d (codes "u") (print_unsigned n ++ [])
            (room_for 1 n 50 (omega arith)),
      )
      refl,
)

pub mul-Prints : (random : ℕ → ℕ) → Prints random 1000 (some (codes "p%(num*2:u)"))
unfolding sprintf_pattern
mul-Prints random n d old small = (
  b'p' ∷ (print_unsigned (n * 2) ++ []),
  d,
  rw
      (
        product_of n 2 (twice n small),
        printed (n * 2),
        emitted (pos n) random 1000 d (codes "p") (print_unsigned (n * 2) ++ [])
            (room_for 1 (n * 2) 1000 (omega arith)),
      )
      refl,
)

-- The remainder that the full name is made of.
remainder :
    (n : ℕ)
    → n < max_users
    → (r : ℕ) × (apply rem (pos n) (pos 12000) ≡ some (pos r)) × (r < max_users)
unfolding apply quotient
remainder n small = (n - n / 12000 * 12000, ground (arith, small), omega (arith, small))

quarter : (r : ℕ) → r < max_users → apply div (pos r) (pos 4) ≡ some (pos (r / 4))
unfolding apply quotient
quarter r small = ground (arith, small)

short_sum : (r m : ℕ) → r < max_users → m ≤ 10 → m + r / 4 < 2147483648
short_sum r m small h = omega (arith, small, h)

two_numbers :
    (a b size : ℕ)
    → 40 < size
    → length (codes "test" ++ (print_unsigned a ++ [])) + 1 < size
      × (length ((codes "test" ++ (print_unsigned a ++ [])) ++ codes "-")
            + length (print_unsigned b ++ [])
          < size)
unfolding print_unsigned
two_numbers a b size h = (
  omega (arith, h, digits-length 10 a, length-append (digits_of 10 a) []),
  omega (
    arith,
    h,
    digits-length 10 a,
    digits-length 10 b,
    length-append (digits_of 10 a) [],
    length-append (digits_of 10 b) [],
    length-append (digits_of 10 a ++ []) (codes "-"),
  ),
)

abbrev named : List Piece
named = char b'e' ∷ char b's' ∷ char b't' ∷ piece_u ∷ full_name

named_text : render (char b't' ∷ named) ≡ codes "test%(num*2:u)-%(3+num%12000/(1+3)+7:u)"
unfolding render print_unsigned digits_of
named_text = refl

named-Writable : Writable (char b't' ∷ named)
unfolding has_paren
named-Writable = (refl, refl, (refl, refl, (refl, refl, (refl, refl, numbers))))
  where
    numbers : Writable (piece_u ∷ full_name)
    numbers = (
      (tt, omega arith),
      refl,
      (
        refl,
        refl,
        (((omega arith, ((tt, omega arith), (omega arith, omega arith))), omega arith), refl, tt),
      ),
    )

named_meaning :
    (random : ℕ → ℕ) (n d : ℕ) (old : Text)
    → n < max_users
    → (t : Text) × (e : ℕ) × (outcome old (
          meaning_of
            (pos n)
            random
            1000
            (char b't' ∷ named)
            (record { mode = initial; drawn = d; out = none }))
        ≡ some (t, initial, e))
unfolding meaning_of
named_meaning random n d old small =
    let (r, rest, below) = remainder n small in
    let first = print_unsigned (n * 2) ++ [] in
    let value = 3 + r / 4 + 7 in
    let (dash, last) = two_numbers (n * 2) value 1000 (omega arith) in
    (
      ((codes "test" ++ first) ++ codes "-") ++ (print_unsigned value ++ []),
      d,
      rw
          (
            product_of n 2 (twice n small),
            printed (n * 2),
            emitted (pos n) random 1000 d (codes "test") first
                (room_for 4 (n * 2) 1000 (omega arith)),
            emitted (pos n) random 1000 d (codes "test" ++ first) (codes "-") dash,
            rest,
            quarter r below,
            sum_of 3 (r / 4) (short_sum r 3 below (omega arith)),
            sum_of (3 + r / 4) 7 (omega (arith, below)),
            printed value,
            emitted (pos n) random 1000 d ((codes "test" ++ first) ++ codes "-")
                (print_unsigned value ++ []) last,
          )
          refl,
    )

-- The full name of jab_simul.xml.
pub full_name-Prints :
    (random : ℕ → ℕ) → Prints random 1000 (some (codes "test%(num*2:u)-%(3+num%12000/(1+3)+7:u)"))
full_name-Prints random n d old small =
    let (t, e, same) = named_meaning random n d old small in
    (
      t,
      e,
      subst (λ p. sprintf_pattern (pos n) random 1000 initial d old p ≡ some (t, initial, e))
          named_text
          (sprintf_pattern-render (pos n) random 1000 d old (char b't') named named-Writable
            ∙ same),
    )
