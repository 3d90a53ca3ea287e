-- ===== src/Tests/Patterns.antt =====
-- Patterns of jab_simul/jab_simul.xml.example, and broken ones.
use jab_simul.Shared.{ℕ, ◌≡◌, refl, List, [], ◌∷◌, none, some, codes, arith}
use jab_simul.Shared.Int.{pos}
use jab_simul.Pattern.{initial, expression}
use jab_simul.Pattern.Parser.{mul, plus, div, rem, sprintf_pattern, outcome, apply}
use jab_simul.Pattern.Meaning.{Expr, num, own_index, binary, Piece, char, value, meaning_of}
use jab_simul.Pattern.Render.{render, has_paren}
use jab_simul.Pattern.ReadBack.{sprintf_pattern-render}
use jab_simul.Pattern.Broken.{sprintf_pattern-stuck, has_colon}
use jab_simul.Pattern.Printf.{printf_int}
use jab_simul.Ids.{print_unsigned, digits_of}

abbrev draws : ℕ → ℕ
draws k = k

-- 3+num%12000/(1+3)+7
abbrev pub mixed : Expr
mixed =
    binary plus
      (binary plus (num 3)
        (binary div (binary rem own_index (num 12000)) (binary plus (num 1) (num 3))))
      (num 7)

abbrev pub full_name : List Piece
full_name = char b'-' ∷ value mixed (codes "u") ∷ []

abbrev pub piece_u : Piece
piece_u = value (binary mul own_index (num 2)) (codes "u")

-- What is written is the pattern of the example file.
full_name_text : render (piece_u ∷ full_name) ≡ codes "%(num*2:u)-%(3+num%12000/(1+3)+7:u)"
unfolding render print_unsigned digits_of
full_name_text = refl

-- User 102 gets 204-35.
full_name_printed :
    sprintf_pattern (pos 102) draws 1000 initial 0 [] (codes "%(num*2:u)-%(3+num%12000/(1+3)+7:u)")
    ≡ some (codes "204-35", initial, 0)
unfolding sprintf_pattern apply printf_int print_unsigned digits_of
full_name_printed = refl

sprintf_pattern-render_example :
    sprintf_pattern (pos 102) draws 1000 initial 0 [] (render (piece_u ∷ full_name))
    ≡ outcome [] (
        meaning_of
          (pos 102)
          draws
          1000
          (piece_u ∷ full_name)
          (record { mode = initial; drawn = 0; out = none }))
unfolding has_paren
sprintf_pattern-render_example =
    sprintf_pattern-render (pos 102) draws 1000 0 [] piece_u full_name (
      (tt, omega arith),
      refl,
      (
        refl,
        refl,
        (((omega arith, ((tt, omega arith), (omega arith, omega arith))), omega arith), refl, tt),
      ),
    )

-- A division by zero is undefined.
by_zero : sprintf_pattern (pos 0) draws 1000 initial 0 [] (codes "%(7/num:u)") ≡ none
unfolding sprintf_pattern apply
by_zero = refl

-- So is a name that does not fit into 50 bytes.
too_long_name :
    sprintf_pattern
      (pos 1)
      draws
      50
      initial
      0
      []
      (codes "01234567890123456789012345678901234567890123456789")
    ≡ none
unfolding sprintf_pattern
too_long_name = refl

-- An operator is missing: the text so far stays, and so does the start condition.
broken :
    sprintf_pattern (pos 7) draws 50 initial 0 [] (codes "u%(num num)")
    ≡ some (codes "u", expression, 0)
unfolding sprintf_pattern
broken = refl

sprintf_pattern-stuck_example : (codes "old" ≡ codes "old") × (expression ≡ expression)
sprintf_pattern-stuck_example =
    sprintf_pattern-stuck (pos 8) draws 50 0 (codes "old") (codes "jabber.localhost") (codes "old")
      expression 0 (unfold has_colon in refl) (unfold sprintf_pattern in refl)
