-- ===== src/Pattern/ReadBack.antt =====
-- Scanner and parser together, on patterns as they stand in the configuration file.
use jab_simul.Shared.{
  ℕ, ◌^◌, ◌<◌, ◌≡◌, refl, ap, ◌∙◌, Bool, true, false, ◌&&◌, none, List, [], ◌∷◌, ◌++◌, append_assoc,
  Text, ◌==◌,
}
use jab_simul.Shared.Int.{ℤ}
use jab_simul.Pattern.{Mode, initial, expression, Token, end_expr, pnawias}
use jab_simul.Pattern.Printf.{is_digit}
use jab_simul.Pattern.Lexer.{mode_after, tokens}
use jab_simul.Pattern.Parser.{Op, plus, minus, mul, div, rem, outcome, sprintf_pattern}
use jab_simul.Pattern.Meaning.{
  Expr, num, own_index, random_value, binary, Prec, sum, token_of, level, below, wrap, needs, spell,
  Piece, char, value, spell_piece, spell_pieces, meaning_of,
}
use jab_simul.Pattern.Correct.{yyparse-spell_pieces}
use jab_simul.Pattern.Render.{
  text_of, text_of_all, render, begins_with, has_paren, Fits, first_found,
}

abbrev AllFit : Mode → List Token → Type 0
AllFit m [] = Unit {0}
AllFit m (t ∷ ts) = Fits m t (text_of_all ts) × AllFit (mode_after t m) ts

tokens-text_of_all : (m : Mode) (ts : List Token) → AllFit m ts → tokens m (text_of_all ts) ≡ ts
unfolding text_of_all tokens
tokens-text_of_all m [] h = refl
tokens-text_of_all m (t ∷ ts) h =
    first_found m t (text_of_all ts) h.0 ∙ ap (◌∷◌ t) (tokens-text_of_all (mode_after t m) ts h.1)

-- The numbers of an expression have at most ten digits.
abbrev pub Short : Expr → Type 0
Short (num n) = n < 10 ^ 10
Short own_index = Unit {0}
Short random_value = Unit {0}
Short (binary op a b) = Short a × Short b

-- What can be written: a newline is lost, a `%` before a parenthesis begins an expression, and a
-- format ends at its first parenthesis.
abbrev pub Writable : List Piece → Type 0
Writable [] = Unit {0}
Writable (char c ∷ xs) =
    ((c == b'\n') ≡ false)
    × (((c == b'%') && begins_with (λ d. d == b'(') (render xs)) ≡ false)
    × Writable xs
Writable (value e fmt ∷ xs) = Short e × (has_paren fmt ≡ false) × Writable xs

-- Tokens that may follow an expression.
abbrev Continues : List Token → Type 0
Continues ts = (begins_with is_digit (text_of_all ts) ≡ false) × AllFit expression ts

operator-Continues :
    (op : Op) (ts : List Token) → AllFit expression ts → Continues (token_of op ∷ ts)
unfolding text_of_all text_of mode_after
operator-Continues plus ts h = (refl, (tt, h))
operator-Continues minus ts h = (refl, (tt, h))
operator-Continues mul ts h = (refl, (tt, h))
operator-Continues div ts h = (refl, (tt, h))
operator-Continues rem ts h = (refl, (tt, h))

wrap-AllFit :
    (body : List Token)
    → ((us : List Token) → Continues us → AllFit expression (body ++ us))
    → (w : Bool) (us : List Token) → Continues us
    → AllFit expression (wrap w body ++ us)
unfolding text_of_all text_of mode_after
wrap-AllFit body inner true us k = (tt, rw append_assoc (inner (pnawias ∷ us) (refl, (tt, k.1))))
wrap-AllFit body inner false us k = inner us k

spell-AllFit :
    (q : Prec) (e : Expr) (ts : List Token)
    → Short e
    → Continues ts
    → AllFit expression (spell q e ++ ts)
unfolding spell mode_after
spell-AllFit q (num n) ts s c = ((s, c.0), c.1)
spell-AllFit q own_index ts s c = (tt, c.1)
spell-AllFit q random_value ts s c = (tt, c.1)
spell-AllFit q (binary op a b) ts s c =
    wrap-AllFit (spell (level op) a ++ token_of op ∷ spell (below (level op)) b)
      (λ us k. rw append_assoc (
        spell-AllFit (level op) a (token_of op ∷ (spell (below (level op)) b ++ us)) s.0
          (operator-Continues op _ (spell-AllFit (below (level op)) b us s.1 k))))
      (needs q (level op)) ts c

Writable-AllFit : (xs : List Piece) → Writable xs → AllFit initial (spell_pieces xs)
unfolding spell_pieces spell_piece mode_after text_of_all text_of render
Writable-AllFit [] h = tt
Writable-AllFit (char c ∷ xs) h = ((h.0, h.1), Writable-AllFit xs h.2)
Writable-AllFit (value e fmt ∷ xs) h = (
  tt,
  rw append_assoc (
      spell-AllFit sum e (end_expr fmt ∷ spell_pieces xs) h.0
        (refl, (h.1, Writable-AllFit xs h.2))),
)

-- A pattern as it stands in the configuration, of at least one piece and read from the initial start
-- condition, leaves in the buffer what its pieces mean: each character as it is and each expression
-- printed with its format, with the order of operations and the int arithmetic of C. It also
-- draws the same random values, and stops or is undefined in the same cases. Needed of the pattern: numbers of at most ten
-- digits, no newline outside an expression, no `%` before a parenthesis that is a character, and no parenthesis
-- in a format that closes it.
pub sprintf_pattern-render :
    (idnum : ℤ) (random : ℕ → ℕ) (size drawn : ℕ) (old : Text) (x : Piece) (xs : List Piece)
    → Writable (x ∷ xs)
    → sprintf_pattern idnum random size initial drawn old (render (x ∷ xs))
      ≡ outcome old (
          meaning_of idnum random size
            (x ∷ xs)
            (record { mode = initial; drawn = drawn; out = none }))
unfolding sprintf_pattern render
sprintf_pattern-render idnum random size drawn old x xs h =
    rw
      (
        tokens-text_of_all initial (spell_pieces (x ∷ xs)) (Writable-AllFit (x ∷ xs) h),
        yyparse-spell_pieces,
      )
      refl
