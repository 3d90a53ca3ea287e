-- ===== src/Pattern/Lexer.antt =====
-- The rules of jab_simul/namespace_scan.l. The scanner does not depend on the parser, so the tokens
-- of a whole pattern are found first; the actions of the rules are Pattern.Parser.lexed.
use jab_simul.Shared.{
  ℕ, zero, suc, ◌+◌, ◌-◌, ◌*◌, Option, none, some, List, [], ◌∷◌, Text, codes, length, ◌==◌,
  if◌then◌else◌,
}
use jab_simul.Pattern.{
  Mode, initial, expression, Token, nothing_special, begin_expr, end_expr, op_plus, op_minus,
  op_mul, op_div, op_mod, number, index, rnd, lnawias, pnawias,
}
use jab_simul.Pattern.Printf.{is_digit}

-- What is left behind a word, if the text starts with it.
unfoldable pub strip : Text → Text → Option Text
strip [] s = some s
strip (w ∷ ws) [] = none
strip (w ∷ ws) (c ∷ s) = let more = strip ws s in if w == c then more else none

-- `[^\)]*\)`: the text up to the first parenthesis, and what follows it.
unfoldable pub close : Text → Option (Text × Text)
close [] = none
close (c ∷ s) =
    let more = close s in
    if c == b')' then some ([], s) else elim more [ none ↦ none | some (t, r) ↦ some (c ∷ t, r) ]

-- `[0-9]*` with atoi, behind digits that stand for `n`.
unfoldable pub digits : ℕ → Text → ℕ × Text
digits n [] = (n, [])
digits n (c ∷ s) =
    let more = digits (n * 10 + (c - 48)) s in if is_digit c then more else (n, c ∷ s)

abbrev pub words : List (Text × Token)
words =
    (codes "NUM", index)
    ∷ (codes "num", index)
    ∷ (codes "ID", index)
    ∷ (codes "id", index)
    ∷ (codes "POS", index)
    ∷ (codes "pos", index)
    ∷ (codes "RND", rnd)
    ∷ (codes "rnd", rnd)
    ∷ []

unfoldable pub find_word : List (Text × Token) → Text → Option (Token × Text)
unfolding strip
find_word [] s = none
find_word ((w, t) ∷ ws) s =
    let others = find_word ws s in elim (strip w s) [ some rest ↦ some (t, rest) | none ↦ others ]

abbrev pub operators : List (ℕ × Token)
operators =
    (b'(', lnawias)
    ∷ (b')', pnawias)
    ∷ (b'+', op_plus)
    ∷ (b'-', op_minus)
    ∷ (b'*', op_mul)
    ∷ (b'/', op_div)
    ∷ (b'%', op_mod)
    ∷ []

unfoldable pub find_operator : List (ℕ × Token) → ℕ → Option Token
find_operator [] c = none
find_operator ((d, t) ∷ ts) c = let others = find_operator ts c in if d == c then some t else others

-- One match at `c ∷ s`. `none` is a character that gives no token: one that no rule matches, which
-- flex echoes, and the rule for a space and a newline.
unfoldable pub match_initial : ℕ → Text → Option Token × Text
unfolding strip
match_initial c s = if c == b'\n' then (none, s) else elim (strip (codes "%(") (c ∷ s)) [
  | some rest ↦ (some begin_expr, rest)
  | none ↦ (some (nothing_special c), s)
]

unfoldable pub match_colon : Text → Option Token × Text
unfolding close
match_colon s = elim (close s) [ some (fmt, rest) ↦ (some (end_expr fmt), rest) | none ↦ (none, s) ]

unfoldable pub match_number : ℕ → Text → Option Token × Text
unfolding digits
match_number c s = let (n, rest) = digits 0 (c ∷ s) in (some (number n), rest)

unfoldable pub match_word : ℕ → Text → Option Token × Text
unfolding find_word
match_word c s = elim (find_word words (c ∷ s)) [
  | some (t, rest) ↦ (some t, rest)
  | none ↦ (none, s)
]

unfoldable pub match_expression : ℕ → Text → Option Token × Text
unfolding find_operator match_colon match_number match_word
match_expression c s = elim (find_operator operators c) [
  | some t ↦ (some t, s)
  | none ↦
      if c == b':' then match_colon s else if is_digit c then match_number c s else match_word c s
]

unfoldable pub match : Mode → ℕ → Text → Option Token × Text
unfolding match_initial match_expression
match initial c s = match_initial c s
match expression c s = match_expression c s

-- The BEGIN of a rule's action.
unfoldable pub mode_after : Token → Mode → Mode
mode_after begin_expr m = expression
mode_after (end_expr fmt) m = initial
mode_after _ m = m

unfoldable pub scan : ℕ → Mode → Text → List Token
unfolding match mode_after
scan zero m s = []
scan (suc fuel) m [] = []
scan (suc fuel) m (c ∷ s) = elim (match m c s).0 [
  | none ↦ scan fuel m (match m c s).1
  | some t ↦ t ∷ scan fuel (mode_after t m) (match m c s).1
]

-- Every match takes a character, so the length is fuel enough.
unfoldable pub tokens : Mode → Text → List Token
unfolding scan
tokens m s = scan (length s) m s
