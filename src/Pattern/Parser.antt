-- ===== src/Pattern/Parser.antt =====
-- The grammar of jab_simul/namespace_pars.y, as the automaton that bison makes of it: a stack of
-- what is read of each open parenthesis, and one transition for each token. Every number is an int,
-- and an overflow is undefined.
use jab_simul.Shared.{
  ℕ, suc, ◌+◌, ◌^◌, Bool, Option, none, some, List, [], ◌∷◌, ◌++◌, Text, length, ltb, ◌==◌,
  if◌then◌else◌,
}
use jab_simul.Shared.Int.{ℤ, pos, negsuc, ◌+ℤ◌, ◌-ℤ◌, ◌*ℤ◌, div_ℤ}
use jab_simul.Pattern.{
  Mode, Token, nothing_special, begin_expr, end_expr, op_plus, op_minus, op_mul, op_div, op_mod,
  number, index, rnd, lnawias, pnawias, Parsed, parsed, rejected, undefined, unmodelled, P, ◌>>=◌,
  ◌>>◌, pure, reject, stop,
}
use jab_simul.Pattern.Lexer.{mode_after, tokens}
use jab_simul.Pattern.Printf.{printf_int}

pub data Op : Type 0 where
  plus minus mul div rem : Op

-- The range of an int.
unfoldable pub in_int : ℤ → Bool
in_int (pos n) = ltb n (2 ^ 31)
in_int (negsuc n) = ltb n (2 ^ 31)

unfoldable pub checked : ℤ → Option ℤ
unfolding in_int
checked v = if in_int v then some v else none

-- C division, rounded towards zero. There is none by zero.
unfoldable pub quotient : ℤ → ℤ → Option ℤ
unfolding checked div_ℤ ◌-ℤ◌
quotient a (pos n) = if n == 0 then none else checked (div_ℤ a n)
quotient a (negsuc n) = checked (pos 0 -ℤ div_ℤ a (suc n))

unfoldable pub apply : Op → ℤ → ℤ → Option ℤ
unfolding checked quotient ◌+ℤ◌ ◌-ℤ◌ ◌*ℤ◌
apply plus a b = checked (a +ℤ b)
apply minus a b = checked (a -ℤ b)
apply mul a b = checked (a *ℤ b)
apply div a b = quotient a b
apply rem a b = elim (quotient a b) [ none ↦ none | some q ↦ some (a -ℤ q *ℤ b) ]

abbrev pub defined : Option ℤ → P ℤ
defined none = stop
defined (some v) = pure v

-- What is read of a math_expr: a math_addexpr with its operator, and a math_mulexpr with its own.
pub record Level : Type 0 where
  pub sum : Option (ℤ × Op)
  pub product : Option (ℤ × Op)

abbrev pub fresh : Level
fresh = record { sum = none; product = none }

-- Where the parser is: before the first expr, after an expr, where a math_atom must come, or
-- after a math_mulexpr with its value. The list holds the levels of the open parentheses around.
pub data Place : Type 0 where
  start top : Place
  operand : Level → List Level → Place
  operator : ℤ → Level → List Level → Place

abbrev pub reduce : Option (ℤ × Op) → ℤ → P ℤ
reduce none v = pure v
reduce (some (a, op)) v = defined (apply op a v)

-- A math_atom that is read ends a math_mulexpr.
unfoldable pub atom : ℤ → Level → List Level → P Place
atom v l ls = do w ← reduce l.product v; pure (operator w (record l { product = none }) ls)

abbrev pub left_in : Text → Option Text → Text
left_in old none = old
left_in old (some t) = t

abbrev pub outcome : Text → Parsed (Unit {0}) → Option (Text × Mode × ℕ)
outcome old (parsed _ p) = some (left_in old p.out, p.mode, p.drawn)
outcome old (rejected p) = some (left_in old p.out, p.mode, p.drawn)
outcome old undefined = none
outcome old unmodelled = none

module _ (idnum : ℤ) (random : ℕ → ℕ) (size : ℕ) where
  -- The actions of the scanner: `yylval.i`, the start condition, and the copy of a format with its
  -- parenthesis into `yylval.s`, which has 200 bytes.
  unfoldable pub lexed : Token → P ℤ
  unfolding checked mode_after
  lexed begin_expr p = parsed (pos 0) (record p { mode = mode_after begin_expr p.mode })
  lexed (end_expr fmt) p =
      if ltb (length fmt + 1) 200
      then parsed (pos 0) (record p { mode = mode_after (end_expr fmt) p.mode })
      else stop p
  lexed (number n) p = defined (checked (pos n)) p
  lexed index p = parsed idnum p
  lexed rnd p = defined (checked (pos (random p.drawn))) (record p { drawn = suc p.drawn })
  lexed _ p = parsed (pos 0) p

  abbrev pub written : Option Text → Text
  written none = []
  written (some t) = t

  -- A write at `tmpbuf`, with the final 0. The code does not test the size of the buffer.
  unfoldable pub emit : Text → P (Unit {0})
  emit t p =
      let out = written p.out ++ t in
      if ltb (length out) size then parsed tt (record p { out = some out }) else stop p

  -- The action of BEGIN_EXPR math_expr END_EXPR; `fmt` has 30 bytes.
  abbrev pub emit_printed : Option Text → P (Unit {0})
  emit_printed none = λ p. unmodelled
  emit_printed (some t) = emit t

  unfoldable pub print_expr : Text → ℤ → P (Unit {0})
  unfolding emit
  print_expr fmt v = if ltb (1 + length fmt) 30 then emit_printed (printf_int fmt v) else stop

  -- After a math_mulexpr, at a token that ends a math_addexpr.
  unfoldable pub ended : Token → ℤ → List Level → P Place
  unfolding atom print_expr
  ended op_plus v ls = pure (operand (record { sum = some (v, plus); product = none }) ls)
  ended op_minus v ls = pure (operand (record { sum = some (v, minus); product = none }) ls)
  ended pnawias v (l ∷ ls) = atom v l ls
  ended (end_expr fmt) v [] = do print_expr fmt v; pure top
  ended _ v ls = reject

  unfoldable pub after_product : Token → ℤ → Level → List Level → P Place
  unfolding ended
  after_product op_mul v l ls = pure (operand (record l { product = some (v, mul) }) ls)
  after_product op_div v l ls = pure (operand (record l { product = some (v, div) }) ls)
  after_product op_mod v l ls = pure (operand (record l { product = some (v, rem) }) ls)
  after_product t v l ls = do w ← reduce l.sum v; ended t w ls

  unfoldable pub before_atom : Token → ℤ → Level → List Level → P Place
  unfolding atom
  before_atom (number n) v l ls = atom v l ls
  before_atom index v l ls = atom v l ls
  before_atom rnd v l ls = atom v l ls
  before_atom lnawias v l ls = pure (operand fresh (l ∷ ls))
  before_atom _ v l ls = reject

  unfoldable pub before_expr : Token → P Place
  unfolding emit
  before_expr (nothing_special c) = do emit (c ∷ []); pure top
  before_expr begin_expr = pure (operand fresh [])
  before_expr _ = reject

  -- A token with its value `v`, at a place.
  unfoldable pub shift : Token → ℤ → Place → P Place
  unfolding before_expr before_atom after_product
  shift t v start = before_expr t
  shift t v top = before_expr t
  shift t v (operand l ls) = before_atom t v l ls
  shift t v (operator m l ls) = after_product t m l ls

  -- At the end of the input an expr_list is accepted, and nothing else.
  unfoldable pub finish : Place → P (Unit {0})
  finish top = pure tt
  finish _ = reject

  unfoldable pub yyparse : List Token → Place → P (Unit {0})
  unfolding lexed shift finish
  yyparse [] place = finish place
  yyparse (t ∷ ts) place = do v ← lexed t; next ← shift t v place; yyparse ts next

  -- A call on a buffer that holds `old`: what the buffer holds, the start condition, and how many
  -- random values are drawn; `none` if the run is undefined or unmodelled.
  unfoldable pub sprintf_pattern : Mode → ℕ → Text → Text → Option (Text × Mode × ℕ)
  unfolding tokens yyparse
  sprintf_pattern mode drawn old pattern =
      outcome old
        (yyparse (tokens mode pattern) start (record { mode = mode; drawn = drawn; out = none }))
