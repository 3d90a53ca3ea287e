-- ===== src/Pattern/Meaning.antt =====
-- What a pattern means, apart from any parser: a list of characters and of expressions with a format,
-- each expression a tree, and how such a list is spelled in tokens. Parentheses stand where
-- the order of operations of C needs them.
use jab_simul.Shared.{ℕ, suc, Bool, true, false, List, [], ◌∷◌, ◌++◌, Text}
use jab_simul.Shared.Int.{ℤ, pos}
use jab_simul.Pattern.{
  Mode, initial, expression, Token, nothing_special, begin_expr, end_expr, op_plus, op_minus,
  op_mul, op_div, op_mod, number, index, rnd, lnawias, pnawias, parsed, P, ◌>>=◌, ◌>>◌, pure,
}
use jab_simul.Pattern.Parser.{
  Op, plus, minus, mul, div, rem, checked, apply, defined, emit, print_expr,
}

pub data Expr : Type 0 where
  num : ℕ → Expr
  own_index random_value : Expr
  binary : Op → Expr → Expr → Expr

pub data Prec : Type 0 where
  sum product atom : Prec

abbrev pub token_of : Op → Token
token_of plus = op_plus
token_of minus = op_minus
token_of mul = op_mul
token_of div = op_div
token_of rem = op_mod

abbrev pub level : Op → Prec
level plus = sum
level minus = sum
level _ = product

abbrev pub below : Prec → Prec
below sum = product
below _ = atom

abbrev pub needs : Prec → Prec → Bool
needs sum _ = false
needs product sum = true
needs product _ = false
needs atom _ = true

abbrev pub wrap : Bool → List Token → List Token
wrap true ts = lnawias ∷ (ts ++ pnawias ∷ [])
wrap false ts = ts

unfoldable pub spell : Prec → Expr → List Token
spell p (num n) = number n ∷ []
spell p own_index = index ∷ []
spell p random_value = rnd ∷ []
spell p (binary op a b) =
    wrap (needs p (level op)) (spell (level op) a ++ token_of op ∷ spell (below (level op)) b)

pub data Piece : Type 0 where
  char : ℕ → Piece
  value : Expr → Text → Piece

unfoldable pub spell_piece : Piece → List Token
unfolding spell
spell_piece (char c) = nothing_special c ∷ []
spell_piece (value e fmt) = begin_expr ∷ (spell sum e ++ end_expr fmt ∷ [])

unfoldable pub spell_pieces : List Piece → List Token
unfolding spell_piece
spell_pieces [] = []
spell_pieces (x ∷ xs) = spell_piece x ++ spell_pieces xs

abbrev pub set_mode : Mode → P (Unit {0})
set_mode m p = parsed tt (record p { mode = m })

module _ (idnum : ℤ) (random : ℕ → ℕ) (size : ℕ) where
  unfoldable pub eval : Expr → P ℤ
  unfolding apply checked
  eval (num n) = defined (checked (pos n))
  eval own_index = pure idnum
  eval random_value =
      λ p. defined (checked (pos (random p.drawn))) (record p { drawn = suc p.drawn })
  eval (binary op a b) = do x ← eval a; y ← eval b; defined (apply op x y)

  unfoldable pub meaning : Piece → P (Unit {0})
  unfolding eval emit print_expr
  meaning (char c) = emit idnum random size (c ∷ [])
  meaning (value e fmt) = do
    set_mode expression
    v ← eval e
    set_mode initial
    print_expr idnum random size fmt v

  unfoldable pub meaning_of : List Piece → P (Unit {0})
  unfolding meaning
  meaning_of [] = pure tt
  meaning_of (x ∷ xs) = do meaning x; meaning_of xs
