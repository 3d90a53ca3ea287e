-- ===== src/Pattern/Correct.antt =====
-- The automaton of Pattern.Parser run on a spelled pattern does what the pattern means.
use jab_simul.Shared.{
  ℕ, ◌+◌, ◌≡◌, refl, sym, ◌∙◌, inl, inr, true, false, Option, none, some, List, [], ◌∷◌, ◌++◌,
  append_assoc, Text, length, ltb, Bool-cases, arith,
}
use jab_simul.Shared.Int.{ℤ}
use jab_simul.Pattern.{
  Token, end_expr, op_plus, op_minus, op_mul, op_div, op_mod, number, index, rnd, lnawias, pnawias,
  Parse, undefined, P, bind, bind_assoc, bind_congr, ◌>>=◌, initial, expression,
}
use jab_simul.Pattern.Parser.{
  Op, plus, minus, mul, div, rem, apply, defined, Level, fresh, Place, start, top, operand,
  operator, lexed, shift, after_product, ended, atom, before_atom, before_expr, print_expr, finish,
  yyparse, emit,
}
use jab_simul.Pattern.Meaning.{
  Expr, num, own_index, random_value, binary, Prec, token_of, level, below, spell, Piece, char,
  value, spell_piece, spell_pieces, eval, meaning, meaning_of,
}
use jab_simul.Pattern.Meaning

-- The tokens that end a math_addexpr.
data Ends : Token → Type 0 where
  by_plus : Ends op_plus
  by_minus : Ends op_minus
  by_paren : Ends pnawias
  by_end : (fmt : Text) → Ends (end_expr fmt)

abbrev adding : ℤ → Op → Level
adding a op = record { sum = some (a, op); product = none }

module _ (idnum : ℤ) (random : ℕ → ℕ) (size : ℕ) where
  abbrev parse : List Token → Place → P (Unit {0})
  parse = yyparse idnum random size

  abbrev value_of : Expr → P ℤ
  value_of = eval idnum random size

  -- A sum is reduced before the token that ends it is used.
  reduced :
      {t : Token}
      → Ends t
      → (ts : List Token) (a m : ℤ) (op : Op) (ls : List Level) (p : Parse)
      → parse (t ∷ ts) (operator m (adding a op) ls) p
        ≡ bind (defined (apply op a m) p) (λ v. parse (t ∷ ts) (operator v fresh ls))
  unfolding yyparse lexed shift after_product
  reduced e ts a m op ls p = split e (apply op a m) refl
    where
      split :
          {t : Token}
          → Ends t
          → (o : Option ℤ) → apply op a m ≡ o
          → parse (t ∷ ts) (operator m (adding a op) ls) p
            ≡ bind (defined o p) (λ v. parse (t ∷ ts) (operator v fresh ls))
      split by_plus none h = rw h
      split by_plus (some v) h = rw h
      split by_minus none h = rw h
      split by_minus (some v) h = rw h
      split by_paren none h = rw h
      split by_paren (some v) h = rw h
      split (by_end fmt) none h = elim (Bool-cases (ltb (length fmt + 1) 200)) [
        | inl fits ↦ rw (fits, h)
        | inr long ↦ rw long
      ]
      split (by_end fmt) (some v) h = elim (Bool-cases (ltb (length fmt + 1) 200)) [
        | inl fits ↦ rw (fits, h)
        | inr long ↦ rw long
      ]

  -- What each way to spell an expression does at a place.
  abbrev ReadsAtom : Expr → Type 0
  ReadsAtom e =
      (l : Level) (ls : List Level) (ts : List Token) (p : Parse)
      → parse (spell Meaning.atom e ++ ts) (operand l ls) p
        ≡ bind (value_of e p) (λ v. atom v l ls >>= parse ts)

  abbrev ReadsProduct : Expr → Type 0
  ReadsProduct e =
      (s : Option (ℤ × Op)) (ls : List Level) (ts : List Token) (p : Parse)
      → parse (spell Meaning.product e ++ ts) (operand (record { sum = s; product = none }) ls) p
        ≡ bind (value_of e p) (λ v. parse ts (operator v (record { sum = s; product = none }) ls))

  abbrev ReadsSum : Expr → Type 0
  ReadsSum e =
      (t : Token)
      → Ends t
      → (ls : List Level) (ts : List Token) (p : Parse)
      → parse (spell Meaning.sum e ++ t ∷ ts) (operand fresh ls) p
        ≡ bind (value_of e p) (λ v. parse (t ∷ ts) (operator v fresh ls))

  record Reads (e : Expr) : Type 0 where
    as_atom : ReadsAtom e
    as_product : ReadsProduct e
    as_sum : ReadsSum e

  -- A number, the index or a random value.
  leaf :
      (e : Expr) (t : Token)
      → spell Meaning.atom e ≡ t ∷ []
      → spell Meaning.product e ≡ t ∷ []
      → spell Meaning.sum e ≡ t ∷ []
      → ((l : Level) (ls : List Level) (ts : List Token) (p : Parse)
          → parse (t ∷ ts) (operand l ls) p ≡ bind (value_of e p) (λ v. atom v l ls >>= parse ts))
      → Reads e
  unfolding atom
  leaf e t sa sp ss h = record {
    as_atom = λ l ls ts p. rw sa (h l ls ts p);
    as_product = λ s ls ts p. rw sp (h _ ls ts p);
    as_sum = λ u ends ls ts p. rw ss (h _ ls (u ∷ ts) p);
  }

  -- A sum between parentheses is an atom.
  parens :
      (e : Expr)
      → ReadsSum e
      → (l : Level) (ls : List Level) (ts : List Token) (p : Parse)
      → parse ((lnawias ∷ (spell Meaning.sum e ++ pnawias ∷ [])) ++ ts) (operand l ls) p
        ≡ bind (value_of e p) (λ v. atom v l ls >>= parse ts)
  unfolding yyparse lexed shift before_atom after_product ended
  parens e h l ls ts p = rw append_assoc (h pnawias by_paren (l ∷ ls) ts p)

  of_sum :
      (e : Expr)
      → spell Meaning.atom e ≡ Meaning.wrap true (spell Meaning.sum e)
      → spell Meaning.product e ≡ Meaning.wrap true (spell Meaning.sum e)
      → ReadsSum e
      → Reads e
  unfolding atom
  of_sum e sa sp h = record {
    as_atom = λ l ls ts p. rw sa (parens e h l ls ts p);
    as_product = λ s ls ts p. rw sp (parens e h (record { sum = s; product = none }) ls ts p);
    as_sum = h;
  }

  of_product :
      (e : Expr)
      → spell Meaning.atom e ≡ Meaning.wrap true (spell Meaning.sum e)
      → spell Meaning.sum e ≡ spell Meaning.product e
      → ReadsProduct e
      → Reads e
  of_product e sa ss h =
      let sums : ReadsSum e = λ t ends ls ts p. rw ss (h none ls (t ∷ ts) p) in
      record {
        as_atom = λ l ls ts p. rw sa (parens e sums l ls ts p);
        as_product = h;
        as_sum = sums;
      }

  module _ (a b : Expr) (ra : Reads a) (rb : Reads b) where
    -- a + b, in either way that needs no parentheses.
    sum_of :
        (op : Op) (tok : Token)
        → Ends tok
        → ((m : ℤ) (ls : List Level) (ts : List Token) (p : Parse)
            → parse (tok ∷ ts) (operator m fresh ls) p ≡ parse ts (operand (adding m op) ls) p)
        → {t : Token} → Ends t
        → (ls : List Level) (ts : List Token) (p : Parse)
        → parse
            ((spell Meaning.sum a ++ tok ∷ spell Meaning.product b) ++ t ∷ ts)
            (operand fresh ls)
            p
          ≡ bind
              (bind (value_of a p) (λ x. value_of b >>= λ y. defined (apply op x y)))
              (λ v. parse (t ∷ ts) (operator v fresh ls))
    sum_of op tok splits turn {t} ends ls ts p =
        rw (append_assoc, ra.as_sum tok splits, bind_assoc)
          (bind_congr (value_of a p) λ x q.
            turn x ls _ q
            ∙ rb.as_product (some (x, op)) ls (t ∷ ts) q
            ∙ bind_congr (value_of b q) (λ y r. reduced ends ts x y op ls r)
            ∙ sym (bind_assoc (value_of b q) _ _))

    product_of :
        (op : Op) (tok : Token)
        → ((m : ℤ) (s : Option (ℤ × Op)) (ls : List Level) (ts : List Token) (p : Parse)
            → parse (tok ∷ ts) (operator m (record { sum = s; product = none }) ls) p
              ≡ parse ts (operand (record { sum = s; product = some (m, op) }) ls) p)
        → (s : Option (ℤ × Op)) (ls : List Level) (ts : List Token) (p : Parse)
        → parse
            ((spell Meaning.product a ++ tok ∷ spell Meaning.atom b) ++ ts)
            (operand (record { sum = s; product = none }) ls)
            p
          ≡ bind
              (bind (value_of a p) (λ x. value_of b >>= λ y. defined (apply op x y)))
              (λ v. parse ts (operator v (record { sum = s; product = none }) ls))
    unfolding atom
    product_of op tok turn s ls ts p =
        rw (append_assoc, ra.as_product, bind_assoc)
          (bind_congr (value_of a p) λ x q.
            turn x s ls _ q
            ∙ rb.as_atom _ ls ts q
            ∙ bind_congr (value_of b q) (λ y r. bind_assoc (defined (apply op x y) r) _ _)
            ∙ sym (bind_assoc (value_of b q) _ _))

  -- Every expression is read, at every place, with the value that it has.
  reads : (e : Expr) → Reads e
  unfolding spell eval yyparse lexed shift before_atom after_product ended
  reads (num n) = leaf (num n) (number n) refl refl refl (λ l ls ts p. refl)
  reads own_index = leaf own_index index refl refl refl (λ l ls ts p. refl)
  reads random_value = leaf random_value rnd refl refl refl (λ l ls ts p. refl)
  reads (binary plus a b) =
      of_sum (binary plus a b) refl refl
        (λ t. sum_of a b (reads a) (reads b) plus op_plus by_plus (λ m ls ts p. refl))
  reads (binary minus a b) =
      of_sum (binary minus a b) refl refl
        (λ t. sum_of a b (reads a) (reads b) minus op_minus by_minus (λ m ls ts p. refl))
  reads (binary mul a b) =
      of_product (binary mul a b) refl refl
        (product_of a b (reads a) (reads b) mul op_mul (λ m s ls ts p. refl))
  reads (binary div a b) =
      of_product (binary div a b) refl refl
        (product_of a b (reads a) (reads b) div op_div (λ m s ls ts p. refl))
  reads (binary rem a b) =
      of_product (binary rem a b) refl refl
        (product_of a b (reads a) (reads b) rem op_mod (λ m s ls ts p. refl))

  too_long :
      (fmt : Text) (v : ℤ) (p : Parse)
      → ltb (length fmt + 1) 200 ≡ false
      → print_expr idnum random size fmt v p ≡ undefined
  unfolding print_expr
  too_long fmt v p h = ground (arith, h)

  -- The end of an expression prints its value.
  at_end :
      (fmt : Text) (ts : List Token) (v : ℤ) (p : Parse)
      → parse (end_expr fmt ∷ ts) (operator v fresh []) p
        ≡ bind
            (print_expr idnum random size fmt v (record p { mode = initial }))
            (λ _. parse ts top)
  unfolding yyparse lexed shift after_product ended
  at_end fmt ts v p = elim (Bool-cases (ltb (length fmt + 1) 200)) [
    | inl fits ↦
        rw fits (bind_assoc (print_expr idnum random size fmt v (record p { mode = initial })) _ _)
    | inr long ↦ rw (long, too_long fmt v (record p { mode = initial }) long) refl
  ]

  -- A piece is read before the first expr or behind one.
  data AtExpr : Place → Type 0 where
    at_start : AtExpr start
    at_top : AtExpr top

  after_value :
      (e : Expr) (fmt : Text) (ts : List Token) (p : Parse)
      → parse ((spell Meaning.sum e ++ end_expr fmt ∷ []) ++ ts) (operand fresh []) p
        ≡ bind (value_of e p) (λ v q.
          bind
            (print_expr idnum random size fmt v (record q { mode = initial }))
            (λ _. parse ts top))
  after_value e fmt ts p =
      rw append_assoc ((reads e).as_sum (end_expr fmt) (by_end fmt) [] ts p)
      ∙ bind_congr (value_of e p) (λ v q. at_end fmt ts v q)

  after_piece :
      (x : Piece) (ts : List Token) {place : Place} (p : Parse)
      → AtExpr place
      → parse (spell_piece x ++ ts) place p
        ≡ bind (meaning idnum random size x p) (λ _. parse ts top)
  unfolding spell_piece meaning yyparse lexed shift before_expr
  after_piece (char c) ts p at_start = bind_assoc (emit idnum random size (c ∷ []) p) _ _
  after_piece (char c) ts p at_top = bind_assoc (emit idnum random size (c ∷ []) p) _ _
  after_piece (value e fmt) ts p at_start =
      after_value e fmt ts (record p { mode = expression }) ∙ sym (bind_assoc (value_of e _) _ _)
  after_piece (value e fmt) ts p at_top =
      after_value e fmt ts (record p { mode = expression }) ∙ sym (bind_assoc (value_of e _) _ _)

  behind :
      (xs : List Piece) (p : Parse)
      → parse (spell_pieces xs) top p ≡ meaning_of idnum random size xs p
  unfolding spell_pieces meaning_of yyparse finish
  behind [] p = refl
  behind (x ∷ xs) p =
      after_piece x (spell_pieces xs) p at_top
      ∙ bind_congr (meaning idnum random size x p) (λ _ q. behind xs q)

  -- The parser does on the tokens of any pattern, of at least one piece, what the pattern means: it
  -- prints the same, stops in the same way, and leaves the same state.
  pub yyparse-spell_pieces :
      (x : Piece) (xs : List Piece) (p : Parse)
      → yyparse idnum random size (spell_pieces (x ∷ xs)) start p
        ≡ meaning_of idnum random size (x ∷ xs) p
  unfolding spell_pieces meaning_of
  yyparse-spell_pieces x xs p =
      after_piece x (spell_pieces xs) p at_start
      ∙ bind_congr (meaning idnum random size x p) (λ _ q. behind xs q)
