-- ===== src/Pattern.antt =====
-- The patterns of the configuration (user%(num:u)): tokens and semantic values of
-- jab_simul/namespace_scan.l and jab_simul/namespace_type.h, and what a run of yyparse keeps.
pub mod Printf
pub mod Lexer
pub mod Parser
pub mod Meaning
pub mod Correct
pub mod Render
pub mod Scan
pub mod ReadBack
pub mod Broken
use jab_simul.Shared.{ℕ, ◌≡◌, refl, Option, Text}
use jab_simul.Shared.Int.{ℤ}

-- The start condition of the scanner. It is global, and no call resets it.
pub data Mode : Type 0 where
  initial expression : Mode

-- The tokens with what `yytext` gives them: a character, the digits' number, or a format.
pub data Token : Type 0 where
  nothing_special : ℕ → Token
  begin_expr : Token
  end_expr : Text → Token
  op_plus op_minus op_mul op_div op_mod : Token
  number : ℕ → Token
  index rnd lnawias pnawias : Token

-- What a parse has done so far: the start condition, the values of random() that it drew, and the
-- text in the buffer. `none` is a buffer that nothing was written to.
pub record Parse : Type 0 where
  pub mode : Mode
  pub drawn : ℕ
  pub out : Option Text

-- `rejected` is a syntax error. `undefined` is what C leaves undefined, such as a division by zero
-- or a write past a buffer; `unmodelled` is a conversion of sprintf that Pattern.Printf does not read.
pub data Parsed (A : Type 0) : Type 0 where
  parsed : A → Parse → Parsed A
  rejected : Parse → Parsed A
  undefined unmodelled : Parsed A

abbrev pub P : Type 0 → Type 0
P A = Parse → Parsed A

abbrev pub bind : {A B : Type 0} → Parsed A → (A → P B) → Parsed B
bind (parsed a p) f = f a p
bind (rejected p) f = rejected p
bind undefined f = undefined
bind unmodelled f = unmodelled

infixl 5 ◌>>=◌ ◌>>◌
abbrev pub ◌>>=◌ : {A B : Type 0} → P A → (A → P B) → P B
◌>>=◌ m f p = bind (m p) f

abbrev pub ◌>>◌ : {B : Type 0} → P (Unit {0}) → P B → P B
m >> k = m >>= λ _. k

abbrev pub pure : {A : Type 0} → A → P A
pure a p = parsed a p

abbrev pub reject : {A : Type 0} → P A
reject p = rejected p

abbrev pub stop : {A : Type 0} → P A
stop p = undefined

pub bind_assoc :
    {A B C : Type 0} (r : Parsed A) (f : A → P B) (g : B → P C)
    → bind (bind r f) g ≡ bind r (λ a p. bind (f a p) g)
bind_assoc (parsed a p) f g = refl
bind_assoc (rejected p) f g = refl
bind_assoc undefined f g = refl
bind_assoc unmodelled f g = refl

pub bind_congr :
    {A B : Type 0} (r : Parsed A) {f g : A → P B}
    → ((a : A) (p : Parse) → f a p ≡ g a p)
    → bind r f ≡ bind r g
bind_congr (parsed a p) h = h a p
bind_congr (rejected p) h = refl
bind_congr undefined h = refl
bind_congr unmodelled h = refl

pub bind_pure : {A : Type 0} (r : Parsed A) → bind r (λ a p. parsed a p) ≡ r
bind_pure (parsed a p) = refl
bind_pure (rejected p) = refl
bind_pure undefined = refl
bind_pure unmodelled = refl
