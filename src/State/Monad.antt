-- ===== src/State/Monad.antt =====
-- Code that works on a user: it returns, ends the process by exit_app, or does what C leaves
-- undefined (a NULL pointer or a buffer too small).
use jab_simul.Shared.{ℕ, suc, ◌≡◌, refl, Option, none, some}
use jab_simul.State.{Session, User, Globals, Counts, Packets, Conn, Xht}

pub data Outcome (A : Type 0) : Type 0 where
  returns : A → Session → Outcome A
  exits : ℕ → Outcome A
  faults : Outcome A

abbrev pub M : Type 0 → Type 0
M A = Session → Outcome A

abbrev pub bind_outcome : {A B : Type 0} → Outcome A → (A → M B) → Outcome B
bind_outcome (returns a s) f = f a s
bind_outcome (exits code) f = exits code
bind_outcome faults f = faults

infixl 5 ◌>>=◌ ◌>>◌
abbrev pub ◌>>=◌ : {A B : Type 0} → M A → (A → M B) → M B
◌>>=◌ m f s = bind_outcome (m s) f

abbrev pub ◌>>◌ : {B : Type 0} → M (Unit {0}) → M B → M B
◌>>◌ m k s = bind_outcome (m s) (λ _. k)

abbrev pub pure : {A : Type 0} → A → M A
pure a s = returns a s

abbrev pub skip : M (Unit {0})
skip s = returns tt s

abbrev pub get : M Session
get s = returns s s

abbrev pub set_user : (User → User) → M (Unit {0})
set_user f s = returns tt (record s { user = f s.user })

abbrev pub set_globals : (Globals → Globals) → M (Unit {0})
set_globals f s = returns tt (record s { globals = f s.globals })

abbrev pub set_counts : (Counts → Counts) → M (Unit {0})
set_counts f = set_globals (λ g. record g { counts = f g.counts })

abbrev pub set_packets : (Packets → Packets) → M (Unit {0})
set_packets f = set_globals (λ g. record g { packets = f g.packets })

-- Nothing, where there is no connection.
abbrev pub set_conn : (Conn → Conn) → M (Unit {0})
set_conn f = set_user (λ u. record u { conn = elim u.conn [ none ↦ none | some c ↦ some (f c) ] })

-- random().
abbrev pub draw : M ℕ
draw s =
    returns (s.globals.random s.globals.drawn)
      (record s { globals = record s.globals { drawn = suc s.globals.drawn } })

-- exit_app, which ends the process.
abbrev pub exit_app : {A : Type 0} → ℕ → M A
exit_app code s = exits code

-- What C leaves undefined.
abbrev pub fault : {A : Type 0} → M A
fault s = faults

-- A run that comes back or ends the process, without a fault; `P` holds if it comes back.
abbrev pub After : {A : Type 0} → (A → Session → Type 0) → Outcome A → Type 0
After P (returns a s) = P a s
After P (exits code) = Unit
After P faults = ⊥

-- A run that comes back, and so that `P` holds.
abbrev pub Returns : {A : Type 0} → (A → Session → Type 0) → Outcome A → Type 0
Returns P (returns a s) = P a s
Returns P (exits code) = ⊥
Returns P faults = ⊥

-- The same, where a fault promises nothing either.
abbrev pub IfBack : {A : Type 0} → (Session → Type 0) → Outcome A → Type 0
IfBack P (returns a s) = P s
IfBack P (exits code) = Unit
IfBack P faults = Unit

pub After-IfBack :
    {A : Type 0} (P : Session → Type 0) (o : Outcome A) → After (λ _ t. P t) o → IfBack P o
After-IfBack P (returns a s) h = h
After-IfBack P (exits code) h = tt
After-IfBack P faults h = tt

-- A chain that ends in a fault.
pub fault-IfBack :
    {A : Type 0} (P : Session → Type 0) (o : Outcome A)
    → IfBack P (bind_outcome o (λ _. fault {A = Unit {0}}))
fault-IfBack P (returns a s) = tt
fault-IfBack P (exits code) = tt
fault-IfBack P faults = tt

-- A test on a pointer.
abbrev pub choose : {T A : Type 0} → Option T → M A → (T → M A) → M A
choose none absent present = absent
choose (some x) absent present = present x

choose_cases :
    {T A : Type 0} (P : Outcome A → Type 0) (absent : M A) (present : T → M A) (s : Session)
    (here o : Option T)
    → here ≡ o
    → (here ≡ none → P (absent s))
    → ((x : T) → here ≡ some x → P (present x s))
    → P (choose o absent present s)
choose_cases P absent present s here none e no_value value = no_value e
choose_cases P absent present s here (some x) e no_value value = value x e

-- To split on the pointer and keep what is known of it.
pub choose-cases :
    {T A : Type 0} (P : Outcome A → Type 0) (absent : M A) (present : T → M A) (s : Session)
    (here : Option T)
    → (here ≡ none → P (absent s))
    → ((x : T) → here ≡ some x → P (present x s))
    → P (choose here absent present s)
choose-cases P absent present s here = choose_cases P absent present s here here refl

-- The test on `user->conn`.
abbrev pub with_conn : {A : Type 0} → M A → (Conn → M A) → M A
with_conn absent present s = choose s.user.conn absent present s

pub with_conn-cases :
    {A : Type 0} (P : Outcome A → Type 0) (absent : M A) (present : Conn → M A) (s : Session)
    → (s.user.conn ≡ none → P (absent s))
    → ((c : Conn) → s.user.conn ≡ some c → P (present c s))
    → P (with_conn absent present s)
with_conn-cases P absent present s = choose-cases P absent present s s.user.conn

-- The test on `user->roster_hash`.
abbrev pub with_hash : {A : Type 0} → M A → (Xht → M A) → M A
with_hash absent present s = choose s.user.roster_hash absent present s

-- The rules for a chain of two steps.
pub Returns-bind :
    {A B : Type 0} (P : A → Session → Type 0) (Q : B → Session → Type 0) (o : Outcome A)
    (f : A → M B)
    → Returns P o
    → ((a : A) (t : Session) → P a t → Returns Q (f a t))
    → Returns Q (bind_outcome o f)
Returns-bind P Q (returns a t) f h k = k a t h
Returns-bind P Q (exits code) f h k = h
Returns-bind P Q faults f h k = h

pub After-bind :
    {A B : Type 0} (P : A → Session → Type 0) (Q : B → Session → Type 0) (o : Outcome A)
    (f : A → M B)
    → After P o
    → ((a : A) (t : Session) → P a t → After Q (f a t))
    → After Q (bind_outcome o f)
After-bind P Q (returns a t) f h k = k a t h
After-bind P Q (exits code) f h k = tt
After-bind P Q faults f h k = h

pub Returns-After :
    {A : Type 0} (P : A → Session → Type 0) (o : Outcome A) → Returns P o → After P o
Returns-After P (returns a t) h = h
Returns-After P (exits code) h = tt
Returns-After P faults h = h
