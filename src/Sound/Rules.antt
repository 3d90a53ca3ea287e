-- ===== src/Sound/Rules.antt =====
-- A property of sessions that a step keeps, and the rules for the ways in which steps are put
-- together.
use jab_simul.Shared.{
  ℕ, ◌≡◌, List, Bool, true, false, Option, none, some, Option-cases, inl, inr, if◌then◌else◌,
}
use jab_simul.Shared.Int.{ℤ}
use jab_simul.State.{Session, Conn, Event}
use jab_simul.State.Monad.{M, Outcome, returns, exits, faults, bind_outcome, skip, set_conn, choose}
use jab_simul.Conn.Accounting.{Accounted}
use jab_simul.Conn.Order.{PollsWell}

-- If the run comes back, `P` holds. A run that ends the process or is undefined makes no promise.
pub data Safe {A : Type 0} (P : A → Session → Type 0) : Outcome A → Type 0 where
  returned : {a : A} {s : Session} → P a s → Safe P (returns a s)
  exited : {code : ℕ} → Safe P (exits code)
  faulted : Safe P faults

-- Every packet is accounted for, POLLOUT is asked for exactly with something to send, and the times
-- of the events are `sooner` and `queue`.
pub record WellKept (others : ℕ) (sooner : ℤ) (queue : List Event) (s : Session) : Type 0 where
  pub accounted : Accounted others s
  pub polls : PollsWell s
  pub sooner_same : s.user.sooner_activation_tm ≡ sooner
  pub queue_same : s.user.events_queue ≡ queue

-- The part of a session that WellKept reads is the same.
abbrev pub Alike : Session → Session → Type 0
Alike s t =
    (t.user.conn ≡ s.user.conn)
    × (t.user.sooner_activation_tm ≡ s.user.sooner_activation_tm)
    × (t.user.events_queue ≡ s.user.events_queue)
    × (t.globals.packets ≡ s.globals.packets)

pub Safe-bind :
    {A B : Type 0} (P : A → Session → Type 0) (Q : B → Session → Type 0) (o : Outcome A)
    (f : A → M B)
    → Safe P o
    → ((a : A) (t : Session) → P a t → Safe Q (f a t))
    → Safe Q (bind_outcome o f)
Safe-bind P Q (returns a t) f (returned h) k = k a t h
Safe-bind P Q (exits code) f exited k = exited
Safe-bind P Q faults f faulted k = faulted

-- A step keeps WellKept, whatever the times are.
abbrev pub Keeps : {A : Type 0} → M A → Type 0
Keeps m =
    (others : ℕ) (sooner : ℤ) (queue : List Event) (s : Session)
    → WellKept others sooner queue s
    → Safe (λ _ t. WellKept others sooner queue t) (m s)

-- Then what follows is safe where WellKept holds.
pub after_step :
    {A B : Type 0} {others : ℕ} {sooner : ℤ} {queue : List Event} {m : M A} {f : A → M B}
    {s : Session} {Q : B → Session → Type 0}
    → Keeps m
    → WellKept others sooner queue s
    → ((a : A) (t : Session) → WellKept others sooner queue t → Safe Q (f a t))
    → Safe Q (bind_outcome (m s) f)
after_step {others} {sooner} {queue} {m} {f} {s} {Q} h w k =
    Safe-bind (λ _ t. WellKept others sooner queue t) Q (m s) f (h others sooner queue s w) k

-- The same where the result of the step is not used.
pub after_ignored :
    {A B : Type 0} {others : ℕ} {sooner : ℤ} {queue : List Event} {m : M A} {f : Unit {0} → M B}
    {s : Session} {Q : B → Session → Type 0}
    → Keeps m
    → WellKept others sooner queue s
    → ((u : Unit {0}) (t : Session) → WellKept others sooner queue t → Safe Q (f u t))
    → Safe Q (bind_outcome (bind_outcome (m s) (λ _. skip)) f)
after_ignored {others} {sooner} {queue} {m} {f} {s} {Q} h w k =
    Safe-bind (λ _ t. WellKept others sooner queue t) Q (bind_outcome (m s) (λ _. skip)) f
      (after_step h w (λ _ t v. returned v)) k

Alike-WellKept :
    (others : ℕ) (sooner : ℤ) (queue : List Event) (s t : Session)
    → Alike s t
    → WellKept others sooner queue s
    → WellKept others sooner queue t
Alike-WellKept others sooner queue s t a w = record {
  accounted = rw (a.3, a.0) w.accounted;
  polls = rw a.0 w.polls;
  sooner_same = rw a.1 w.sooner_same;
  queue_same = rw a.2 w.queue_same;
}

-- A change of what WellKept does not read.
pub still :
    {others : ℕ} {sooner : ℤ} {queue : List Event} {s t : Session}
    → WellKept others sooner queue s
    → Alike s t
    → WellKept others sooner queue t
still {others} {sooner} {queue} {s} {t} w a = Alike-WellKept others sooner queue s t a w

pub quiet :
    {others : ℕ} {sooner : ℤ} {queue : List Event} {s t : Session}
    → WellKept others sooner queue s
    → (t.user.conn ≡ s.user.conn)
    → (t.user.sooner_activation_tm ≡ s.user.sooner_activation_tm)
    → (t.user.events_queue ≡ s.user.events_queue)
    → (t.globals.packets ≡ s.globals.packets)
    → WellKept others sooner queue t
quiet w c e q p = still w (c, e, q, p)

-- A change of the connection that leaves its queue and its flag.
pub conn_changed :
    {others : ℕ} {sooner : ℤ} {queue : List Event} {s : Session} (f : Conn → Conn)
    → ((c : Conn) → ((f c).writer ≡ c.writer) × ((f c).pollout ≡ c.pollout))
    → WellKept others sooner queue s
    → WellKept others sooner queue (record s {
      user = record s.user { conn = elim s.user.conn [ none ↦ none | some c ↦ some (f c) ] };
    })
conn_changed {s = s} f e w = elim (Option-cases s.user.conn) [
  | inl none_there ↦ rw none_there (record {
    accounted = rw none_there at w.accounted;
    polls = tt;
    sooner_same = w.sooner_same;
    queue_same = w.queue_same;
  })
  | inr (c, there) ↦ rw there (record {
    accounted = rw ((e c).0) (rw there at w.accounted);
    polls = rw ((e c).0, (e c).1) (rw there at w.polls);
    sooner_same = w.sooner_same;
    queue_same = w.queue_same;
  })
]

pub set_conn-Keeps :
    (f : Conn → Conn)
    → ((c : Conn) → ((f c).writer ≡ c.writer) × ((f c).pollout ≡ c.pollout))
    → Keeps (set_conn f)
set_conn-Keeps f e others sooner queue s w = returned (conn_changed f e w)

pub Safe-if :
    {A : Type 0} {Q : A → Session → Type 0} {s : Session} (b : Bool) (m n : M A)
    → Safe Q (m s)
    → Safe Q (n s)
    → Safe Q ((if b then m else n) s)
Safe-if true m n h k = h
Safe-if false m n h k = k

pub Safe-choose :
    {T A : Type 0} {Q : A → Session → Type 0} {s : Session} (o : Option T) (absent : M A)
    (present : T → M A)
    → Safe Q (absent s)
    → ((x : T) → Safe Q (present x s))
    → Safe Q (choose o absent present s)
Safe-choose none absent present h k = h
Safe-choose (some x) absent present h k = k x
