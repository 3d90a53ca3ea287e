-- ===== src/Loop/Users.antt =====
-- What the loop of jab_simul/thread-main.c keeps for all users at once, and a step of one of them.
use jab_simul.Shared.{
  ℕ, zero, suc, All, ◌+◌, ◌≡◌, refl, sym, ap, ◌∙◌, subst, inl, inr, List, [], ◌∷◌, none, some, Bool,
  not, get_elem?, set, Option-cases, arith,
}
use jab_simul.State.{User, Session, Packets}
use jab_simul.State.Monad.{M, Outcome}
use jab_simul.Conn.Order.{is_empty}
use jab_simul.Conn.Accounting.{queued}
use jab_simul.Sound.Rules.{Safe, returned, exited, faulted}
use jab_simul.Sound.Queue.{Sound, NoneBefore}
use jab_simul.Loop.{
  World, Turn, goes_on, breaks, exits, faults, then_do, after_user, on_user, show_info, note_log,
}

-- A user asks for POLLOUT exactly with something to send, and none of its events is to run before
-- its `sooner_activation_tm`.
abbrev pub UserSound : User → Type 0
UserSound u =
    (elim u.conn [ none ↦ Unit {0} | some c ↦ c.pollout ≡ not (is_empty c.writer) ])
    × NoneBefore u.sooner_activation_tm u.events_queue

-- The packets in all queues.
abbrev pub total : List User → ℕ
total [] = 0
total (u ∷ us) = queued u + total us

-- All users are sound, and every packet created is sent, canceled or in the queue of some user.
pub record WorldSound (w : World) : Type 0 where
  pub accounted :
      w.globals.packets.created
      ≡ w.globals.packets.sent + w.globals.packets.canceled + total w.users
  pub each : All UserSound w.users

-- If the turn comes back, then with P.
pub data Holds (P : World → Type 0) : Turn → Type 0 where
  on : {w : World} → P w → Holds P (goes_on w)
  off : {w : World} → P w → Holds P (breaks w)
  ended : {code : ℕ} → Holds P (exits code)
  broken : Holds P faults

pub Holds-then :
    {P : World → Type 0} (f : World → Turn) {t : Turn}
    → Holds P t
    → ((w : World) → P w → Holds P (f w))
    → Holds P (then_do t f)
Holds-then f (on {w} h) k = k w h
Holds-then f (off h) k = off h
Holds-then f ended k = ended
Holds-then f broken k = broken

-- The queue of one user and those of the others.
head_total : (x u : User) (n : ℕ) → x ≡ u → queued x + n ≡ queued u + n
head_total x u n e = ap (λ v. queued v + n) e

split_total :
    (us : List User) (n : ℕ) (u : User)
    → get_elem? us n ≡ some u
    → (rest : ℕ) × (total us ≡ queued u + rest)
      × ((v : User) → total (set us n v) ≡ queued v + rest)
split_total [] n u h = absurd (cc)
split_total (x ∷ us) zero u h = (total us, head_total x u (total us) (cc), λ v. refl)
split_total (x ∷ us) (suc n) u h =
    let (rest, whole, change) = split_total us n u h in
    (queued x + rest, omega (arith, whole), λ v. omega (arith, change v))

All-get :
    (us : List User) (n : ℕ) (u : User) → All UserSound us → get_elem? us n ≡ some u → UserSound u
All-get [] n u a h = absurd (cc)
All-get (x ∷ us) zero u a h = let same : x ≡ u = cc in subst UserSound same a.0
All-get (x ∷ us) (suc n) u a h = All-get us n u a.1 h

All-set :
    (us : List User) (n : ℕ) (u : User)
    → All UserSound us
    → UserSound u
    → All UserSound (set us n u)
All-set [] n u a h = tt
All-set (x ∷ us) zero u a h = (h, a.1)
All-set (x ∷ us) (suc n) u a h = (a.0, All-set us n u a.1 h)

-- A step of one user keeps all users sound.
pub on_user-Holds :
    {A : Type 0} (m : M A) (n : ℕ) (w : World)
    → ((others : ℕ) (s : Session) → Sound others s → Safe (λ _ t. Sound others t) (m s))
    → WorldSound w
    → Holds WorldSound (on_user n m w)
unfolding on_user
on_user-Holds {A = A} m n w keeps h = elim (Option-cases (get_elem? w.users n)) [
  | inl e ↦ rw (on_user, e) broken
  | inr (u, e) ↦ rw (on_user, e) (found u e)
]
  where
    came_back :
        (rest : ℕ)
        → ((v : User) → total (set w.users n v) ≡ queued v + rest)
        → {o : Outcome A} → Safe (λ _ t. Sound rest t) o
        → Holds WorldSound (after_user w n o)
    came_back rest change (returned {s = t} v) = on (record {
      accounted = omega (arith, v.accounted, change t.user);
      each = All-set w.users n t.user h.each (v.polls, v.bounded);
    })
    came_back rest change exited = ended
    came_back rest change faulted = broken

    found :
        (u : User)
        → get_elem? w.users n ≡ some u
        → Holds WorldSound
            (after_user w n (m (record { number = n; user = u; globals = w.globals })))
    found u e =
        let (rest, whole, change) = split_total w.users n u e in
        let sound = All-get w.users n u h.each e in
        came_back rest change (
          keeps rest (record { number = n; user = u; globals = w.globals })
            (record {
              accounted = omega (arith, whole, h.accounted);
              polls = sound.0;
              bounded = sound.1;
            }))

-- The users and their packets are the same.
same_packets :
    (w v : World)
    → v.users ≡ w.users
    → v.globals.packets ≡ w.globals.packets
    → WorldSound w
    → WorldSound v
same_packets w v users packets h = record {
  accounted =
      ap (λ (p : Packets). p.created) packets
      ∙ h.accounted
      ∙ ap (λ (p : Packets). p.sent + p.canceled + total w.users) (sym packets)
      ∙ ap (λ us. v.globals.packets.sent + v.globals.packets.canceled + total us) (sym users);
  each = subst (All UserSound) (sym users) h.each;
}

pub note_log-Sound : (now : ℕ) (w : World) → WorldSound w → WorldSound (note_log now w)
unfolding note_log
note_log-Sound now w h = same_packets w (note_log now w) (ground arith) (ground arith) h

pub show_info-Sound :
    (ncurses : Bool) (now : ℕ) (w : World) → WorldSound w → WorldSound (show_info ncurses now w)
unfolding show_info
show_info-Sound ncurses now w h =
    same_packets w (show_info ncurses now w) (ground arith) (ground arith) h
