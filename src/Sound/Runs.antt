-- ===== src/Sound/Runs.antt =====
-- Any number of passes of the main loop for a user: jab_simul/thread-main.c, thread_main.
use jab_simul.Shared.{ℕ, ◌≡◌, subst, List, Option, Text}
use jab_simul.Jabber.{Jabber}
use jab_simul.State.{Session}
use jab_simul.State.Monad.{Outcome, returns}
use jab_simul.Conn.{SockResult}
use jab_simul.Events.{Outside}
use jab_simul.Roster.Load.{Xhash}
use jab_simul.Life.{user_do_your_job}
use jab_simul.Poll.{StreamEvent, Revents, handle_place}
use jab_simul.Sound.Rules.{Safe, returned}
use jab_simul.Sound.Queue.{Sound}
use jab_simul.Sound.Pass.{user_do_your_job-Sound, handle_place-Sound}

back_Sound :
    {A : Type 0} {others : ℕ} {o : Outcome A} {a : A} {t : Session}
    → Safe (λ _ r. Sound others r) o
    → o ≡ returns a t
    → Sound others t
back_Sound {A} {others} {o} {a} {t} h e = go (subst (Safe (λ _ r. Sound others r)) e h)
  where
    go : Safe (λ _ r. Sound others r) (returns a t) → Sound others t
    go (returned v) = v

module _ (lib : Jabber) (xh : Xhash) (out : Outside) where
  -- One step of the loop for the user, which comes back: its work, or the flags of its place.
  pub data Pass (s : Session) (t : Session) : Type 0 where
    works : (now : ℕ) → user_do_your_job lib xh out now s ≡ returns tt t → Pass s t
    polled :
        (now : ℕ) (r : Revents) (sock : ℕ → Text → SockResult) (read : Option (List StreamEvent))
        → handle_place lib xh now r sock read s ≡ returns tt t
        → Pass s t

  pub data Runs (s : Session) : Session → Type 0 where
    rest : Runs s s
    then_pass : {t r : Session} → Runs s t → Pass t r → Runs s r

  Pass-Sound : (others : ℕ) (s t : Session) → Sound others s → Pass s t → Sound others t
  Pass-Sound others s t h (works now e) =
      back_Sound (user_do_your_job-Sound lib xh out now others s h) e
  Pass-Sound others s t h (polled now r sock read e) =
      back_Sound (handle_place-Sound lib xh now r sock read others s h) e

  -- From a session where all packets are accounted for, POLLOUT is asked for exactly with something
  -- to send, and no event is to run before `sooner_activation_tm`, any sequence of the user's work
  -- and of events at its place leads to such a session.
  pub Runs-Sound : (others : ℕ) {s t : Session} → Sound others s → Runs s t → Sound others t
  Runs-Sound others h rest = h
  Runs-Sound others h (then_pass {t} {r} run pass) =
      Pass-Sound others t r (Runs-Sound others h run) pass
