-- ===== src/Sound/Queue.antt =====
-- The queue of timed events: user_handle_repeater_queue of jab_simul/jab_simul-user.c.
use jab_simul.Shared.{ℕ, refl, List, [], ◌∷◌, Bool, true, false, arith, if◌then◌else◌}
use jab_simul.Shared.Int.{ℤ, pos, leb_ℤ, ltb_ℤ, ◌≤ℤ◌}
use jab_simul.Jabber.{Jabber}
use jab_simul.State.{Session, Event}
use jab_simul.State.Monad.{M, Outcome, returns, exits, faults, pure, ◌>>=◌}
use jab_simul.Events.{Outside}
use jab_simul.Roster.Load.{Xhash}
use jab_simul.Repeater.{
  is_due, never, reschedule, may_run, fire, note_sooner, handle_event, handle_events,
  user_handle_repeater_queue,
}
use jab_simul.Conn.Accounting.{Accounted}
use jab_simul.Conn.Order.{PollsWell}
use jab_simul.Sound.Rules.{
  Safe, returned, exited, faulted, Keeps, WellKept, Safe-bind, after_step, quiet, Safe-if,
  Safe-choose,
}
use jab_simul.Sound.Events.{run_event-Keeps}

-- No event of the list is to run before `sooner`.
abbrev pub NoneBefore : ℤ → List Event → Type 0
NoneBefore sooner [] = Unit
NoneBefore sooner (e ∷ es) = (sooner ≤ℤ e.activation_tm) × NoneBefore sooner es

-- Every packet is accounted for, POLLOUT is asked for exactly with something to send, and no event
-- is to run before `sooner_activation_tm`.
pub record Sound (others : ℕ) (s : Session) : Type 0 where
  pub accounted : Accounted others s
  pub polls : PollsWell s
  pub bounded : NoneBefore s.user.sooner_activation_tm s.user.events_queue

pub WellKept-Sound :
    {others : ℕ} {sooner : ℤ} {queue : List Event} {s : Session}
    → NoneBefore sooner queue
    → WellKept others sooner queue s
    → Sound others s
WellKept-Sound b w = record {
  accounted = w.accounted;
  polls = w.polls;
  bounded = rw (w.sooner_same, w.queue_same) b;
}

pub Sound-WellKept :
    {others : ℕ} (s : Session)
    → Sound others s
    → WellKept others s.user.sooner_activation_tm s.user.events_queue s
Sound-WellKept s h = record {
  accounted = h.accounted;
  polls = h.polls;
  sooner_same = refl;
  queue_same = refl;
}

-- A step that leaves the times of the events alone keeps all three.
pub Keeps-Sound :
    {A : Type 0} {m : M A} (others : ℕ) (s : Session)
    → Keeps m
    → Sound others s
    → Safe (λ _ t. Sound others t) (m s)
Keeps-Sound {A = A} {m = m} others s k h =
    weaken (m s) (k others s.user.sooner_activation_tm s.user.events_queue s (Sound-WellKept s h))
  where
    weaken :
        (o : Outcome A)
        → Safe (λ _ t. WellKept others s.user.sooner_activation_tm s.user.events_queue t) o
        → Safe (λ _ t. Sound others t) o
    weaken (returns a t) (returned w) = returned (WellKept-Sound h.bounded w)
    weaken (exits code) exited = exited
    weaken faults faulted = faulted

abbrev earlier : ℤ → ℤ → ℤ
earlier sooner time = if ltb_ℤ time sooner then time else sooner

earlier-le : (sooner time : ℤ) → (earlier sooner time ≤ℤ sooner) × (earlier sooner time ≤ℤ time)
earlier-le sooner time = ground arith

NoneBefore-earlier : (k m : ℤ) (es : List Event) → k ≤ℤ m → NoneBefore m es → NoneBefore k es
NoneBefore-earlier k m [] le h = tt
NoneBefore-earlier k m (e ∷ es) le h = (omega (arith, h.0), NoneBefore-earlier k m es le h.1)

module _ (lib : Jabber) (xh : Xhash) (out : Outside) where
  fire-Keeps : (e : Event) (now : ℕ) → Keeps (fire lib xh out e now)
  unfolding fire
  fire-Keeps e now others sooner queue s w = Safe-choose e.event_handler _ _ (returned w) λ f.
      Safe-if (may_run e s.user.state s.globals.do_events) _ _
        (after_step (run_event-Keeps lib xh out f e now) w λ _ t v. returned v) (returned w)

  reschedule-Keeps : (e : Event) (now : ℕ) → Keeps (reschedule e now)
  unfolding reschedule
  reschedule-Keeps e now others sooner queue s w =
      Safe-if (ltb_ℤ e.frequency (pos 0)) _ _ (returned w) (returned (quiet w refl refl refl refl))

  ran :
      (e : Event) (now : ℕ) (due : Bool)
      → Keeps (if due then (reschedule e now >>= λ moved. fire lib xh out moved now) else pure e)
  ran e now true others sooner queue s w =
      after_step (reschedule-Keeps e now) w
        λ moved t v. fire-Keeps moved now others sooner queue t v
  ran e now false others sooner queue s w = returned w

  handle_event-earlier :
      (e : Event) (now others : ℕ) (sooner : ℤ) (queue : List Event) (s : Session)
      → WellKept others sooner queue s
      → Safe
          (λ e' t. WellKept others (earlier sooner e'.activation_tm) queue t)
          (handle_event lib xh out e now s)
  unfolding handle_event note_sooner
  handle_event-earlier e now others sooner queue s w =
      after_step (ran e now (is_due e now)) w λ e' t v. returned (record {
        accounted = v.accounted;
        polls = v.polls;
        sooner_same = rw v.sooner_same refl;
        queue_same = v.queue_same;
      })

  handle_events-bounded :
      (es : List Event) (now others : ℕ) (sooner : ℤ) (queue : List Event) (s : Session)
      → WellKept others sooner queue s
      → Safe
          (λ es' t. (k : ℤ) × (k ≤ℤ sooner) × NoneBefore k es' × WellKept others k queue t)
          (handle_events lib xh out es now s)
  unfolding handle_events
  handle_events-bounded [] now others sooner queue s w = returned (sooner, omega arith, tt, w)
  handle_events-bounded (e ∷ es) now others sooner queue s w =
      Safe-bind (λ e' t. WellKept others (earlier sooner e'.activation_tm) queue t) _ _ _
        (handle_event-earlier e now others sooner queue s w)
        λ e' t v.
          let le = earlier-le sooner e'.activation_tm in
          Safe-bind
            (λ es' r.
              (k : ℤ) × (k ≤ℤ earlier sooner e'.activation_tm)
              × NoneBefore k es'
              × WellKept others k queue r)
            _ _ _ (handle_events-bounded es now others (earlier sooner e'.activation_tm) queue t v)
            λ es' r h. returned (h.0, omega (arith, h.1, le), (omega (arith, h.1, le), h.2), h.3)

  -- If all packets are accounted for, POLLOUT is asked for exactly with something to send, and no
  -- event is to run before `sooner_activation_tm`, so it is after user_handle_repeater_queue, if that
  -- comes back, whatever its events do and however they are moved.
  pub user_handle_repeater_queue-Sound :
      (now others : ℕ) (s : Session)
      → Sound others s
      → Safe (λ _ t. Sound others t) (user_handle_repeater_queue lib xh out now s)
  unfolding user_handle_repeater_queue
  user_handle_repeater_queue-Sound now others s h =
      Safe-if (leb_ℤ s.user.sooner_activation_tm (pos now)) _ _
        (Safe-bind
          (λ es' t.
            (k : ℤ) × (k ≤ℤ never) × NoneBefore k es' × WellKept others k s.user.events_queue t)
          _ _ _
          (handle_events-bounded s.user.events_queue now others never s.user.events_queue _
            (record {
              accounted = h.accounted;
              polls = h.polls;
              sooner_same = refl;
              queue_same = refl;
            }))
          λ es' t v. returned (record {
            accounted = v.3.accounted;
            polls = v.3.polls;
            bounded = rw v.3.sooner_same v.2;
          }))
        (returned h)
