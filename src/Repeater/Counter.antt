-- ===== src/Repeater/Counter.antt =====
-- What a turn of the loop of user_handle_repeater_queue (jab_simul/jab_simul-user.c) does to the
-- event at hand.
use jab_simul.Shared.{ℕ, suc, ◌≡◌, some, Bool, true, false, not, ◌&&◌, if◌then◌else◌}
use jab_simul.Shared.Int.{ℤ, pos, ltb_ℤ, ◌-ℤ◌}
use jab_simul.Jabber.{Jabber}
use jab_simul.State.{Session, Event, EventHandler}
use jab_simul.State.Monad.{returns, ◌>>◌}
use jab_simul.Events.{Outside, is_there, run_event}
use jab_simul.Roster.Load.{Xhash}
use jab_simul.Repeater.{is_due, next_activation, may_run, count_run}

-- Whether the handler of the event is called in this turn.
abbrev pub runs : Event → ℕ → Session → Bool
runs e now s =
    is_due e now && (is_there e.event_handler && may_run e s.user.state s.globals.do_events)

abbrev pub moved_to : Event → ℕ → Session → ℤ
moved_to e now s =
    if is_due e now && not (ltb_ℤ e.frequency (pos 0))
    then next_activation e.frequency now (s.globals.random s.globals.drawn)
    else e.activation_tm

-- Only the time and the counter of the event change: the time to `time`, and the counter by one for
-- a run, if it counts.
pub record Turned (e : Event) (ran : Bool) (time : ℤ) (e' : Event) : Type 0 where
  pub counter_falls :
      e'.counter ≡ (if ran && ltb_ℤ (pos 0) e.counter then e.counter -ℤ pos 1 else e.counter)
  pub time_moves : e'.activation_tm ≡ time
  pub same_frequency : e'.frequency ≡ e.frequency
  pub same_handler : e'.event_handler ≡ e.event_handler
  pub same_state : e'.user_state ≡ e.user_state
  pub same_arg : e'.arg ≡ e.arg

-- The session in which the handler is called: a random value is drawn to move the event.
abbrev pub prepared : Event → ℕ → Session → Session
prepared e now s =
    if is_due e now && not (ltb_ℤ e.frequency (pos 0))
    then record s { globals = record s.globals { drawn = suc s.globals.drawn } }
    else s

-- The event is taken into account for the next look at the queue.
abbrev pub noted : Event → Session → Session
noted e s = record s {
  user = record s.user {
    sooner_activation_tm =
        if ltb_ℤ e.activation_tm s.user.sooner_activation_tm
        then e.activation_tm
        else s.user.sooner_activation_tm;
  };
}

module _ (lib : Jabber) (xh : Xhash) (out : Outside) where
  -- The call of the handler: with the event as it is then, in that session, with that result.
  abbrev pub Called : Event → ℕ → Session → Session → Type 0
  Called e now s t =
      (f : EventHandler) × (e.event_handler ≡ some f)
      × (run_event lib xh out f e now s ≡ returns tt t)

  -- What a turn leaves, of the event and of the session.
  pub record TurnEnds (e : Event) (now : ℕ) (s : Session) (e' : Event) (t : Session) : Type 0 where
    pub turned : Turned e (runs e now s) (moved_to e now s) e'
    pub untouched : runs e now s ≡ false → t ≡ noted e' (prepared e now s)
    pub called :
        runs e now s ≡ true
        → (u : Session) × (t ≡ noted e' u)
          × Called (record e { activation_tm = moved_to e now s }) now (prepared e now s) u

  -- The same for `fire`, without what is noted.
  record Fired (e : Event) (now : ℕ) (s : Session) (ran : Bool) (e' : Event) (t : Session)
      : Type 0 where
    counted : e' ≡ (if ran then count_run e else e)
    untouched : ran ≡ false → t ≡ s
    called : ran ≡ true → Called e now s t

  -- The turn up to `note_sooner`, for a decision on whether the event is due and whether it stays.
  record Stepped (e : Event) (now : ℕ) (p : Session) (ran : Bool) (time : ℤ) (e' : Event)
      (t : Session) : Type 0 where
    turned : Turned e ran time e'
    untouched : ran ≡ false → t ≡ p
    called : ran ≡ true → Called (record e { activation_tm = time }) now p t

  -- In the session `s` with any number of random values drawn.
  abbrev with_drawn : Session → ℕ → Session
  with_drawn s d = record s { globals = record s.globals { drawn = d } }
