-- ===== src/Repeater.antt =====
-- The queue of timed events: copy_repeaters and create_repeater_from_xml of
-- jab_simul/jab_simul-repeater.c, and user_handle_repeater_queue of jab_simul/jab_simul-user.c.
pub mod Counter
pub mod Spread
use jab_simul.Shared.{
  ℕ, suc, ◌*◌, ◌/◌, ◌%◌, List, [], ◌∷◌, Option, none, some, Bool, true, false, not, ◌&&◌, ◌||◌,
  Text, codes, text_eq, if◌then◌else◌,
}
use jab_simul.Shared.Int.{ℤ, pos, negsuc, ◌+ℤ◌, ◌-ℤ◌, ◌*ℤ◌, leb_ℤ, ltb_ℤ, eq_ℤ, pos_part}
use jab_simul.Jabber.{Jabber, XmlNode}
use jab_simul.State.{
  Event, UserState, disabled, can_login, is_logging, logged_in, EventHandler, change_status,
  send_message, send_raw_bytes, add_roster, del_roster, connect, kill_connection, logout,
}
use jab_simul.State.Monad.{M, ◌>>=◌, ◌>>◌, pure, skip, get, set_user, draw, choose}
use jab_simul.Roster.Load.{Xhash}
use jab_simul.Events.{Outside, run_event}

-- NEVER, 0xFFFFFFFF.
abbrev pub never : ℤ
never = pos 4294967295

abbrev pub same_state : UserState → UserState → Bool
same_state disabled disabled = true
same_state can_login can_login = true
same_state is_logging is_logging = true
same_state logged_in logged_in = true
same_state _ _ = false

-- `activation_tm && activation_tm <= curtimestamp`.
unfoldable pub is_due : Event → ℕ → Bool
is_due e now = not (eq_ℤ e.activation_tm (pos 0)) && leb_ℤ e.activation_tm (pos now)

-- Fifteen percent more or less, in steps of a ten-thousandth; only for a `frequency` of 0 or more.
unfoldable pub next_activation : ℤ → ℕ → ℕ → ℤ
next_activation frequency now r =
    pos now +ℤ frequency +ℤ pos (pos_part frequency / 10000) *ℤ (pos (r % 3000) -ℤ pos 1500)

unfoldable pub reschedule : Event → ℕ → M Event
reschedule e now =
    if ltb_ℤ e.frequency (pos 0)
    then pure e
    else (do r ← draw; pure (record e { activation_tm = next_activation e.frequency now r }))

abbrev pub state_fits : Option UserState → UserState → Bool
state_fits none s = true
state_fits (some wanted) s = same_state wanted s

abbrev pub always_runs : Option UserState → Bool
always_runs none = true
always_runs (some wanted) = same_state wanted can_login

-- The tests between an event that is due and its handler.
unfoldable pub may_run : Event → UserState → Bool → Bool
may_run e state do_events =
    state_fits e.user_state state
    && not (eq_ℤ e.counter (pos 0))
    && (do_events || always_runs e.user_state)

unfoldable pub count_run : Event → Event
count_run e = if ltb_ℤ (pos 0) e.counter then record e { counter = e.counter -ℤ pos 1 } else e

unfoldable pub note_sooner : Event → M (Unit {0})
note_sooner e = set_user λ u. record u {
  sooner_activation_tm =
      if ltb_ℤ e.activation_tm u.sooner_activation_tm
      then e.activation_tm
      else u.sooner_activation_tm;
}

module _ (lib : Jabber) (xh : Xhash) (out : Outside) where
  unfoldable pub fire : Event → ℕ → M Event
  fire e now = do
    s ← get
    choose e.event_handler (pure e) (λ f.
        if may_run e s.user.state s.globals.do_events
        then (do run_event lib xh out f e now; pure (count_run e))
        else pure e)

  -- One turn of the loop: the event as it is afterwards.
  unfoldable pub handle_event : Event → ℕ → M Event
  unfolding fire
  handle_event e now = do
    e' ← if is_due e now then (do moved ← reschedule e now; fire moved now) else pure e
    note_sooner e'
    pure e'

  unfoldable pub handle_events : List Event → ℕ → M (List Event)
  unfolding handle_event
  handle_events [] now = pure []
  handle_events (e ∷ es) now = do
    e' ← handle_event e now
    es' ← handle_events es now
    pure (e' ∷ es')

  -- The queue's entries are changed in place; no handler reads them.
  unfoldable pub user_handle_repeater_queue : ℕ → M (Unit {0})
  unfolding handle_events
  user_handle_repeater_queue now = do
    s ← get
    if leb_ℤ s.user.sooner_activation_tm (pos now)
        then (do
          set_user (λ u. record u { sooner_activation_tm = never })
          es ← handle_events s.user.events_queue now
          set_user (λ u. record u { events_queue = es }))
        else skip

-- Random first delays. `frequency / 1000` is above 0, as a frequency is a number of milliseconds.
unfoldable pub copy_repeaters : (ℕ → ℕ) → ℕ → List Event → List Event
copy_repeaters random k [] = []
copy_repeaters random k (e ∷ es) =
    let later = ltb_ℤ (pos 0) e.frequency in
    let rest = copy_repeaters random (if later then suc k else k) es in
    record e {
      activation_tm =
          e.activation_tm
          +ℤ (if later then pos (1000 * (random k % (pos_part e.frequency / 1000))) else pos 1);
    }
    ∷ rest

-- REPEATER lines: the handler, whether the event keeps its XML, and the state that it needs.
unfoldable pub repeater_kind : Text → Option (EventHandler × Bool × Option UserState)
repeater_kind name =
    if text_eq name (codes "change_status")
    then some (change_status, true, some logged_in)
    else if text_eq name (codes "send_message")
    then some (send_message, true, some logged_in)
    else if text_eq name (codes "send_raw_bytes")
    then some (send_raw_bytes, true, none)
    else if text_eq name (codes "add_roster")
    then some (add_roster, true, some logged_in)
    else if text_eq name (codes "del_roster")
    then some (del_roster, false, some logged_in)
    else if text_eq name (codes "connect")
    then some (connect, true, some can_login)
    else if text_eq name (codes "kill_connection")
    then some (kill_connection, false, none)
    else if text_eq name (codes "logout")
    then some (logout, false, some logged_in)
    else none

abbrev pub set_kind : XmlNode → Event → Option (EventHandler × Bool × Option UserState) → Event
set_kind x e none = e
set_kind x e (some (f, keeps, state)) = record e {
  event_handler = some f;
  arg = if keeps then some x else none;
  user_state = state;
}

-- j_strcmp with a NULL name fits no line.
unfoldable pub create_repeater_from_xml : Jabber → XmlNode → ℕ → Event
unfolding repeater_kind
create_repeater_from_xml lib x now =
    set_kind x
      (record {
        activation_tm = pos now;
        frequency =
            pos 1000 *ℤ lib.j_atoi (lib.get_tag_data (some x) (codes "frequency")) (negsuc 0);
        event_handler = none;
        counter = lib.j_atoi (lib.get_tag_data (some x) (codes "counter")) (negsuc 0);
        user_state = some logged_in;
        arg = none;
      })
      (elim (lib.get_tag_data (some x) (codes "name")) [
        | none ↦ none
        | some name ↦ repeater_kind name
      ])
