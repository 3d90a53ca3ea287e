-- ===== src/Sound/Start.antt =====
-- Where a user starts: user_create of jab_simul/jab_simul-user.c and copy_repeaters of
-- jab_simul/jab_simul-repeater.c.
use jab_simul.Shared.{
  ℕ, ◌+◌, ◌≡◌, List, [], ◌∷◌, Option, Bool, true, false, Text, arith, if◌then◌else◌,
}
use jab_simul.Shared.Int.{ℤ, pos, ltb_ℤ, ◌≤ℤ◌, ◌+ℤ◌, int_laws}
use jab_simul.State.{Session, Event}
use jab_simul.Repeater.{copy_repeaters}
use jab_simul.Life.{user_create}
use jab_simul.Sound.Queue.{Sound, NoneBefore}

later_than : (a : ℤ) (n : ℕ) → pos 0 ≤ℤ a → pos 0 ≤ℤ a +ℤ pos n
later_than a n h = omega (int_laws, h)

delay_first :
    (a : ℤ) (later : Bool) (n : ℕ) → pos 0 ≤ℤ a → pos 0 ≤ℤ a +ℤ (if later then pos n else pos 1)
delay_first a true n h = later_than a n h
delay_first a false n h = later_than a 1 h

copy_repeaters-NoneBefore :
    (es : List Event) (random : ℕ → ℕ) (k : ℕ)
    → NoneBefore (pos 0) es
    → NoneBefore (pos 0) (copy_repeaters random k es)
unfolding copy_repeaters
copy_repeaters-NoneBefore [] random k h = tt
copy_repeaters-NoneBefore (e ∷ es) random k h = (
  delay_first e.activation_tm (ltb_ℤ (pos 0) e.frequency) _ h.0,
  copy_repeaters-NoneBefore es random _ h.1,
)

-- A session of a user that user_create has just made is sound: if the packets of all the others are
-- accounted for and no event of the configuration is to run before time 0, then POLLOUT is asked for
-- exactly with something to send, all packets are accounted for, and none of the events with their
-- random delays is to run before `sooner_activation_tm`.
pub user_create-Sound :
    (name server passwd : Text) (resource fullname host : Option Text) (port : ℤ)
    (events : List Event) (ssl : Bool) (random : ℕ → ℕ) (k others : ℕ) (s : Session)
    → NoneBefore (pos 0) events
    → s.globals.packets.created ≡ s.globals.packets.sent + s.globals.packets.canceled + others
    → Sound others (record s {
      user = user_create name server passwd resource fullname host port events ssl random k;
    })
unfolding user_create
user_create-Sound name server passwd resource fullname host port events ssl random k others s h a =
    record {
      accounted = omega (arith, a);
      polls = tt;
      bounded = copy_repeaters-NoneBefore events random k h;
    }
