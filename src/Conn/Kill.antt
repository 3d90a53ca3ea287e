-- ===== src/Conn/Kill.antt =====
-- The end of a connection: user_conn_kill of jab_simul/jab_simul-user.c and jpolld_conn_kill of
-- jab_simul/jab_simul-conn.c.
use jab_simul.Shared.{suc, ◌≡◌, [], none, some, true, false, arith, if◌then◌else◌}
use jab_simul.State.{Session, can_login}
use jab_simul.State.Monad.{Outcome, returns, exits, faults}
use jab_simul.Slots.{free_place}
use jab_simul.Conn.{user_conn_kill}
use jab_simul.Roster.{roster_hash_delete, priv_roster_delete}

-- Nothing of the connection is left, and the place is given back.
pub record Reset (s : Session) (t : Session) : Type 0 where
  pub no_conn : t.user.conn ≡ none
  pub may_login : t.user.state ≡ can_login
  pub no_stream : t.user.stream_opened ≡ false
  pub kill_expected_no_more : t.user.expect_kill ≡ false
  pub no_roster : t.user.roster_hash ≡ none
  pub no_private_part :
      t.user.priv_rost
      ≡ record s.user.priv_rost { priv_rost_list = []; groups = []; gall = none; loaded = false }
  pub place_free :
      t.globals.slots
      ≡ elim s.user.conn [ none ↦ s.globals.slots | some c ↦ free_place s.globals.slots c.loc ]
  pub killed : t.globals.counts.conn_kill ≡ elim s.user.conn [
    | none ↦ s.globals.counts.conn_kill
    | some c ↦ suc s.globals.counts.conn_kill
  ]
  pub unexpected : t.globals.counts.unexpected_kill ≡ (
      if s.user.expect_kill
      then s.globals.counts.unexpected_kill
      else suc s.globals.counts.unexpected_kill)

-- A run that comes back has reset all, and a user that is to exit after its login ends the process.
abbrev pub Ends : Session → Outcome (Unit {0}) → Type 0
Ends s (returns a t) = (s.user.exit_after_login ≡ false) × Reset s t
Ends s (exits code) = (s.user.exit_after_login ≡ true) × (code ≡ 0)
Ends s faults = ⊥

-- user_conn_kill gives back the place of the connection, if there is one, and counts it as killed;
-- it leaves a user that can log in again, without connection, stream and roster, with a private part
-- that has no contacts and no groups, is not loaded and keeps only its version; and it counts the end as unexpected exactly if it was not expected. Or the user was to exit after its
-- login, and the process ends with code 0.
pub user_conn_kill-Ends : (s : Session) → Ends s (user_conn_kill s)
unfolding user_conn_kill roster_hash_delete priv_roster_delete
user_conn_kill-Ends s = ground arith
