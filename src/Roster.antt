-- ===== src/Roster.antt =====
-- Rosters: jab_simul/jab_simul-roster.c.
pub mod Load
pub mod Priv
pub mod Save
use jab_simul.Shared.{ℕ, ◌+◌, List, [], ◌∷◌, Option, none, some, Bool, true, false}
use jab_simul.Shared.Int.{ℤ, pos, ◌-ℤ◌}
use jab_simul.State.{User, PrivRoster, Session}
use jab_simul.State.Monad.{M, ◌>>=◌, ◌>>◌, skip, get, set_user, set_counts}

-- The table of a user goes, and its entries leave the global count.
unfoldable pub roster_hash_delete : M (Unit {0})
roster_hash_delete = do
  s ← get
  elim s.user.roster_hash [
    | none ↦ skip
    | some h ↦ do
      set_user (λ u. record u { roster_hash = none })
      set_counts (λ c. record c { glob_roster_count = c.glob_roster_count -ℤ s.user.roster_count })
      set_user (λ u. record u { last_roster_count = s.user.roster_count; roster_count = pos 0 })
  ]

unfoldable pub no_priv_roster : PrivRoster → PrivRoster
no_priv_roster p = record p { priv_rost_list = []; groups = []; gall = none; loaded = false }

unfoldable pub priv_roster_delete : M (Unit {0})
unfolding no_priv_roster
priv_roster_delete = set_user (λ u. record u { priv_rost = no_priv_roster u.priv_rost })
