-- ===== src/Config.antt =====
-- Reading the configuration: what jab_simul/jab_simul-main.c fills at the start, and code on it.
pub mod Names
pub mod Users
pub mod Configure
pub mod Space
pub mod Start
pub mod Returns
pub mod Count
pub mod Keeps
pub mod Origin
pub mod Comes
use jab_simul.Shared.{ℕ, Bool, Option, List, Text, none, some}
use jab_simul.Shared.Int.{ℤ}
use jab_simul.State.{User}
use jab_simul.Pattern.{Mode}
use jab_simul.Pattern.Parser.{sprintf_pattern}

-- user_name_struct.
pub record UserName : Type 0 where
  pub user : Text
  pub server : Text
  pub enabled : Bool
  pub can_receive_message : Bool
  pub can_be_added_to_roster : Bool

-- The tables of jpolld_instance_struct and alive_users_list, with the start condition of the scanner
-- and the number of random values drawn. `users` holds the entries from 0 to users_count - 1; one
-- user in it and in `alive_users_list` is the same object.
pub record Setup : Type 0 where
  pub user_names_space : ℕ → UserName
  pub users : List User
  pub alive_users_list : List User
  pub mode : Mode
  pub drawn : ℕ

-- The code returns, exits (exit_app), or faults: a table is left, or a pattern's run is undefined
-- or needs a conversion that Pattern.Printf does not read.
pub data Setting (A : Type 0) : Type 0 where
  gives : A → Setup → Setting A
  exits : ℕ → Setting A
  faults : Setting A

abbrev pub S : Type 0 → Type 0
S A = Setup → Setting A

abbrev pub bind : {A B : Type 0} → Setting A → (A → S B) → Setting B
bind (gives a s) f = f a s
bind (exits code) f = exits code
bind faults f = faults

infixl 5 ◌>>=◌ ◌>>◌
abbrev pub ◌>>=◌ : {A B : Type 0} → S A → (A → S B) → S B
◌>>=◌ m f s = bind (m s) f

abbrev pub ◌>>◌ : {B : Type 0} → S (Unit {0}) → S B → S B
m >> k = m >>= λ _. k

abbrev pub pure : {A : Type 0} → A → S A
pure a s = gives a s

abbrev pub fault : {A : Type 0} → S A
fault s = faults

abbrev pub exit_app : {A : Type 0} → ℕ → S A
exit_app code s = exits code

abbrev pub get : S Setup
get s = gives s s

abbrev pub modify : (Setup → Setup) → S (Unit {0})
modify f s = gives tt (f s)

-- The call of sprintf_pattern for the user number `i`, into a buffer of `size` bytes that holds `old`.
abbrev pub keep_text : Setup → Option (Text × Mode × ℕ) → Setting Text
keep_text s none = faults
keep_text s (some (t, m, d)) = gives t (record s { mode = m; drawn = d })

unfoldable pub print_name : (ℕ → ℕ) → ℤ → ℕ → Text → Text → S Text
print_name random i size old pattern s =
    keep_text s (sprintf_pattern i random size s.mode s.drawn old pattern)
