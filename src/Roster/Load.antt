-- ===== src/Roster/Load.antt =====
-- A roster from the server's list: jab_simul/jab_simul-roster.c, roster_hash_from_xml and what it
-- calls. The hash table of the library is a parameter.
pub mod Count
use jab_simul.Shared.{
  ℕ, zero, suc, ◌+◌, ◌≡◌, ◌≢◌, List, [], ◌∷◌, Option, none, some, Bool, true, false, Text, codes,
  if◌then◌else◌,
}
use jab_simul.Shared.Int.{ℤ, pos, ◌+ℤ◌, ◌-ℤ◌}
use jab_simul.Jabber.{Jabber, XmlNode}
use jab_simul.State.{User, Xht, RosterItem, PrivItem, Session}
use jab_simul.State.Monad.{
  M, ◌>>=◌, ◌>>◌, skip, get, set_user, set_counts, returns, choose, with_hash, fault,
}
use jab_simul.Primes.{fit_prime, tag_iter_init, tags_named}
use jab_simul.Roster.{roster_hash_delete}

-- xhash.c, over tables of roster items.
pub record Xhash : Type 0 where
  pub xhash_new : ℕ → Xht
  pub xhash_get : Xht → Text → Option RosterItem
  pub xhash_put : Xht → Text → RosterItem → Xht
  pub xhash_zap : Xht → Text → Xht

unfoldable pub count_tags : Jabber → List XmlNode → ℕ
count_tags lib [] = 0
count_tags lib (n ∷ ns) = if lib.is_tag n then suc (count_tags lib ns) else count_tags lib ns

unfoldable pub find_priv_by_jid : Jabber → List PrivItem → Text → Option PrivItem
find_priv_by_jid lib [] jid = none
find_priv_by_jid lib (p ∷ ps) jid =
    if lib.j_same p.jid (some jid) then some p else find_priv_by_jid lib ps jid

abbrev pub text_or : Option Text → Text → Text
text_or none d = d
text_or (some t) d = t

unfoldable pub roster_item_create :
    Jabber → Option Text → Option Text → ℕ → List PrivItem → RosterItem
unfolding find_priv_by_jid
roster_item_create lib jid nick subscribe privs =
    let jid' : Text = text_or jid [] in
    record {
      jid = jid';
      nick = text_or nick jid';
      subscribe = subscribe;
      priv = find_priv_by_jid lib privs jid';
      available = false;
    }

abbrev pub subs_none : ℕ
subs_none = 0

abbrev pub subs_to : ℕ
subs_to = 1

abbrev pub subs_from : ℕ
subs_from = 2

abbrev pub subs_both : ℕ
subs_both = 3

unfoldable pub subscription_of : Jabber → Option Text → ℕ
subscription_of lib sub =
    if lib.j_same_nocase sub (some (codes "from"))
    then subs_from
    else if lib.j_same_nocase sub (some (codes "to"))
    then subs_to
    else if lib.j_same_nocase sub (some (codes "both"))
    then subs_both
    else subs_none

unfoldable pub roster_item_from_xml : Jabber → User → XmlNode → RosterItem
unfolding roster_item_create subscription_of
roster_item_from_xml lib u x =
    roster_item_create lib (lib.get_attrib (some x) (codes "jid"))
      (lib.get_attrib (some x) (codes "nick"))
      (subscription_of lib (lib.get_attrib (some x) (codes "subscription")))
      u.priv_rost.priv_rost_list

-- The changes of `user->roster_count` and `glob_roster_count`.
abbrev pub count_up : M (Unit {0})
count_up = do
  set_user (λ u. record u { roster_count = u.roster_count +ℤ pos 1 })
  set_counts (λ c. record c { glob_roster_count = c.glob_roster_count +ℤ pos 1 })

abbrev pub count_down : M (Unit {0})
count_down = do
  set_user (λ u. record u { roster_count = u.roster_count -ℤ pos 1 })
  set_counts (λ c. record c { glob_roster_count = c.glob_roster_count -ℤ pos 1 })

abbrev pub set_hash : Xht → M (Unit {0})
set_hash h = set_user (λ u. record u { roster_hash = some h })

module _ (lib : Jabber) (xh : Xhash) where
  -- The entry of the same jid goes.
  unfoldable pub drop_old : Xht → Text → M Xht
  drop_old h jid = elim (xh.xhash_get h jid) [
    | none ↦ λ s. returns h s
    | some old ↦ do set_hash (xh.xhash_zap h jid); count_down; λ s. returns (xh.xhash_zap h jid) s
  ]

  unfoldable pub put_new : Xht → RosterItem → M (Unit {0})
  put_new h item = do set_hash (xh.xhash_put h item.jid item); count_up

  -- One turn of the loop, with the user's table `h`.
  unfoldable pub load_item : Xht → XmlNode → M (Unit {0})
  load_item h cur = do
    s ← get
    let item = roster_item_from_xml lib s.user cur
    h' ← drop_old h item.jid
    if lib.j_same_nocase (lib.get_attrib (some cur) (codes "subscription")) (some (codes "remove"))
        then skip
        else put_new h' item

  -- The table exists from before the loop on.
  unfoldable pub load_items : List XmlNode → M (Unit {0})
  load_items [] = skip
  load_items (cur ∷ rest) = do with_hash fault (λ h. load_item h cur); load_items rest

  unfoldable pub ensure_hash : ℕ → M (Unit {0})
  ensure_hash count =
      with_hash (choose (fit_prime count) fault λ prime. set_hash (xh.xhash_new prime)) (λ h. skip)

  unfoldable pub roster_hash_from_xml : Option XmlNode → Bool → M (Unit {0})
  roster_hash_from_xml x delete = do
    if delete then roster_hash_delete else skip
    ensure_hash (count_tags lib (lib.children x))
    load_items (tags_named lib (some (codes "item")) (tag_iter_init lib x))
