-- ===== src/Roster/Priv.antt =====
-- The private part of a roster, with its groups: jab_simul/jab_simul-roster.c, from the server's
-- XML.
use jab_simul.Shared.{
  List, [], ◌∷◌, Option, none, some, Bool, true, not, Text, codes, map, if◌then◌else◌,
}
use jab_simul.Jabber.{Jabber, XmlNode}
use jab_simul.State.{PrivItem, GroupItem, PrivRoster}
use jab_simul.State.Monad.{M, ◌>>=◌, ◌>>◌, skip, get, set_user}
use jab_simul.Primes.{tag_iter_init, tags_named}
use jab_simul.Roster.{priv_roster_delete}

abbrev pub or_else : Option Text → Option Text → Option Text
or_else none d = d
or_else (some t) d = some t

unfoldable pub group_item_create : Option Text → Bool → GroupItem
group_item_create name exp = record { name = name; exp = exp }

-- A list is filled from its head on, so an old one is kept only if nothing new comes.
abbrev pub refilled {ℓ} : {A : Type ℓ} → List A → List A → List A
refilled old [] = old
refilled old (x ∷ xs) = x ∷ xs

module _ (lib : Jabber) where
  -- `j_strcmp(..., "0") != 0`: also true where the tag is missing.
  unfoldable pub flag_of : XmlNode → Text → Bool
  flag_of x name = not (lib.j_same (lib.get_tag_data (some x) name) (some (codes "0")))

  unfoldable pub find_group : List GroupItem → Option Text → Option GroupItem
  find_group [] name = none
  find_group (g ∷ gs) name = if lib.j_same g.name name then some g else find_group gs name

  -- The groups that the contact names and the roster has.
  unfoldable pub groups_of : List GroupItem → List XmlNode → List GroupItem
  groups_of known [] = []
  groups_of known (n ∷ ns) = elim (find_group known (lib.get_data (some n))) [
    | none ↦ groups_of known ns
    | some g ↦ g ∷ groups_of known ns
  ]

  unfoldable pub priv_roster_item_create : List GroupItem → XmlNode → PrivItem
  unfolding flag_of
  priv_roster_item_create groups x =
      let read : Text → Option Text = λ name. lib.get_tag_data (some x) name in
      record {
        jid = read (codes "jid");
        nick_name = read (codes "nick");
        display_name = or_else (read (codes "displayname")) (read (codes "nick"));
        first_name = read (codes "firstname");
        last_name = read (codes "lastname");
        sms = read (codes "sms");
        cyfra = read (codes "cyfra");
        speak = or_else (read (codes "speak")) (some (codes "Standard"));
        flash = flag_of x (codes "flash");
        speak_pres = flag_of x (codes "speak_pres");
        presence_text = read (codes "prestext");
        groups = groups;
      }

  unfoldable pub load_contact : List GroupItem → XmlNode → PrivItem
  unfolding groups_of priv_roster_item_create
  load_contact known x =
      priv_roster_item_create
        (elim (lib.get_tag (some x) (codes "groups")) [
          | none ↦ []
          | some g ↦
              groups_of known
                (tags_named lib (some (codes "groupitem")) (tag_iter_init lib (some g)))
        ])
        x

  unfoldable pub priv_load_contacts : Option XmlNode → PrivRoster → PrivRoster
  unfolding load_contact
  priv_load_contacts x p = record p {
    priv_rost_list =
        refilled p.priv_rost_list (
          map (load_contact p.groups) (tags_named lib (some (codes "item")) (tag_iter_init lib x)));
  }

  unfoldable pub load_group : XmlNode → GroupItem
  unfolding group_item_create flag_of
  load_group x =
      group_item_create (lib.get_tag_data (some x) (codes "name")) (flag_of x (codes "exp"))

  unfoldable pub load_group_all : Option XmlNode → GroupItem
  unfolding group_item_create flag_of
  load_group_all none = group_item_create (some (codes "Wszyscy")) true
  load_group_all (some x) =
      group_item_create
        (or_else (lib.get_tag_data (some x) (codes "name")) (some (codes "Wszyscy")))
        (flag_of x (codes "exp"))

  unfoldable pub priv_load_groups : Option XmlNode → PrivRoster → PrivRoster
  unfolding load_group load_group_all
  priv_load_groups x p = record p {
    groups =
        refilled p.groups
          (map load_group (tags_named lib (some (codes "group")) (tag_iter_init lib x)));
    gall = some (load_group_all (lib.get_tag x (codes "groupall")));
  }

  -- The version number in the XML is only compared, for a warning.
  unfoldable pub priv_roster_from_xml : XmlNode → M (Unit {0})
  unfolding priv_load_groups priv_load_contacts
  priv_roster_from_xml x = do
    let wpmsg = lib.get_tag (lib.get_tag (some x) (codes "query")) (codes "wpmsg")
    s ← get
    if s.user.priv_rost.loaded then priv_roster_delete else skip
    set_user (λ u. record u {
      priv_rost = priv_load_groups (lib.get_tag wpmsg (codes "groups")) u.priv_rost;
    })
    set_user (λ u. record u {
      priv_rost = priv_load_contacts (lib.get_tag wpmsg (codes "contacts")) u.priv_rost;
    })
    set_user (λ u. record u { priv_rost = record u.priv_rost { loaded = true } })
