-- ===== src/Sound/Rosters.antt =====
-- Loading a roster keeps the account: jab_simul/jab_simul-roster.c.
use jab_simul.Shared.{
  ℕ, refl, List, [], ◌∷◌, Option, some, Bool, true, false, Text, codes, inl, inr, Option-cases,
  if◌then◌else◌,
}
use jab_simul.Jabber.{Jabber, XmlNode}
use jab_simul.State.{Xht}
use jab_simul.State.Monad.{with_hash, fault, skip}
use jab_simul.Primes.{fit_prime}
use jab_simul.Roster.{roster_hash_delete, priv_roster_delete}
use jab_simul.Roster.Load.{
  Xhash, drop_old, put_new, load_item, load_items, ensure_hash, roster_hash_from_xml,
  roster_item_from_xml,
}
use jab_simul.Roster.Priv.{priv_roster_from_xml}
use jab_simul.Roster.Save.{priv_roster_list2xml, priv_roster_numextcontacts2xml}
use jab_simul.Requests.{new_id}
use jab_simul.Sound.Rules.{returned, faulted, Keeps, after_step, quiet, Safe-if, Safe-choose}

pub roster_hash_delete-Keeps : Keeps roster_hash_delete
unfolding roster_hash_delete
roster_hash_delete-Keeps others sooner queue s w = elim (Option-cases s.user.roster_hash) [
  | inl e ↦ rw e (returned (quiet w refl refl refl refl))
  | inr (h, e) ↦ rw e (returned (quiet w refl refl refl refl))
]

pub priv_roster_delete-Keeps : Keeps priv_roster_delete
unfolding priv_roster_delete
priv_roster_delete-Keeps others sooner queue s w = returned (quiet w refl refl refl refl)

module _ (lib : Jabber) (xh : Xhash) where
  drop_old-Keeps : (h : Xht) (jid : Text) → Keeps (drop_old lib xh h jid)
  unfolding drop_old
  drop_old-Keeps h jid others sooner queue s w = elim (Option-cases (xh.xhash_get h jid)) [
    | inl e ↦ rw (e, drop_old) (returned w)
    | inr (old, e) ↦ rw (e, drop_old) (returned (quiet w refl refl refl refl))
  ]

  load_item-Keeps : (h : Xht) (cur : XmlNode) → Keeps (load_item lib xh h cur)
  unfolding load_item put_new
  load_item-Keeps h cur others sooner queue s w =
      after_step (drop_old-Keeps h (roster_item_from_xml lib s.user cur).jid) w λ h' t v.
        Safe-if
          (lib.j_same_nocase (lib.get_attrib (some cur) (codes "subscription"))
            (some (codes "remove")))
          _ _ (returned v) (returned (quiet v refl refl refl refl))

  load_items-Keeps : (nodes : List XmlNode) → Keeps (load_items lib xh nodes)
  unfolding load_items
  load_items-Keeps [] others sooner queue s w = returned w
  load_items-Keeps (cur ∷ rest) others sooner queue s w =
      after_step {m = with_hash fault (λ h. load_item lib xh h cur)} one w
        λ _ t v. load_items-Keeps rest others sooner queue t v
    where
      one : Keeps (with_hash fault (λ h. load_item lib xh h cur))
      one others sooner queue s w =
          Safe-choose s.user.roster_hash _ _ faulted
            λ h. load_item-Keeps h cur others sooner queue s w

  ensure_hash-Keeps : (count : ℕ) → Keeps (ensure_hash lib xh count)
  unfolding ensure_hash
  ensure_hash-Keeps count others sooner queue s w =
      Safe-choose s.user.roster_hash _ _
        (Safe-choose (fit_prime count) _ _ faulted (λ p. returned (quiet w refl refl refl refl)))
        (λ h. returned w)

  pub roster_hash_from_xml-Keeps :
      (x : Option XmlNode) (delete : Bool) → Keeps (roster_hash_from_xml lib xh x delete)
  unfolding roster_hash_from_xml
  roster_hash_from_xml-Keeps x delete others sooner queue s w =
      after_step (cleared delete) w λ _ t v.
        after_step (ensure_hash-Keeps _) v λ _ r u. load_items-Keeps _ others sooner queue r u
    where
      cleared : (b : Bool) → Keeps (if b then roster_hash_delete else skip)
      cleared true others sooner queue s w = roster_hash_delete-Keeps others sooner queue s w
      cleared false others sooner queue s w = returned w

  pub priv_roster_from_xml-Keeps : (x : XmlNode) → Keeps (priv_roster_from_xml lib x)
  unfolding priv_roster_from_xml
  priv_roster_from_xml-Keeps x others sooner queue s w =
      after_step (cleared s.user.priv_rost.loaded) w λ _ t v. returned (quiet v refl refl refl refl)
    where
      cleared : (b : Bool) → Keeps (if b then priv_roster_delete else skip)
      cleared true others sooner queue s w = priv_roster_delete-Keeps others sooner queue s w
      cleared false others sooner queue s w = returned w

pub priv_roster_list2xml-Keeps : Keeps priv_roster_list2xml
unfolding priv_roster_list2xml new_id
priv_roster_list2xml-Keeps others sooner queue s w =
    Safe-if s.user.priv_rost.loaded _ _
      (Safe-choose s.user.priv_rost.gall _ _ faulted (λ g. returned (quiet w refl refl refl refl)))
      (returned (quiet w refl refl refl refl))

pub priv_roster_numextcontacts2xml-Keeps : Keeps priv_roster_numextcontacts2xml
unfolding priv_roster_numextcontacts2xml new_id
priv_roster_numextcontacts2xml-Keeps others sooner queue s w =
    Safe-if s.user.priv_rost.loaded _ _ (returned (quiet w refl refl refl refl))
      (returned (quiet w refl refl refl refl))
