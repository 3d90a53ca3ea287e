-- ===== src/Roster/Save.antt =====
-- The private part of a roster as XML: jab_simul/jab_simul-roster.c.
use jab_simul.Shared.{
  suc, List, [], ◌∷◌, ◌++◌, Option, none, some, Bool, true, false, Text, codes, if◌then◌else◌,
}
use jab_simul.Shared.Int.{ℤ, pos, negsuc}
use jab_simul.Jabber.{Xml, Body, tag, empty, cdata, child}
use jab_simul.State.{PrivItem, GroupItem, PrivRoster}
use jab_simul.State.Monad.{M, ◌>>=◌, pure, get, choose, fault}
use jab_simul.Ids.{print_unsigned}
use jab_simul.Requests.{new_id}

-- snprintf's `%i`; the buffer of 20 bytes holds any int.
unfoldable pub print_int : ℤ → Text
print_int (pos n) = print_unsigned n
print_int (negsuc n) = codes "-" ++ print_unsigned (suc n)

abbrev pub flag_text : Bool → Text
flag_text true = codes "1"
flag_text false = codes "0"

-- An element that is left out where there is no text.
abbrev pub optional : Text → Option Text → Body → Body
optional name none rest = rest
optional name (some t) rest = child (tag name [] (cdata t empty)) rest

-- xmlnode_insert_cdata adds nothing for NULL.
abbrev pub always : Text → Option Text → Body → Body
always name none rest = child (tag name [] empty) rest
always name (some t) rest = child (tag name [] (cdata t empty)) rest

unfoldable pub group_names : List GroupItem → Body
group_names [] = empty
group_names (g ∷ gs) = always (codes "groupitem") g.name (group_names gs)

abbrev pub item_groups : List GroupItem → Body
item_groups [] = empty
item_groups (g ∷ gs) = child (tag (codes "groups") [] (group_names (g ∷ gs))) empty

unfoldable pub item_xml : PrivItem → Xml
unfolding group_names
item_xml p = tag (codes "item") [] (
    optional (codes "jid") p.jid (
      always (codes "nick") p.nick_name (
        optional (codes "firstname") p.first_name (
          optional (codes "lastname") p.last_name (
            optional (codes "displayname") p.display_name (
              optional (codes "sms") p.sms (
                optional (codes "cyfra") p.cyfra (
                  optional (codes "speak") p.speak (
                    always (codes "flash") (some (flag_text p.flash)) (
                      always (codes "speakpres") (some (flag_text p.speak_pres)) (
                        optional (codes "prestext") p.presence_text
                          (item_groups p.groups))))))))))))

unfoldable pub items_xml : List PrivItem → Body
unfolding item_xml
items_xml [] = empty
items_xml (p ∷ ps) = child (item_xml p) (items_xml ps)

unfoldable pub group_xml : Text → GroupItem → Xml
group_xml name g =
    tag name [] (always (codes "name") g.name (always (codes "exp") (some (flag_text g.exp)) empty))

-- `gall` is read through, so it is there.
unfoldable pub groups_xml : List GroupItem → GroupItem → Body
unfolding group_xml
groups_xml [] gall = child (group_xml (codes "groupall") gall) empty
groups_xml (g ∷ gs) gall = child (group_xml (codes "group") g) (groups_xml gs gall)

unfoldable pub query_wpmsg_set : Text → Text → Body → Xml
query_wpmsg_set id ns_wpmsg body =
    tag (codes "iq") ((codes "type", codes "set") ∷ (codes "id", id) ∷ []) (
      child
        (tag (codes "query") ((codes "xmlns", codes "jabber:iq:private") ∷ [])
          (child (tag (codes "wpmsg") ((codes "xmlns", ns_wpmsg) ∷ []) body) empty))
        empty)

unfoldable pub data_xml : PrivRoster → Body
unfolding print_int
data_xml p = child (tag (codes "data") [] (cdata (print_int p.numextcontacts) empty)) empty

unfoldable pub lists_xml : PrivRoster → GroupItem → Body
unfolding items_xml groups_xml data_xml
lists_xml p gall =
    child (tag (codes "contacts") [] (items_xml p.priv_rost_list))
      (child (tag (codes "groups") [] (groups_xml p.groups gall)) (data_xml p))

-- An id is drawn even if there is nothing loaded and the result is NULL. Without a main group the
-- code reads through NULL.
unfoldable pub priv_roster_list2xml : M (Option Xml)
unfolding new_id lists_xml query_wpmsg_set
priv_roster_list2xml = do
  id ← new_id
  s ← get
  if s.user.priv_rost.loaded
      then choose s.user.priv_rost.gall fault (λ gall.
        pure
          (some (query_wpmsg_set id (codes "wpmsg:extcontacts") (lists_xml s.user.priv_rost gall))))
      else pure none

unfoldable pub priv_roster_numextcontacts2xml : M (Option Xml)
unfolding new_id data_xml query_wpmsg_set
priv_roster_numextcontacts2xml = do
  id ← new_id
  s ← get
  if s.user.priv_rost.loaded
      then pure
          (some (query_wpmsg_set id (codes "wpmsg:numextcontacts") (data_xml s.user.priv_rost)))
      else pure none
