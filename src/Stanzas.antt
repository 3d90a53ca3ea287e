-- ===== src/Stanzas.antt =====
-- Queries, presences and messages of a user: jab_simul/jab_simul-user.c.
use jab_simul.Shared.{
  ℕ, List, [], ◌∷◌, ◌++◌, Option, none, some, Bool, true, false, Text, codes, if◌then◌else◌,
}
use jab_simul.Shared.Int.{ℤ, pos, ◌+ℤ◌}
use jab_simul.Jabber.{Jabber, Xml, Body, tag, empty, cdata, child}
use jab_simul.State.{
  User, roster_response, numextcontacts_response, add_roster_item_response,
  del_roster_item_response, extcontacts_response,
}
use jab_simul.State.Monad.{M, ◌>>=◌, ◌>>◌, pure, skip, get, set_user}
use jab_simul.Conn.{conn_write_str, conn_write_null, conn_write}
use jab_simul.Requests.{new_id, user_store_xml_info}

-- makeQuery with the quote `q`. Its callers' buffers of 2000 bytes hold what they ask for.
unfoldable pub query_head : ℕ → Option Text → Text
query_head q none = codes "<iq type=" ++ q ∷ (codes "get" ++ q ∷ codes ">")
query_head q (some id) =
    codes "<iq id=" ++ q ∷ (id ++ q ∷ (codes " type=" ++ q ∷ (codes "get" ++ q ∷ codes ">")))

unfoldable pub query_tail : ℕ → Text → Option Text → Text
query_tail q query_ns none = codes "<query xmlns=" ++ q ∷ (query_ns ++ q ∷ codes "/></iq>")
query_tail q query_ns (some wpmsg_ns) =
    codes "<query xmlns="
    ++ q
      ∷ (query_ns ++ q ∷ (codes "><wpmsg xmlns=" ++ q ∷ (wpmsg_ns ++ q ∷ codes "/></query></iq>")))

unfoldable pub make_query : ℕ → Option Text → Text → Option Text → Text
unfolding query_head query_tail
make_query q id query_ns wpmsg_ns = query_head q id ++ query_tail q query_ns wpmsg_ns

abbrev pub ns_private : Text
ns_private = codes "jabber:iq:private"

abbrev pub ns_roster : Text
ns_roster = codes "jabber:iq:roster"

unfoldable pub user_do_fetch_properities : ℕ → M (Unit {0})
user_do_fetch_properities now = do
  conn_write_str (make_query b'\'' none ns_private (some (codes "wpmsg:ignored"))) true >>= λ _.
      skip
  user_store_xml_info (codes "wpmsg:ignored") none now
  conn_write_str
        (make_query b'"' none ns_private (some (codes "wpmsg:numextcontacts"))
          ++ (make_query b'"' none ns_private (some (codes "wpmsg:usersettings"))
              ++ make_query b'"' (some (codes "doroster_0")) ns_roster none))
        true
      >>= λ _. skip
  user_store_xml_info (codes "wpmsg:numextcontacts") (some numextcontacts_response) now
  user_store_xml_info (codes "wpmsg:usersettings") none now
  user_store_xml_info (codes "doroster_0") (some roster_response) now

unfoldable pub user_do_fetch_extcontacts : ℕ → M Bool
user_do_fetch_extcontacts now = do
  sent ← conn_write_str (make_query b'\'' none ns_private (some (codes "wpmsg:extcontacts"))) true
  if sent
      then (do
        user_store_xml_info (codes "wpmsg:extcontacts") (some extcontacts_response) now
        pure true)
      else pure false

abbrev pub attrib : Text → Option Text → List (Text × Text) → List (Text × Text)
attrib name none rest = rest
attrib name (some value) rest = (name, value) ∷ rest

abbrev pub text_tag : Text → Option Text → Body → Body
text_tag name none rest = rest
text_tag name (some value) rest = child (tag name [] (cdata value empty)) rest

unfoldable pub presence_xml : Option Text → Option Text → Option Text → Option Text → Xml
presence_xml type jid_to status show =
    tag (codes "presence") (attrib (codes "to") jid_to (attrib (codes "type") type []))
      (text_tag (codes "status") status (text_tag (codes "show") show empty))

-- A presence to nobody in particular is counted as one to each entry of the roster.
abbrev pub presences_sent : User → Option Text → ℤ
presences_sent u none = u.roster_count
presences_sent u (some jid) = pos 1

unfoldable pub user_do_presence :
    Jabber → Option Text → Option Text → Option Text → Option Text → M Bool
unfolding presence_xml
user_do_presence lib type jid_to status show = do
  s ← get
  sent ← conn_write lib (presence_xml type jid_to status show) false
  if sent
      then (do
        set_user (λ u. record u {
          sent_presences_count = u.sent_presences_count +ℤ presences_sent s.user jid_to;
        })
        pure true)
      else pure false

unfoldable pub item_query : Text → List (Text × Text) → Xml
item_query id attrs = tag (codes "iq") ((codes "type", codes "set") ∷ (codes "id", id) ∷ []) (
    child
      (tag (codes "query") ((codes "xmlns", ns_roster) ∷ [])
        (child (tag (codes "item") attrs empty) empty))
      empty)

unfoldable pub add_item_xml : Text → Text → Text → Xml
unfolding item_query
add_item_xml id jid name = item_query id (
    (codes "jid", jid)
    ∷ (codes "name", name)
    ∷ (codes "subscription", codes "none")
    ∷ (codes "ask", codes "subscribe")
    ∷ [])

unfoldable pub remove_item_xml : Text → Text → Xml
unfolding item_query
remove_item_xml id jid =
    item_query id ((codes "jid", jid) ∷ (codes "subscription", codes "remove") ∷ [])

unfoldable pub user_do_adddel_roster_item : Jabber → ℕ → Text → Text → Bool → M Bool
unfolding add_item_xml remove_item_xml new_id
user_do_adddel_roster_item lib now jid name del = do
  id ← new_id
  user_store_xml_info id
      (if del then some del_roster_item_response else some add_roster_item_response) now
  conn_write lib (if del then remove_item_xml id jid else add_item_xml id jid name) false

-- The identifier is drawn, and not used.
unfoldable pub user_do_send_message : Text → Option Text → M Bool
unfolding new_id
user_do_send_message jid none = pure true
user_do_send_message jid (some msg) = do
  new_id >>= λ _. skip
  conn_write_str
      (codes "<message to=\"" ++ jid ++ (codes "\"><body>" ++ msg ++ codes "</body></message>"))
      false

unfoldable pub user_do_send_raw_bytes : Option Text → M Bool
user_do_send_raw_bytes none = conn_write_null false
user_do_send_raw_bytes (some bytes) = conn_write_str bytes false
