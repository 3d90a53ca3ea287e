-- ===== src/Handlers.antt =====
-- What a user does with a node of the server: the handlers and handle_user_node of
-- jab_simul/jab_simul-user.c. Debug output is left out.
pub mod Login
pub mod Messages
use jab_simul.Shared.{
  ℕ, suc, Option, none, some, Bool, true, false, not, ◌&&◌, Text, codes, if◌then◌else◌,
}
use jab_simul.Shared.Int.{ℤ, pos, ◌+ℤ◌, ◌-ℤ◌}
use jab_simul.Jabber.{Jabber, XmlNode}
use jab_simul.State.{
  Pending, ResponseHandler, login_response, roster_response, numextcontacts_response,
  add_roster_item_response, del_roster_item_response, extcontacts_response, logged_in,
}
use jab_simul.State.Monad.{
  M, ◌>>=◌, ◌>>◌, skip, get, set_user, set_globals, set_counts, set_conn, choose, with_conn,
  with_hash, fault,
}
use jab_simul.Stats.{mesg_stat, radd_stat, rdel_stat, add_stat}
use jab_simul.Conn.{conn_write, exit_if_flagged, user_finish_conn}
use jab_simul.Responses.{node_get}
use jab_simul.Roster.Load.{Xhash, roster_hash_from_xml}
use jab_simul.Roster.Priv.{priv_roster_from_xml}
use jab_simul.Stanzas.{user_do_fetch_properities, user_do_fetch_extcontacts, user_do_presence}

-- ut(later) - ut(earlier).
abbrev pub elapsed : ℕ → ℕ → ℤ
elapsed later earlier = pos later -ℤ pos earlier

abbrev pub note_stat : ℕ → ℤ → M (Unit {0})
note_stat num time = set_globals (λ g. record g { stats = add_stat g.stats num time })

unfoldable pub login_failed : M (Unit {0})
login_failed = do
  set_user (λ u. record u { expect_kill = true })
  user_finish_conn
  exit_if_flagged 0

unfoldable pub login_succeeded : ℕ → M (Unit {0})
login_succeeded now = do
  set_user (λ u. record u { state = logged_in })
  exit_if_flagged 1
  user_do_fetch_properities now

module _ (lib : Jabber) (xh : Xhash) where
  unfoldable pub is_error : XmlNode → Bool
  is_error x = lib.j_same (lib.get_attrib (some x) (codes "type")) (some (codes "error"))

  unfoldable pub handle_login_response : XmlNode → ℕ → M (Unit {0})
  unfolding is_error login_failed login_succeeded
  handle_login_response x now = if is_error x then login_failed else login_succeeded now

  unfoldable pub handle_roster_response : XmlNode → M (Unit {0})
  unfolding is_error
  handle_roster_response x = if is_error x then skip else (do
    roster_hash_from_xml lib xh (lib.get_tag (some x) (codes "query")) true
    s ← get
    user_do_presence lib none none s.user.status s.user.show >>= λ _. skip
    set_counts (λ c. record c { presences_after_roster = suc c.presences_after_roster }))

  unfoldable pub handle_roster_set_response : XmlNode → M (Unit {0})
  unfolding is_error
  handle_roster_set_response x =
      if is_error x
      then skip
      else roster_hash_from_xml lib xh (lib.get_tag (some x) (codes "query")) false

  unfoldable pub handle_numextcontacts_response : XmlNode → ℕ → M (Unit {0})
  unfolding is_error
  handle_numextcontacts_response x now = if is_error x then skip else (do
    let node =
        lib.get_tag (lib.get_tag (lib.get_tag (some x) (codes "query")) (codes "wpmsg"))
          (codes "data")
    let version : ℤ = elim node [
      | none ↦ pos 0
      | some d ↦ lib.j_atoi (lib.get_data (some d)) (pos 0)
    ]
    set_user (λ u. record u { priv_rost = record u.priv_rost { numextcontacts = version } })
    user_do_fetch_extcontacts now >>= λ _. skip)

  unfoldable pub handle_add_roster_item_response : XmlNode → ℕ → ℕ → M (Unit {0})
  unfolding is_error
  handle_add_roster_item_response x querytime now =
      if is_error x then skip else note_stat radd_stat (elapsed now querytime)

  unfoldable pub handle_del_roster_item_response : XmlNode → ℕ → ℕ → M (Unit {0})
  unfolding is_error
  handle_del_roster_item_response x querytime now =
      if is_error x then skip else note_stat rdel_stat (elapsed now querytime)

  -- The entry of the sender, if the roster has it, gets its new availability. It is changed in
  -- place, which is a put under its own key.
  unfoldable pub set_available : Option Text → Bool → M (Unit {0})
  set_available none now_available = skip
  set_available (some jid) now_available = with_hash skip λ h.
      choose (xh.xhash_get h jid) skip λ item. set_user (λ u. record u {
        roster_hash = some (xh.xhash_put h jid (record item { available = now_available }));
      })

  unfoldable pub handle_presence : XmlNode → M (Unit {0})
  unfolding set_available
  handle_presence x = do
    let from = lib.get_attrib (some x) (codes "from")
    let type = lib.get_attrib (some x) (codes "type")
    set_counts (λ c. record c { received_presences = suc c.received_presences })
    set_user (λ u. record u { received_presences_count = suc u.received_presences_count })
    if lib.j_same type (some (codes "subscribe"))
        then (do
          user_do_presence lib (some (codes "subscribed")) from none none >>= λ _. skip
          set_counts (λ c. record c { presences_rostadd = suc c.presences_rostadd }))
        else set_available from (
            not (
              lib.j_same (lib.get_tag_data (some x) (codes "status"))
                (some (codes "Disconnected"))))

  unfoldable pub forward_back : XmlNode → M (Unit {0})
  forward_back x = do
    conn_write lib (lib.reply x) false >>= λ _. skip
    set_counts (λ c. record c { forwarded_messages = suc c.forwarded_messages })

  unfoldable pub note_arrival : ℤ → ℕ → M (Unit {0})
  note_arrival stamp now = do
    let time = pos now -ℤ stamp
    set_user (λ u. record u {
      received_msgs_count = suc u.received_msgs_count;
      received_msgs_time_sum = u.received_msgs_time_sum +ℤ time;
    })
    note_stat mesg_stat time

  -- A message with debug info that was not stored: back to its sender, or home again.
  unfoldable pub time_message : XmlNode → Bool → Bool → Option Text → ℕ → M (Unit {0})
  unfolding forward_back note_arrival
  time_message x is_offline forwarded none now = skip
  time_message x is_offline forwarded (some body) now = choose (lib.debug_stamp body) skip λ stamp.
      if is_offline then skip else if forwarded then note_arrival stamp now else forward_back x

  unfoldable pub handle_message : XmlNode → ℕ → M (Unit {0})
  unfolding time_message
  handle_message x now = do
    set_counts (λ c. record c { received_messages = suc c.received_messages })
    let from = lib.get_attrib (some x) (codes "from")
    let is_offline =
        lib.j_same (lib.get_tag_data (some x) (codes "x")) (some (codes "Offline Storage"))
    let is_admin = lib.j_same from (some (codes "Administrator"))
    let forwarded = lib.j_same (lib.get_attrib (some x) (codes "forwarded")) (some (codes "yes"))
    if is_offline && not is_admin
        then set_counts
            (λ c. record c { received_messages_offline = suc c.received_messages_offline })
        else skip
    if is_admin
        then set_counts (λ c. record c { received_messages_admin = suc c.received_messages_admin })
        else time_message x is_offline forwarded (lib.get_tag_data (some x) (codes "body")) now

  -- The call through `node->callback`.
  unfoldable pub run_callback : ResponseHandler → XmlNode → ℕ → ℕ → M (Unit {0})
  run_callback login_response x querytime now = handle_login_response x now
  run_callback roster_response x querytime now = handle_roster_response x
  run_callback numextcontacts_response x querytime now = handle_numextcontacts_response x now
  run_callback add_roster_item_response x querytime now =
      handle_add_roster_item_response x querytime now
  run_callback del_roster_item_response x querytime now =
      handle_del_roster_item_response x querytime now
  run_callback extcontacts_response x querytime now = priv_roster_from_xml lib x

  -- A node without an id may be a private query, which the namespace of its wpmsg identifies.
  unfoldable pub node_id : XmlNode → Option Text
  node_id x = elim (lib.get_attrib (some x) (codes "id")) [
    | some id ↦ some id
    | none ↦ elim (lib.get_tag (some x) (codes "query")) [
      | none ↦ none
      | some query ↦
          if lib.j_same (lib.get_attrib (some query) (codes "xmlns"))
            (some (codes "jabber:iq:private"))
          then lib.get_attrib (lib.get_tag (some query) (codes "wpmsg")) (codes "xmlns")
          else none
    ]
  ]

  unfoldable pub answer_found : Option Pending → XmlNode → ℕ → M (Unit {0})
  unfolding run_callback
  answer_found none x now = skip
  answer_found (some p) x now = choose p.callback skip λ f. run_callback f x p.send_time now

  unfoldable pub handle_answer : Text → XmlNode → ℕ → M (Unit {0})
  unfolding answer_found
  handle_answer id x now = with_conn fault λ c. do
    let r = node_get lib id c.responses
    set_conn (λ d. record d { responses = r.1 })
    answer_found r.0 x now

  unfoldable pub handle_iq : XmlNode → M (Unit {0})
  handle_iq x = elim (lib.get_tag (some x) (codes "query")) [
    | none ↦ skip
    | some query ↦
        if lib.j_same (lib.get_attrib (some x) (codes "type")) (some (codes "set"))
          && lib.j_same (lib.get_attrib (some query) (codes "xmlns"))
              (some (codes "jabber:iq:roster"))
        then handle_roster_set_response x
        else skip
  ]

  unfoldable pub handle_unasked : XmlNode → ℕ → M (Unit {0})
  unfolding handle_iq
  handle_unasked x now =
      let named : Text → Bool = λ name. lib.j_same (lib.get_name (some x)) (some name) in
      if named (codes "presence")
      then handle_presence x
      else if named (codes "message")
      then handle_message x now
      else if named (codes "iq")
      then handle_iq x
      else skip

  unfoldable pub handle_user_node : XmlNode → ℕ → M (Unit {0})
  unfolding node_id handle_answer handle_unasked
  handle_user_node x now = elim (node_id x) [
    | none ↦ handle_unasked x now
    | some id ↦ handle_answer id x now
  ]
