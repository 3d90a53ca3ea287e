-- ===== src/Sound/Handlers.antt =====
-- What a node of the server makes a user do keeps the account: handle_user_node and the handlers of
-- jab_simul/jab_simul-user.c.
use jab_simul.Shared.{
  ℕ, suc, refl, Option, none, some, Bool, true, false, not, ◌&&◌, Text, codes, inl, inr,
  Option-cases, if◌then◌else◌,
}
use jab_simul.Jabber.{Jabber, XmlNode}
use jab_simul.State.{
  Pending, ResponseHandler, login_response, roster_response, numextcontacts_response,
  add_roster_item_response, del_roster_item_response, extcontacts_response,
}
use jab_simul.State.Monad.{set_counts, skip}
use jab_simul.Handlers.{
  login_failed, login_succeeded, is_error, handle_login_response, handle_roster_response,
  handle_roster_set_response, handle_numextcontacts_response, handle_add_roster_item_response,
  handle_del_roster_item_response, set_available, handle_presence, forward_back, note_arrival,
  time_message, handle_message, run_callback, node_id, answer_found, handle_answer, handle_iq,
  handle_unasked, handle_user_node,
}
use jab_simul.Responses.{node_get}
use jab_simul.Roster.Load.{Xhash}
use jab_simul.Sound.Rules.{
  returned, faulted, Keeps, after_step, after_ignored, quiet, Safe-if, Safe-choose, conn_changed,
}
use jab_simul.Sound.Writes.{conn_write-Keeps, user_finish_conn-Keeps, exit_if_flagged-Keeps}
use jab_simul.Sound.Requests.{fetch_properities-Keeps, fetch_extcontacts-Keeps, presence-Keeps}
use jab_simul.Sound.Rosters.{roster_hash_from_xml-Keeps, priv_roster_from_xml-Keeps}

login_failed-Keeps : Keeps login_failed
unfolding login_failed
login_failed-Keeps others sooner queue s w =
    after_step user_finish_conn-Keeps (quiet w refl refl refl refl)
      λ _ t v. exit_if_flagged-Keeps 0 others sooner queue t v

login_succeeded-Keeps : (now : ℕ) → Keeps (login_succeeded now)
unfolding login_succeeded
login_succeeded-Keeps now others sooner queue s w =
    after_step (exit_if_flagged-Keeps 1) (quiet w refl refl refl refl)
      λ _ t v. fetch_properities-Keeps now others sooner queue t v

module _ (lib : Jabber) (xh : Xhash) where
  handle_login_response-Keeps : (x : XmlNode) (now : ℕ) → Keeps (handle_login_response lib xh x now)
  unfolding handle_login_response
  handle_login_response-Keeps x now others sooner queue s w =
      Safe-if (is_error lib xh x) _ _ (login_failed-Keeps others sooner queue s w)
        (login_succeeded-Keeps now others sooner queue s w)

  handle_roster_response-Keeps : (x : XmlNode) → Keeps (handle_roster_response lib xh x)
  unfolding handle_roster_response
  handle_roster_response-Keeps x others sooner queue s w =
      Safe-if (is_error lib xh x) _ _ (returned w) (
        after_step (roster_hash_from_xml-Keeps lib xh _ true) w λ _ t v.
          after_ignored (presence-Keeps lib none none t.user.status t.user.show) v
            λ _ r u. returned (quiet u refl refl refl refl))

  handle_roster_set_response-Keeps : (x : XmlNode) → Keeps (handle_roster_set_response lib xh x)
  unfolding handle_roster_set_response
  handle_roster_set_response-Keeps x others sooner queue s w =
      Safe-if (is_error lib xh x) _ _ (returned w)
        (roster_hash_from_xml-Keeps lib xh _ false others sooner queue s w)

  handle_numextcontacts_response-Keeps :
      (x : XmlNode) (now : ℕ) → Keeps (handle_numextcontacts_response lib xh x now)
  unfolding handle_numextcontacts_response
  handle_numextcontacts_response-Keeps x now others sooner queue s w =
      Safe-if (is_error lib xh x) _ _ (returned w)
        (after_step (fetch_extcontacts-Keeps now) (quiet w refl refl refl refl) λ _ t v. returned v)

  set_available-Keeps : (from : Option Text) (b : Bool) → Keeps (set_available lib xh from b)
  unfolding set_available
  set_available-Keeps none b others sooner queue s w = returned w
  set_available-Keeps (some jid) b others sooner queue s w =
      Safe-choose s.user.roster_hash _ _ (returned w) λ h.
        Safe-choose (xh.xhash_get h jid) _ _ (returned w)
          λ item. returned (quiet w refl refl refl refl)

  handle_presence-Keeps : (x : XmlNode) → Keeps (handle_presence lib xh x)
  unfolding handle_presence
  handle_presence-Keeps x others sooner queue s w =
      Safe-if (lib.j_same (lib.get_attrib (some x) (codes "type")) (some (codes "subscribe"))) _ _
        (after_ignored (presence-Keeps lib _ _ none none) (quiet w refl refl refl refl)
          λ _ t v. returned (quiet v refl refl refl refl))
        (set_available-Keeps _ _ others sooner queue _ (quiet w refl refl refl refl))

  time_message-Keeps :
      (x : XmlNode) (is_offline forwarded : Bool) (body : Option Text) (now : ℕ)
      → Keeps (time_message lib xh x is_offline forwarded body now)
  unfolding time_message forward_back note_arrival
  time_message-Keeps x is_offline forwarded none now others sooner queue s w = returned w
  time_message-Keeps x is_offline forwarded (some body) now others sooner queue s w =
      Safe-choose (lib.debug_stamp body) _ _ (returned w) λ stamp.
        Safe-if is_offline _ _ (returned w) (
          Safe-if forwarded _ _ (returned (quiet w refl refl refl refl)) (
            after_ignored (conn_write-Keeps lib _ false) w
              λ _ t v. returned (quiet v refl refl refl refl)))

  note_offline :
      (b : Bool)
      → Keeps (
          if b
          then set_counts
              (λ c. record c { received_messages_offline = suc c.received_messages_offline })
          else skip)
  note_offline true others sooner queue s w = returned (quiet w refl refl refl refl)
  note_offline false others sooner queue s w = returned w

  handle_message-Keeps : (x : XmlNode) (now : ℕ) → Keeps (handle_message lib xh x now)
  unfolding handle_message
  handle_message-Keeps x now others sooner queue s w =
      let is_offline =
        lib.j_same (lib.get_tag_data (some x) (codes "x")) (some (codes "Offline Storage")) in
      let is_admin =
        lib.j_same (lib.get_attrib (some x) (codes "from")) (some (codes "Administrator")) in
      after_step (note_offline (is_offline && not is_admin)) (quiet w refl refl refl refl) λ _ t v.
        Safe-if is_admin _ _ (returned (quiet v refl refl refl refl))
          (time_message-Keeps x _ _ _ now others sooner queue t v)

  run_callback-Keeps :
      (f : ResponseHandler) (x : XmlNode) (querytime now : ℕ)
      → Keeps (run_callback lib xh f x querytime now)
  unfolding run_callback handle_add_roster_item_response handle_del_roster_item_response
  run_callback-Keeps login_response x querytime now others sooner queue s w =
      handle_login_response-Keeps x now others sooner queue s w
  run_callback-Keeps roster_response x querytime now others sooner queue s w =
      handle_roster_response-Keeps x others sooner queue s w
  run_callback-Keeps numextcontacts_response x querytime now others sooner queue s w =
      handle_numextcontacts_response-Keeps x now others sooner queue s w
  run_callback-Keeps add_roster_item_response x querytime now others sooner queue s w =
      Safe-if (is_error lib xh x) _ _ (returned w) (returned (quiet w refl refl refl refl))
  run_callback-Keeps del_roster_item_response x querytime now others sooner queue s w =
      Safe-if (is_error lib xh x) _ _ (returned w) (returned (quiet w refl refl refl refl))
  run_callback-Keeps extcontacts_response x querytime now others sooner queue s w =
      priv_roster_from_xml-Keeps lib xh x others sooner queue s w

  answer_found-Keeps :
      (o : Option Pending) (x : XmlNode) (now : ℕ) → Keeps (answer_found lib xh o x now)
  unfolding answer_found
  answer_found-Keeps none x now others sooner queue s w = returned w
  answer_found-Keeps (some p) x now others sooner queue s w =
      Safe-choose p.callback _ _ (returned w)
        λ f. run_callback-Keeps f x p.send_time now others sooner queue s w

  handle_answer-Keeps : (id : Text) (x : XmlNode) (now : ℕ) → Keeps (handle_answer lib xh id x now)
  unfolding handle_answer
  handle_answer-Keeps id x now others sooner queue s w = Safe-choose s.user.conn _ _ faulted λ c.
      let r = node_get lib id c.responses in
      answer_found-Keeps r.0 x now others sooner queue _
        (conn_changed (λ d. record d { responses = r.1 }) (λ d. (refl, refl)) w)

  handle_iq-Keeps : (x : XmlNode) → Keeps (handle_iq lib xh x)
  unfolding handle_iq
  handle_iq-Keeps x others sooner queue s w =
      elim (Option-cases (lib.get_tag (some x) (codes "query"))) [
        | inl e ↦ rw (e, handle_iq) (returned w)
        | inr (query, e) ↦
            rw (e, handle_iq)
              (Safe-if
                (lib.j_same (lib.get_attrib (some x) (codes "type")) (some (codes "set"))
                  && lib.j_same (lib.get_attrib (some query) (codes "xmlns"))
                      (some (codes "jabber:iq:roster")))
                _ _ (handle_roster_set_response-Keeps x others sooner queue s w) (returned w))
      ]

  handle_unasked-Keeps : (x : XmlNode) (now : ℕ) → Keeps (handle_unasked lib xh x now)
  unfolding handle_unasked
  handle_unasked-Keeps x now others sooner queue s w =
      let named : Text → Bool = λ name. lib.j_same (lib.get_name (some x)) (some name) in
      Safe-if (named (codes "presence")) _ _ (handle_presence-Keeps x others sooner queue s w) (
        Safe-if (named (codes "message")) _ _ (handle_message-Keeps x now others sooner queue s w) (
          Safe-if (named (codes "iq")) _ _ (handle_iq-Keeps x others sooner queue s w)
            (returned w)))

  -- Whatever node comes, and whether it is an answer, a presence, a message or a roster push:
  -- handle_user_node keeps the account of the packets, the flag POLLOUT and the times of the events,
  -- if it comes back.
  pub handle_user_node-Keeps : (x : XmlNode) (now : ℕ) → Keeps (handle_user_node lib xh x now)
  unfolding handle_user_node
  handle_user_node-Keeps x now others sooner queue s w = elim (Option-cases (node_id lib xh x)) [
    | inl e ↦ rw (e, handle_user_node) (handle_unasked-Keeps x now others sooner queue s w)
    | inr (id, e) ↦ rw (e, handle_user_node) (handle_answer-Keeps id x now others sooner queue s w)
  ]
