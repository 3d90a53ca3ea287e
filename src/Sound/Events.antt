-- ===== src/Sound/Events.antt =====
-- What an event makes a user do keeps the account: the event handlers of
-- jab_simul/jab_simul-repeater.c, and user_connect of jab_simul/jab_simul-user.c.
use jab_simul.Shared.{
  ℕ, zero, suc, ◌%◌, ◌≡◌, refl, List, [], ◌++◌, Option, none, some, true, false, ◌&&◌, Text, codes,
  get_elem?, leb, ltb, length,
}
use jab_simul.Shared.Int.{ℤ, pos, negsuc, leb_ℤ, ltb_ℤ, pos_part, ◌+ℤ◌, ◌-ℤ◌}
use jab_simul.Jabber.{Jabber, Xml, XmlNode}
use jab_simul.State.{
  Session, Conn, Event, EventHandler, change_status, send_message, send_raw_bytes, add_roster,
  del_roster, connect, kill_connection, logout,
}
use jab_simul.State.Monad.{M, skip, choose, fault, pure, with_conn-cases, ◌>>=◌}
use jab_simul.Conn.{conn_write}
use jab_simul.Sound.Rules.{Safe-bind}
use jab_simul.Statuses.{statuses}
use jab_simul.Slots.{take_place}
use jab_simul.Primes.{xhash_get_nth}
use jab_simul.Connect.{SocketCalls, make_clientfd, open_conn, user_connect, conn_create}
use jab_simul.Events.{
  Outside, is_there, print_format, name_at, name_from_roster, name_from_range, make_user_name,
  debug_prefix, debug_text, draw_bytes, random_bytes, make_bytes, ev_connect, ev_kill_connection,
  add_to_roster, ev_add_roster, ev_del_roster, ev_send_message, ev_send_raw_bytes, fill_status,
  ev_change_status, save_lists, ev_logout, run_event,
}
use jab_simul.Roster.Load.{Xhash}
use jab_simul.State.{SockState}
use jab_simul.Sound.Rules.{
  Safe, returned, faulted, Keeps, WellKept, after_step, after_ignored, quiet, Safe-if, Safe-choose,
}
use jab_simul.Sound.Writes.{
  conn_write_str-Keeps, conn_write-Keeps, user_conn_kill-Keeps, user_finish_conn-Keeps,
  exit_if_flagged-Keeps,
}
use jab_simul.Sound.Requests.{
  presence-Keeps, adddel-Keeps, send_message-Keeps, send_raw_bytes-Keeps,
}
use jab_simul.Sound.Rosters.{priv_roster_list2xml-Keeps, priv_roster_numextcontacts2xml-Keeps}

-- A new connection has nothing to send; there was none before.
opened :
    {others : ℕ} {sooner : ℤ} {queue : List Event} {s t : Session}
    → WellKept others sooner queue s
    → s.user.conn ≡ none
    → (c : Conn) → t.user.conn ≡ some c
    → c.writer ≡ []
    → c.pollout ≡ false
    → (t.user.sooner_activation_tm ≡ s.user.sooner_activation_tm)
    → (t.user.events_queue ≡ s.user.events_queue)
    → (t.globals.packets ≡ s.globals.packets)
    → WellKept others sooner queue t
opened w absent c there no_packets off times events packets = record {
  accounted = rw (packets, there, no_packets) (rw absent at w.accounted);
  polls = rw (there, no_packets) off;
  sooner_same = rw times w.sooner_same;
  queue_same = rw events w.queue_same;
}

open_conn-Safe :
    {others : ℕ} {sooner : ℤ} {queue : List Event} (net : SocketCalls) (fd : ℕ) (sstate : SockState)
    (time : ℕ) (s : Session)
    → s.user.conn ≡ none
    → WellKept others sooner queue s
    → Safe (λ _ t. WellKept others sooner queue t) (open_conn net fd sstate time s)
unfolding open_conn conn_create
open_conn-Safe net fd sstate time s absent w =
    Safe-choose (take_place s.globals.slots s.number) _ _ faulted λ taken.
      after_ignored (conn_write_str-Keeps _ true) (opened w absent _ refl refl refl refl refl refl)
        λ _ t v. returned v

connect-Safe :
    {others : ℕ} {sooner : ℤ} {queue : List Event} (net : SocketCalls) (time : ℕ) (s : Session)
    → s.user.conn ≡ none
    → WellKept others sooner queue s
    → Safe (λ _ t. WellKept others sooner queue t) (user_connect net time s)
unfolding user_connect
connect-Safe {others} {sooner} {queue} net time s absent w =
    Safe-choose (make_clientfd net).0 _ _
      (after_step (exit_if_flagged-Keeps 0) w λ _ t v. returned v)
      λ fd. open_conn-Safe net fd _ time s absent w

module _ (lib : Jabber) (xh : Xhash) (out : Outside) where
  name_from_roster-Keeps : Keeps (name_from_roster lib xh out)
  unfolding name_from_roster
  name_from_roster-Keeps others sooner queue s w =
      Safe-choose (xhash_get_nth s.user.roster_hash _) _ _ faulted λ item.
        Safe-choose (print_format item.jid) _ _ faulted
          λ jid. returned (quiet w refl refl refl refl)

  name_at-Keeps : (num : ℤ) → Keeps (name_at out num)
  name_at-Keeps (negsuc n) others sooner queue s w = faulted
  name_at-Keeps (pos n) others sooner queue s w =
      Safe-if (ltb n 50000) _ _ (Safe-choose (out.names n) _ _ (returned w) (λ entry. returned w))
        faulted

  name_from_range-Keeps : (range : XmlNode) → Keeps (name_from_range lib xh out range)
  unfolding name_from_range
  name_from_range-Keeps range others sooner queue s w =
      let from = lib.j_atoi (lib.get_tag_data (some range) (codes "from")) (pos 0) in
      let to = lib.j_atoi (lib.get_tag_data (some range) (codes "to")) (pos 0) in
      Safe-if (leb_ℤ from to && is_there s.user.conn) _ _
        (name_at-Keeps
          (pos (s.globals.random s.globals.drawn % pos_part (to -ℤ from +ℤ pos 1)) +ℤ from) others
          sooner queue _ (quiet w refl refl refl refl))
        (returned w)

  make_user_name-Keeps : (x : XmlNode) → Keeps (make_user_name lib xh out x)
  unfolding make_user_name
  make_user_name-Keeps x others sooner queue s w =
      Safe-if
        (is_there (lib.get_tag (some x) (codes "from_roster")) && ltb_ℤ (pos 0) s.user.roster_count)
        _ _ (name_from_roster-Keeps others sooner queue s w)
        (Safe-choose (lib.get_tag (some x) (codes "range")) _ _
          (Safe-choose (lib.get_tag_data (some x) (codes "jid")) _ _ (returned w)
            (λ id. returned w))
          (λ range. name_from_range-Keeps range others sooner queue s w))

  debug_prefix-Keeps :
      (x : Option XmlNode) (to : Option Text) (now : ℕ) → Keeps (debug_prefix lib xh out x to now)
  unfolding debug_prefix
  debug_prefix-Keeps x to now others sooner queue s w =
      Safe-if (is_there (lib.get_tag x (codes "prepend_with_debug_info"))) _ _
        (Safe-choose to _ _ faulted (λ t.
          Safe-if (leb 1000 (length (debug_text lib xh out s.user t now))) _ _ faulted
            (returned w)))
        (returned w)

  draw_bytes-Keeps : (n : ℕ) → Keeps (draw_bytes lib xh out n)
  unfolding draw_bytes
  draw_bytes-Keeps zero others sooner queue s w = returned w
  draw_bytes-Keeps (suc n) others sooner queue s w =
      after_step (draw_bytes-Keeps n) (quiet w refl refl refl refl) λ _ t v. returned v

  random_bytes-Keeps :
      (x : Option XmlNode) (prefix : Text) → Keeps (random_bytes lib xh out x prefix)
  unfolding random_bytes
  random_bytes-Keeps x prefix others sooner queue s w =
      go (lib.j_atoi (lib.get_attrib x (codes "len")) (pos 1))
    where
      go :
          (n : ℤ)
          → Safe
              (λ _ t. WellKept others sooner queue t)
              ((elim n as (λ _. M (Option Text)) [
                | negsuc n ↦ fault
                | pos zero ↦ fault
                | pos (suc n) ↦ do bytes ← draw_bytes lib xh out n; pure (some (prefix ++ bytes))
              ])
                s)
      go (negsuc n) = faulted
      go (pos zero) = faulted
      go (pos (suc n)) = after_step (draw_bytes-Keeps n) w λ _ t v. returned v

  make_bytes-Keeps :
      (x : Option XmlNode) (to : Option Text) (now : ℕ) → Keeps (make_bytes lib xh out x to now)
  unfolding make_bytes
  make_bytes-Keeps x to now others sooner queue s w =
      after_step (debug_prefix-Keeps x to now) w λ prefix t v.
        Safe-if (is_there (lib.get_tag x (codes "text"))) _ _ (returned v) (
          Safe-if (is_there (lib.get_tag x (codes "file"))) _ _
            (Safe-choose (out.read_file (lib.get_tag_data x (codes "file"))) _ _ (returned v)
              (λ content. returned v))
            (Safe-if (is_there (lib.get_tag x (codes "random_stream"))) _ _
              (random_bytes-Keeps x prefix others sooner queue t v) (returned v)))

  ev_connect-Keeps : (ev : Event) (now : ℕ) → Keeps (ev_connect lib xh out ev now)
  unfolding ev_connect
  ev_connect-Keeps ev now others sooner queue s w =
      with_conn-cases (Safe (λ _ t. WellKept others sooner queue t)) _ _ s
        (λ absent.
          Safe-bind (λ _ t. WellKept others sooner queue t) _ _ _
            (Safe-bind (λ _ t. WellKept others sooner queue t) _ _ _
              (connect-Safe _ now _ absent (quiet w refl refl refl refl)) (λ _ t v. returned v))
            (λ _ t v. returned (quiet v refl refl refl refl)))
        λ c e. returned w

  ev_kill_connection-Keeps : Keeps (ev_kill_connection lib xh out)
  unfolding ev_kill_connection
  ev_kill_connection-Keeps others sooner queue s w = Safe-choose s.user.conn _ _ (returned w) λ c.
      after_step user_conn_kill-Keeps (quiet w refl refl refl refl)
        λ _ t v. returned (quiet v refl refl refl refl)

  add_to_roster-Keeps : (jid : Text) (now : ℕ) → Keeps (add_to_roster lib xh out jid now)
  unfolding add_to_roster
  add_to_roster-Keeps jid now others sooner queue s w =
      Safe-choose s.user.roster_hash _ _ faulted λ h.
        Safe-choose (xh.xhash_get h jid) _ _
          (after_step (adddel-Keeps lib now jid jid false) w λ asked t v.
            Safe-if asked _ _
              (after_step (presence-Keeps lib _ _ t.user.status t.user.show)
                (quiet v refl refl refl refl) λ _ r u. returned u)
              (returned v))
          (λ old. returned w)

  ev_add_roster-Keeps : (ev : Event) (now : ℕ) → Keeps (ev_add_roster lib xh out ev now)
  unfolding ev_add_roster
  ev_add_roster-Keeps ev now others sooner queue s w =
      Safe-choose s.user.roster_hash _ _ (returned w) λ h.
        Safe-if
          (leb_ℤ (lib.j_atoi (lib.get_tag_data ev.arg (codes "max_roster_count")) (pos 1000000))
            s.user.roster_count)
          _ _ (returned w)
          (Safe-choose (lib.get_tag ev.arg (codes "user")) _ _ (returned w) λ node.
            after_step (make_user_name-Keeps node) w λ name t v.
              Safe-choose name _ _ (returned v)
                (λ jid. add_to_roster-Keeps jid now others sooner queue t v))

  ev_del_roster-Keeps : (now : ℕ) → Keeps (ev_del_roster lib xh out now)
  unfolding ev_del_roster
  ev_del_roster-Keeps now others sooner queue s w =
      Safe-choose s.user.roster_hash _ _ (returned w) λ h.
        Safe-if (ltb_ℤ (pos 0) s.user.roster_count) _ _
          (Safe-choose
            (xhash_get_nth (some h)
              (s.globals.random s.globals.drawn % pos_part s.user.roster_count))
            _ _ faulted
            λ item.
              after_step (adddel-Keeps lib now item.jid [] true) (quiet w refl refl refl refl)
                λ asked t v.
                  Safe-if asked _ _ (returned (quiet v refl refl refl refl)) (returned v))
          (returned w)

  ev_send_message-Keeps : (ev : Event) (now : ℕ) → Keeps (ev_send_message lib xh out ev now)
  unfolding ev_send_message
  ev_send_message-Keeps ev now others sooner queue s w =
      Safe-choose (lib.get_tag ev.arg (codes "user")) _ _ (returned w) λ node.
        after_step (make_user_name-Keeps node) w λ name t v.
          Safe-choose name _ _ (returned v) λ jid.
            after_step (make_bytes-Keeps ev.arg (some jid) now) v λ message r u.
              after_step (send_message-Keeps jid message) u
                λ sent q z. Safe-if sent _ _ (returned (quiet z refl refl refl refl)) (returned z)

  ev_send_raw_bytes-Keeps : (ev : Event) (now : ℕ) → Keeps (ev_send_raw_bytes lib xh out ev now)
  unfolding ev_send_raw_bytes
  ev_send_raw_bytes-Keeps ev now others sooner queue s w =
      after_step (make_bytes-Keeps ev.arg none now) w λ bytes t v.
        Safe-bind (λ _ r. WellKept others sooner queue r) _ _ _
          (after_step (send_raw_bytes-Keeps bytes) v λ _ r u. returned u)
          λ _ r u. returned (quiet u refl refl refl refl)

  fill_status-Keeps : Keeps (fill_status lib xh out)
  unfolding fill_status
  fill_status-Keeps others sooner queue s w =
      Safe-choose (get_elem? statuses (s.globals.random s.globals.drawn % 22)) _ _ faulted
        λ entry. returned (quiet w refl refl refl refl)

  ev_change_status-Keeps : (ev : Event) → Keeps (ev_change_status lib xh out ev)
  unfolding ev_change_status
  ev_change_status-Keeps ev others sooner queue s w =
      let given : Session = record s {
        user = record s.user {
          status = lib.get_tag_data ev.arg (codes "status");
          show = lib.get_tag_data ev.arg (codes "show");
        };
      } in
      let w' : WellKept others sooner queue given = quiet w refl refl refl refl in
      Safe-bind (λ _ r. WellKept others sooner queue r) _ _ _
        (Safe-if
          (is_there (lib.get_tag_data ev.arg (codes "status"))
            && is_there (lib.get_tag_data ev.arg (codes "show")))
          _ _ (returned w') (fill_status-Keeps others sooner queue given w'))
        λ _ t v.
          after_step (presence-Keeps lib none none t.user.status t.user.show) v
            λ sent r u. Safe-if sent _ _ (returned (quiet u refl refl refl refl)) (returned u)

  save_lists-Keeps : Keeps (save_lists lib xh out)
  unfolding save_lists
  save_lists-Keeps others sooner queue s w =
      after_step priv_roster_list2xml-Keeps (quiet w refl refl refl refl) λ lists s1 w1.
        after_step priv_roster_numextcontacts2xml-Keeps w1 λ version s2 w2.
          Safe-bind (λ _ r. WellKept others sooner queue r) _ _ _
            (saved lists others sooner queue s2 w2)
            λ _ s3 w3. saved version others sooner queue s3 w3
    where
      saved : (o : Option Xml) → Keeps (choose o fault (λ x. conn_write lib x true >>= λ _. skip))
      saved o others sooner queue s w =
          Safe-choose o _ _ faulted
            λ x. after_step (conn_write-Keeps lib x true) w λ _ t v. returned v

  ev_logout-Keeps : Keeps (ev_logout lib xh out)
  unfolding ev_logout
  ev_logout-Keeps others sooner queue s w =
      Safe-bind (λ _ r. WellKept others sooner queue r) _ _ _
        (Safe-if s.user.priv_rost.loaded _ _ (save_lists-Keeps others sooner queue s w)
          (returned w))
        λ _ t v.
          after_ignored (conn_write_str-Keeps (codes "</stream:stream>") true) v
            λ _ r u. user_finish_conn-Keeps others sooner queue r u

  -- Whatever the event does, it keeps the account of the packets, the flag POLLOUT and the times of
  -- all events, if it comes back.
  pub run_event-Keeps :
      (f : EventHandler) (ev : Event) (now : ℕ) → Keeps (run_event lib xh out f ev now)
  unfolding run_event
  run_event-Keeps change_status ev now others sooner queue s w =
      ev_change_status-Keeps ev others sooner queue s w
  run_event-Keeps send_message ev now others sooner queue s w =
      ev_send_message-Keeps ev now others sooner queue s w
  run_event-Keeps send_raw_bytes ev now others sooner queue s w =
      ev_send_raw_bytes-Keeps ev now others sooner queue s w
  run_event-Keeps add_roster ev now others sooner queue s w =
      ev_add_roster-Keeps ev now others sooner queue s w
  run_event-Keeps del_roster ev now others sooner queue s w =
      ev_del_roster-Keeps now others sooner queue s w
  run_event-Keeps connect ev now others sooner queue s w =
      ev_connect-Keeps ev now others sooner queue s w
  run_event-Keeps kill_connection ev now others sooner queue s w =
      ev_kill_connection-Keeps others sooner queue s w
  run_event-Keeps logout ev now others sooner queue s w = ev_logout-Keeps others sooner queue s w
