-- ===== src/Events.antt =====
-- What a simulated user does by itself: the event handlers of jab_simul/jab_simul-repeater.c.
pub mod Picks
use jab_simul.Shared.{
  ℕ, zero, suc, ◌+◌, ◌%◌, [], ◌∷◌, ◌++◌, Option, none, some, Bool, true, false, ◌&&◌, ◌||◌, Text,
  codes, length, leb, ltb, ◌==◌, get_elem?, if◌then◌else◌,
}
use jab_simul.Shared.Int.{ℤ, pos, negsuc, ◌+ℤ◌, ◌-ℤ◌, leb_ℤ, ltb_ℤ, pos_part}
use jab_simul.Jabber.{Jabber, XmlNode}
use jab_simul.State.{
  User, Session, Event, EventHandler, change_status, send_message, send_raw_bytes, add_roster,
  del_roster, connect, kill_connection, logout,
}
use jab_simul.State.Monad.{
  M, ◌>>=◌, ◌>>◌, pure, skip, get, set_user, set_counts, draw, choose, with_conn, with_hash, fault,
}
use jab_simul.Statuses.{statuses}
use jab_simul.Ids.{fit, digits_of}
use jab_simul.Primes.{xhash_get_nth}
use jab_simul.Conn.{conn_write_str, conn_write, user_conn_kill, user_finish_conn}
use jab_simul.Connect.{SocketCalls, user_connect}
use jab_simul.Roster.Load.{Xhash}
use jab_simul.Roster.Save.{priv_roster_list2xml, priv_roster_numextcontacts2xml}
use jab_simul.Stanzas.{
  user_do_presence, user_do_adddel_roster_item, user_do_send_message, user_do_send_raw_bytes,
}

-- What the program gets from outside: the system's answers to a connection attempt, what a file
-- holds, and the names space with the user's and the server's name of each enabled entry.
pub record Outside : Type 0 where
  pub net : Session → SocketCalls
  pub read_file : Option Text → Option Text
  pub names : ℕ → Option (Text × Text)

abbrev pub max_users : ℕ
max_users = 50000

abbrev pub is_there : {A : Type 0} → Option A → Bool
is_there none = false
is_there (some a) = true

unfoldable pub after_byte : ℕ → Option Text → Option Text
after_byte c none = none
after_byte c (some t) = some (c ∷ t)

-- A jid is used as the format of snprintf, without arguments: `%%` prints `%`, and any other conversion
-- is undefined.
unfoldable pub print_format : Text → Option Text
unfolding after_byte
print_format [] = some []
print_format (c ∷ []) = if c == b'%' then none else some (c ∷ [])
print_format (c ∷ (d ∷ cs)) =
    let plain = after_byte c (print_format (d ∷ cs)) in
    let escaped = after_byte c (print_format cs) in
    if c == b'%' then (if d == b'%' then escaped else none) else plain

-- random() % n, for an `n` above 0.
abbrev pub draw_below : ℕ → M ℕ
draw_below n = draw >>= λ r. pure (r % n)

-- A name of the names space, by a number that may lie outside of it.
abbrev pub name_at : Outside → ℤ → M (Option Text)
name_at out (pos num) =
    if ltb num max_users
    then choose (out.names num) (pure none)
        (λ entry. pure (some (fit 2000 (entry.0 ++ b'@' ∷ entry.1))))
    else fault
name_at out (negsuc num) = fault

module _ (lib : Jabber) (xh : Xhash) (out : Outside) where
  unfoldable pub name_from_roster : M (Option Text)
  unfolding print_format
  name_from_roster = do
    s ← get
    num ← draw_below (pos_part s.user.roster_count)
    choose (xhash_get_nth s.user.roster_hash num) fault
        λ item. choose (print_format item.jid) fault (λ jid. pure (some (fit 2000 jid)))

  unfoldable pub name_from_range : XmlNode → M (Option Text)
  name_from_range range = do
    let from = lib.j_atoi (lib.get_tag_data (some range) (codes "from")) (pos 0)
    let to = lib.j_atoi (lib.get_tag_data (some range) (codes "to")) (pos 0)
    s ← get
    if leb_ℤ from to && is_there s.user.conn
        then (do num ← draw_below (pos_part (to -ℤ from +ℤ pos 1)); name_at out (pos num +ℤ from))
        else pure none

  unfoldable pub make_user_name : XmlNode → M (Option Text)
  unfolding name_from_roster name_from_range
  make_user_name x = do
    s ← get
    if is_there (lib.get_tag (some x) (codes "from_roster")) && ltb_ℤ (pos 0) s.user.roster_count
        then name_from_roster
        else choose (lib.get_tag (some x) (codes "range"))
            (choose (lib.get_tag_data (some x) (codes "jid")) (pure none)
              (λ id. pure (some (fit 2000 id))))
            (λ range. name_from_range range)

  unfoldable pub before_at : Text → Text
  before_at [] = []
  before_at (c ∷ cs) = if c == b'@' then [] else c ∷ before_at cs

  unfoldable pub debug_text : User → Text → ℕ → Text
  unfolding before_at
  debug_text u to now =
      codes "["
      ++ digits_of 20 now
      ++ (codes " " ++ u.name ++ (codes " " ++ before_at to ++ codes "] "))

  -- `to` of NULL is read through, and the buffer of 1000 bytes is written without a limit.
  unfoldable pub debug_prefix : Option XmlNode → Option Text → ℕ → M Text
  unfolding debug_text
  debug_prefix x to now = do
    s ← get
    if is_there (lib.get_tag x (codes "prepend_with_debug_info"))
        then choose to fault (λ t.
          let text = debug_text s.user t now in if leb 1000 (length text) then fault else pure text)
        else pure []

  unfoldable pub draw_bytes : ℕ → M Text
  draw_bytes zero = pure []
  draw_bytes (suc n) = do r ← draw_below 255; rest ← draw_bytes n; pure ((r + 1) ∷ rest)

  -- The length is read from the event itself; one place goes to the final 0.
  unfoldable pub random_bytes : Option XmlNode → Text → M (Option Text)
  unfolding draw_bytes
  random_bytes x prefix = elim (lib.j_atoi (lib.get_attrib x (codes "len")) (pos 1)) [
    | negsuc n ↦ fault
    | pos zero ↦ fault
    | pos (suc n) ↦ do bytes ← draw_bytes n; pure (some (prefix ++ bytes))
  ]

  -- Without a buffer of the caller's, as both callers call it.
  unfoldable pub make_bytes : Option XmlNode → Option Text → ℕ → M (Option Text)
  unfolding debug_prefix random_bytes
  make_bytes x to now = do
    prefix ← debug_prefix x to now
    if is_there (lib.get_tag x (codes "text"))
        then pure
            (some (prefix ++ elim (lib.get_tag_data x (codes "text")) [ none ↦ [] | some t ↦ t ]))
        else if is_there (lib.get_tag x (codes "file"))
        then choose (out.read_file (lib.get_tag_data x (codes "file"))) (pure none)
            (λ content. pure (some (prefix ++ content)))
        else if is_there (lib.get_tag x (codes "random_stream"))
        then random_bytes x prefix
        else pure none

  unfoldable pub ev_connect : Event → ℕ → M (Unit {0})
  ev_connect ev now =
      with_conn
        (do
          set_user (λ u. record u { digest_auth = is_there (lib.get_tag ev.arg (codes "digest")) })
          s ← get
          user_connect (out.net s) now >>= λ _. skip
          set_counts (λ c. record c { ev_connects = suc c.ev_connects }))
        λ c. skip

  -- The count is that of ev_connect.
  unfoldable pub ev_kill_connection : M (Unit {0})
  ev_kill_connection = with_conn skip λ c. do
    set_user (λ u. record u { expect_kill = true })
    user_conn_kill
    set_counts (λ k. record k { ev_connects = suc k.ev_connects })

  unfoldable pub add_to_roster : Text → ℕ → M (Unit {0})
  add_to_roster jid now = with_hash fault λ h.
      choose (xh.xhash_get h jid)
        (do
          asked ← user_do_adddel_roster_item lib now jid jid false
          if asked
              then (do
                set_counts (λ c. record c { ev_add_rosters = suc c.ev_add_rosters })
                s ← get
                user_do_presence lib (some (codes "subscribe")) (some jid) s.user.status s.user.show
                    >>= λ _. skip)
              else skip)
        (λ old. skip)

  unfoldable pub ev_add_roster : Event → ℕ → M (Unit {0})
  unfolding add_to_roster
  ev_add_roster ev now = with_hash skip λ h. do
    s ← get
    if leb_ℤ (lib.j_atoi (lib.get_tag_data ev.arg (codes "max_roster_count")) (pos 1000000))
          s.user.roster_count
        then skip
        else choose (lib.get_tag ev.arg (codes "user")) skip
            (λ node. do name ← make_user_name node; choose name skip (λ jid. add_to_roster jid now))

  unfoldable pub ev_del_roster : ℕ → M (Unit {0})
  ev_del_roster now = with_hash skip λ h. do
    s ← get
    if ltb_ℤ (pos 0) s.user.roster_count
        then (do
          num ← draw_below (pos_part s.user.roster_count)
          choose (xhash_get_nth (some h) num) fault (λ item. do
            asked ← user_do_adddel_roster_item lib now item.jid [] true
            if asked
                then set_counts (λ c. record c { ev_del_rosters = suc c.ev_del_rosters })
                else skip))
        else skip

  unfoldable pub ev_send_message : Event → ℕ → M (Unit {0})
  ev_send_message ev now = choose (lib.get_tag ev.arg (codes "user")) skip λ node. do
    name ← make_user_name node
    choose name skip (λ jid. do
      message ← make_bytes ev.arg (some jid) now
      sent ← user_do_send_message jid message
      if sent
          then set_counts (λ c. record c { ev_send_messages = suc c.ev_send_messages })
          else skip)

  unfoldable pub ev_send_raw_bytes : Event → ℕ → M (Unit {0})
  ev_send_raw_bytes ev now = do
    bytes ← make_bytes ev.arg none now
    user_do_send_raw_bytes bytes >>= λ _. skip
    set_user (λ u. record u { expect_kill = true })

  unfoldable pub fill_status : M (Unit {0})
  fill_status = do
    r ← draw_below 22
    choose (get_elem? statuses r) fault λ entry. set_user (λ u. record u {
      status = elim u.status [ none ↦ some entry.0 | some t ↦ some t ];
      show = elim u.show [ none ↦ some entry.1 | some t ↦ some t ];
    })

  unfoldable pub ev_change_status : Event → M (Unit {0})
  unfolding fill_status
  ev_change_status ev = do
    set_user (λ u. record u {
      status = lib.get_tag_data ev.arg (codes "status");
      show = lib.get_tag_data ev.arg (codes "show");
    })
    s ← get
    if is_there s.user.status && is_there s.user.show then skip else fill_status
    s' ← get
    sent ← user_do_presence lib none none s'.user.status s'.user.show
    if sent
        then set_counts (λ c. record c { ev_change_statuses = suc c.ev_change_statuses })
        else skip

  unfoldable pub save_lists : M (Unit {0})
  save_lists = do
    set_user (λ u. record u {
      priv_rost = record u.priv_rost { numextcontacts = u.priv_rost.numextcontacts +ℤ pos 1 };
    })
    lists ← priv_roster_list2xml
    version ← priv_roster_numextcontacts2xml
    choose lists fault (λ x. conn_write lib x true >>= λ _. skip)
    choose version fault (λ x. conn_write lib x true >>= λ _. skip)

  unfoldable pub ev_logout : M (Unit {0})
  unfolding save_lists
  ev_logout = do
    s ← get
    if s.user.priv_rost.loaded then save_lists else skip
    conn_write_str (codes "</stream:stream>") true >>= λ _. skip
    user_finish_conn

  -- The call through `event_handler`.
  unfoldable pub run_event : EventHandler → Event → ℕ → M (Unit {0})
  run_event change_status ev now = ev_change_status ev
  run_event send_message ev now = ev_send_message ev now
  run_event send_raw_bytes ev now = ev_send_raw_bytes ev now
  run_event add_roster ev now = ev_add_roster ev now
  run_event del_roster ev now = ev_del_roster now
  run_event connect ev now = ev_connect ev now
  run_event kill_connection ev now = ev_kill_connection
  run_event logout ev now = ev_logout
