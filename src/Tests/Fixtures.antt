-- ===== src/Tests/Fixtures.antt =====
-- A small library, hash table, user and session to evaluate the definitions on.
use jab_simul.Shared.{
  ℕ, suc, ◌≡◌, refl, sym, ◌≢◌, inl, inr, List, [], ◌∷◌, ◌++◌, Option, none, some, Bool, true, false,
  Text, codes, arith, text_eq, text_eq_iff, Bool-cases, if◌then◌else◌, ◌==◌, append-nil, ap,
  Option-cases,
}
use jab_simul.Shared.Int.{pos, negsuc}
use jab_simul.Jabber.{Jabber, Compares, tag, empty, XmlNode}
use jab_simul.State.{User, Conn, Session, Counts, RosterItem, Xht, unknown, connected, logged_in}
use jab_simul.Slots.{init_slots}
use jab_simul.Stats.{StatTable}
use jab_simul.Roster.Load.{Xhash}
use jab_simul.State.{Event, kill_connection, can_login}
use jab_simul.State.Monad.{Outcome, returns, exits, faults}
use jab_simul.Connect.{SocketCalls, done}
use jab_simul.Events.{Outside}
use jab_simul.Karma.{Karma}
use jab_simul.Conn.{SockResult, wrote}
use jab_simul.Roster.Load.Count.{XhashLaws}

abbrev pub same_text : Option Text → Option Text → Bool
same_text (some s) (some t) = text_eq s t
same_text _ _ = false

-- Node 1 is a query with the items 2 and 3; node 2 names anna and node 3 bob.
abbrev pub attrib_of : Option XmlNode → Text → Option Text
attrib_of none name = none
attrib_of (some n) name =
    if text_eq name (codes "jid")
    then (if n == 2 then some (codes "anna@a") else if n == 3 then some (codes "bob@a") else none)
    else none

abbrev pub children_of : Option XmlNode → List XmlNode
children_of none = []
children_of (some n) = if n == 1 then 2 ∷ 3 ∷ [] else []

abbrev pub lib : Jabber
lib = record {
  j_same = same_text;
  j_same_nocase = same_text;
  j_atoi = λ t d. d;
  get_attrib = attrib_of;
  get_tag = λ x name. none;
  get_tag_data = λ x name. none;
  get_data = λ x. none;
  get_name = λ x. some (codes "item");
  children = children_of;
  is_tag = λ x. true;
  render = λ x. codes "<x/>";
  shahash = λ t. t;
  reply = λ x. tag (codes "message") [] empty;
  debug_stamp = λ t. none;
}

same_null : (t : Option Text) → same_text none t ≡ false
same_null none = refl
same_null (some t) = refl

null_same : (t : Option Text) → same_text t none ≡ false
null_same none = refl
null_same (some t) = refl

pub lib-Compares : Compares lib
lib-Compares = record { same_iff = text_eq_iff; same_null = same_null; null_same = null_same }

-- A table of one bucket, which is searched from its front.
abbrev pub Entries : Type 0
Entries = List (Option (Text × RosterItem))

abbrev pub find : Entries → Text → Option RosterItem
find [] k = none
find (none ∷ es) k = find es k
find (some (j, v) ∷ es) k = if text_eq j k then some v else find es k

abbrev pub drop_key : Entries → Text → Entries
drop_key [] k = []
drop_key (none ∷ es) k = none ∷ drop_key es k
drop_key (some (j, v) ∷ es) k =
    let rest = drop_key es k in if text_eq j k then rest else some (j, v) ∷ rest

-- The keys that are different from each other.
abbrev pub count : Entries → ℕ
count [] = 0
count (none ∷ es) = count es
count (some (j, v) ∷ es) =
    let rest = count es in elim (find es j) [ none ↦ suc rest | some w ↦ rest ]

abbrev pub flat : List Entries → Entries
flat [] = []
flat (es ∷ ess) = es ++ flat ess

abbrev pub size : Xht → ℕ
size h = count (flat h.zen)

abbrev pub one_bucket : Xht → Entries → Xht
one_bucket h es = record h { zen = es ∷ [] }

abbrev pub xh : Xhash
xh = record {
  xhash_new = λ n. record { prime = n; zen = [] };
  xhash_get = λ h k. find (flat h.zen) k;
  xhash_put = λ h k v. one_bucket h (some (k, v) ∷ flat h.zen);
  xhash_zap = λ h k. one_bucket h (drop_key (flat h.zen) k);
}

find-drop_key : (es : Entries) (k : Text) → find (drop_key es k) k ≡ none
find-drop_key [] k = refl
find-drop_key (none ∷ es) k = find-drop_key es k
find-drop_key (some (j, v) ∷ es) k = elim (Bool-cases (text_eq j k)) [
  | inl same ↦ rw same (find-drop_key es k)
  | inr other ↦ rw (other, other) (find-drop_key es k)
]

find-drop_key_other : (es : Entries) (j k : Text) → k ≢ j → find (drop_key es k) j ≡ find es j
find-drop_key_other [] j k n = refl
find-drop_key_other (none ∷ es) j k n = find-drop_key_other es j k n
find-drop_key_other (some (i, v) ∷ es) j k n = elim (Bool-cases (text_eq i k)) [
  | inl same ↦
      ground
        (arith, find-drop_key_other es j k n, (text_eq_iff i k).0 same, (text_eq_iff i j).0, same)
  | inr other ↦ rw other (ground (arith, find-drop_key_other es j k n))
]

differs : (j k : Text) → text_eq j k ≡ false → k ≢ j
differs j k other e = cc ((text_eq_iff j k).1 (sym e), other)

drop_key-absent : (es : Entries) (k : Text) → find es k ≡ none → count (drop_key es k) ≡ count es
drop_key-absent [] k h = refl
drop_key-absent (none ∷ es) k h = drop_key-absent es k h
drop_key-absent (some (j, v) ∷ es) k h = elim (Bool-cases (text_eq j k)) [
  | inl same ↦ cc (h, same)
  | inr other ↦ rw other (
      ground (
        arith,
        drop_key-absent es k (rw other at h),
        find-drop_key_other es j k (differs j k other),
      ))
]

count-drop_key :
    (es : Entries) (k : Text) (v : RosterItem)
    → find es k ≡ some v
    → count es ≡ suc (count (drop_key es k))
count-drop_key [] k v h = cc
count-drop_key (none ∷ es) k v h = count-drop_key es k v h
count-drop_key (some (j, w) ∷ es) k v h = elim (Bool-cases (text_eq j k)) [
  | inl same ↦
      let alike = ap (find es) ((text_eq_iff j k).0 same) in
      rw same (elim (Option-cases (find es k)) [
        | inl e ↦ ground (arith, drop_key-absent es k e, alike, e)
        | inr (u, e) ↦ ground (arith, count-drop_key es k u e, alike, e)
      ])
  | inr other ↦ rw other (
      ground (
        arith,
        count-drop_key es k v (rw other at h),
        find-drop_key_other es j k (differs j k other),
      ))
]

pub xh-XhashLaws : XhashLaws xh size
xh-XhashLaws = record {
  size_new = λ n. refl;
  size_put = λ h k v e. rw (append-nil (flat h.zen)) (ground (arith, e));
  size_zap =
      λ h k v e. rw (append-nil (drop_key (flat h.zen) k)) (count-drop_key (flat h.zen) k v e);
  get_zap = λ h k. rw (append-nil (drop_key (flat h.zen) k)) (find-drop_key (flat h.zen) k);
}

abbrev pub table : StatTable
table num = record {
  stat_times = pos 0 ∷ [];
  stat_sum_times = pos 0;
  stat_pos = 0;
  stat_size = 1;
  stat_intable = 0;
}

abbrev pub line : Conn
line = record {
  loc = 5;
  fd = 9;
  state = unknown;
  sstate = connected;
  writer = some (codes "ab") ∷ some (codes "cd") ∷ [];
  pollout = true;
  creation_time = 1000;
  responses = [];
  ssl = false;
}

abbrev pub counts : Counts
counts = record {
  conn_create = 1;
  conn_kill = 0;
  unexpected_kill = 0;
  presences_after_roster = 0;
  received_presences = 0;
  presences_rostadd = 0;
  received_messages = 0;
  received_messages_offline = 0;
  received_messages_admin = 0;
  forwarded_messages = 0;
  ev_connects = 1;
  ev_add_rosters = 0;
  ev_del_rosters = 0;
  ev_send_messages = 0;
  ev_change_statuses = 0;
  glob_roster_count = pos 0;
}

abbrev pub anna : User
anna = record {
  name = codes "anna";
  server = codes "a";
  resource = none;
  full = none;
  passwd = codes "secret";
  host = codes "a";
  sid = some (codes "77");
  ssl = false;
  connection_timeout = pos 15000;
  login_timeout = pos 400000;
  port = pos 5222;
  conn = some line;
  state = logged_in;
  events_queue = [];
  sooner_activation_tm = pos 0;
  exit_after_login = false;
  sniff = false;
  expect_kill = false;
  digest_auth = false;
  stream_opened = true;
  received_msgs_time_sum = pos 0;
  received_msgs_count = 0;
  received_presences_count = 0;
  sent_presences_count = pos 0;
  last_roster_count = negsuc 0;
  roster_count = pos 0;
  roster_hash = none;
  priv_rost = record {
    priv_rost_list = [];
    numextcontacts = pos 0;
    groups = [];
    gall = none;
    loaded = false;
  };
  tmpid = 0;
  status = some (codes "Online");
  show = none;
}

-- Anna has a connection with two packets to send; one was sent before.
abbrev pub session : Session
session = record {
  number = 7;
  user = anna;
  globals = record {
    packets = record { created = 3; sent = 1; canceled = 0 };
    counts = counts;
    slots = init_slots;
    stats = table;
    do_events = true;
    events_start_after = pos 0;
    random = λ k. k;
    drawn = 0;
  };
}

-- A socket that takes three bytes of a packet, or all of it.
abbrev pub slow_socket : ℕ → Text → SockResult
slow_socket k b = wrote 2

-- Every minute, twice, a connection ends.
abbrev pub kick : Event
kick = record {
  activation_tm = pos 500;
  frequency = pos 60000000;
  event_handler = some kill_connection;
  counter = pos 2;
  user_state = none;
  arg = none;
}

-- Anna before she connects, and with her event.
abbrev pub waiting_session : Session
waiting_session = record session {
  user = record anna { conn = none; state = can_login; events_queue = kick ∷ [] };
  globals = record session.globals { packets = record { created = 1; sent = 1; canceled = 0 } };
}

abbrev pub busy_session : Session
busy_session = record session { user = record anna { events_queue = kick ∷ [] } }

abbrev pub network : SocketCalls
network = record { socket = some 9; address_found = true; connect = done; tls = false }

abbrev pub outside : Outside
outside = record { net = λ s. network; read_file = λ f. none; names = λ n. none }

abbrev pub brake : Karma
brake = record {
  val = pos 4;
  bytes = pos 0;
  max = pos 10;
  inc = pos 1;
  dec = pos 1;
  penalty = negsuc 4;
  restore = pos 5;
  last_update = 2000000;
}

abbrev pub back : Outcome (Unit {0}) → Session
back (returns a t) = t
back (exits code) = session
back faults = session

abbrev pub contact : RosterItem
contact = record {
  jid = codes "anna@a";
  nick = codes "anna";
  subscribe = 3;
  priv = none;
  available = false;
}

abbrev pub full_table : Xht
full_table = record {
  prime = 5;
  zen =
      [] ∷ (none ∷ some (codes "anna@a", contact) ∷ []) ∷ (some (codes "bob@a", contact) ∷ []) ∷ [];
}
