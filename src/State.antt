-- ===== src/State.antt =====
-- The state of the simulator: the structures of jab_simul/jab_simul-main.h and
-- jab_simul/jab_simul-roster.h, and the global counters of the other files. C integers that only
-- count up are natural numbers, the others integers; neither wraps. Times are microseconds, as the
-- macro `ut` makes them of a `struct timeval`. Flags that share an int are fields of their own.
pub mod Monad
use jab_simul.Shared.{ℕ, Bool, Option, List, Text}
use jab_simul.Shared.Int.{ℤ}
use jab_simul.Jabber.{XmlNode}
use jab_simul.Stats.{StatTable}

pub data ConnState : Type 0 where
  unknown authd closing : ConnState

pub data SockState : Type 0 where
  error not_connected conn_in_progress connected : SockState

pub data UserState : Type 0 where
  disabled can_login is_logging logged_in : UserState

-- The functions that are installed as t_xml_response_handler.
pub data ResponseHandler : Type 0 where
  login_response roster_response numextcontacts_response add_roster_item_response : ResponseHandler
  del_roster_item_response extcontacts_response : ResponseHandler

-- The functions that are installed as t_event_handler.
pub data EventHandler : Type 0 where
  change_status send_message send_raw_bytes add_roster del_roster connect : EventHandler
  kill_connection logout : EventHandler

-- struct_event_repeater. A `user_state` of `none` is UP_EVER.
pub record Event : Type 0 where
  pub activation_tm : ℤ
  pub frequency : ℤ
  pub event_handler : Option EventHandler
  pub counter : ℤ
  pub user_state : Option UserState
  pub arg : Option XmlNode

-- xml_need_response_struct.
pub record Pending : Type 0 where
  pub id : Text
  pub send_time : ℕ
  pub callback : Option ResponseHandler

-- jpolld_conn_struct with its entry of `pfds`. A write buffer is what of it is still to be sent,
-- from `cbuffer` on; it is NULL for what was written as NULL. POLLIN is set as long as the connection lives; `pollout` is POLLOUT.
pub record Conn : Type 0 where
  pub loc : ℕ
  pub fd : ℕ
  pub state : ConnState
  pub sstate : SockState
  pub writer : List (Option Text)
  pub pollout : Bool
  pub creation_time : ℕ
  pub responses : List Pending
  pub ssl : Bool

-- group_item_struct.
pub record GroupItem : Type 0 where
  pub name : Option Text
  pub exp : Bool

-- priv_roster_item_struct.
pub record PrivItem : Type 0 where
  pub display_name : Option Text
  pub nick_name : Option Text
  pub first_name : Option Text
  pub last_name : Option Text
  pub sms : Option Text
  pub cyfra : Option Text
  pub speak : Option Text
  pub jid : Option Text
  pub presence_text : Option Text
  pub groups : List GroupItem
  pub flash : Bool
  pub speak_pres : Bool

-- roster_item_struct.
pub record RosterItem : Type 0 where
  pub jid : Text
  pub nick : Text
  pub subscribe : ℕ
  pub priv : Option PrivItem
  pub available : Bool

-- The hash table of the library: its buckets, `prime` of them. A removed node stays as a blank one.
pub record Xht : Type 0 where
  pub prime : ℕ
  pub zen : List (List (Option (Text × RosterItem)))

-- The anonymous struct `priv_rost`.
pub record PrivRoster : Type 0 where
  pub priv_rost_list : List PrivItem
  pub numextcontacts : ℤ
  pub groups : List GroupItem
  pub gall : Option GroupItem
  pub loaded : Bool

-- user_properities_struct. The connection, which the slot table shares, is kept in its user.
pub record User : Type 0 where
  pub name : Text
  pub server : Text
  pub resource : Option Text
  pub full : Option Text
  pub passwd : Text
  pub host : Text
  pub sid : Option Text
  pub ssl : Bool
  pub connection_timeout : ℤ
  pub login_timeout : ℤ
  pub port : ℤ
  pub conn : Option Conn
  pub state : UserState
  pub events_queue : List Event
  pub sooner_activation_tm : ℤ
  pub exit_after_login : Bool
  pub sniff : Bool
  pub expect_kill : Bool
  pub digest_auth : Bool
  pub stream_opened : Bool
  pub received_msgs_time_sum : ℤ
  pub received_msgs_count : ℕ
  pub received_presences_count : ℕ
  pub sent_presences_count : ℤ
  pub last_roster_count : ℤ
  pub roster_count : ℤ
  pub roster_hash : Option Xht
  pub priv_rost : PrivRoster
  pub tmpid : ℕ
  pub status : Option Text
  pub show : Option Text

-- The part of jpolld_thread_struct that hands out places: the free list, the highest place in use,
-- and which user (by its number) has a connection at a place.
pub record Slots : Type 0 where
  pub npfd : List ℕ
  pub mpfd : ℕ
  pub conns : ℕ → Option ℕ

-- packets_created, packets_sent and packets_canceled.
pub record Packets : Type 0 where
  pub created : ℕ
  pub sent : ℕ
  pub canceled : ℕ

-- The other global counters, by their names.
pub record Counts : Type 0 where
  pub conn_create : ℕ
  pub conn_kill : ℕ
  pub unexpected_kill : ℕ
  pub presences_after_roster : ℕ
  pub received_presences : ℕ
  pub presences_rostadd : ℕ
  pub received_messages : ℕ
  pub received_messages_offline : ℕ
  pub received_messages_admin : ℕ
  pub forwarded_messages : ℕ
  pub ev_connects : ℕ
  pub ev_add_rosters : ℕ
  pub ev_del_rosters : ℕ
  pub ev_send_messages : ℕ
  pub ev_change_statuses : ℕ
  pub glob_roster_count : ℤ

-- The values of random() are a sequence, of which the first `drawn` are used up.
pub record Globals : Type 0 where
  pub packets : Packets
  pub counts : Counts
  pub slots : Slots
  pub stats : StatTable
  pub do_events : Bool
  pub events_start_after : ℤ
  pub random : ℕ → ℕ
  pub drawn : ℕ

-- A user, by its number, and what all users share.
pub record Session : Type 0 where
  pub number : ℕ
  pub user : User
  pub globals : Globals
