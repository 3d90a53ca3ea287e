-- ===== src/Loop/Main.antt =====
-- main of jab_simul/jab_simul-main.c, without the signals, the log, jab_ssl_init, what
-- frees memory at the end, and FORK_AS_DAEMON, which is off.
use jab_simul.Shared.{
  ℕ, List, [], ◌∷◌, Option, Bool, false, Text, codes, text_eq, ◌||◌, if◌then◌else◌,
}
use jab_simul.Shared.Int.{pos}
use jab_simul.Jabber.{Jabber, XmlNode}
use jab_simul.Stats.{empty_stat}
use jab_simul.State.{User, Globals}
use jab_simul.Slots.{init_slots}
use jab_simul.Roster.Load.{Xhash}
use jab_simul.Events.{Outside}
use jab_simul.Pattern.{initial}
use jab_simul.Config.{UserName, Setup, Setting}
use jab_simul.Config
use jab_simul.Config.Users.{Regex}
use jab_simul.Config.Configure.{MainConfig, configure}
use jab_simul.Loop.{World, Turn, exits, faults, PollAnswer, thread_loop}

-- The global variables at the start.
abbrev pub static_globals : (ℕ → ℕ) → Globals
static_globals random = record {
  packets = record { created = 0; sent = 0; canceled = 0 };
  counts = record {
    conn_create = 0;
    conn_kill = 0;
    unexpected_kill = 0;
    presences_after_roster = 0;
    received_presences = 0;
    presences_rostadd = 0;
    received_messages = 0;
    received_messages_offline = 0;
    received_messages_admin = 0;
    forwarded_messages = 0;
    ev_connects = 0;
    ev_add_rosters = 0;
    ev_del_rosters = 0;
    ev_send_messages = 0;
    ev_change_statuses = 0;
    glob_roster_count = pos 0;
  };
  slots = init_slots;
  stats = λ num. empty_stat 0;
  do_events = false;
  events_start_after = pos 1;
  random = random;
  drawn = 0;
}

abbrev pub static_config : MainConfig
static_config = record {
  rate_time = pos 0;
  max_points = pos 0;
  maxusers = pos 0;
  fullxmlscannedloguser = [];
  fullxmlmasterlogpath = [];
  fullxmluserlogpath = [];
  log_route_errors = false;
  log_full_master_socket = false;
  stat_count = pos 0;
  stat_write_log_interval = pos 0;
  stat_refresh_interval = pos 0;
}

-- malloc leaves what it finds in the table of names.
abbrev pub static_setup : (ℕ → UserName) → Setup
static_setup found = record {
  user_names_space = found;
  users = [];
  alive_users_list = [];
  mode = initial;
  drawn = 0;
}

-- thread_main begins with the users of the configuration and all its times at 0.
abbrev pub start_world : List User → Globals → World
start_world users globals = record {
  users = users;
  globals = globals;
  info_timestamp = 0;
  loginfo_timestamp = 0;
  users_check_timestamp = 0;
  last_diff = pos 0;
}

unfoldable pub asks_info : Text → Bool
asks_info arg =
    (text_eq arg (codes "-v") || text_eq arg (codes "--version"))
    || (text_eq arg (codes "-c") || text_eq arg (codes "--changelog"))

unfoldable pub config_name : List Text → Text
config_name [] = codes "jab_simul.xml"
config_name (arg ∷ args) = arg

-- thread_init and thread_main behind configure; what was drawn is drawn.
unfoldable pub run_thread :
    Jabber
    → Xhash
    → Bool
    → List (PollAnswer × ℕ × (ℕ → Outside))
    → Setting (MainConfig × Globals)
    → Turn
run_thread lib xh ncurses turns (Config.gives (cfg, g) s) =
    thread_loop lib xh ncurses turns
      (start_world s.alive_users_list (record g { slots = init_slots; drawn = s.drawn }))
run_thread lib xh ncurses turns (Config.exits code) = exits code
run_thread lib xh ncurses turns Config.faults = faults

-- The arguments behind the name of the program, and what xmlnode_file reads. A loop that `breaks`
-- ends the program with 0.
module _ (lib : Jabber) (xh : Xhash) (regex : Regex) (random : ℕ → ℕ) where
  unfoldable pub start_program :
      (ℕ → UserName)
      → ℕ
      → (Text → Option XmlNode)
      → Bool
      → List (PollAnswer × ℕ × (ℕ → Outside))
      → List Text
      → Turn
  unfolding config_name run_thread configure
  start_program found now xmlnode_file ncurses turns args = run_thread lib xh ncurses turns (
      configure random regex lib now (xmlnode_file (config_name args)) static_config
        (static_globals random) (static_setup found))

  unfoldable pub main :
      (ℕ → UserName)
      → ℕ
      → (Text → Option XmlNode)
      → Bool
      → List (PollAnswer × ℕ × (ℕ → Outside))
      → List Text
      → Turn
  unfolding asks_info start_program
  main found now xmlnode_file ncurses turns [] =
      start_program found now xmlnode_file ncurses turns []
  main found now xmlnode_file ncurses turns (arg ∷ args) =
      if asks_info arg
      then exits 0
      else start_program found now xmlnode_file ncurses turns (arg ∷ args)
