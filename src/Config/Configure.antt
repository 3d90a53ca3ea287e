-- ===== src/Config/Configure.antt =====
-- configure of jab_simul/jab_simul-main.c.
use jab_simul.Shared.{
  ℕ, ◌+◌, [], Option, none, some, Bool, false, Text, codes, length, leb, if◌then◌else◌,
}
use jab_simul.Shared.Int.{ℤ, pos, negsuc}
use jab_simul.Jabber.{Jabber, XmlNode}
use jab_simul.Stats.{StatTable, init_stat, mesg_stat, diff_stat, radd_stat, rdel_stat}
use jab_simul.State.{Globals}
use jab_simul.Config.{S, ◌>>=◌, ◌>>◌, pure, fault, exit_app}
use jab_simul.Config.Names.{generate_user_names_space}
use jab_simul.Config.Users.{Regex, is_there, set_users_properities}

-- config_struct, as far as configure sets it.
pub record MainConfig : Type 0 where
  pub rate_time : ℤ
  pub max_points : ℤ
  pub maxusers : ℤ
  pub fullxmlscannedloguser : Text
  pub fullxmlmasterlogpath : Text
  pub fullxmluserlogpath : Text
  pub log_route_errors : Bool
  pub log_full_master_socket : Bool
  pub stat_count : ℤ
  pub stat_write_log_interval : ℤ
  pub stat_refresh_interval : ℤ

-- SOCKS_STAT_WRITE_LOG_INTERVAL and SOCKS_STAT_REFRESH_INTERVAL.
abbrev pub socks_stat_write_log_interval : ℤ
socks_stat_write_log_interval = pos 15003

abbrev pub socks_stat_refresh_interval : ℤ
socks_stat_refresh_interval = pos 900013

-- Without a rate `max_points` is left as it is.
unfoldable pub read_rate : Jabber → XmlNode → MainConfig → MainConfig
read_rate lib xcfg cfg = elim (lib.get_tag (some xcfg) (codes "rate")) [
  | none ↦ record cfg { rate_time = negsuc 0 }
  | some tmp ↦ record cfg {
    rate_time = lib.j_atoi (lib.get_tag_data (some tmp) (codes "time")) (pos 25);
    max_points = lib.j_atoi (lib.get_tag_data (some tmp) (codes "max")) (pos 5);
  }
]

unfoldable pub reset_logs : MainConfig → MainConfig
reset_logs cfg = record cfg {
  fullxmlscannedloguser = [];
  fullxmlmasterlogpath = [];
  fullxmluserlogpath = [];
  log_route_errors = false;
  log_full_master_socket = false;
  stat_count = pos 0;
  stat_write_log_interval = socks_stat_write_log_interval;
  stat_refresh_interval = socks_stat_refresh_interval;
}

-- `if (text) strcpy(buffer, text)` into `size` bytes: a text that does not fit is written behind them.
unfoldable pub copy_text : ℕ → Text → Option Text → S Text
copy_text size old none = pure old
copy_text size old (some t) = if leb (length t + 1) size then pure t else fault

unfoldable pub read_stat_socket : Jabber → Option XmlNode → MainConfig → MainConfig
read_stat_socket lib none cfg = cfg
read_stat_socket lib (some st) cfg = record cfg {
  stat_count = lib.j_atoi (lib.get_tag_data (some st) (codes "count")) (pos 0);
  stat_write_log_interval =
      lib.j_atoi (lib.get_tag_data (some st) (codes "write_log_interval"))
        socks_stat_write_log_interval;
  stat_refresh_interval =
      lib.j_atoi (lib.get_tag_data (some st) (codes "refresh_interval"))
        socks_stat_refresh_interval;
}

unfoldable pub read_fullxml : Jabber → Option XmlNode → MainConfig → S MainConfig
unfolding copy_text
read_fullxml lib none cfg = pure cfg
read_fullxml lib (some scan) cfg = do
  user ← copy_text 50 cfg.fullxmlscannedloguser (lib.get_tag_data (some scan) (codes "user"))
  logmaster ←
      copy_text 100 cfg.fullxmlmasterlogpath (lib.get_tag_data (some scan) (codes "logmaster"))
  loguser ← copy_text 100 cfg.fullxmluserlogpath (lib.get_tag_data (some scan) (codes "loguser"))
  pure (record cfg {
    fullxmlscannedloguser = user;
    fullxmlmasterlogpath = logmaster;
    fullxmluserlogpath = loguser;
  })

-- `fullxml` in `specialusers` of the block `admin`.
unfoldable pub fullxml_of : Jabber → XmlNode → Option XmlNode
fullxml_of lib admin = elim (lib.get_tag (some admin) (codes "specialusers")) [
  | none ↦ none
  | some special ↦ lib.get_tag (some special) (codes "fullxml")
]

-- The block `admin`.
unfoldable pub read_admin : Jabber → Option XmlNode → MainConfig → S MainConfig
unfolding read_stat_socket read_fullxml fullxml_of
read_admin lib none cfg = pure cfg
read_admin lib (some admin) cfg =
    let part = λ (name : Text). lib.get_tag (some admin) name in
    let switched = record cfg {
      log_route_errors = is_there (part (codes "log_route_errors"));
      log_full_master_socket = is_there (part (codes "log_full_master_socket"));
    } in
    read_fullxml lib (fullxml_of lib admin)
      (read_stat_socket lib (part (codes "log_stat_socket")) switched)

unfoldable pub init_stats : StatTable → StatTable
unfolding init_stat
init_stats t =
    init_stat (init_stat (init_stat (init_stat t mesg_stat 200) diff_stat 20) radd_stat 200)
      rdel_stat 200

-- What stands before the tables of users.
unfoldable pub read_config : Jabber → XmlNode → MainConfig → S MainConfig
unfolding read_rate reset_logs read_admin
read_config lib xcfg cfg = read_admin lib (lib.get_tag (some xcfg) (codes "admin")) (
    reset_logs (record (read_rate lib xcfg cfg) {
      maxusers = lib.j_atoi (lib.get_tag_data (some xcfg) (codes "maxusers")) (pos 1024);
    }))

-- The global variables that it sets.
unfoldable pub set_globals : Jabber → XmlNode → Globals → Globals
unfolding init_stats
set_globals lib xcfg g = record g {
  events_start_after = lib.j_atoi (lib.get_tag_data (some xcfg) (codes "events_after")) (pos 1);
  stats = init_stats g.stats;
}

-- xmlnode_file has given a node or nothing; then exit_app also goes through the table of users, which
-- nothing has set yet, and that is left out. The random values that are drawn are counted in Setup.
unfoldable pub configure :
    (ℕ → ℕ) → Regex → Jabber → ℕ → Option XmlNode → MainConfig → Globals → S (MainConfig × Globals)
unfolding read_config set_globals
configure random regex lib now none cfg g = exit_app 1
configure random regex lib now (some xcfg) cfg g = do
  read ← read_config lib xcfg cfg
  generate_user_names_space random lib xcfg
  set_users_properities random regex lib now xcfg
  pure (read, set_globals lib xcfg g)
