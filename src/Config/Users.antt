-- ===== src/Config/Users.antt =====
-- set_users_properities of jab_simul/jab_simul-main.c.
use jab_simul.Shared.{
  ℕ, zero, suc, ◌+◌, List, [], ◌∷◌, ◌++◌, map, Option, none, some, Bool, true, false, ◌&&◌, Text,
  codes, length, ltb, if◌then◌else◌,
}
use jab_simul.Shared.Int.{ℤ, pos, negsuc, leb_ℤ, ltb_ℤ, eq_ℤ}
use jab_simul.Jabber.{Jabber, XmlNode}
use jab_simul.State.{User, Event, can_login}
use jab_simul.Primes.{tag_iter_init, tags_named}
use jab_simul.Events.{max_users}
use jab_simul.Repeater.{create_repeater_from_xml}
use jab_simul.Life.{user_create}
use jab_simul.Config.{UserName, S, ◌>>=◌, ◌>>◌, pure, fault, exit_app, get, modify, print_name}

-- regcomp and regexec of the C library: whether a pattern compiles, and whether a text matches it.
pub record Regex : Type 0 where
  pub compiles : Text → Bool
  pub matches : Text → Text → Bool

-- The local variables that a block user_properities sets.
pub record Group : Type 0 where
  pub filter_name_regexp : Text
  pub filter_server_regexp : Text
  pub filter_range_from : ℤ
  pub filter_range_to : ℤ
  pub passwd_pattern : Option Text
  pub resource_pattern : Option Text
  pub fullname_pattern : Option Text
  pub host_pattern : Option Text
  pub ssl : Bool
  pub port : ℤ
  pub connection_timeout : ℤ
  pub login_timeout : ℤ
  pub exit_after_login : Bool
  pub sniff : Bool
  pub ev_list : List Event

abbrev pub is_there {ℓ} : {A : Type ℓ} → Option A → Bool
is_there none = false
is_there (some x) = true

unfoldable pub filter_text : Jabber → Option XmlNode → Text → Text
filter_text lib none name = codes ".*"
filter_text lib (some filter) name = elim (lib.get_tag_data (some filter) name) [
  | none ↦ codes ".*"
  | some t ↦ t
]

-- The bounds are looked for in `filter`, where it has a child `range`.
unfoldable pub filter_bound : Jabber → Option XmlNode → Text → ℤ → ℤ
filter_bound lib none name preset = preset
filter_bound lib (some filter) name preset =
    if is_there (lib.get_tag (some filter) (codes "range"))
    then lib.j_atoi (lib.get_tag_data (some filter) name) preset
    else preset

unfoldable pub read_events : Jabber → ℕ → List XmlNode → List Event
read_events lib now xs = map (λ x. create_repeater_from_xml lib x now) xs

-- DEFAULT_PORT is 5222.
unfoldable pub read_group : Jabber → ℕ → XmlNode → Group
unfolding filter_text filter_bound read_events tag_iter_init tags_named
read_group lib now cur =
    let filter = lib.get_tag (some cur) (codes "filter") in
    let properities = lib.get_tag (some cur) (codes "properities") in
    record {
      filter_name_regexp = filter_text lib filter (codes "name");
      filter_server_regexp = filter_text lib filter (codes "server");
      filter_range_from = filter_bound lib filter (codes "from") (pos 0);
      filter_range_to = filter_bound lib filter (codes "to") (pos max_users);
      passwd_pattern = lib.get_tag_data properities (codes "password");
      resource_pattern = lib.get_tag_data properities (codes "resource");
      fullname_pattern = lib.get_tag_data properities (codes "fullname");
      host_pattern = lib.get_tag_data properities (codes "host");
      ssl = is_there (lib.get_tag properities (codes "ssl"));
      port = lib.j_atoi (lib.get_tag_data properities (codes "port")) (pos 5222);
      connection_timeout =
          lib.j_atoi (lib.get_tag_data properities (codes "connection_timeout")) (negsuc 0);
      login_timeout = lib.j_atoi (lib.get_tag_data properities (codes "login_timeout")) (negsuc 0);
      exit_after_login = is_there (lib.get_tag properities (codes "exit_after_login"));
      sniff = is_there (lib.get_tag properities (codes "sniff"));
      ev_list =
          read_events lib now
            (tags_named lib (some (codes "event")) (tag_iter_init lib properities));
    }

-- What is set behind user_create. A timeout of -1 was not given.
unfoldable pub given : ℤ → ℤ → ℤ
given timeout preset = if eq_ℤ timeout (negsuc 0) then preset else timeout

unfoldable pub with_properities : Group → User → User
unfolding given
with_properities g u = record u {
  state = can_login;
  exit_after_login = g.exit_after_login;
  sniff = g.sniff;
  connection_timeout = given g.connection_timeout u.connection_timeout;
  login_timeout = given g.login_timeout u.login_timeout;
}

-- How many random delays copy_repeaters draws.
unfoldable pub delays_of : List Event → ℕ
delays_of [] = 0
delays_of (e ∷ es) = if ltb_ℤ (pos 0) e.frequency then suc (delays_of es) else delays_of es

module _ (random : ℕ → ℕ) (regex : Regex) where
  -- A buffer of 1000 bytes that holds an empty text.
  unfoldable pub print_property : ℕ → Option Text → S Text
  print_property j none = pure []
  print_property j (some pattern) = print_name random (pos j) 1000 [] pattern

  unfoldable pub in_range : Group → ℕ → Bool
  in_range g j = leb_ℤ g.filter_range_from (pos j) && leb_ℤ (pos j) g.filter_range_to

  unfoldable pub is_chosen : Group → ℕ → UserName → Bool
  unfolding in_range
  is_chosen g j n =
      n.enabled
      && in_range g j
      && regex.matches g.filter_name_regexp n.user
      && regex.matches g.filter_server_regexp n.server

  -- A user at the end of `users` and at the head of `alive_users_list`; the code does not test that
  -- the table has room for it.
  unfoldable pub add_user : User → S (Unit {0})
  add_user u = do
    s ← get
    if ltb (length s.users) max_users
        then modify
            (λ t. record t { users = t.users ++ u ∷ []; alive_users_list = u ∷ t.alive_users_list })
        else fault

  unfoldable pub create_user : Group → ℕ → UserName → S User
  unfolding print_property with_properities delays_of
  create_user g j n = do
    passwd ← print_property j g.passwd_pattern
    resource ← print_property j g.resource_pattern
    fullname ← print_property j g.fullname_pattern
    host ← print_property j g.host_pattern
    s ← get
    modify (λ t. record t { drawn = t.drawn + delays_of g.ev_list })
    pure (
        with_properities g (
          user_create n.user n.server passwd (some resource) (some fullname)
            (elim g.host_pattern [ none ↦ none | some p ↦ some host ]) g.port g.ev_list g.ssl random
            s.drawn))

  unfoldable pub try_name : Group → ℕ → S (Unit {0})
  unfolding is_chosen add_user create_user
  try_name g j = do
    s ← get
    if is_chosen g j (s.user_names_space j)
        then (do u ← create_user g j (s.user_names_space j); add_user u)
        else pure tt

  -- The loop over the table with `rounds` entries left.
  unfoldable pub try_names : Group → ℕ → ℕ → S (Unit {0})
  unfolding try_name
  try_names g zero j = pure tt
  try_names g (suc rounds) j = do try_name g j; try_names g rounds (suc j)

  unfoldable pub compile : Text → S (Unit {0})
  compile pattern = if regex.compiles pattern then pure tt else exit_app 1

  unfoldable pub set_group : Group → S (Unit {0})
  unfolding compile try_names
  set_group g = do
    compile g.filter_name_regexp
    compile g.filter_server_regexp
    try_names g max_users 0

  unfoldable pub set_groups : List Group → S (Unit {0})
  unfolding set_group
  set_groups [] = pure tt
  set_groups (g ∷ gs) = do set_group g; set_groups gs

  unfoldable pub set_users_properities : Jabber → ℕ → XmlNode → S (Unit {0})
  unfolding set_groups read_group tag_iter_init tags_named
  set_users_properities lib now xcfg = do
    modify (λ s. record s { users = [] })
    set_groups (
        map (read_group lib now)
          (tags_named lib (some (codes "user_properities")) (tag_iter_init lib (some xcfg))))
