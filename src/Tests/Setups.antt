-- ===== src/Tests/Setups.antt =====
-- A small configuration: a generator of the names u1 and u2, and one block of properties for them.
use jab_simul.Shared.{
  ℕ, ◌≤◌, ◌+◌, map, length, arith, ◌≡◌, refl, List, [], ◌∷◌, Option, none, some, true, false, Text,
  codes, text_eq, ◌==◌, if◌then◌else◌,
}
use jab_simul.Shared.Int.{ℤ, pos}
use jab_simul.Jabber.{Jabber, XmlNode, tag, empty}
use jab_simul.State.{User}
use jab_simul.Pattern.{initial}
use jab_simul.Primes.{tag_iter_init, tags_named}
use jab_simul.Config.{Setup, Setting, gives, exits, faults, ◌>>◌}
use jab_simul.Config.{print_name}
use jab_simul.Pattern.Parser.{sprintf_pattern, apply}
use jab_simul.Pattern.Printf.{printf_int}
use jab_simul.Ids.{print_unsigned, digits_of}
use jab_simul.Life.{user_create}
use jab_simul.Config.Names.{bound, generate_user_names_space}
use jab_simul.Config.Users.{Regex, read_group, try_names, set_users_properities}
use jab_simul.Config.Space.{Ends, Generated, covered, generate_user_names_space-Generated}
use jab_simul.Config.Configure.{copy_text, configure}
use jab_simul.Config.Origin.{Made, configure-Made}
use jab_simul.Loop.Main.{static_config, static_globals}
use jab_simul.Config.Returns.{Gives}
use jab_simul.Config.Comes.{IsFine}
use jab_simul.Config.Count.{chosen_by, chosen-le, set_users_properities-Gives}
use jab_simul.Config.Start.{AllConfigured, set_users_properities-AllConfigured}
use jab_simul.Tests.Shipped.{index-Prints, mul-Prints, full_name-Prints}
use jab_simul.Tests.Fixtures.{same_text}

-- Node 1 holds the generator 2, with its range 3, and the properties 4: a filter 5 and the values 6.
abbrev data_of : Option XmlNode → Text → Option Text
data_of none name = none
data_of (some n) name =
    if n == 2
    then (if text_eq name (codes "name") then some (codes "u%(num:u)") else none)
    else if n == 3
    then (if text_eq name (codes "from") then some (codes "1") else some (codes "2"))
    else if n == 6
    then (if text_eq name (codes "password")
        then some (codes "p%(num*2:u)")
        else if text_eq name (codes "fullname")
        then some (codes "test%(num*2:u)-%(3+num%12000/(1+3)+7:u)")
        else none)
    else none

abbrev tag_of : Option XmlNode → Text → Option XmlNode
tag_of none name = none
tag_of (some n) name =
    if n == 2
    then (if text_eq name (codes "range") then some 3 else none)
    else if n == 4
    then (if text_eq name (codes "filter")
        then some 5
        else if text_eq name (codes "properities")
        then some 6
        else none)
    else none

abbrev name_of : Option XmlNode → Option Text
name_of none = none
name_of (some n) =
    if n == 2
    then some (codes "user_names_generator")
    else if n == 4
    then some (codes "user_properities")
    else none

abbrev parts_of : Option XmlNode → List XmlNode
parts_of none = []
parts_of (some n) = if n == 1 then 2 ∷ 4 ∷ [] else []

abbrev number_of : Option Text → ℤ → ℤ
number_of none d = d
number_of (some []) d = pos 0
number_of (some (c ∷ cs)) d = if c == b'1' then pos 1 else pos 2

abbrev pub lib : Jabber
lib = record {
  j_same = same_text;
  j_same_nocase = same_text;
  j_atoi = number_of;
  get_attrib = λ x name. none;
  get_tag = tag_of;
  get_tag_data = data_of;
  get_data = λ x. none;
  get_name = name_of;
  children = parts_of;
  is_tag = λ x. true;
  render = λ x. codes "<x/>";
  shahash = λ t. t;
  reply = λ x. tag (codes "message") [] empty;
  debug_stamp = λ t. none;
}

-- Every text compiles and matches.
abbrev pub regex : Regex
regex = record { compiles = λ t. true; matches = λ p t. true }

abbrev pub draws : ℕ → ℕ
draws k = k

abbrev pub garbage : Setup
garbage = record {
  user_names_space = λ n. record {
    user = codes "?";
    server = codes "?";
    enabled = true;
    can_receive_message = true;
    can_be_added_to_roster = false;
  };
  users = [];
  alive_users_list = [];
  mode = initial;
  drawn = 0;
}

abbrev name_at : Setting (Unit {0}) → ℕ → Text
name_at (gives a s) n = (s.user_names_space n).user
name_at (exits code) n = []
name_at faults n = []

abbrev passwds : List User → List Text
passwds [] = []
passwds (u ∷ us) = u.passwd ∷ passwds us

abbrev passwds_of : Setting (Unit {0}) → List Text
passwds_of (gives a s) = passwds s.alive_users_list
passwds_of (exits code) = []
passwds_of faults = []

second_name : name_at (generate_user_names_space draws lib 1 garbage) 2 ≡ codes "u2"
unfolding generate_user_names_space print_name sprintf_pattern apply printf_int print_unsigned
    digits_of text_eq
second_name = refl

reset_name : name_at (generate_user_names_space draws lib 1 garbage) 3 ≡ []
unfolding generate_user_names_space print_name sprintf_pattern apply printf_int print_unsigned
    digits_of text_eq
reset_name = refl

-- The first five entries of the table, with the properties of node 4.
first_users :
    passwds_of (
      (generate_user_names_space draws lib 1 >> try_names draws regex (read_group lib 0 4) 5 0)
        garbage)
    ≡ codes "p4" ∷ codes "p2" ∷ []
unfolding generate_user_names_space print_name sprintf_pattern apply printf_int print_unsigned
    digits_of text_eq try_names read_group user_create
first_users = refl

generate_user_names_space-Generated_example :
    Ends
      (Generated draws
        (covered draws lib
          (tags_named lib (some (codes "user_names_generator")) (tag_iter_init lib (some 1))))
        garbage)
      (generate_user_names_space draws lib 1 garbage)
generate_user_names_space-Generated_example =
    generate_user_names_space-Generated draws lib 1 garbage

set_users_properities-AllConfigured_example :
    Ends
      (AllConfigured garbage.user_names_space [])
      (set_users_properities draws regex lib 0 1 garbage)
set_users_properities-AllConfigured_example =
    set_users_properities-AllConfigured draws regex lib 0 1 garbage

one_group : (a m : ℕ) → a ≤ m → a + 0 ≤ m
one_group a m h = omega arith

set_users_properities-Gives_example :
    let groups =
      map
        (read_group lib 0)
        (tags_named lib (some (codes "user_properities")) (tag_iter_init lib (some 1))) in
    Gives
      (λ t.
        (t.mode ≡ initial)
        × (length t.users ≡ chosen_by draws regex groups garbage.user_names_space))
      (set_users_properities draws regex lib 0 1 garbage)
unfolding text_eq sprintf_pattern tag_iter_init tags_named read_group chosen_by
set_users_properities-Gives_example =
    set_users_properities-Gives draws regex lib 0 1 garbage
      ((mul-Prints draws, tt, full_name-Prints draws, tt, refl, refl), tt) refl
      (one_group _ _ (chosen-le draws regex (read_group lib 0 4) garbage.user_names_space 50000 0))

-- That configuration is fine.
pub lib-IsFine : IsFine draws regex lib 0 1 garbage
unfolding text_eq sprintf_pattern tag_iter_init tags_named bound read_group chosen_by
lib-IsFine = record {
  admin_fits = tt;
  names_fine = ((index-Prints draws, tt, refl, refl), tt);
  groups_work = ((mul-Prints draws, tt, full_name-Prints draws, tt, refl, refl), tt);
  mode_initial = refl;
  room = λ t ran.
      one_group _ _ (chosen-le draws regex (read_group lib 0 4) t.user_names_space 50000 0);
}

-- A text of 50 letters does not fit with its end into 50 bytes.
text_too_long :
    copy_text 50 [] (some (codes "aaaaaaaaaabbbbbbbbbbccccccccccddddddddddeeeeeeeeee")) garbage
    ≡ faults
unfolding copy_text
text_too_long = refl

configure-Made_example :
    Ends
      (Made draws lib 1 [])
      (configure draws regex lib 0 (some 1) static_config (static_globals draws) garbage)
configure-Made_example =
    configure-Made draws regex lib 0 1 static_config (static_globals draws) garbage
