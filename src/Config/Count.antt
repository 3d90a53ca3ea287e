-- ===== src/Config/Count.antt =====
-- How many users set_users_properities of jab_simul/jab_simul-main.c makes, where its patterns print,
-- its filters compile and the table has room.
use jab_simul.Shared.{
  ℕ, zero, suc, ◌+◌, ◌≤◌, ◌<◌, All, ◌≡◌, refl, sym, ap, ◌∙◌, subst, inl, inr, List, [], ◌∷◌, map,
  Option, none, some, true, Text, codes, length, length-append, lt→ltb, if◌then◌else◌, Bool-cases,
  arith,
}
use jab_simul.Jabber.{Jabber, XmlNode}
use jab_simul.State.{User}
use jab_simul.Primes.{tag_iter_init, tags_named}
use jab_simul.Events.{max_users}
use jab_simul.Pattern.{initial}
use jab_simul.Config.{UserName, Setup, print_name}
use jab_simul.Config.Users.{
  Regex, Group, read_group, print_property, is_chosen, delays_of, add_user, create_user, try_name,
  try_names, compile, set_group, set_groups, set_users_properities,
}
use jab_simul.Config.Returns.{Gives, gave, Gives-bind, Gives-weaken, Gives-bind-bind, Prints}

module _ (random : ℕ → ℕ) (regex : Regex) where
  -- A group's patterns print into 1000 bytes, and its filters compile.
  abbrev pub Works : Group → Type 0
  Works g =
      Prints random 1000 g.passwd_pattern
      × Prints random 1000 g.resource_pattern
      × Prints random 1000 g.fullname_pattern
      × Prints random 1000 g.host_pattern
      × (regex.compiles g.filter_name_regexp ≡ true)
      × (regex.compiles g.filter_server_regexp ≡ true)

  -- How many of the names from `j` on a group chooses.
  unfoldable pub chosen : Group → (ℕ → UserName) → ℕ → ℕ → ℕ
  chosen g names zero j = 0
  chosen g names (suc rounds) j =
      (if is_chosen random regex g j (names j) then 1 else 0) + chosen g names rounds (suc j)

  unfoldable pub chosen_by : List Group → (ℕ → UserName) → ℕ
  chosen_by [] names = 0
  chosen_by (g ∷ gs) names = chosen g names max_users 0 + chosen_by gs names

  pub chosen-le :
      (g : Group) (names : ℕ → UserName) (rounds j : ℕ) → chosen g names rounds j ≤ rounds
  unfolding chosen
  chosen-le g names zero j = omega arith
  chosen-le g names (suc rounds) j = ground (arith, chosen-le g names rounds (suc j))

  -- So many users were added, and nothing else that is read later changed.
  abbrev Added : ℕ → Setup → Setup → Type 0
  Added n s t =
      (t.mode ≡ initial)
      × (t.user_names_space ≡ s.user_names_space)
      × (length t.users ≡ length s.users + n)

  print_property-Gives :
      (j : ℕ) (pattern : Option Text) (s t : Setup)
      → Prints random 1000 pattern
      → j < max_users
      → Added 0 s t
      → Gives (Added 0 s) (print_property random regex j pattern t)
  unfolding print_property print_name
  print_property-Gives j none s t h small a = gave a
  print_property-Gives j (some p) s t h small a =
      let (text, d, e) = h j t.drawn [] small in rw (a.0, e) (gave (refl, a.1, a.2))

  add_user-Gives :
      (u : User) (s t : Setup)
      → Added 0 s t
      → length s.users < max_users
      → Gives (Added 1 s) (add_user random regex u t)
  unfolding add_user
  add_user-Gives u s t a room =
      rw (lt→ltb (length t.users) max_users (omega (arith, a.2, room)))
        (gave (a.0, a.1, omega (arith, a.2, length-append t.users (u ∷ []))))

  try_name-Gives :
      (g : Group) (j : ℕ) (s : Setup)
      → Works g
      → s.mode ≡ initial
      → j < max_users
      → length s.users + (if is_chosen random regex g j (s.user_names_space j) then 1 else 0)
        ≤ max_users
      → Gives
          (Added (if is_chosen random regex g j (s.user_names_space j) then 1 else 0) s)
          (try_name random regex g j s)
  unfolding try_name create_user
  try_name-Gives g j s w m small room =
      elim (Bool-cases (is_chosen random regex g j (s.user_names_space j))) [
        | inr e ↦ rw e (gave (m, refl, omega arith))
        | inl e ↦ rw e (
            Gives-bind-bind _ _
              (print_property-Gives j g.passwd_pattern s s w.0 small (m, refl, omega arith))
              λ passwd s1 h1.
                Gives-bind-bind _ _ (print_property-Gives j g.resource_pattern s s1 w.1 small h1)
                  λ resource s2 h2.
                    Gives-bind-bind _ _
                      (print_property-Gives j g.fullname_pattern s s2 w.2 small h2)
                      λ fullname s3 h3.
                        Gives-bind-bind _ _
                          (print_property-Gives j g.host_pattern s s3 w.3 small h3)
                          λ host s4 h4.
                            add_user-Gives _ s
                              (record s4 { drawn = s4.drawn + delays_of g.ev_list })
                              (h4.0, h4.1, h4.2) (ground (arith, room, e)))
      ]

  first : (rounds j m : ℕ) → suc rounds + j ≤ m → j < m
  first rounds j m h = omega arith

  rest : (rounds j m : ℕ) → suc rounds + j ≤ m → rounds + suc j ≤ m
  rest rounds j m h = omega arith

  all : (m : ℕ) → m + 0 ≤ m
  all m = omega arith

  try_names-Gives :
      (g : Group) (rounds j : ℕ) (s : Setup)
      → Works g
      → s.mode ≡ initial
      → rounds + j ≤ max_users
      → length s.users + chosen g s.user_names_space rounds j ≤ max_users
      → Gives (Added (chosen g s.user_names_space rounds j) s) (try_names random regex g rounds j s)
  unfolding try_names chosen
  try_names-Gives g zero j s w m inside room = gave (m, refl, omega arith)
  try_names-Gives g (suc rounds) j s w m inside room =
      Gives-bind _
        (try_name-Gives g j s w m (first rounds j max_users inside) (omega (arith, room)))
        λ _ t a.
          let same : chosen g t.user_names_space rounds (suc j)
              ≡ chosen g s.user_names_space rounds (suc j) =
            ap (λ (f : ℕ → UserName). chosen g f rounds (suc j)) a.1 in
          Gives-weaken
            (try_names-Gives g rounds (suc j) t w a.0 (rest rounds j max_users inside)
              (omega (arith, a.2, same, room)))
            (λ u b. (b.0, b.1 ∙ a.1, omega (arith, a.2, b.2, same)))

  compile-Gives :
      (t : Text) (s : Setup)
      → regex.compiles t ≡ true
      → Gives (λ u. u ≡ s) (compile random regex t s)
  unfolding compile
  compile-Gives t s h = rw h (gave refl)

  set_group-Gives :
      (g : Group) (s : Setup)
      → Works g
      → s.mode ≡ initial
      → length s.users + chosen g s.user_names_space max_users 0 ≤ max_users
      → Gives (Added (chosen g s.user_names_space max_users 0) s) (set_group random regex g s)
  unfolding set_group
  set_group-Gives g s w m room = Gives-bind _ (compile-Gives g.filter_name_regexp s w.4) λ _ t e.
      Gives-bind _ (compile-Gives g.filter_server_regexp t w.5) λ _ u e'.
        subst
          (λ x.
            Gives (Added (chosen g s.user_names_space max_users 0) s)
              (try_names random regex g max_users 0 x))
          (sym (e' ∙ e)) (try_names-Gives g max_users 0 s w m (all max_users) room)

  room_first : (l a b m : ℕ) → l + (a + b) ≤ m → l + a ≤ m
  room_first l a b m h = omega arith

  room_rest : (l k a b c m : ℕ) → l + (a + b) ≤ m → k ≡ l + a → c ≡ b → k + c ≤ m
  room_rest l k a b c m h e f = omega arith

  total : (l k a b c u : ℕ) → u ≡ k + c → k ≡ l + a → c ≡ b → u ≡ l + (a + b)
  total l k a b c u d e f = omega arith

  set_groups-Gives :
      (gs : List Group) (s : Setup)
      → All Works gs
      → s.mode ≡ initial
      → length s.users + chosen_by gs s.user_names_space ≤ max_users
      → Gives (Added (chosen_by gs s.user_names_space) s) (set_groups random regex gs s)
  unfolding set_groups chosen_by
  set_groups-Gives [] s w m room = gave (m, refl, omega arith)
  set_groups-Gives (g ∷ gs) s w m room =
      Gives-bind _ (set_group-Gives g s w.0 m (room_first (length s.users) _ _ _ room)) λ _ t a.
        let same : chosen_by gs t.user_names_space ≡ chosen_by gs s.user_names_space =
          ap (λ (f : ℕ → UserName). chosen_by gs f) a.1 in
        Gives-weaken
          (set_groups-Gives gs t w.1 a.0 (room_rest (length s.users) _ _ _ _ _ room a.2 same))
          (λ u b. (b.0, b.1 ∙ a.1, total (length s.users) _ _ _ _ _ b.2 a.2 same))

  -- set_users_properities comes back, with exactly one user for each block and each name that the
  -- block's filters choose, if the scanner is at its start, the filters of every block compile, its
  -- patterns print for every index of the table into 1000 bytes and leave the scanner at its start,
  -- and these users are not more than the table holds.
  pub set_users_properities-Gives :
      (lib : Jabber) (now : ℕ) (xcfg : XmlNode) (s : Setup)
      → let groups =
          map
            (read_group lib now)
            (tags_named lib (some (codes "user_properities")) (tag_iter_init lib (some xcfg))) in
        All Works groups
        → s.mode ≡ initial
        → chosen_by groups s.user_names_space ≤ max_users
        → Gives
            (λ t. (t.mode ≡ initial) × (length t.users ≡ chosen_by groups s.user_names_space))
            (set_users_properities random regex lib now xcfg s)
  unfolding set_users_properities
  set_users_properities-Gives lib now xcfg s w m room =
      Gives-weaken (set_groups-Gives _ _ w m (omega (arith, room)))
        (λ t a. (a.0, omega (arith, a.2)))
