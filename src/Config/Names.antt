-- ===== src/Config/Names.antt =====
-- generate_user_names_space of jab_simul/jab_simul-main.c.
use jab_simul.Shared.{
  ℕ, zero, suc, ◌+◌, List, [], ◌∷◌, Option, none, some, true, false, Text, codes, ltb, ◌==◌,
  if◌then◌else◌,
}
use jab_simul.Shared.Int.{ℤ, pos, negsuc, ◌+ℤ◌, ◌-ℤ◌, leb_ℤ, pos_part}
use jab_simul.Jabber.{Jabber, XmlNode}
use jab_simul.Primes.{tag_iter_init, tags_named}
use jab_simul.Events.{max_users}
use jab_simul.Config.{UserName, S, ◌>>=◌, ◌>>◌, pure, fault, get, modify, print_name}

-- `enabled`, `user[0]` and `server[0]` are reset; the other fields keep what they held.
unfoldable pub cleared : UserName → UserName
cleared n = record n { user = []; server = []; enabled = false }

abbrev pub set_name : ℕ → UserName → (ℕ → UserName) → ℕ → UserName
set_name k n names j = if j == k then n else names j

-- The bounds that a generator gives, from 0 to -1 if it gives none.
unfoldable pub bound : Jabber → XmlNode → Text → ℤ → ℤ
bound lib generator name preset = elim (lib.get_tag (some generator) (codes "range")) [
  | none ↦ preset
  | some range ↦ lib.j_atoi (lib.get_tag_data (some range) name) preset
]

-- How often `for (i=range_from;i<=range_to;i++)` runs.
unfoldable pub rounds_of : ℤ → ℤ → ℕ
rounds_of from to = if leb_ℤ from to then pos_part (to -ℤ from) + 1 else 0

module _ (random : ℕ → ℕ) where
  unfoldable pub print_server : ℤ → Text → Option Text → S Text
  print_server i old none = pure old
  print_server i old (some pattern) = print_name random i 50 old pattern

  -- An entry of the table; an index outside of it is not tested by the code.
  unfoldable pub fill_name : Text → Option Text → ℤ → S (Unit {0})
  unfolding print_server
  fill_name name server (negsuc i) = fault
  fill_name name server (pos i) = do
    s ← get
    let old = s.user_names_space i
    user ← if ltb i max_users then print_name random (pos i) 50 old.user name else fault
    host ← print_server (pos i) old.server server
    modify (λ s. record s {
      user_names_space =
          set_name i
            (record {
              user = user;
              server = host;
              enabled = true;
              can_receive_message = true;
              can_be_added_to_roster = true;
            })
            s.user_names_space;
    })

  -- The loop with `rounds` rounds left.
  unfoldable pub fill_names : Text → Option Text → ℕ → ℤ → S (Unit {0})
  unfolding fill_name
  fill_names name server zero i = pure tt
  fill_names name server (suc rounds) i = do
    fill_name name server i
    fill_names name server rounds (i +ℤ pos 1)

  unfoldable pub run_generator : Jabber → XmlNode → S (Unit {0})
  unfolding bound rounds_of fill_names
  run_generator lib x =
      let from = bound lib x (codes "from") (pos 0) in
      let to = bound lib x (codes "to") (negsuc 0) in
      elim (lib.get_tag_data (some x) (codes "name")) [
        | none ↦ pure tt
        | some name ↦
            if leb_ℤ (pos 0) to
            then fill_names name (lib.get_tag_data (some x) (codes "server")) (rounds_of from to)
                from
            else pure tt
      ]

  unfoldable pub run_generators : Jabber → List XmlNode → S (Unit {0})
  unfolding run_generator
  run_generators lib [] = pure tt
  run_generators lib (x ∷ xs) = do run_generator lib x; run_generators lib xs

  unfoldable pub generate_user_names_space : Jabber → XmlNode → S (Unit {0})
  unfolding cleared run_generators tag_iter_init tags_named
  generate_user_names_space lib xcfg = do
    modify (λ s. record s {
      user_names_space =
          λ j. if ltb j max_users then cleared (s.user_names_space j) else s.user_names_space j;
    })
    run_generators lib
        (tags_named lib (some (codes "user_names_generator")) (tag_iter_init lib (some xcfg)))
