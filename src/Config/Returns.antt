-- ===== src/Config/Returns.antt =====
-- When generate_user_names_space of jab_simul/jab_simul-main.c is run to its end: its patterns print
-- and its ranges lie in the table of names.
use jab_simul.Shared.{
  ℕ, zero, suc, ◌+◌, ◌<◌, All, ◌≡◌, refl, sym, subst, inl, inr, List, [], ◌∷◌, Option, none, some,
  true, false, ◌&&◌, Text, codes, ltb, leb, lt→ltb, if◌then◌else◌, Option-cases, arith,
}
use jab_simul.Shared.Int.{ℤ, pos, negsuc, leb_ℤ, ltb_ℤ}
use jab_simul.Jabber.{Jabber, XmlNode}
use jab_simul.Primes.{tag_iter_init, tags_named}
use jab_simul.Events.{max_users}
use jab_simul.Pattern.{initial}
use jab_simul.Pattern.Parser.{sprintf_pattern}
use jab_simul.Config.{Setup, Setting, gives, S, bind, pure, print_name}
use jab_simul.Config.Names.{
  bound, print_server, fill_name, fill_names, rounds_of, run_generator, run_generators,
  generate_user_names_space,
}
use jab_simul.Config.Space.{next_index, rounds_within}

-- The run comes back, in a state where P holds.
pub data Gives {A : Type 0} (P : Setup → Type 0) : Setting A → Type 0 where
  gave : {a : A} {s : Setup} → P s → Gives P (gives a s)

pub Gives-bind :
    {A B : Type 0} {P Q : Setup → Type 0} {r : Setting A} (f : A → S B)
    → Gives P r
    → ((a : A) (s : Setup) → P s → Gives Q (f a s))
    → Gives Q (bind r f)
Gives-bind f (gave {a} {s} h) k = k a s h

pub Gives-weaken :
    {A : Type 0} {P Q : Setup → Type 0} {r : Setting A}
    → Gives P r
    → ((s : Setup) → P s → Q s)
    → Gives Q r
Gives-weaken (gave {s = s} h) k = gave (k s h)

pub Gives-bind-bind :
    {A B C : Type 0} {P Q : Setup → Type 0} {r : Setting A} (f : A → S B) (g : B → S C)
    → Gives P r
    → ((a : A) (s : Setup) → P s → Gives Q (bind (f a s) g))
    → Gives Q (bind (bind r f) g)
Gives-bind-bind f g (gave {a} {s} h) k = k a s h

module _ (random : ℕ → ℕ) where
  -- The pattern, if there is one, prints for every index of the table into such a buffer, and leaves
  -- the scanner at its start.
  abbrev pub Prints : ℕ → Option Text → Type 0
  Prints size none = Unit {0}
  Prints size (some p) =
      (n : ℕ) (drawn : ℕ) (old : Text)
      → n < max_users
      → (t : Text) × (d : ℕ) × (sprintf_pattern (pos n) random size initial drawn old p
          ≡ some (t, initial, d))

  -- What a print leaves: the tables, and the scanner at its start.
  abbrev Quiet : Setup → Setup → Type 0
  Quiet s t = (t.mode ≡ initial) × (t.users ≡ s.users) × (t.user_names_space ≡ s.user_names_space)

  print_name-Gives :
      (n size : ℕ) (old p : Text) (s : Setup)
      → Prints size (some p)
      → n < max_users
      → s.mode ≡ initial
      → Gives (Quiet s) (print_name random (pos n) size old p s)
  unfolding print_name
  print_name-Gives n size old p s h small m =
      let (t, d, e) = h n s.drawn old small in rw (m, e) (gave (refl, refl, refl))

  print_server-Gives :
      (n : ℕ) (old : Text) (server : Option Text) (s : Setup)
      → Prints 50 server
      → n < max_users
      → s.mode ≡ initial
      → Gives (Quiet s) (print_server random (pos n) old server s)
  unfolding print_server
  print_server-Gives n old none s h small m = gave (m, refl, refl)
  print_server-Gives n old (some p) s h small m = print_name-Gives n 50 old p s h small m

  abbrev Ready : Setup → Type 0
  Ready s = s.mode ≡ initial

  fill_name-Gives :
      (name : Text) (server : Option Text) (k : ℕ) (s : Setup)
      → Prints 50 (some name)
      → Prints 50 server
      → k < max_users
      → Ready s
      → Gives Ready (fill_name random name server (pos k) s)
  unfolding fill_name
  fill_name-Gives name server k s hn hs small m = rw (lt→ltb _ _ small) (
      Gives-bind _ (print_name-Gives k 50 (s.user_names_space k).user name s hn small m) λ user t q.
        Gives-bind _ (print_server-Gives k (s.user_names_space k).server server t hs small q.0)
          λ host u q'. gave q'.0)

  fill_names-Gives :
      (name : Text) (server : Option Text) (rounds k : ℕ) (s : Setup)
      → Prints 50 (some name)
      → Prints 50 server
      → ((n : ℕ) → (leb k n && ltb n (k + rounds)) ≡ true → n < max_users)
      → Ready s
      → Gives Ready (fill_names random name server rounds (pos k) s)
  unfolding fill_names
  fill_names-Gives name server zero k s hn hs inside m = gave m
  fill_names-Gives name server (suc rounds) k s hn hs inside m =
      Gives-bind _ (fill_name-Gives name server k s hn hs (inside k (ground arith)) m) λ _ t ready.
        subst (λ i. Gives Ready (fill_names random name server rounds i t))
          (sym (next_index random k))
          (fill_names-Gives name server rounds (suc k) t hn hs (λ n h. inside n (ground (arith, h)))
            ready)

  -- A generator prints, and its range lies in the table.
  abbrev pub Fine : Jabber → XmlNode → Type 0
  Fine lib x =
      Prints 50 (lib.get_tag_data (some x) (codes "name"))
      × Prints 50 (lib.get_tag_data (some x) (codes "server"))
      × (leb_ℤ (pos 0) (bound lib x (codes "from") (pos 0)) ≡ true)
      × (ltb_ℤ (bound lib x (codes "to") (negsuc 0)) (pos max_users) ≡ true)

  zero_le : (m : ℕ) → leb_ℤ (pos 0) (pos m) ≡ true
  zero_le m = ground arith

  not_zero_le : (m : ℕ) → leb_ℤ (pos 0) (negsuc m) ≡ false
  not_zero_le m = ground arith

  run_range-Gives :
      (name : Text) (server : Option Text) (from to : ℤ) (s : Setup)
      → Prints 50 (some name)
      → Prints 50 server
      → leb_ℤ (pos 0) from ≡ true
      → ltb_ℤ to (pos max_users) ≡ true
      → Ready s
      → Gives Ready (
          (if leb_ℤ (pos 0) to
              then fill_names random name server (rounds_of from to) from
              else pure tt)
            s)
  run_range-Gives name server (pos k) (pos m) s hn hs low high ready = rw (zero_le m) (
      fill_names-Gives name server (rounds_of (pos k) (pos m)) k s hn hs
        (λ n h. ground (arith, high, rounds_within random k m n, h)) ready)
  run_range-Gives name server (negsuc k) to s hn hs low high ready = absurd (ground (arith, low))
  run_range-Gives name server (pos k) (negsuc m) s hn hs low high ready =
      rw (not_zero_le m) (gave ready)

  run_generator-Gives :
      (lib : Jabber) (x : XmlNode) (s : Setup)
      → Fine lib x
      → Ready s
      → Gives Ready (run_generator random lib x s)
  unfolding run_generator
  run_generator-Gives lib x s fine ready =
      elim (Option-cases (lib.get_tag_data (some x) (codes "name"))) [
        | inl nothing ↦ rw (run_generator, nothing) (gave ready)
        | inr (name, e) ↦
            rw (run_generator, e)
              (run_range-Gives name (lib.get_tag_data (some x) (codes "server"))
                (bound lib x (codes "from") (pos 0)) (bound lib x (codes "to") (negsuc 0)) s
                (subst (Prints 50) e fine.0) fine.1 fine.2 fine.3 ready)
      ]

  run_generators-Gives :
      (lib : Jabber) (xs : List XmlNode) (s : Setup)
      → All (Fine lib) xs
      → Ready s
      → Gives Ready (run_generators random lib xs s)
  unfolding run_generators
  run_generators-Gives lib [] s fine ready = gave ready
  run_generators-Gives lib (x ∷ xs) s fine ready =
      Gives-bind _ (run_generator-Gives lib x s fine.0 ready)
        λ _ t r. run_generators-Gives lib xs t fine.1 r

  -- generate_user_names_space comes back, with the scanner at its start, if the scanner is there before and each
  -- generator is fine: what its patterns print fits into the 50 bytes of a name, and its range
  -- lies in the table.
  pub generate_user_names_space-Gives :
      (lib : Jabber) (xcfg : XmlNode) (s : Setup)
      → All
          (Fine lib)
          (tags_named lib (some (codes "user_names_generator")) (tag_iter_init lib (some xcfg)))
      → s.mode ≡ initial
      → Gives (λ t. t.mode ≡ initial) (generate_user_names_space random lib xcfg s)
  unfolding generate_user_names_space
  generate_user_names_space-Gives lib xcfg s fine ready = run_generators-Gives lib _ _ fine ready
