-- ===== src/Events/Picks.antt =====
-- A random entry of the roster: ev_del_roster and makeUserName_defined_in_xml of
-- jab_simul/jab_simul-repeater.c.
use jab_simul.Shared.{
  ℕ, zero, suc, ◌%◌, ◌≤◌, ◌<◌, ◌≡◌, ◌≢◌, refl, sym, ◌∙◌, List, [], ◌∷◌, none, some, Bool, true,
  Text, length, get_elem?, arith, inl, inr, Bool-cases, if◌then◌else◌,
}
use jab_simul.Shared.Int.{pos, ltb_ℤ}
use jab_simul.Jabber.{Jabber}
use jab_simul.State.{Session, Conn, Xht}
use jab_simul.State.Monad.{
  Outcome, returns, exits, faults, Returns, Returns-bind, choose-cases, choose, fault, set_counts,
  skip, ◌>>=◌,
}
use jab_simul.Primes.{xhash_get_nth}
use jab_simul.Primes.Nth.{entries, xhash_get_nth-entries}
use jab_simul.Conn.{conn_write, enqueue}
use jab_simul.Requests.{new_id, user_store_xml_info}
use jab_simul.Stanzas.{user_do_adddel_roster_item}
use jab_simul.Roster.Load.{Xhash}
use jab_simul.Events.{Outside, ev_del_roster}

get_elem?-within {ℓ} : {A : Type ℓ} (xs : List A) (i : ℕ) → i < length xs → get_elem? xs i ≢ none
get_elem?-within [] i h e = absurd (omega arith)
get_elem?-within (x ∷ xs) zero h e = cc
get_elem?-within (x ∷ xs) (suc i) h e = get_elem?-within xs i (omega arith) e

-- The session after random() was called once.
abbrev drawn_next : Session → Session
drawn_next s = record s { globals = record s.globals { drawn = suc s.globals.drawn } }

-- Any random number picks an entry of a table that has some.
pick-found :
    (h : Xht) (r n : ℕ) → n ≡ length (entries h.zen) → 0 < n → xhash_get_nth (some h) (r % n) ≢ none
pick-found h r n e some_there absent =
    get_elem?-within (entries h.zen) (r % n) (omega (arith, e))
      (sym (xhash_get_nth-entries h (r % n)) ∙ absent)

module _ (lib : Jabber) (xh : Xhash) (out : Outside) where
  asked-back :
      (now : ℕ) (jid name : Text) (del : Bool) (c : Conn) (s : Session)
      → s.user.conn ≡ some c
      → Returns
          (λ _ t. t.globals.counts.ev_del_rosters ≡ s.globals.counts.ev_del_rosters)
          (user_do_adddel_roster_item lib now jid name del s)
  unfolding user_do_adddel_roster_item new_id user_store_xml_info conn_write enqueue
  asked-back now jid name del c s there = ground (arith, there)

  picked :
      (now : ℕ) (c : Conn) (h : Xht) (num : ℕ) (s : Session)
      → s.user.conn ≡ some c
      → xhash_get_nth (some h) num ≢ none
      → Returns
          (λ _ t. t.globals.counts.ev_del_rosters ≤ suc s.globals.counts.ev_del_rosters)
          (choose
            (xhash_get_nth (some h) num)
            fault
            (λ item. do
              asked ← user_do_adddel_roster_item lib now item.jid [] true
              if asked
                  then set_counts (λ c. record c { ev_del_rosters = suc c.ev_del_rosters })
                  else skip)
            s)
  picked now c h num s there found =
      choose-cases
        (Returns (λ _ t. t.globals.counts.ev_del_rosters ≤ suc s.globals.counts.ev_del_rosters)) _ _
        s (xhash_get_nth (some h) num) (λ absent. absurd (found absent))
        λ item e.
          Returns-bind (λ _ t. t.globals.counts.ev_del_rosters ≡ s.globals.counts.ev_del_rosters) _
            _ _ (asked-back now item.jid [] true c s there) λ asked t same. ground (arith, same)

  -- With a connection, and a counter of the roster that is the number of entries of its table,
  -- ev_del_roster comes back: it reads no entry that is not there, whatever the random number is. It
  -- counts at most one request, and none from an empty roster.
  pub ev_del_roster-back :
      (now : ℕ) (c : Conn) (h : Xht) (s : Session)
      → s.user.conn ≡ some c
      → s.user.roster_hash ≡ some h
      → s.user.roster_count ≡ pos (length (entries h.zen))
      → Returns
          (λ _ t.
            (t.globals.counts.ev_del_rosters ≤ suc s.globals.counts.ev_del_rosters)
            × (length (entries h.zen) ≡ 0
                → t.globals.counts.ev_del_rosters ≡ s.globals.counts.ev_del_rosters))
          (ev_del_roster lib xh out now s)
  unfolding ev_del_roster
  ev_del_roster-back now c h s there table count =
      rw (table, count)
        (elim (Bool-cases (ltb_ℤ (pos 0) (pos (length (entries h.zen))))) [
          | inl some_there ↦ rw some_there (
              weaken some_there _ (
                picked now c h (s.globals.random s.globals.drawn % length (entries h.zen))
                  (drawn_next (record s {
                    user = record s.user {
                      roster_count = pos (length (entries h.zen));
                      roster_hash = some h;
                    };
                  }))
                  there
                  (pick-found h (s.globals.random s.globals.drawn) (length (entries h.zen)) refl
                    (ground (arith, some_there)))))
          | inr empty_table ↦ rw empty_table (omega arith, λ e. refl)
        ])
    where
      weaken :
          ltb_ℤ (pos 0) (pos (length (entries h.zen))) ≡ true
          → (o : Outcome (Unit {0}))
          → Returns (λ _ t. t.globals.counts.ev_del_rosters ≤ suc s.globals.counts.ev_del_rosters) o
          → Returns
              (λ _ t.
                (t.globals.counts.ev_del_rosters ≤ suc s.globals.counts.ev_del_rosters)
                × (length (entries h.zen) ≡ 0
                    → t.globals.counts.ev_del_rosters ≡ s.globals.counts.ev_del_rosters))
              o
      weaken e (returns a t) le = (le, λ none_there. absurd (ground (arith, e, none_there)))
      weaken e (exits code) le = le
      weaken e faults le = le
