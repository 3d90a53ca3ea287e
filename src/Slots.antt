-- ===== src/Slots.antt =====
-- Places for connections: the free list `npfd` and the highest place `mpfd` of a jpolld_thread, in
-- jab_simul/jab_simul-conn.c, jab_simul/jab_simul-user.c and jab_simul/thread-main.c.
pub mod Invariant
use jab_simul.Shared.{
  ℕ, zero, suc, ◌+◌, ◌-◌, List, [], ◌∷◌, Option, none, some, ltb, ◌==◌, if◌then◌else◌,
}
use jab_simul.State.{Slots}

abbrev pub max_pfds : ℕ
max_pfds = 8000

-- `more` turns of the loop, from the highest place down to `mpfd + 1`: the lowest ends in front.
unfoldable pub push_places : ℕ → ℕ → List ℕ → List ℕ
push_places zero mpfd free = free
push_places (suc more) mpfd free = push_places more mpfd ((mpfd + suc more) ∷ free)

-- At most ten places, and none above MAX_PFDS. `max_pfds - mpfd` stops at 0 where C would be
-- negative; the loop makes no turn in either case.
abbrev pub batch : ℕ → ℕ
batch mpfd = if ltb 10 (max_pfds - mpfd) then 10 else max_pfds - mpfd

unfoldable pub add_conns : Slots → Slots
unfolding push_places
add_conns t = record t { npfd = push_places (batch t.mpfd) t.mpfd t.npfd }

unfoldable pub set_place : ℕ → Option ℕ → (ℕ → Option ℕ) → ℕ → Option ℕ
set_place loc holder conns j = if j == loc then holder else conns j

-- thread_init: one batch of places from 2 on, and no connection.
unfoldable pub init_slots : Slots
unfolding add_conns
init_slots = add_conns (record { npfd = []; mpfd = 1; conns = λ _. none })

-- The free list that user_connect reads: a new batch if it is empty.
unfoldable pub refill : Slots → Slots
unfolding add_conns
refill t = elim t.npfd [ [] ↦ add_conns t | loc ∷ rest ↦ t ]

-- The place at the front of the free list, handed to a user. There may be none.
unfoldable pub take_from : List ℕ → ℕ → Slots → Option (ℕ × Slots)
take_from [] holder t = none
take_from (loc ∷ rest) holder t = some (
  loc,
  record {
    npfd = rest;
    mpfd = if ltb t.mpfd loc then loc else t.mpfd;
    conns = set_place loc (some holder) t.conns;
  },
)

-- The read of `t->npfd->pos` is undefined if the list is still empty.
unfoldable pub take_place : Slots → ℕ → Option (ℕ × Slots)
unfolding refill take_from set_place
take_place t holder = let r = refill t in take_from r.npfd holder r

-- jpolld_conn_kill gives the place back.
unfoldable pub free_place : Slots → ℕ → Slots
unfolding set_place
free_place t loc = record {
  npfd = loc ∷ t.npfd;
  mpfd = if t.mpfd == loc then t.mpfd - 1 else t.mpfd;
  conns = set_place loc none t.conns;
}
