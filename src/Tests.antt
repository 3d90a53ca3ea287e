-- ===== src/Tests.antt =====
-- Each theorem with conditions at a concrete input.
mod Fixtures
mod Passes
mod Patterns
mod Setups
mod Shipped
mod Turns
use jab_simul.Shared.{
  ℕ, zero, suc, ◌+◌, ◌-◌, ◌≤◌, ◌<◌, ◌≡◌, ◌≢◌, ◌↔◌, ◌*◌, ◌/◌, ◌==◌, inl, get_elem?, refl, min, List,
  [], ◌∷◌, ◌++◌, Option, none, some, Bool, true, false, ◌||◌, leb, Text, codes, arith, length,
  if◌then◌else◌,
}
use jab_simul.Shared.Int.{ℤ, pos, negsuc, div_ℤ, ◌+ℤ◌, ◌≤ℤ◌, leb_ℤ}
use jab_simul.Jabber.{Jabber, Compares, tag, empty}
use jab_simul.State.{Session, User, Slots, Xht, Conn, logged_in, login_response, kill_connection}
use jab_simul.State.Monad.{After, Returns, returns}
use jab_simul.Stats.{init_stat, add_stats, get_stat, get_div_stat}
use jab_simul.Stats.Window.{total, last_values, get_stat-add_stats, get_div_stat-add_stats}
use jab_simul.Slots.{init_slots, take_place, free_place, refill, take_from, push_places, set_place}
use jab_simul.Slots.Invariant.{
  IsValid, TakesFree, Reached, start, then_step, take, free, take_place-TakesFree, Reached-IsValid,
  init-IsValid,
}
use jab_simul.Conn.{
  conn_write_str, conn_write, conn_flush, conn_kill, user_conn_kill, flush_queue,
  max_packs_buffered,
}
use jab_simul.Conn.Accounting.{
  Accounted, write_str-Accounted, flush-Accounted, write-Accounted, conn_kill-Accounted,
  user_conn_kill-Accounted,
}
use jab_simul.Conn.Order.{
  PollsWell, bytes, StopsRightly, queue_of, flush_queue-bytes, write_str-PollsWell, flush-PollsWell,
  write_str-queue,
}
use jab_simul.Responses.{node_create, node_get}
use jab_simul.Responses.Queue.{TakesNewest, node_get-TakesNewest, node_get-node_create}
use jab_simul.Ids.{make_jcom_id}
use jab_simul.Ids.Range.{make_jcom_id-injective, make_jcom_id-repeats}
use jab_simul.Primes.{fit_prime, first_fitting, prime_numbers, tags_named, xhash_get_nth}
use jab_simul.Primes.Fit.{Fits, fit_prime-Fits}
use jab_simul.Primes.Iteration.{Loops, tag_iter-tags_named}
use jab_simul.Primes.Nth.{entries, xhash_get_nth-entries}
use jab_simul.Karma.{karma_chk}
use jab_simul.Karma.Bounds.{HasSettings, Kept, karma_chk-Kept}
use jab_simul.Timer.{Time}
use jab_simul.Timer.Interval.{Spaced, firings, firings-Spaced}
use jab_simul.Repeater.{is_due, next_activation, user_handle_repeater_queue}
use jab_simul.Repeater.Spread.{next_activation-spread}
use jab_simul.Conn.{flush_conn, after_flush, flush_step}
use jab_simul.Conn.{SockResult, wrote, would_block}
use jab_simul.Conn.Drain.{Flushes, conn_flush-Flushes}
use jab_simul.Conn.Kill.{Ends, user_conn_kill-Ends}
use jab_simul.Connect.{user_connect}
use jab_simul.Connect.Opens.{ConnectEnds, user_connect-ConnectEnds}
use jab_simul.Handlers.{handle_user_node, handle_message, is_error, node_id}
use jab_simul.Handlers.Login.{Asked, login_plain-answered}
use jab_simul.Handlers.Messages.{kind_of, handle_message-Counted}
use jab_simul.Handlers.Messages
use jab_simul.Requests.{user_do_login_plain}
use jab_simul.Life.Progress.{Moved, user_do_your_job-Moved}
use jab_simul.Events.Picks.{ev_del_roster-back}
use jab_simul.Events.{ev_del_roster}
use jab_simul.Poll.{clock_of}
use jab_simul.Poll.Clock.{clock_of-seconds}
use jab_simul.Events.{run_event}
use jab_simul.Life.{user_do_your_job, user_create}
use jab_simul.Poll.{Revents, handle_place, handle_pollout}
use jab_simul.Sound.Rules.{WellKept}
use jab_simul.Sound.Handlers.{handle_user_node-Keeps}
use jab_simul.Sound.Events.{run_event-Keeps}
use jab_simul.Sound.Queue.{Sound, user_handle_repeater_queue-Sound}
use jab_simul.Sound.Pass.{user_do_your_job-Sound, handle_place-Sound}
use jab_simul.Sound.Runs.{rest, then_pass, polled, Runs-Sound}
use jab_simul.Sound.Start.{user_create-Sound}
use jab_simul.Roster.Load.{roster_hash_from_xml, count_tags}
use jab_simul.Roster.Load.Count.{Counted, roster_hash_from_xml-Counted}
use Fixtures.{
  full_table, lib, lib-Compares, xh, size, xh-XhashLaws, table, line, session, slow_socket,
  waiting_session, busy_session, network, brake, back, contact,
}

abbrev five : List ℤ
five = pos 4 ∷ pos 7 ∷ pos 1 ∷ pos 9 ∷ pos 2 ∷ []

get_stat-add_stats_example :
    get_stat (add_stats (init_stat table 0 3) 0 five) 0 ≡ total (last_values 3 five)
get_stat-add_stats_example = get_stat-add_stats table 0 3 five (ground arith)

sum_of_three : get_stat (add_stats (init_stat table 0 3) 0 five) 0 ≡ pos 12
unfolding ◌+ℤ◌
sum_of_three = get_stat-add_stats_example

get_div_stat-add_stats_example :
    get_div_stat (add_stats (init_stat table 0 3) 0 (pos 5 ∷ five)) 0
    ≡ div_ℤ (total (last_values 3 (pos 5 ∷ five))) (min 3 (length (pos 5 ∷ five)))
get_div_stat-add_stats_example = get_div_stat-add_stats table 0 3 (pos 5) five (ground arith)

take_place-TakesFree_example : TakesFree 11 7 init_slots (take_place init_slots 7)
take_place-TakesFree_example = take_place-TakesFree 11 7 init_slots init-IsValid

abbrev held : Option (ℕ × Slots) → ℕ × Slots
held none = (0, init_slots)
held (some taken) = taken

took_first : take_place init_slots 7 ≡ some (held (take_place init_slots 7))
unfolding take_place refill take_from init_slots push_places
took_first = refl

Reached-IsValid_example :
    (top : ℕ) × IsValid top
      (free_place (held (take_place init_slots 7)).1 (held (take_place init_slots 7)).0)
unfolding take_place refill take_from init_slots push_places set_place
Reached-IsValid_example = Reached-IsValid (
    then_step (then_step start (take 7 (held (take_place init_slots 7)).0 took_first))
      (free 7 (held (take_place init_slots 7)).0 refl refl))

node_get-TakesNewest_example :
    TakesNewest
      (codes "JCOM_1")
      (node_create (codes "JCOM_1") none 5 [])
      (node_get lib (codes "JCOM_1") (node_create (codes "JCOM_1") none 5 []))
node_get-TakesNewest_example =
    node_get-TakesNewest lib lib-Compares (codes "JCOM_1") (node_create (codes "JCOM_1") none 5 [])

node_get-node_create_example :
    node_get lib (codes "JCOM_1") (node_create (codes "JCOM_1") (some login_response) 5 [])
    ≡ (some (record { id = codes "JCOM_1"; send_time = 5; callback = some login_response }), [])
node_get-node_create_example =
    node_get-node_create lib lib-Compares (codes "JCOM_1") (some login_response) 5 []

make_jcom_id-injective_example : ◌≡◌ {A = ℕ} 41 41
make_jcom_id-injective_example = make_jcom_id-injective 41 41 (ground arith) (ground arith) refl

make_jcom_id-repeats_example : make_jcom_id 12345 ≡ make_jcom_id 1234
make_jcom_id-repeats_example = make_jcom_id-repeats 12345 (ground arith) (ground arith)

flush_queue-bytes_example :
    ((flush_queue slow_socket 0 line.writer).out
        ++ bytes (flush_queue slow_socket 0 line.writer).left
      ≡ bytes line.writer)
    × StopsRightly
        (flush_queue slow_socket 0 line.writer).left
        (flush_queue slow_socket 0 line.writer).stop
flush_queue-bytes_example = flush_queue-bytes slow_socket 0 line.writer

write_str-queue_example :
    Returns
      (λ done t.
        (done ≡ false || leb (length line.writer) max_packs_buffered)
        × (queue_of t ≡ (if done then line.writer ++ some (codes "ef") ∷ [] else line.writer)))
      (conn_write_str (codes "ef") false session)
write_str-queue_example = write_str-queue (codes "ef") false line session refl

two_fit : fit_prime (count_tags lib (lib.children (some 1))) ≡ some 5
unfolding fit_prime first_fitting count_tags
two_fit = refl

roster_hash_from_xml-Counted_example :
    Returns
      (λ _ t. Counted size (pos 0) t × (t.user.roster_hash ≢ none))
      (roster_hash_from_xml lib xh (some 1) true session)
unfolding ◌+ℤ◌
roster_hash_from_xml-Counted_example =
    roster_hash_from_xml-Counted lib xh size xh-XhashLaws (pos 0) (some 1) true 5 session two_fit
      (refl, refl)

fit_prime-Fits_example : Fits prime_numbers 20 (fit_prime 20)
fit_prime-Fits_example = fit_prime-Fits 20

tag_iter-tags_named_example :
    Loops lib (some (codes "item")) (2 ∷ 3 ∷ []) (tags_named lib (some (codes "item")) (2 ∷ 3 ∷ []))
tag_iter-tags_named_example = tag_iter-tags_named lib (some (codes "item")) (2 ∷ 3 ∷ [])

xhash_get_nth-entries_example :
    xhash_get_nth (some full_table) 1 ≡ get_elem? (entries full_table.zen) 1
xhash_get_nth-entries_example = xhash_get_nth-entries full_table 1

brake-HasSettings : HasSettings brake
brake-HasSettings = record {
  penalty_low = ground arith;
  max_positive = ground arith;
  restore_low = ground arith;
  dec_positive = ground arith;
}

karma_chk-Kept_example :
    Kept brake (karma_chk brake (pos 900) 5000000).0
    × (((karma_chk brake (pos 900) 5000000).1 ≡ true)
        ↔ (karma_chk brake (pos 900) 5000000).0.val ≤ℤ pos 0)
karma_chk-Kept_example = karma_chk-Kept brake (pos 900) 5000000 brake-HasSettings (ground arith)

abbrev second : ℕ → Time
second n = record { sec = n; usec = 0 }

firings-Spaced_example :
    Spaced
      (pos 1500)
      (second 0)
      (firings (λ _. second 0) 3 (pos 1500) (second 1 ∷ second 2 ∷ second 3 ∷ []))
firings-Spaced_example =
    firings-Spaced (λ _. second 0) 3 (pos 1500) (second 1 ∷ second 2 ∷ second 3 ∷ [])

next_activation-spread_example :
    (n : ℕ) × (next_activation (pos 60000000) 700 41 ≡ pos n)
    × (100 * 700 + 85 * 60000000 ≤ 100 * n)
    × (100 * n ≤ 100 * 700 + 115 * 60000000)
next_activation-spread_example = next_activation-spread 60000000 700 41

user_conn_kill-Ends_example : Ends session (user_conn_kill session)
user_conn_kill-Ends_example = user_conn_kill-Ends session

user_connect-ConnectEnds_example :
    ConnectEnds 11 network waiting_session (user_connect network 5 waiting_session)
user_connect-ConnectEnds_example =
    user_connect-ConnectEnds 11 network 5 waiting_session init-IsValid
