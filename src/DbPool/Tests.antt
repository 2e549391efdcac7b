-- ===== src/DbPool/Tests.antt =====
-- The pool of database connections at concrete inputs.
use mathlib.Core.Option
use gb_server.Base.{ℕ, ◌+◌, ◌≡◌, refl, Bool, true, false, Option, none, some, List, [], ◌∷◌, arith}
use gb_server.DbPool.{
  idle_one, given_back, create_pool, start_pool, do_acquire, do_release, on_heartbeat,
}
use gb_server.DbPool.Accounts.{Accounts, started, db_run-Accounts}
use gb_server.DbPool.Runs.{acquires, Lending, DbEvent, gives_back, beats, db_step, db_run}
use gb_server.DbPool.Starving.{db_run-starves}
use gb_server.DbPool.Turns.{Turned, db_run-InTurn}
use gb_server.DbPool.Waiting.{asked}

abbrev all_alive : ℕ → Bool
all_alive conn = true

abbrev none_alive : ℕ → Bool
none_alive conn = false

abbrev connects : ℕ → Option ℕ
connects attempt = some (100 + attempt)

-- A pool of one connection, which goes from one caller to another and then breaks, while a third waits.
abbrev some_calls : List DbEvent
some_calls =
    acquires all_alive none 1
    ∷ acquires all_alive (some 7) 2
    ∷ gives_back all_alive 0
    ∷ acquires all_alive none 3
    ∷ []

abbrev then_broken : List DbEvent
then_broken =
    gives_back none_alive 0 ∷ beats false all_alive connects ∷ acquires all_alive none 4 ∷ []

abbrev some_state : Lending
some_state = record {
  pool = record {
    min_pool_size = 1;
    max_pool_size = 1;
    idle = [];
    total_connections = 1;
    idle_count = 0;
    active_count = 0;
    running = true;
    waiters = 3 ∷ [];
    heartbeat_armed = true;
    answers = idle_one 1 100 ∷ given_back 2 100 ∷ [];
  };
  out = 100 ∷ [];
}

some_calls-some_state : db_run some_calls (started connects 1 1) ≡ some some_state
unfolding Option.bind db_step create_pool start_pool do_acquire do_release on_heartbeat
some_calls-some_state = refl

-- The caller that waits is not served, although the heartbeat makes a new connection; one that
-- asks later takes it.
then_broken-served :
    Option.map (λ (s : Lending). s.pool.answers) (db_run then_broken some_state)
    ≡ some (idle_one 1 100 ∷ given_back 2 100 ∷ idle_one 4 101 ∷ [])
unfolding Option.bind db_step do_acquire do_release on_heartbeat
then_broken-served = refl

-- One connection is out, and the counter of the active ones is 0.
given_back-active :
    Option.map (λ (s : Lending). s.pool.active_count) (db_run then_broken some_state) ≡ some 0
unfolding Option.bind db_step do_acquire do_release on_heartbeat
given_back-active = refl

db_run-Accounts_example :
    (s : Lending) × (db_run some_calls (started connects 1 1) ≡ some s) × Accounts 1 s
db_run-Accounts_example =
    db_run-Accounts 1 1 1 connects some_calls (unfold create_pool in omega arith)
      (unfold create_pool in omega arith) (omega arith)

db_run-InTurn_example : Turned (asked then_broken) some_state (db_run then_broken some_state)
db_run-InTurn_example =
    db_run-InTurn 1 1 connects some_calls then_broken some_state (omega arith) (omega arith)
      some_calls-some_state

db_run-starves_example :
    (t : Lending) × (db_run then_broken some_state ≡ some t)
    × (late : List ℕ) × (t.pool.waiters ≡ 3 ∷ late)
db_run-starves_example =
    db_run-starves 1 1 connects some_calls then_broken some_state (omega arith) (omega arith)
      some_calls-some_state ((λ c. refl), (tt, (tt, tt)))
