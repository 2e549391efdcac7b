-- ===== src/DbPool.antt =====
-- src/db/postgres/db_pool.cpp: the pool of database connections. Its functions run on the thread of
-- its io_context one after the other. A connection and a promise are numbers; whether a connection is
-- alive and what an attempt to connect gives are arguments.
pub mod Runs
pub mod Counts
pub mod Totals
pub mod Accounts
pub mod Waiting
pub mod Turns
pub mod Starving
mod Tests
use mathlib.Core.Option
use gb_server.Base.{
  ltb, ◌==◌, if◌then◌else◌, ℕ, zero, suc, ◌+◌, ◌-◌, ◌%◌, ◌^◌, min, Bool, true, false, ◌||◌, not,
  Option, none, some, List, [], ◌∷◌, ◌++◌, map,
}

-- What a promise is set to: a connection that was idle, one that is new, one that another caller
-- has given back, or nullptr when the pool is stopped.
pub data Answer : Type 0 where
  idle_one new_one given_back : ℕ → ℕ → Answer
  closed : ℕ → Answer

-- The counters are of type size_t. `heartbeat_armed` says that the timer's wait has begun.
pub record DbPool : Type 0 where
  pub min_pool_size : ℕ
  pub max_pool_size : ℕ
  pub idle : List ℕ
  pub total_connections : ℕ
  pub idle_count : ℕ
  pub active_count : ℕ
  pub running : Bool
  pub waiters : List ℕ
  pub heartbeat_armed : Bool
  pub answers : List Answer

abbrev pub size_inc : ℕ → ℕ
size_inc n = (n + 1) % 2 ^ 64

abbrev pub size_dec : ℕ → ℕ
size_dec n = (n + (2 ^ 64 - 1)) % 2 ^ 64

-- The constructor with its defaults.
unfoldable pub create_pool : ℕ → ℕ → DbPool
create_pool min_size max_size = record {
  min_pool_size = if min_size == 0 then 4 else min_size;
  max_pool_size = if max_size == 0 then 32 else max_size;
  idle = [];
  total_connections = 0;
  idle_count = 0;
  active_count = 0;
  running = false;
  waiters = [];
  heartbeat_armed = false;
  answers = [];
}

abbrev set_value : Answer → DbPool → DbPool
set_value a p = record p { answers = p.answers ++ a ∷ [] }

-- `idle_.enqueue` with its counter
unfoldable pub put_idle : ℕ → DbPool → DbPool
put_idle conn p = record p { idle = p.idle ++ conn ∷ []; idle_count = size_inc p.idle_count }

unfoldable pub start_heartbeat : DbPool → DbPool
start_heartbeat p = record p { heartbeat_armed = true }

-- A connection that an attempt gave goes to the idle ones.
unfoldable pub add_created : Option ℕ → DbPool → DbPool
unfolding put_idle
add_created none p = p
add_created (some conn) p =
    put_idle conn (record p { total_connections = size_inc p.total_connections })

abbrev pub count_created : Option ℕ → ℕ → ℕ
count_created none n = n
count_created (some conn) n = n + 1

-- The loop of `Start` over `to_create`; `connect` has the outcomes of the attempts, the last first.
unfoldable pub create_initial : (ℕ → Option ℕ) → ℕ → ℕ × DbPool → ℕ × DbPool
unfolding add_created
create_initial connect zero r = r
create_initial connect (suc left) (created, p) =
    create_initial connect left (count_created (connect left) created, add_created (connect left) p)

unfoldable pub start_pool : (ℕ → Option ℕ) → DbPool → Bool × DbPool
unfolding create_initial start_heartbeat
start_pool connect p =
    let to_create = min p.min_pool_size p.max_pool_size in
    let (created, p') = create_initial connect to_create (0, record p { running = true }) in
    (ltb 0 created || to_create == 0, start_heartbeat p')

-- The loop of `Stop` over the idle connections, each of which it closes.
unfoldable pub close_idle : List ℕ → DbPool → DbPool
close_idle [] p = p
close_idle (conn ∷ rest) p = close_idle rest (record p {
  idle = rest;
  idle_count = size_dec p.idle_count;
  total_connections = size_dec p.total_connections;
})

-- The loop of `Stop` over the waiters.
unfoldable pub close_waiters : List ℕ → DbPool → DbPool
close_waiters [] p = p
close_waiters (promise ∷ rest) p =
    close_waiters rest (set_value (closed promise) (record p { waiters = rest }))

unfoldable pub stop_pool : DbPool → DbPool
unfolding close_idle close_waiters
stop_pool p =
    let q = record p { running = false; heartbeat_armed = false } in
    let q' = close_idle q.idle q in close_waiters q'.waiters q'

-- The second and the third step of `DoAcquire`.
unfoldable pub acquire_made : Option ℕ → ℕ → DbPool → DbPool
acquire_made none promise p = record p { waiters = p.waiters ++ promise ∷ [] }
acquire_made (some conn) promise p = set_value (new_one promise conn) (record p {
  total_connections = size_inc p.total_connections;
  active_count = size_inc p.active_count;
})

unfoldable pub acquire_new : Option ℕ → ℕ → DbPool → DbPool
unfolding acquire_made
acquire_new created promise p =
    acquire_made (if ltb p.total_connections p.max_pool_size then created else none) promise p

unfoldable pub acquire_idle : List ℕ → (ℕ → Bool) → Option ℕ → ℕ → DbPool → DbPool
unfolding acquire_new
acquire_idle [] connected created promise p = acquire_new created promise p
acquire_idle (conn ∷ rest) connected created promise p =
    let q = record p { idle = rest; idle_count = size_dec p.idle_count } in
    if connected conn
    then set_value (idle_one promise conn) (record q { active_count = size_inc q.active_count })
    else acquire_new created promise (record q { total_connections = size_dec q.total_connections })

-- `created` is what `CreateConnectionSync` gives if it is called.
unfoldable pub do_acquire : (ℕ → Bool) → Option ℕ → ℕ → DbPool → DbPool
unfolding acquire_idle
do_acquire connected created promise p = acquire_idle p.idle connected created promise p

unfoldable pub release_to : List ℕ → ℕ → DbPool → DbPool
unfolding put_idle
release_to [] conn p =
    let q = put_idle conn p in record q { active_count = size_dec q.active_count }
release_to (promise ∷ rest) conn p =
    set_value (given_back promise conn)
      (record p { waiters = rest; active_count = size_dec p.active_count })

unfoldable pub do_release : (ℕ → Bool) → Option ℕ → DbPool → DbPool
unfolding release_to
do_release connected none p = p
do_release connected (some conn) p =
    if connected conn then release_to p.waiters conn p else record p {
      total_connections = size_dec p.total_connections;
      active_count = size_dec p.active_count;
    }

-- The loop of `OnHeartbeat` that empties the queue: the healthy connections, in their order.
unfoldable pub check_idle : (ℕ → Bool) → List ℕ → DbPool → List ℕ × DbPool
check_idle connected [] p = ([], p)
check_idle connected (conn ∷ rest) p =
    let q = record p { idle = rest; idle_count = size_dec p.idle_count } in
    let dead = record q { total_connections = size_dec q.total_connections } in
    let (checked, q') = check_idle connected rest (if connected conn then q else dead) in
    (if connected conn then conn ∷ checked else checked, q')

unfoldable pub put_all : List ℕ → DbPool → DbPool
unfolding put_idle
put_all [] p = p
put_all (conn ∷ rest) p = put_all rest (put_idle conn p)

-- The loop that fills the pool up; `none` means that the fuel ran out.
unfoldable pub fill_up : (ℕ → Option ℕ) → ℕ → DbPool → Option DbPool
unfolding add_created
fill_up connect zero p = none
fill_up connect (suc fuel) p =
    let rest : Option DbPool = elim (connect fuel) [
      | none ↦ some p
      | some conn ↦ fill_up connect fuel (add_created (some conn) p)
    ] in
    if ltb p.total_connections p.min_pool_size then rest else some p

-- `failed` is the error code of the wait. The loop that fills up has a unit of fuel for each
-- connection of the minimum and one more.
unfoldable pub on_heartbeat : Bool → (ℕ → Bool) → (ℕ → Option ℕ) → DbPool → Option DbPool
unfolding check_idle put_all fill_up start_heartbeat
on_heartbeat failed connected connect p =
    let p' = record p { heartbeat_armed = false } in
    let (checked, q) = check_idle connected p'.idle p' in
    let filled = fill_up connect (suc p.min_pool_size) (put_all checked q) in
    if failed || not p.running then some p' else Option.map start_heartbeat filled
