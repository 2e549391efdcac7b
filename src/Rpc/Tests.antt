-- ===== src/Rpc/Tests.antt =====
-- Remote calls at concrete inputs.
use gb_server.Base.{length, ℕ, ◌+◌, ◌^◌, ◌≤◌, ◌≡◌, refl, true, false, some, List, [], ◌∷◌, arith}
use gb_server.Rpc.Await.{
  completes, await_start, finish_suspend, notify_completed, AwaitMove, suspends, await_run, resumes,
}
use gb_server.Rpc.Call.{Peer, RpcCall, new_call, RpcTask, World}
use gb_server.Rpc.Measure.{results_of}
use gb_server.Rpc.Network.{RpcEvent, begins, responds, fires, cancels, serves_one, rpc_run}
use gb_server.Rpc.Pools.{PoolEvent, acquires, releases, warms, pool_run, pool_run-counts}
use gb_server.Rpc.Runs.{rpc_run-results, rpc_run-once}
use gb_server.Rpc.TimerPool.{new_pool}
use gb_server.Workers.{Worker, new_worker}

abbrev a_worker : Worker RpcTask ℕ
a_worker = record new_worker { has_executor = true; runing = true }

abbrev a_peer : Peer
a_peer = record { is_closed = false; is_connected = true; ios = 2 }

abbrev a_call : RpcCall
a_call = record new_call {
  timer_handle = some (record { ios = 2; id = 0 });
  session = some a_peer;
  has_callback = true;
}

abbrev a_world : World
a_world = record {
  calls = λ c. a_call;
  workers = record { main_worker = some a_worker; workers = [] };
  pools = λ t. new_pool;
  waiting = [];
  sent = [];
  results = [];
}

-- The call of number 1 of worker 0 gets its response twice, its timer fires, and it is cancelled.
abbrev some_events : List RpcEvent
some_events =
    responds (2 ^ 32)
    ∷ fires false 7
    ∷ responds (2 ^ 32)
    ∷ serves_one 0 0 0
    ∷ cancels 3 7
    ∷ serves_one 0 0 0
    ∷ serves_one 0 0 0
    ∷ []

rpc_run-results_example :
    results_of 7 (rpc_run (begins 0 (some 0) 7 ∷ some_events) a_world).results ≤ 2
rpc_run-results_example = rpc_run-results 7 (begins 0 (some 0) 7 ∷ some_events) a_world refl refl

rpc_run-once_example :
    results_of 7 (rpc_run (begins 0 (some 0) 7 ∷ some_events) a_world).results ≤ 1
rpc_run-once_example = rpc_run-once 7 0 (some 0) some_events a_world refl refl refl

abbrev a_leaving_worker : Worker RpcTask ℕ
a_leaving_worker = record a_worker { shutting_down = true }

abbrev a_leaving_world : World
a_leaving_world = record a_world {
  workers = record { main_worker = some a_leaving_worker; workers = [] };
}

abbrev some_pool_events : List PoolEvent
some_pool_events = warms 2 3 ∷ acquires 2 ∷ acquires 2 ∷ releases 1 ∷ acquires 4 ∷ releases 9 ∷ []

pool_run-counts_example :
    ((pool_run some_pool_events (record { pool = new_pool; out = [] })).pool.pool_size
      ≡ length (pool_run some_pool_events (record { pool = new_pool; out = [] })).pool.available
        + length (pool_run some_pool_events (record { pool = new_pool; out = [] })).out)
    × ((pool_run some_pool_events (record { pool = new_pool; out = [] })).pool.in_use
        ≡ length (pool_run some_pool_events (record { pool = new_pool; out = [] })).out)
pool_run-counts_example = pool_run-counts some_pool_events (omega arith)

abbrev four_moves : List AwaitMove
four_moves = suspends true ∷ completes true ∷ suspends true ∷ completes true ∷ []

-- The coroutine is scheduled and goes on at once as well.
resumed_twice :
    resumes
      (await_run (suspends true ∷ completes true ∷ completes true ∷ suspends true ∷ []) await_start)
    ≡ 2
unfolding finish_suspend notify_completed
resumed_twice = refl

-- Both loads miss the stores, and the coroutine never goes on.
never_resumed :
    resumes (
      await_run
        (suspends true ∷ suspends false ∷ completes true ∷ completes false ∷ [])
        await_start)
    ≡ 0
unfolding finish_suspend notify_completed
never_resumed = refl
