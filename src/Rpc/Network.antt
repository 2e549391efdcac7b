-- ===== src/Rpc/Network.antt =====
-- `Call` and the responses in `Dispatch` of src/network/manager/network_manager.cpp, the tasks that
-- the workers run for them, and what happens to a program with remote calls.
use gb_server.Base.{ℕ, Bool, Option, none, some, List, [], ◌∷◌}
use gb_server.Rpc.Call.{
  done, Peer, RpcTask, response, end_by_timeout, World, put_call, set_session, set_timeout,
  set_call_back, take_pending, cancel, begin, post_to, timer_fired, finish_timeout,
}
use gb_server.Rpc.Sequence.{sequence_value, sequence_index, sequence_seq}
use gb_server.Workers.{Worker, try_dequeue, alloc_rpc_seq, store_pending_rpc}
use gb_server.Workers.Manager.{get_worker, put_worker}

-- The call of the number `seq` on the worker `w`, which is the worker of the index `index`.
unfoldable pub number_call : ℕ → ℕ → ℕ → Worker RpcTask ℕ → World → World
number_call c index seq w s =
    let value = sequence_value w.index seq in
    put_call c (record (s.calls c) { id = value; worker_index = w.index; local_seq = seq })
      (record s { workers = put_worker index (store_pending_rpc seq c w) s.workers })

unfoldable pub call_on : ℕ → ℕ → ℕ → Option (Worker RpcTask ℕ) → World → World
call_on t c index none s = s
call_on t c index (some w) s =
    let (seq, w') = alloc_rpc_seq w in
    begin t c (sequence_value w.index seq) (number_call c index seq w' s)

-- `Call`, on thread `t`, whose worker has the index `current`, if it has one.
unfoldable pub network_call : ℕ → Option ℕ → ℕ → World → World
unfolding call_on
network_call t none c s = s
network_call t (some index) c s = call_on t c index (get_worker index s.workers) s

-- A response is posted to the worker that its sequence names.
unfoldable pub dispatch_response : ℕ → World → World
dispatch_response sequence s =
    post_to (sequence_index sequence) (response (sequence_seq sequence)) s

unfoldable pub done_if : ℕ → Option ℕ × World → World
done_if t (none, s) = s
done_if t (some c, s) = done t c s

unfoldable pub run_task : ℕ → ℕ → RpcTask → World → World
unfolding done_if
run_task t index (response seq) s = done_if t (take_pending index seq s)
run_task t index (end_by_timeout c) s = finish_timeout t c s

unfoldable pub run_taken : ℕ → ℕ → Option RpcTask × Worker RpcTask ℕ → World → World
run_taken t index (none, w) s = s
run_taken t index (some task, w) s =
    run_task t index task (record s { workers = put_worker index w s.workers })

unfoldable pub serve_on : ℕ → ℕ → ℕ → Option (Worker RpcTask ℕ) → World → World
unfolding run_taken
serve_on t index place none s = s
serve_on t index place (some w) s = run_taken t index (try_dequeue place w) s

-- A worker takes the task at a place of its queue and runs it, on thread `t`.
unfoldable pub serve_worker : ℕ → ℕ → ℕ → World → World
unfolding serve_on
serve_worker t index place s = serve_on t index place (get_worker index s.workers) s

-- What can happen, in any order and on any thread; the first argument is the thread. A response may
-- carry any sequence, and a timer may fire at any time, or be aborted.
pub data RpcEvent : Type 0 where
  sets_session : ℕ → ℕ → Option Peer → RpcEvent
  sets_timeout : ℕ → ℕ → ℕ → RpcEvent
  sets_callback : ℕ → RpcEvent
  begins : ℕ → Option ℕ → ℕ → RpcEvent
  responds : ℕ → RpcEvent
  fires : Bool → ℕ → RpcEvent
  cancels : ℕ → ℕ → RpcEvent
  serves_one : ℕ → ℕ → ℕ → RpcEvent

unfoldable pub rpc_step : RpcEvent → World → World
rpc_step (sets_session t c session) s = set_session t c session s
rpc_step (sets_timeout t c timeout) s = set_timeout t c timeout s
rpc_step (sets_callback c) s = set_call_back c s
rpc_step (begins t current c) s = network_call t current c s
rpc_step (responds sequence) s = dispatch_response sequence s
rpc_step (fires aborted c) s = timer_fired aborted c s
rpc_step (cancels t c) s = cancel t c s
rpc_step (serves_one t index place) s = serve_worker t index place s

abbrev pub rpc_run : List RpcEvent → World → World
rpc_run [] s = s
rpc_run (e ∷ es) s = rpc_run es (rpc_step e s)
