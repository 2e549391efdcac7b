-- ===== src/Rpc/Call.antt =====
-- src/network/rpc/rpc_call.cpp. The objects are shared, so that they are references into a store,
-- which the workers' maps and the tasks hold. Each operation is run as a whole by the thread that
-- calls it: after the compare-and-swap on `state_`, which only one thread wins, it changes only the
-- thread's own pool, the worker's map and the timer.
use gb_server.Base.{
  ◌==◌, if◌then◌else◌, ℕ, Bool, true, false, ◌||◌, not, Option, none, some, List, [], ◌∷◌,
}
use gb_server.Rpc.TimerPool.{TimerHandle, TimerPool, acquire_timer, release_timer}
use gb_server.Workers.{Worker, post, take_pending_rpc}
use gb_server.Workers.Manager.{WorkerManager, get_worker, put_worker}

pub data RpcErrorCode : Type 0 where
  e_ok e_timeout e_cancel e_invalid_request : RpcErrorCode

pub data RpcState : Type 0 where
  pending completed timed_out cancelled invalid_request : RpcState

abbrev pub is_pending : RpcState → Bool
is_pending pending = true
is_pending _ = false

-- What `HasSession` asks of a session.
pub record Peer : Type 0 where
  pub is_closed : Bool
  pub is_connected : Bool
  pub ios : ℕ

-- `has_callback` says that `result_callback_` is set.
pub record RpcCall : Type 0 where
  pub id : ℕ
  pub worker_index : ℕ
  pub local_seq : ℕ
  pub timer_handle : Option TimerHandle
  pub timeout : ℕ
  pub state : RpcState
  pub session : Option Peer
  pub has_callback : Bool

abbrev pub new_call : RpcCall
new_call = record {
  id = 0;
  worker_index = 0;
  local_seq = 0;
  timer_handle = none;
  timeout = 5000;
  state = pending;
  session = none;
  has_callback = false;
}

-- The tasks that remote calls put into the queue of a worker: the response to the call of a number,
-- and the end of a call whose time is over.
pub data RpcTask : Type 0 where
  response : ℕ → RpcTask
  end_by_timeout : ℕ → RpcTask

-- `waiting` are the calls with a handler in `async_wait`, `sent` the sequences of the messages that
-- sessions have got, and `results` the callbacks that have been run, the newest first.
pub record World : Type 0 where
  pub calls : ℕ → RpcCall
  pub workers : WorkerManager RpcTask ℕ
  pub pools : ℕ → TimerPool
  pub waiting : List ℕ
  pub sent : List ℕ
  pub results : List (ℕ × RpcErrorCode)

abbrev pub at_key : {A : Type 0} → ℕ → A → (ℕ → A) → ℕ → A
at_key key value f k = if k == key then value else f k

abbrev pub put_call : ℕ → RpcCall → World → World
put_call c call s = record s { calls = at_key c call s.calls }

abbrev pub set_state : ℕ → RpcState → World → World
set_state c new s = put_call c (record (s.calls c) { state = new }) s

-- The call gets a timer from the pool of thread `t`.
unfoldable pub give_timer : ℕ → ℕ → ℕ → World → World
give_timer t c ios s =
    let (handle, pool) = acquire_timer ios (s.pools t) in
    put_call c (record (s.calls c) { timer_handle = some handle })
      (record s { pools = at_key t pool s.pools })

unfoldable pub give_if_none : ℕ → ℕ → ℕ → Option TimerHandle → World → World
unfolding give_timer
give_if_none t c ios (some handle) s = s
give_if_none t c ios none s = give_timer t c ios s

unfoldable pub give_for : ℕ → ℕ → Option Peer → World → World
unfolding give_if_none
give_for t c none s = s
give_for t c (some peer) s = give_if_none t c peer.ios (s.calls c).timer_handle s

unfoldable pub set_session : ℕ → ℕ → Option Peer → World → World
unfolding give_for
set_session t c session s =
    give_for t c session (put_call c (record (s.calls c) { session = session }) s)

-- The session, if it is there and `HasSession` holds.
unfoldable pub live_session : Option Peer → Option Peer
live_session none = none
live_session (some peer) = if peer.is_closed || not peer.is_connected then none else some peer

unfoldable pub set_timeout : ℕ → ℕ → ℕ → World → World
unfolding give_for
set_timeout t c timeout s =
    give_for t c (live_session (s.calls c).session)
      (put_call c (record (s.calls c) { timeout = timeout }) s)

unfoldable pub set_call_back : ℕ → World → World
set_call_back c s = put_call c (record (s.calls c) { has_callback = true }) s

abbrev pub without_call : ℕ → List ℕ → List ℕ
without_call c [] = []
without_call c (k ∷ ks) = let rest = without_call c ks in if k == c then rest else k ∷ rest

-- The cancelled timer gives its handler up; the handle goes to the pool of the thread that runs this.
unfoldable pub stop_timer : ℕ → ℕ → World → World
stop_timer t c s =
    put_call c (record (s.calls c) { timer_handle = none })
      (record s { pools = at_key t (release_timer (s.calls c).timer_handle (s.pools t)) s.pools })

-- `if (result_callback_) result_callback_(code, ...)`
unfoldable pub call_back : ℕ → RpcErrorCode → World → World
call_back c code s =
    if (s.calls c).has_callback then record s { results = (c, code) ∷ s.results } else s

unfoldable pub take_at : ℕ → ℕ → Option (Worker RpcTask ℕ) → World → Option ℕ × World
take_at index seq none s = (none, s)
take_at index seq (some w) s =
    let (found, w') = take_pending_rpc seq w in
    (found, record s { workers = put_worker index w' s.workers })

-- `TakePendingRpc` on the worker of an index, if there is one.
unfoldable pub take_pending : ℕ → ℕ → World → Option ℕ × World
unfolding take_at
take_pending index seq s = take_at index seq (get_worker index s.workers) s

-- The call leaves the map of its worker.
unfoldable pub forget_call : ℕ → World → World
forget_call c s = (take_pending (s.calls c).worker_index (s.calls c).local_seq s).1

unfoldable pub done : ℕ → ℕ → World → World
done t c s =
    if is_pending (s.calls c).state
    then call_back c e_ok (stop_timer t c (set_state c completed s))
    else s

unfoldable pub cancel : ℕ → ℕ → World → World
cancel t c s =
    if is_pending (s.calls c).state
    then call_back c e_cancel (stop_timer t c (forget_call c (set_state c cancelled s)))
    else s

unfoldable pub invalidate : ℕ → ℕ → World → World
invalidate t c s =
    if is_pending (s.calls c).state
    then call_back c e_invalid_request
        (stop_timer t c (forget_call c (set_state c invalid_request s)))
    else s

unfoldable pub arm : ℕ → ℕ → Option Peer → Option TimerHandle → World → World
arm t c (some peer) (some handle) s = record s { waiting = c ∷ without_call c s.waiting }
arm t c _ _ s = invalidate t c s

unfoldable pub start_timer : ℕ → ℕ → World → World
unfolding arm
start_timer t c s = arm t c (s.calls c).session (s.calls c).timer_handle s

unfoldable pub send_by : ℕ → Option Peer → World → World
send_by sequence none s = s
send_by sequence (some peer) s = record s { sent = sequence ∷ s.sent }

-- `Call`
unfoldable pub begin : ℕ → ℕ → ℕ → World → World
unfolding send_by
begin t c sequence s =
    let started = start_timer t c (set_state c pending s) in
    send_by sequence (started.calls c).session started

unfoldable pub post_found : ℕ → RpcTask → Option (Worker RpcTask ℕ) → World → World
post_found index task none s = s
post_found index task (some w) s = record s {
  workers = put_worker index (post (some task) w) s.workers;
}

-- `worker->Post` on the worker of an index, if there is one.
unfoldable pub post_to : ℕ → RpcTask → World → World
post_to index task s = post_found index task (get_worker index s.workers) s

-- The handler of the timer, on a thread of the input and output.
unfoldable pub timer_fired : Bool → ℕ → World → World
timer_fired aborted c s =
    let s1 = record s { waiting = without_call c s.waiting } in
    if aborted
    then s1
    else if is_pending (s.calls c).state
    then post_to (s.calls c).worker_index (end_by_timeout c) (set_state c timed_out s1)
    else s1

-- The task that the handler posts.
unfoldable pub finish_timeout : ℕ → ℕ → World → World
finish_timeout t c s = call_back c e_timeout (stop_timer t c (forget_call c s))

unfoldable pub error_code : RpcState → RpcErrorCode
error_code timed_out = e_timeout
error_code cancelled = e_cancel
error_code invalid_request = e_invalid_request
error_code _ = e_ok
