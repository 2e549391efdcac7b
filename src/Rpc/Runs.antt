-- ===== src/Rpc/Runs.antt =====
-- How many results a call gets in a run.
use gb_server.Base.{
  some_injective, get_elem?, ℕ, zero, suc, ◌+◌, ◌≤◌, ◌≡◌, refl, ap, ◌∙◌, true, Option, none, some,
  List, [], ◌∷◌, arith,
}
use gb_server.Rpc.Call.{
  RpcState, pending, completed, timed_out, cancelled, invalid_request, Peer, RpcTask, response,
  end_by_timeout, World, at_key, put_call, set_state, give_timer, give_if_none, give_for,
  set_session, live_session, set_timeout, set_call_back, take_pending, start_timer, begin,
}
use gb_server.Rpc.Measure.{
  hit, results_of, task_hit, tasks_of, queued, queued_all, open_bit, measure, queued_all-put,
  put_worker-measure, put_call-measure,
}
use gb_server.Rpc.Network.{
  number_call, call_on, network_call, dispatch_response, done_if, run_task, run_taken, serve_on,
  serve_worker, RpcEvent, sets_session, sets_timeout, sets_callback, begins, responds, fires,
  cancels, serves_one, rpc_step, rpc_run,
}
use gb_server.Rpc.Once.{
  take_pending-measure, done-measure, cancel-measure, start_timer-measure, send_by-measure,
  begin-measure, post_to-measure, timer_fired-measure, finish_timeout-measure,
}
use gb_server.Rpc.Sequence.{sequence_value, sequence_index, sequence_seq}
use gb_server.Rpc.TimerPool.{TimerHandle, acquire_timer}
use gb_server.Workers.{without_at, Worker, dequeued, try_dequeue, alloc_rpc_seq, store_pending_rpc}
use gb_server.Workers.Manager.{get_worker, put_worker}

give_if_none-measure :
    (t c k ios : ℕ) (o : Option TimerHandle) (s : World)
    → measure c (give_if_none t k ios o s) ≡ measure c s
unfolding give_if_none give_timer
give_if_none-measure t c k ios (some handle) s = refl
give_if_none-measure t c k ios none s =
    put_call-measure c k
      (record (s.calls k) { timer_handle = some (acquire_timer ios (s.pools t)).0 })
      (record s { pools = at_key t (acquire_timer ios (s.pools t)).1 s.pools }) refl

give_for-measure :
    (t c k : ℕ) (o : Option Peer) (s : World) → measure c (give_for t k o s) ≡ measure c s
unfolding give_for
give_for-measure t c k none s = refl
give_for-measure t c k (some peer) s =
    give_if_none-measure t c k peer.ios (s.calls k).timer_handle s

set_session-measure :
    (t c k : ℕ) (o : Option Peer) (s : World) → measure c (set_session t k o s) ≡ measure c s
unfolding set_session
set_session-measure t c k o s =
    give_for-measure t c k o (put_call k (record (s.calls k) { session = o }) s)
    ∙ put_call-measure c k (record (s.calls k) { session = o }) s refl

set_timeout-measure : (t c k n : ℕ) (s : World) → measure c (set_timeout t k n s) ≡ measure c s
unfolding set_timeout
set_timeout-measure t c k n s =
    give_for-measure t c k (live_session (s.calls k).session)
      (put_call k (record (s.calls k) { timeout = n }) s)
    ∙ put_call-measure c k (record (s.calls k) { timeout = n }) s refl

number_call-measure :
    (c k index seq : ℕ) (w w' : Worker RpcTask ℕ) (s : World)
    → get_worker index s.workers ≡ some w
    → w'.events ≡ w.events
    → measure c (number_call k index seq w' s) ≡ measure c s
unfolding number_call store_pending_rpc
number_call-measure c k index seq w w' s e same =
    let stored : Worker RpcTask ℕ = store_pending_rpc seq k w' in
    let s1 : World = record s { workers = put_worker index stored s.workers } in
    let value = sequence_value w'.index seq in
    let kept : queued c stored ≡ queued c w = ap (tasks_of c) same in
    omega (
      arith,
      put_call-measure c k
          (record (s.calls k) { id = value; worker_index = w'.index; local_seq = seq }) s1 refl,
      put_worker-measure c index w stored s e,
      kept,
    )

call_on-measure :
    (t c k index : ℕ) (o : Option (Worker RpcTask ℕ)) (s : World)
    → get_worker index s.workers ≡ o
    → measure c (call_on t k index o s) ≤ measure c s + hit c k
unfolding call_on alloc_rpc_seq
call_on-measure t c k index none s e = omega arith
call_on-measure t c k index (some w) s e =
    let seq = (alloc_rpc_seq w).0 in
    let w' : Worker RpcTask ℕ = (alloc_rpc_seq w).1 in
    omega (
      arith,
      begin-measure t c k (sequence_value w.index seq) (number_call k index seq w' s),
      number_call-measure c k index seq w w' s e refl,
    )

network_call-measure :
    (t c k : ℕ) (current : Option ℕ) (s : World)
    → measure c (network_call t current k s) ≤ measure c s + hit c k
unfolding network_call
network_call-measure t c k none s = omega arith
network_call-measure t c k (some index) s =
    call_on-measure t c k index (get_worker index s.workers) s refl

done_if-measure : (t c : ℕ) (o : Option ℕ) (s : World) → measure c (done_if t (o, s)) ≤ measure c s
unfolding done_if
done_if-measure t c none s = omega arith
done_if-measure t c (some k) s = done-measure t c k s

run_task-measure :
    (t c index : ℕ) (task : RpcTask) (s : World)
    → measure c (run_task t index task s) ≤ measure c s + task_hit c task
unfolding run_task
run_task-measure t c index (response seq) s = omega (
  arith,
  done_if-measure t c (take_pending index seq s).0 (take_pending index seq s).1,
  take_pending-measure c index seq s,
)
run_task-measure t c index (end_by_timeout k) s = finish_timeout-measure t c k s

tasks_of-without_at :
    (c place : ℕ) (events : List RpcTask) (task : RpcTask)
    → get_elem? events place ≡ some task
    → tasks_of c events ≡ task_hit c task + tasks_of c (without_at place events)
tasks_of-without_at c place [] task e = cc
tasks_of-without_at c zero (x ∷ rest) task e =
    ap (λ x. task_hit c x + tasks_of c rest) (some_injective e)
tasks_of-without_at c (suc place) (x ∷ rest) task e =
    omega (arith, tasks_of-without_at c place rest task e)

run_taken-measure :
    (t c index place : ℕ) (w : Worker RpcTask ℕ) (o : Option RpcTask) (s : World)
    → get_worker index s.workers ≡ some w
    → get_elem? w.events place ≡ o
    → measure c (run_taken t index (try_dequeue place w) s) ≤ measure c s
unfolding run_taken try_dequeue dequeued
run_taken-measure t c index place w none s e same = rw same (omega arith)
run_taken-measure t c index place w (some task) s e same =
    let w' : Worker RpcTask ℕ = record w { events = without_at place w.events } in
    let s1 : World = record s { workers = put_worker index w' s.workers } in
    let fewer : queued c w ≡ task_hit c task + queued c w' =
      tasks_of-without_at c place w.events task same in
    rw same (
      omega (arith, run_task-measure t c index task s1, put_worker-measure c index w w' s e, fewer))

serve_on-measure :
    (t c index place : ℕ) (o : Option (Worker RpcTask ℕ)) (s : World)
    → get_worker index s.workers ≡ o
    → measure c (serve_on t index place o s) ≤ measure c s
unfolding serve_on
serve_on-measure t c index place none s e = omega arith
serve_on-measure t c index place (some w) s e =
    run_taken-measure t c index place w (get_elem? w.events place) s e refl

open_bit-le : (state : RpcState) → open_bit state ≤ 1
open_bit-le pending = omega arith
open_bit-le completed = omega arith
open_bit-le timed_out = omega arith
open_bit-le cancelled = omega arith
open_bit-le invalid_request = omega arith

-- How often a run makes the call `c`.
abbrev pub made : ℕ → RpcEvent → ℕ
made c (begins t current k) = hit c k
made c _ = 0

abbrev pub times_made : ℕ → List RpcEvent → ℕ
times_made c [] = 0
times_made c (e ∷ es) = made c e + times_made c es

rpc_step-measure :
    (c : ℕ) (e : RpcEvent) (s : World) → measure c (rpc_step e s) ≤ measure c s + made c e
unfolding rpc_step serve_worker dispatch_response set_call_back
rpc_step-measure c (sets_session t k o) s = omega (arith, set_session-measure t c k o s)
rpc_step-measure c (sets_timeout t k n) s = omega (arith, set_timeout-measure t c k n s)
rpc_step-measure c (sets_callback k) s =
    omega (arith, put_call-measure c k (record (s.calls k) { has_callback = true }) s refl)
rpc_step-measure c (begins t current k) s = network_call-measure t c k current s
rpc_step-measure c (responds value) s =
    omega (arith, post_to-measure c (sequence_index value) (response (sequence_seq value)) s)
rpc_step-measure c (fires aborted k) s = omega (arith, timer_fired-measure aborted c k s)
rpc_step-measure c (cancels t k) s = omega (arith, cancel-measure t c k s)
rpc_step-measure c (serves_one t index place) s =
    omega (arith, serve_on-measure t c index place (get_worker index s.workers) s refl)

pub rpc_run-measure :
    (c : ℕ) (es : List RpcEvent) (s : World)
    → measure c (rpc_run es s) ≤ measure c s + times_made c es
rpc_run-measure c [] s = omega arith
rpc_run-measure c (e ∷ es) s =
    omega (arith, rpc_run-measure c es (rpc_step e s), rpc_step-measure c e s)

-- The callback of a call that has had no result, and for which no end by its timer waits, is run at
-- most once more often than the call is made, whatever happens in whatever order and on whatever
-- threads: sessions and timers that are set, responses of any sequence, timers that fire,
-- cancellations and the rounds of the workers.
pub rpc_run-results :
    (c : ℕ) (es : List RpcEvent) (s : World)
    → results_of c s.results ≡ 0
    → queued_all c s.workers ≡ 0
    → results_of c (rpc_run es s).results ≤ 1 + times_made c es
rpc_run-results c es s none_yet none_queued =
    omega (arith, rpc_run-measure c es s, none_yet, none_queued, open_bit-le (s.calls c).state)

abbrev counted : ℕ → World → ℕ
counted c s = results_of c s.results + queued_all c s.workers

begin-once : (t c k value : ℕ) (s : World) → measure c (begin t k value s) ≤ counted c s + 1
unfolding begin
begin-once t c k value s =
    let again : World = set_state k pending s in
    let started : World = start_timer t k again in
    omega (
      arith,
      send_by-measure c value (started.calls k).session started,
      start_timer-measure t c k again,
      open_bit-le (again.calls c).state,
    )

call_on-once :
    (t c k index : ℕ) (o : Option (Worker RpcTask ℕ)) (s : World)
    → get_worker index s.workers ≡ o
    → measure c (call_on t k index o s) ≤ counted c s + 1
unfolding call_on alloc_rpc_seq number_call store_pending_rpc
call_on-once t c k index none s e = omega (arith, open_bit-le (s.calls c).state)
call_on-once t c k index (some w) s e =
    let seq = (alloc_rpc_seq w).0 in
    let w' : Worker RpcTask ℕ = (alloc_rpc_seq w).1 in
    omega (
      arith,
      begin-once t c k (sequence_value w.index seq) (number_call k index seq w' s),
      queued_all-put c index w (store_pending_rpc seq k w') s.workers e,
    )

network_call-once :
    (t c k : ℕ) (current : Option ℕ) (s : World)
    → measure c (network_call t current k s) ≤ counted c s + 1
unfolding network_call
network_call-once t c k none s = omega (arith, open_bit-le (s.calls c).state)
network_call-once t c k (some index) s =
    call_on-once t c k index (get_worker index s.workers) s refl

-- After a call is made that has had no result, and for which no end by its timer waits, its callback
-- is run at most once, whatever happens then, as long as it is not made again.
pub rpc_run-once :
    (c t : ℕ) (current : Option ℕ) (es : List RpcEvent) (s : World)
    → results_of c s.results ≡ 0
    → queued_all c s.workers ≡ 0
    → times_made c es ≡ 0
    → results_of c (rpc_run (begins t current c ∷ es) s).results ≤ 1
unfolding rpc_step
rpc_run-once c t current es s none_yet none_queued not_again = omega (
  arith,
  rpc_run-measure c es (network_call t current c s),
  network_call-once t c c current s,
  none_yet,
  none_queued,
  not_again,
)
