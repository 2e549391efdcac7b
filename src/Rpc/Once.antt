-- ===== src/Rpc/Once.antt =====
-- What each operation does to the measure of a call.
use gb_server.Base.{
  if_intro, ℕ, ◌+◌, ◌≤◌, ◌≡◌, refl, ap, Bool, true, false, ◌&&◌, not, Option, none, some, [], ◌∷◌,
  arith,
}
use gb_server.Rpc.Call.{
  RpcErrorCode, e_ok, e_timeout, e_cancel, e_invalid_request, RpcState, pending, completed,
  timed_out, cancelled, invalid_request, is_pending, Peer, RpcTask, end_by_timeout, World,
  set_state, without_call, stop_timer, call_back, take_at, take_pending, forget_call, done, cancel,
  invalidate, arm, start_timer, send_by, begin, post_found, post_to, timer_fired, finish_timeout,
}
use gb_server.Rpc.Measure.{
  hit, task_hit, tasks_of, queued, open_bit, measure, tasks_of-append, put_worker-measure,
  set_state-closed, set_state-pending, call_back-measure, stop_timer-measure,
}
use gb_server.Rpc.TimerPool.{TimerHandle}
use gb_server.Workers.{find, Worker, enqueue_task, post, take_found, take_pending_rpc}
use gb_server.Workers.Manager.{get_worker}

take_found-events :
    (seq : ℕ) (w : Worker RpcTask ℕ) (o : Option ℕ) → (take_found seq w o).1.events ≡ w.events
unfolding take_found
take_found-events seq w none = refl
take_found-events seq w (some c) = refl

take_at-measure :
    (c index seq : ℕ) (s : World) (o : Option (Worker RpcTask ℕ))
    → get_worker index s.workers ≡ o
    → measure c (take_at index seq o s).1 ≡ measure c s
unfolding take_at take_pending_rpc
take_at-measure c index seq s none e = refl
take_at-measure c index seq s (some w) e =
    let same : queued c (take_pending_rpc seq w).1 ≡ queued c w =
      ap (tasks_of c) (take_found-events seq w (find seq w.pending_rpcs)) in
    omega (arith, put_worker-measure c index w (take_pending_rpc seq w).1 s e)

pub take_pending-measure :
    (c index seq : ℕ) (s : World) → measure c (take_pending index seq s).1 ≡ measure c s
unfolding take_pending
take_pending-measure c index seq s = take_at-measure c index seq s (get_worker index s.workers) refl

forget_call-measure : (c k : ℕ) (s : World) → measure c (forget_call k s) ≡ measure c s
unfolding forget_call
forget_call-measure c k s = take_pending-measure c (s.calls k).worker_index (s.calls k).local_seq s

is_pending-bit : (state : RpcState) → is_pending state ≡ true → open_bit state ≡ 1
is_pending-bit pending e = refl
is_pending-bit completed e = ground arith
is_pending-bit timed_out e = ground arith
is_pending-bit cancelled e = ground arith
is_pending-bit invalid_request e = ground arith

-- The winner of a call that is pending runs the callback, after steps that do not count.
close-measure :
    (t c k : ℕ) (code : RpcErrorCode) (new : RpcState) (s s' : World)
    → open_bit (s.calls k).state ≡ 1
    → open_bit new ≡ 0
    → measure c s' ≡ measure c (set_state k new s)
    → measure c (call_back k code (stop_timer t k s')) ≤ measure c s
close-measure t c k code new s s' o n e = omega (
  arith,
  call_back-measure c k code (stop_timer t k s'),
  stop_timer-measure t c k s',
  set_state-closed c k new s o n,
)

pub done-measure : (t c k : ℕ) (s : World) → measure c (done t k s) ≤ measure c s
unfolding done
done-measure t c k s =
    if_intro (λ s'. measure c s' ≤ measure c s) (is_pending (s.calls k).state)
      (λ p.
        close-measure t c k e_ok completed s (set_state k completed s)
          (is_pending-bit (s.calls k).state p) refl refl)
      (λ _. omega arith)

pub cancel-measure : (t c k : ℕ) (s : World) → measure c (cancel t k s) ≤ measure c s
unfolding cancel
cancel-measure t c k s =
    if_intro (λ s'. measure c s' ≤ measure c s) (is_pending (s.calls k).state)
      (λ p.
        close-measure t c k e_cancel cancelled s (forget_call k (set_state k cancelled s))
          (is_pending-bit (s.calls k).state p) refl
          (forget_call-measure c k (set_state k cancelled s)))
      (λ _. omega arith)

invalidate-measure : (t c k : ℕ) (s : World) → measure c (invalidate t k s) ≤ measure c s
unfolding invalidate
invalidate-measure t c k s =
    if_intro (λ s'. measure c s' ≤ measure c s) (is_pending (s.calls k).state)
      (λ p.
        close-measure t c k e_invalid_request invalid_request s
          (forget_call k (set_state k invalid_request s)) (is_pending-bit (s.calls k).state p) refl
          (forget_call-measure c k (set_state k invalid_request s)))
      (λ _. omega arith)

arm-measure :
    (t c k : ℕ) (peer : Option Peer) (handle : Option TimerHandle) (s : World)
    → measure c (arm t k peer handle s) ≤ measure c s
unfolding arm
arm-measure t c k (some peer) (some handle) s = omega arith
arm-measure t c k (some peer) none s = invalidate-measure t c k s
arm-measure t c k none handle s = invalidate-measure t c k s

pub start_timer-measure : (t c k : ℕ) (s : World) → measure c (start_timer t k s) ≤ measure c s
unfolding start_timer
start_timer-measure t c k s = arm-measure t c k (s.calls k).session (s.calls k).timer_handle s

pub send_by-measure :
    (c value : ℕ) (peer : Option Peer) (s : World) → measure c (send_by value peer s) ≡ measure c s
unfolding send_by
send_by-measure c value none s = refl
send_by-measure c value (some peer) s = refl

pub begin-measure :
    (t c k value : ℕ) (s : World) → measure c (begin t k value s) ≤ measure c s + hit c k
unfolding begin
begin-measure t c k value s =
    let started : World = start_timer t k (set_state k pending s) in
    omega (
      arith,
      send_by-measure c value (started.calls k).session started,
      start_timer-measure t c k (set_state k pending s),
      set_state-pending c k s,
    )

post-queued :
    (c : ℕ) (task : RpcTask) (w : Worker RpcTask ℕ)
    → queued c (post (some task) w) ≤ queued c w + task_hit c task
unfolding post enqueue_task
post-queued c task w =
    if_intro (λ (r : Bool × Worker RpcTask ℕ). queued c r.1 ≤ queued c w + task_hit c task)
      (not false && w.shutting_down) (λ _. omega arith)
      (λ _.
        if_intro (λ (r : Bool × Worker RpcTask ℕ). queued c r.1 ≤ queued c w + task_hit c task)
          w.runing (λ _. omega (arith, tasks_of-append c w.events (task ∷ []))) (λ _. omega arith))

post_found-measure :
    (c index : ℕ) (task : RpcTask) (o : Option (Worker RpcTask ℕ)) (s : World)
    → get_worker index s.workers ≡ o
    → measure c (post_found index task o s) ≤ measure c s + task_hit c task
unfolding post_found
post_found-measure c index task none s e = omega arith
post_found-measure c index task (some w) s e =
    omega (arith, put_worker-measure c index w (post (some task) w) s e, post-queued c task w)

pub post_to-measure :
    (c index : ℕ) (task : RpcTask) (s : World)
    → measure c (post_to index task s) ≤ measure c s + task_hit c task
unfolding post_to
post_to-measure c index task s = post_found-measure c index task (get_worker index s.workers) s refl

pub timer_fired-measure :
    (aborted : Bool) (c k : ℕ) (s : World) → measure c (timer_fired aborted k s) ≤ measure c s
unfolding timer_fired
timer_fired-measure true c k s = omega arith
timer_fired-measure false c k s =
    let s1 : World = record s { waiting = without_call k s.waiting } in
    if_intro (λ s'. measure c s' ≤ measure c s) (is_pending (s.calls k).state)
      (λ p. omega (
        arith,
        post_to-measure c (s.calls k).worker_index (end_by_timeout k) (set_state k timed_out s1),
        set_state-closed c k timed_out s1 (is_pending-bit (s.calls k).state p) refl,
      ))
      (λ _. omega arith)

pub finish_timeout-measure :
    (t c k : ℕ) (s : World) → measure c (finish_timeout t k s) ≤ measure c s + hit c k
unfolding finish_timeout
finish_timeout-measure t c k s = omega (
  arith,
  call_back-measure c k e_timeout (stop_timer t k (forget_call k s)),
  stop_timer-measure t c k (forget_call k s),
  forget_call-measure c k s,
)
