-- ===== src/Rpc/Measure.antt =====
-- How often the callback of a call has been run, may be run by a task that waits, and may be won.
use gb_server.Base.{
  ◌==◌, if◌then◌else◌, ==_iff, Bool-cases, if_intro, some_injective, get_elem?, set, ℕ, zero, suc,
  ◌+◌, ◌*◌, ◌≤◌, ◌≡◌, refl, ap, inl, inr, Option, none, some, List, [], ◌∷◌, ◌++◌, arith,
}
use gb_server.Rpc.Call.{
  RpcErrorCode, RpcState, pending, RpcCall, RpcTask, response, end_by_timeout, World, at_key,
  put_call, set_state, stop_timer, call_back,
}
use gb_server.Rpc.TimerPool.{release_timer}
use gb_server.Workers.{Worker}
use gb_server.Workers.Manager.{WorkerManager, get_worker, put_worker}

abbrev pub hit : ℕ → ℕ → ℕ
hit c k = if c == k then 1 else 0

-- The callbacks of the call `c` that have been run.
abbrev pub results_of : ℕ → List (ℕ × RpcErrorCode) → ℕ
results_of c [] = 0
results_of c ((k, code) ∷ rest) = hit c k + results_of c rest

abbrev pub task_hit : ℕ → RpcTask → ℕ
task_hit c (response seq) = 0
task_hit c (end_by_timeout k) = hit c k

abbrev pub tasks_of : ℕ → List RpcTask → ℕ
tasks_of c [] = 0
tasks_of c (task ∷ rest) = task_hit c task + tasks_of c rest

abbrev pub queued : ℕ → Worker RpcTask ℕ → ℕ
queued c w = tasks_of c w.events

abbrev pub queued_by : ℕ → List (Worker RpcTask ℕ) → ℕ
queued_by c [] = 0
queued_by c (w ∷ ws) = queued c w + queued_by c ws

abbrev pub queued_main : ℕ → Option (Worker RpcTask ℕ) → ℕ
queued_main c none = 0
queued_main c (some w) = queued c w

abbrev pub queued_all : ℕ → WorkerManager RpcTask ℕ → ℕ
queued_all c m = queued_main c m.main_worker + queued_by c m.workers

abbrev pub open_bit : RpcState → ℕ
open_bit pending = 1
open_bit _ = 0

abbrev pub measure : ℕ → World → ℕ
measure c s = results_of c s.results + (queued_all c s.workers + open_bit (s.calls c).state)

pub tasks_of-append :
    (c : ℕ) (xs ys : List RpcTask) → tasks_of c (xs ++ ys) ≡ tasks_of c xs + tasks_of c ys
tasks_of-append c [] ys = omega arith
tasks_of-append c (t ∷ xs) ys = omega (arith, tasks_of-append c xs ys)

queued_by-set :
    (c i : ℕ) (w w' : Worker RpcTask ℕ) (ws : List (Worker RpcTask ℕ))
    → get_elem? ws i ≡ some w
    → queued_by c (set ws i w') + queued c w ≡ queued_by c ws + queued c w'
queued_by-set c i w w' [] e = grind (arith)
queued_by-set c zero w w' (x ∷ ws) e =
    let same : queued c x ≡ queued c w = ap (queued c) (some_injective e) in omega arith
queued_by-set c (suc i) w w' (x ∷ ws) e = omega (arith, queued_by-set c i w w' ws e)

pub get_elem?-get_worker :
    (i : ℕ) (w : Worker RpcTask ℕ) (m : WorkerManager RpcTask ℕ)
    → get_worker (suc i) m ≡ some w
    → get_elem? m.workers i ≡ some w
unfolding get_worker
get_elem?-get_worker i w m e = ground arith

-- A worker that is put back takes its old tasks out of the count and brings its new ones.
pub queued_all-put :
    (c i : ℕ) (w w' : Worker RpcTask ℕ) (m : WorkerManager RpcTask ℕ)
    → get_worker i m ≡ some w
    → queued_all c (put_worker i w' m) + queued c w ≡ queued_all c m + queued c w'
unfolding get_worker put_worker
queued_all-put c zero w w' m e =
    let old : queued_main c m.main_worker ≡ queued c w = ap (queued_main c) e in omega arith
queued_all-put c (suc i) w w' m e =
    omega (arith, queued_by-set c i w w' m.workers (get_elem?-get_worker i w m e))

-- One worker of the program is replaced by another.
pub put_worker-measure :
    (c i : ℕ) (w w' : Worker RpcTask ℕ) (s : World)
    → get_worker i s.workers ≡ some w
    → measure c (record s { workers = put_worker i w' s.workers }) + queued c w
      ≡ measure c s + queued c w'
put_worker-measure c i w w' s e = omega (arith, queued_all-put c i w w' s.workers e)

-- What a number of a call becomes when one of the calls is replaced.
at_key-sum :
    (g : RpcCall → ℕ) (c k : ℕ) (call : RpcCall) (calls : ℕ → RpcCall)
    → g (at_key k call calls c) + hit c k * g (calls k) ≡ g (calls c) + hit c k * g call
at_key-sum g c k call calls = elim (Bool-cases (c == k)) [
  | inl same ↦
      let e : g (calls c) ≡ g (calls k) = ap (λ j. g (calls j)) ((==_iff c k).0 same) in
      rw same (omega arith)
  | inr other ↦ rw other (omega arith)
]

abbrev open_of : RpcCall → ℕ
open_of call = open_bit call.state

-- A change to a call that leaves its state as it is.
pub put_call-measure :
    (c k : ℕ) (call : RpcCall) (s : World)
    → call.state ≡ (s.calls k).state
    → measure c (put_call k call s) ≡ measure c s
put_call-measure c k call s e =
    let sum = at_key-sum open_of c k call s.calls in
    let same : open_of call ≡ open_of (s.calls k) = ap open_bit e in grind (arith, sum, same)

pub set_state-closed :
    (c k : ℕ) (new : RpcState) (s : World)
    → open_bit (s.calls k).state ≡ 1
    → open_bit new ≡ 0
    → measure c (set_state k new s) + hit c k ≡ measure c s
set_state-closed c k new s o n =
    let sum = at_key-sum open_of c k (record (s.calls k) { state = new }) s.calls in
    grind (arith, sum, o, n)

pub set_state-pending :
    (c k : ℕ) (s : World) → measure c (set_state k pending s) ≤ measure c s + hit c k
set_state-pending c k s =
    let sum = at_key-sum open_of c k (record (s.calls k) { state = pending }) s.calls in
    grind (arith, sum)

pub call_back-measure :
    (c k : ℕ) (code : RpcErrorCode) (s : World)
    → measure c (call_back k code s) ≤ measure c s + hit c k
unfolding call_back
call_back-measure c k code s =
    if_intro (λ s'. measure c s' ≤ measure c s + hit c k) (s.calls k).has_callback
      (λ _. omega arith) (λ _. omega arith)

pub stop_timer-measure : (t c k : ℕ) (s : World) → measure c (stop_timer t k s) ≡ measure c s
unfolding stop_timer
stop_timer-measure t c k s =
    put_call-measure c k (record (s.calls k) { timer_handle = none })
      (record s { pools = at_key t (release_timer (s.calls k).timer_handle (s.pools t)) s.pools })
      refl
