-- ===== src/Rpc/Await.antt =====
-- `RpcAwaitState` of src/network/rpc/rpc_coro.h: the thread that suspends a coroutine and the one that
-- completes its call, each of whose atomic operations is a step. The stores are releases and the loads
-- acquires, so that a load may miss a store of the other thread that was made before it; the exchange
-- reads the latest value.
use gb_server.Base.{if◌then◌else◌, ℕ, ◌+◌, ◌≤◌, ◌≡◌, Bool, true, false, ◌&&◌, List, [], ◌∷◌}

-- `FinishSuspend` stores and then loads; its result says whether the coroutine goes on at once.
pub data Suspender : Type 0 where
  binding stored suspended resumed_at_once : Suspender

-- `NotifyCompleted` exchanges, and then loads and schedules the coroutine if it is suspended.
pub data Notifier : Type 0 where
  not_called exchanged notified scheduled : Notifier

pub record AwaitState : Type 0 where
  pub suspend_finished : Bool
  pub is_completed : Bool
  pub suspender : Suspender
  pub notifier : Notifier
  -- How many loads have missed a store.
  pub missed : ℕ

abbrev pub await_start : AwaitState
await_start = record {
  suspend_finished = false;
  is_completed = false;
  suspender = binding;
  notifier = not_called;
  missed = 0;
}

abbrev misses : Bool → Bool → ℕ
misses true false = 1
misses _ _ = 0

-- `fresh` says whether a load sees a store that was made before it.
unfoldable pub finish_suspend : Bool → Suspender → AwaitState → AwaitState
finish_suspend fresh binding s = record s { suspend_finished = true; suspender = stored }
finish_suspend fresh stored s = record s {
  suspender = if s.is_completed && fresh then resumed_at_once else suspended;
  missed = s.missed + misses s.is_completed fresh;
}
finish_suspend fresh suspended s = s
finish_suspend fresh resumed_at_once s = s

unfoldable pub notify_completed : Bool → Notifier → AwaitState → AwaitState
notify_completed fresh not_called s =
    if s.is_completed
    then record s { notifier = notified }
    else record s { is_completed = true; notifier = exchanged }
notify_completed fresh exchanged s = record s {
  notifier = if s.suspend_finished && fresh then scheduled else notified;
  missed = s.missed + misses s.suspend_finished fresh;
}
notify_completed fresh notified s = s
notify_completed fresh scheduled s = s

-- A schedule says which thread moves, `completes` being the one that completes, and whether its load
-- is fresh.
pub data AwaitMove : Type 0 where
  completes suspends : Bool → AwaitMove

abbrev await_step : AwaitMove → AwaitState → AwaitState
await_step (completes fresh) s = notify_completed fresh s.notifier s
await_step (suspends fresh) s = finish_suspend fresh s.suspender s

abbrev pub await_run : List AwaitMove → AwaitState → AwaitState
await_run [] s = s
await_run (b ∷ bs) s = await_run bs (await_step b s)

abbrev pub resumed_by_suspender : Suspender → ℕ
resumed_by_suspender resumed_at_once = 1
resumed_by_suspender _ = 0

abbrev pub resumed_by_notifier : Notifier → ℕ
resumed_by_notifier scheduled = 1
resumed_by_notifier _ = 0

-- How often the coroutine goes on.
abbrev pub resumes : AwaitState → ℕ
resumes s = resumed_by_suspender s.suspender + resumed_by_notifier s.notifier

abbrev pub suspender_ends : Suspender → Bool
suspender_ends suspended = true
suspender_ends resumed_at_once = true
suspender_ends _ = false

abbrev pub notifier_ends : Notifier → Bool
notifier_ends notified = true
notifier_ends scheduled = true
notifier_ends _ = false

abbrev has_stored : Suspender → Bool
has_stored binding = false
has_stored _ = true

abbrev has_exchanged : Notifier → Bool
has_exchanged not_called = false
has_exchanged _ = true

abbrev state_of : Suspender → Notifier → ℕ → AwaitState
state_of w n k = record {
  suspend_finished = has_stored w;
  is_completed = has_exchanged n;
  suspender = w;
  notifier = n;
  missed = k;
}

-- The places of the two threads from which the coroutine goes on without a load that misses.
abbrev lucky : Suspender → Notifier → ℕ
lucky suspended notified = 0
lucky _ _ = 1

record Reached (s : AwaitState) : Type 0 where
  at_suspender : Suspender
  at_notifier : Notifier
  misses_there : ℕ
  enough : 1 ≤ misses_there + lucky at_suspender at_notifier
  state : s ≡ state_of at_suspender at_notifier misses_there

abbrev GoesOn : AwaitState → Type 0
GoesOn s =
    suspender_ends s.suspender ≡ true
    → notifier_ends s.notifier ≡ true
    → (1 ≤ resumes s + s.missed) × (resumes s ≤ 2)
