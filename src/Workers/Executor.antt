-- ===== src/Workers/Executor.antt =====
-- src/network/rpc/executor.h: `WorkerExecutor`. The weak pointer to a worker is the worker's index,
-- which expires when the manager has no such worker; `dispatch_` is only ever a post to the main
-- worker, with `in_executor_` the test for the main thread.
use gb_server.Base.{◌==◌, if◌then◌else◌, ℕ, Bool, true, false, Option, none, some}
use gb_server.Workers.{Worker, post}
use gb_server.Workers.Manager.{WorkerManager, get_worker, put_worker, post_to_main}

pub record WorkerExecutor : Type 0 where
  pub worker : Option ℕ
  pub dispatch_to_main : Bool
  pub inline_fallback : Bool

-- `WorkerExecutor()`, which is also the result `{}`.
abbrev pub empty_executor : WorkerExecutor
empty_executor = record { worker = none; dispatch_to_main = false; inline_fallback = true }

-- `WorkerExecutor::Worker(worker)`
abbrev pub worker_executor : ℕ → WorkerExecutor
worker_executor index = record {
  worker = some index;
  dispatch_to_main = false;
  inline_fallback = true;
}

-- The executor that `Worker::Init` makes.
abbrev pub own_executor : ℕ → WorkerExecutor
own_executor index = record {
  worker = some index;
  dispatch_to_main = false;
  inline_fallback = false;
}

-- The thread that makes a call: its worker, if it has one, and whether it is the main thread.
pub record Thread : Type 0 where
  pub current_worker : Option ℕ
  pub is_main : Bool

-- What happens to the task: it has been run at once on the calling thread, it is handed over, or
-- it is not taken.
pub data Dispatched (Task Call : Type 0) : Type 0 where
  ran_here : Dispatched Task Call
  handed_over : WorkerManager Task Call → Dispatched Task Call
  not_taken : Dispatched Task Call

abbrev pub is_worker : Option ℕ → ℕ → Bool
is_worker none index = false
is_worker (some current) index = current == index

-- Only read where the pointer is not empty.
abbrev pub target_index : Option ℕ → ℕ
target_index none = 0
target_index (some index) = index

module _ {Task Call : Type 0} where
  abbrev pub lock : Option ℕ → WorkerManager Task Call → Option (Worker Task Call)
  lock none m = none
  lock (some index) m = get_worker index m

  -- The worker that has been locked, and the index at which it is.
  unfoldable pub dispatch_to :
      Option (Worker Task Call)
      → ℕ
      → Thread
      → WorkerExecutor
      → Task
      → WorkerManager Task Call
      → Dispatched Task Call
  dispatch_to (some w) index here e fn m =
      if is_worker here.current_worker w.index
      then ran_here
      else handed_over (put_worker index (post (some fn) w) m)
  dispatch_to none index here e fn m =
      if e.dispatch_to_main
      then (if here.is_main then ran_here else handed_over (post_to_main (some fn) m).1)
      else if e.inline_fallback
      then ran_here
      else not_taken

  unfoldable pub dispatch :
      Thread → WorkerExecutor → Option Task → WorkerManager Task Call → Dispatched Task Call
  dispatch here e none m = not_taken
  dispatch here e (some fn) m = dispatch_to (lock e.worker m) (target_index e.worker) here e fn m
