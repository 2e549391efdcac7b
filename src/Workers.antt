-- ===== src/Workers.antt =====
-- src/worker: the workers, each of which runs the tasks of its queue on its own thread, and
-- src/network/rpc/executor.h, which hands tasks to them. A task is a value of the type `Task`.
pub mod Manager
pub mod Executor
pub mod History
pub mod Order
pub mod Calls
mod Tests
use mathlib.Core.Option
use gb_server.Base.{
  ◌==◌, if◌then◌else◌, get_elem?, ℕ, zero, suc, ◌+◌, ◌%◌, ◌^◌, Bool, true, false, ◌&&◌, not, Option,
  none, some, List, [], ◌∷◌, ◌++◌,
}

-- The calls that wait for their response, the newest first.
abbrev pub Pending {ℓ} : Type ℓ → Type ℓ
Pending Call = List (ℕ × Call)

abbrev pub without {ℓ} : {Call : Type ℓ} → ℕ → Pending Call → Pending Call
without seq [] = []
without seq ((k, call) ∷ rest) =
    let rest' = without seq rest in if k == seq then rest' else (k, call) ∷ rest'

abbrev pub find {ℓ} : {Call : Type ℓ} → ℕ → Pending Call → Option Call
find seq [] = none
find seq ((k, call) ∷ rest) = let found = find seq rest in if k == seq then some call else found

abbrev pub without_at {ℓ} : {A : Type ℓ} → ℕ → List A → List A
without_at i [] = []
without_at zero (x ∷ xs) = xs
without_at (suc i) (x ∷ xs) = x ∷ without_at i xs

-- `events` are in the order in which they were accepted.
pub record Worker (Task Call : Type 0) : Type 0 where
  pub index : ℕ
  -- `executor_` is set, which `Init` does on the worker's thread.
  pub has_executor : Bool
  pub events : List Task
  pub runing : Bool
  pub shutting_down : Bool
  pub rpc_seq_counter : ℕ
  pub pending_rpcs : Pending Call

module _ {Task Call : Type 0} where
  -- `Init` and `OnStart`
  unfoldable pub start : ℕ → Worker Task Call → Worker Task Call
  start index w = record w { index = index; has_executor = true; runing = true }

  unfoldable pub stop : Worker Task Call → Worker Task Call
  stop w = record w { runing = false }

  unfoldable pub enter_shutdown_mode : Worker Task Call → Worker Task Call
  enter_shutdown_mode w = record w { shutting_down = true }

  -- An empty `std::function` is `none`.
  unfoldable pub enqueue_task : Bool → Option Task → Worker Task Call → Bool × Worker Task Call
  enqueue_task force none w = (false, w)
  enqueue_task force (some handler) w =
      if not force && w.shutting_down
      then (false, w)
      else if w.runing
      then (true, record w { events = w.events ++ handler ∷ [] })
      else (false, w)

  -- The result of `EnqueueTask` is not looked at.
  unfoldable pub post : Option Task → Worker Task Call → Worker Task Call
  post handler w = (enqueue_task false handler w).1

  unfoldable pub dequeued : ℕ → Worker Task Call → Option Task → Option Task × Worker Task Call
  dequeued place w none = (none, w)
  dequeued place w (some task) = (some task, record w { events = without_at place w.events })

  -- `events_.try_dequeue`. The queue keeps the order of each producer only, so that the task at any
  -- place may come, and none where the place is behind the end.
  unfoldable pub try_dequeue : ℕ → Worker Task Call → Option Task × Worker Task Call
  unfolding dequeued
  try_dequeue place w = dequeued place w (get_elem? w.events place)

  -- The counter is a uint32_t.
  unfoldable pub alloc_rpc_seq : Worker Task Call → ℕ × Worker Task Call
  alloc_rpc_seq w =
      (w.rpc_seq_counter, record w { rpc_seq_counter = (w.rpc_seq_counter + 1) % 2 ^ 32 })

  unfoldable pub store_pending_rpc : ℕ → Call → Worker Task Call → Worker Task Call
  store_pending_rpc seq call w = record w {
    pending_rpcs = (seq, call) ∷ without seq w.pending_rpcs;
  }

  unfoldable pub take_found : ℕ → Worker Task Call → Option Call → Option Call × Worker Task Call
  take_found seq w none = (none, w)
  take_found seq w (some call) = (some call, record w { pending_rpcs = without seq w.pending_rpcs })

  unfoldable pub take_pending_rpc : ℕ → Worker Task Call → Option Call × Worker Task Call
  take_pending_rpc seq w = take_found seq w (find seq w.pending_rpcs)

abbrev pub new_worker : {Task Call : Type 0} → Worker Task Call
new_worker = record {
  index = 0;
  has_executor = false;
  events = [];
  runing = false;
  shutting_down = false;
  rpc_seq_counter = 1;
  pending_rpcs = [];
}
