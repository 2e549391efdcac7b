-- ===== src/Workers/Manager.antt =====
-- src/worker/worker_manager.cpp: the main worker and the list of the others. The worker of index
-- `i + 1` is the `i`th of the list.
use gb_server.Base.{
  ltb, ◌==◌, if◌then◌else◌, length, get_elem?, set, ℕ, zero, suc, ◌-◌, ◌≡◌, refl, Bool, true, false,
  Option, none, some, List, [], ◌∷◌, ◌++◌,
}
use gb_server.Workers.{Worker, enqueue_task, post}

pub record WorkerManager (Task Call : Type 0) : Type 0 where
  pub main_worker : Option (Worker Task Call)
  pub workers : List (Worker Task Call)

module _ {Task Call : Type 0} where
  unfoldable pub get_worker : ℕ → WorkerManager Task Call → Option (Worker Task Call)
  get_worker index m =
      if index == 0
      then m.main_worker
      else if ltb (length m.workers) index
      then none
      else get_elem? m.workers (index - 1)

  -- The worker of an index after a change to it.
  unfoldable pub put_worker :
      ℕ → Worker Task Call → WorkerManager Task Call → WorkerManager Task Call
  put_worker zero w m = record m { main_worker = some w }
  put_worker (suc i) w m = record m { workers = set m.workers i w }

  unfoldable pub post_to_worker :
      ℕ → Option Task → WorkerManager Task Call → Bool × WorkerManager Task Call
  post_to_worker index none m = (false, m)
  post_to_worker index (some handler) m = elim (get_worker index m) [
    | none ↦ (false, m)
    | some w ↦ (true, put_worker index (post (some handler) w) m)
  ]

  unfoldable pub post_to_main :
      Option Task → WorkerManager Task Call → Bool × WorkerManager Task Call
  post_to_main handler m = post_to_worker 0 handler m

  -- A worker that runs and is not shutting down takes every task.
  pub post-accepts :
      (handler : Task) (w : Worker Task Call)
      → w.runing ≡ true
      → w.shutting_down ≡ false
      → post (some handler) w ≡ record w { events = w.events ++ handler ∷ [] }
  unfolding post enqueue_task
  post-accepts handler w runs up = rw (up, runs) refl
