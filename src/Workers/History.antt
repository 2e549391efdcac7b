-- ===== src/Workers/History.antt =====
-- The queue of a worker (src/worker/worker.cpp), in which each task has the thread that handed it over.
use gb_server.Base.{
  ◌==◌, if◌then◌else◌, get_elem?, take, ℕ, Bool, true, false, ◌&&◌, ◌||◌, not, Option, none, some,
  List, [], ◌∷◌, ◌++◌,
}
use gb_server.Workers.{
  Worker, start, stop, enter_shutdown_mode, enqueue_task, try_dequeue, new_worker,
}

-- What happens to a worker: its start and its end, the calls of `EnqueueTask` from a thread, and a
-- round of the loops in `OnUpdate` and `Run`, which takes the task at a place and runs it.
pub data Event (Task : Type 0) : Type 0 where
  starts : ℕ → Event Task
  enqueues : Bool → ℕ → Option Task → Event Task
  serves : ℕ → Event Task
  shuts_down stops : Event Task

-- The worker with the tasks that it has run.
pub record History (Task Call : Type 0) : Type 0 where
  pub worker : Worker (ℕ × Task) Call
  pub executed : List (ℕ × Task)

module _ {Task : Type 0} where
  abbrev pub with_thread : ℕ → Option Task → Option (ℕ × Task)
  with_thread thread none = none
  with_thread thread (some t) = some (thread, t)

  abbrev pub is_from : ℕ → List (ℕ × Task) → Bool
  is_from thread [] = false
  is_from thread ((q, t) ∷ l) = q == thread || is_from thread l

  -- No task of the same thread stands before it.
  abbrev pub is_oldest : Option (ℕ × Task) → List (ℕ × Task) → Bool
  is_oldest none before = true
  is_oldest (some (q, t)) before = not (is_from q before)

  -- The tasks of one thread.
  abbrev pub of_thread : ℕ → List (ℕ × Task) → List Task
  of_thread p [] = []
  of_thread p ((q, t) ∷ l) = let rest = of_thread p l in if q == p then t ∷ rest else rest

  -- What a worker should take from one thread: all tasks while it runs, and after the begin of its
  -- shutdown only those that are forced.
  abbrev pub taken : ℕ → Bool → Bool → List (Event Task) → List Task
  taken p runs down [] = []
  taken p runs down (starts index ∷ es) = taken p true down es
  taken p runs down (enqueues force q none ∷ es) = taken p runs down es
  taken p runs down (enqueues force q (some t) ∷ es) =
      let rest = taken p runs down es in
      if (runs && (force || not down)) && q == p then t ∷ rest else rest
  taken p runs down (serves place ∷ es) = taken p runs down es
  taken p runs down (shuts_down ∷ es) = taken p runs true es
  taken p runs down (stops ∷ es) = taken p false down es

module _ {Task Call : Type 0} where
  abbrev pub new_history : History Task Call
  new_history = record { worker = new_worker; executed = [] }

  abbrev pub execute :
      Option (ℕ × Task) × Worker (ℕ × Task) Call → History Task Call → History Task Call
  execute (none, w) h = record h { worker = w }
  execute (some x, w) h = record { worker = w; executed = h.executed ++ x ∷ [] }

  -- The queue gives the tasks of each thread in their order, which is all that it promises.
  unfoldable pub serve : ℕ → History Task Call → History Task Call
  serve place h =
      if is_oldest (get_elem? h.worker.events place) (take place h.worker.events)
      then execute (try_dequeue place h.worker) h
      else h

  unfoldable pub worker_step : Event Task → History Task Call → History Task Call
  unfolding serve
  worker_step (starts index) h = record h { worker = start index h.worker }
  worker_step (enqueues force thread handler) h = record h {
    worker = (enqueue_task force (with_thread thread handler) h.worker).1;
  }
  worker_step (serves place) h = serve place h
  worker_step shuts_down h = record h { worker = enter_shutdown_mode h.worker }
  worker_step stops h = record h { worker = stop h.worker }

  abbrev pub worker_run : List (Event Task) → History Task Call → History Task Call
  worker_run [] h = h
  worker_run (e ∷ es) h = worker_run es (worker_step e h)
