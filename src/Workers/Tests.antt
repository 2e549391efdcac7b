-- ===== src/Workers/Tests.antt =====
-- The workers at concrete inputs. Tasks and calls are numbers.
use gb_server.Base.{ℕ, ◌≡◌, refl, true, false, some, List, [], ◌∷◌, ◌++◌}
use gb_server.Workers.{start, stop, enter_shutdown_mode, enqueue_task, dequeued, try_dequeue}
use gb_server.Workers.History.{
  stops, shuts_down, starts, Event, enqueues, serves, of_thread, new_history, serve, worker_step,
  worker_run,
}
use gb_server.Workers.Order.{worker_run-in_order}

-- Two threads, 3 and 4; the second task of thread 4 is not the oldest one of its thread.
abbrev a_day : List (Event ℕ)
a_day =
    enqueues false 3 (some 7)
    ∷ starts 1
    ∷ enqueues false 3 (some 10)
    ∷ enqueues false 4 (some 20)
    ∷ enqueues false 4 (some 21)
    ∷ serves 2
    ∷ serves 1
    ∷ shuts_down
    ∷ enqueues false 4 (some 22)
    ∷ enqueues true 4 (some 23)
    ∷ stops
    ∷ enqueues true 3 (some 14)
    ∷ serves 1
    ∷ []

a_day-lists :
    ((worker_run a_day (new_history {Call = ℕ})).executed ≡ (4, 20) ∷ (4, 21) ∷ [])
    × ((worker_run a_day (new_history {Call = ℕ})).worker.events ≡ (3, 10) ∷ (4, 23) ∷ [])
unfolding worker_step enqueue_task serve try_dequeue dequeued start stop enter_shutdown_mode
a_day-lists = (refl, refl)

worker_run-in_order_example :
    of_thread 4 (worker_run a_day (new_history {Call = ℕ})).executed
      ++ of_thread 4 (worker_run a_day (new_history {Call = ℕ})).worker.events
    ≡ 20 ∷ 21 ∷ 23 ∷ []
worker_run-in_order_example = worker_run-in_order ℕ ℕ 4 a_day
