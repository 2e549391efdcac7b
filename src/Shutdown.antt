-- ===== src/Shutdown.antt =====
-- src/async/shutdown.cpp: the phases of the shutdown. Each atomic operation is a step of its own; the
-- store of a phase and the call that tells the waiting threads are one, and so is a callback. A
-- callback that calls NextPhase is a further thread here: it does what any other caller does.
pub mod Order
pub mod Schedules
pub mod Requests
mod Tests
use gb_server.Base.{if◌then◌else◌, ℕ, zero, suc, ◌+◌, Bool, true, false, List, [], ◌∷◌, ◌++◌}

pub data ShutdownPhase : Type 0 where
  normal stopping_io completing_timers processing_tasks cleaning done : ShutdownPhase

pub data Callback : Type 0 where
  on_stop_io on_complete_timers on_process_tasks on_cleanup : Callback

-- Where the thread is that has set is_advancing_: before the load of the phase, after it, after the
-- store, and after the callback, and outside.
pub data Holder : Type 0 where
  outside looping checking leaving : Holder
  loaded calling : ShutdownPhase → Holder

-- `wanting` threads have found is_advancing_ set and have not stored pending_advance_ yet; `dropping`
-- ones have reset is_advancing_ and not yet pending_advance_. `calls` are the callbacks that have run.
pub record ShutdownManager : Type 0 where
  pub current_phase : ShutdownPhase
  pub shutdown_requested : Bool
  pub is_advancing : Bool
  pub pending_advance : Bool
  pub is_set : Callback → Bool
  pub holder : Holder
  pub wanting : ℕ
  pub dropping : ℕ
  pub calls : List Callback

-- `Initialize` with the callbacks that are not empty.
unfoldable pub initialize : (Callback → Bool) → ShutdownManager
initialize is_set = record {
  current_phase = normal;
  shutdown_requested = false;
  is_advancing = false;
  pending_advance = false;
  is_set = is_set;
  holder = outside;
  wanting = 0;
  dropping = 0;
  calls = [];
}

unfoldable pub next_phase : ShutdownPhase → ShutdownPhase
next_phase normal = stopping_io
next_phase stopping_io = completing_timers
next_phase completing_timers = processing_tasks
next_phase processing_tasks = cleaning
next_phase cleaning = done
next_phase done = done

-- The first operation of `AdvancePhase`, the exchange of is_advancing_.
unfoldable pub advance_phase : ShutdownManager → ShutdownManager
advance_phase s =
    if s.is_advancing
    then record s { wanting = s.wanting + 1 }
    else record s { is_advancing = true; holder = looping }

-- The thread that has found is_advancing_ set stores pending_advance_.
unfoldable pub mark_pending : ℕ → ShutdownManager → ShutdownManager
mark_pending zero s = s
mark_pending (suc n) s = record s { wanting = n; pending_advance = true }

unfoldable pub load_phase : ShutdownPhase → ShutdownManager → ShutdownManager
load_phase done s = record s { holder = leaving }
load_phase current s = record s { holder = loaded current }

unfoldable pub call : Callback → ShutdownManager → ShutdownManager
call c s =
    if s.is_set c
    then record s { calls = s.calls ++ c ∷ []; holder = checking }
    else record s { holder = checking }

-- The second `switch`.
unfoldable pub run_callback : ShutdownPhase → ShutdownManager → ShutdownManager
unfolding call
run_callback normal s = call on_stop_io s
run_callback stopping_io s = call on_complete_timers s
run_callback completing_timers s = call on_process_tasks s
run_callback processing_tasks s = call on_cleanup s
run_callback cleaning s = record s { holder = checking }
run_callback done s = record s { holder = checking }

-- One operation of the thread that advances.
unfoldable pub advance_step : Holder → ShutdownManager → ShutdownManager
unfolding load_phase run_callback next_phase
advance_step outside s = s
advance_step looping s = load_phase s.current_phase s
advance_step (loaded current) s = record s {
  current_phase = next_phase current;
  holder = calling current;
}
advance_step (calling current) s = run_callback current s
advance_step checking s = record s {
  pending_advance = false;
  holder = if s.pending_advance then looping else leaving;
}
-- The destructor of ResetGuard.
advance_step leaving s = record s {
  is_advancing = false;
  holder = outside;
  dropping = s.dropping + 1;
}

unfoldable pub drop_pending : ℕ → ShutdownManager → ShutdownManager
drop_pending zero s = s
drop_pending (suc n) s = record s { dropping = n; pending_advance = false }

-- The exchange of shutdown_requested_, and then AdvancePhase.
unfoldable pub shutdown : ShutdownManager → ShutdownManager
unfolding advance_phase
shutdown s =
    if s.shutdown_requested then s else advance_phase (record s { shutdown_requested = true })

unfoldable pub force_shutdown : ShutdownManager → ShutdownManager
force_shutdown s = record s { current_phase = done }

pub data ShutdownStep : Type 0 where
  shuts_down asks_next marks advances drops forces : ShutdownStep

unfoldable pub shutdown_step : ShutdownStep → ShutdownManager → ShutdownManager
unfolding shutdown advance_phase mark_pending advance_step drop_pending force_shutdown
shutdown_step shuts_down s = shutdown s
shutdown_step asks_next s = advance_phase s
shutdown_step marks s = mark_pending s.wanting s
shutdown_step advances s = advance_step s.holder s
shutdown_step drops s = drop_pending s.dropping s
shutdown_step forces s = force_shutdown s

abbrev pub shutdown_run : List ShutdownStep → ShutdownManager → ShutdownManager
shutdown_run [] s = s
shutdown_run (e ∷ es) s = shutdown_run es (shutdown_step e s)
