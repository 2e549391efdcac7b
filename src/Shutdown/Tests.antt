-- ===== src/Shutdown/Tests.antt =====
-- The shutdown at concrete inputs.
use gb_server.Base.{take, ◌≤◌, ◌≡◌, refl, ◌⊎◌, Bool, true, false, List, [], ◌∷◌, arith}
use gb_server.Shutdown.{
  ShutdownPhase, stopping_io, completing_timers, done, Callback, on_stop_io, on_complete_timers,
  outside, initialize, ShutdownStep, shuts_down, asks_next, marks, advances, drops, forces,
  shutdown_step, shutdown_run,
}
use gb_server.Shutdown.Order.{rank, all_callbacks, chosen}
use gb_server.Shutdown.Requests.{shutdown_run-requests}
use gb_server.Shutdown.Schedules.{shutdown_run-order}

abbrev all_set : Callback → Bool
all_set c = true

-- One thread asks; the callback of the first phase asks for the next phase.
abbrev two_phases : List ShutdownStep
two_phases =
    shuts_down ∷ advances ∷ advances ∷ advances ∷ asks_next ∷ marks ∷ advances ∷ advances ∷ advances
    ∷ advances ∷ advances ∷ advances ∷ drops ∷ []

two_phases-calls :
    ((shutdown_run two_phases (initialize all_set)).calls ≡ on_stop_io ∷ on_complete_timers ∷ [])
    × ((shutdown_run two_phases (initialize all_set)).current_phase ≡ completing_timers)
unfolding shutdown_step initialize
two_phases-calls = (refl, refl)

-- ForceShutdown between the load of a phase and the store of the next one is undone.
forced_back :
    (shutdown_run
      (shuts_down ∷ advances ∷ forces ∷ advances ∷ [])
      (initialize all_set)).current_phase
    ≡ stopping_io
unfolding shutdown_step initialize
forced_back = refl

-- A request that is marked after the last look at pending_advance_ is dropped.
request_lost :
    let s =
      shutdown_run
        (shuts_down ∷ advances ∷ advances ∷ advances ∷ advances ∷ asks_next ∷ marks ∷ advances
          ∷ drops ∷ [])
        (initialize all_set) in
    (s.current_phase ≡ stopping_io) × (s.holder ≡ outside) × (s.pending_advance ≡ false)
unfolding shutdown_step initialize
request_lost = (refl, refl, refl)

shutdown_run-order_example :
    let s = shutdown_run (forces ∷ two_phases) (initialize all_set) in
    (q : ShutdownPhase) × (s.calls ≡ chosen all_set (take (rank q) all_callbacks))
    × (s.holder ≡ outside → (s.current_phase ≡ q) ⊎ (s.current_phase ≡ done))
shutdown_run-order_example = shutdown_run-order all_set (forces ∷ two_phases)

shutdown_run-requests_example :
    rank (shutdown_run two_phases (initialize all_set)).current_phase ≤ 2
shutdown_run-requests_example = shutdown_run-requests all_set two_phases (omega arith)
