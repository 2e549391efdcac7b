-- ===== src/Timers/Tests.antt =====
-- Timers at concrete inputs.
use gb_server.Base.{ℕ, refl, true, false, List, [], ◌∷◌, ◌++◌, arith}
use gb_server.Timers.{QueueEntry, TimerManager, steady_clock, update_loop}
use gb_server.Timers.Served.{Served, update_loop-Served}
use gb_server.Timers.Update.{timer_of}

abbrev at_time : ℕ → ℕ → QueueEntry
at_time end_time id = record { end_time = end_time; id = id }

-- At 10: timer 3 is due and loops, timer 1 is due and cancelled, timer 2 is due, timer 4 is not.
abbrev some_due : List QueueEntry
some_due = at_time 5 3 ∷ at_time 6 1 ∷ at_time 9 2 ∷ []

abbrev some_later : List QueueEntry
some_later = at_time 12 4 ∷ []

abbrev a_manager : TimerManager
a_manager = record {
  steady_timers = some_due ++ some_later;
  system_timers = [];
  all_timers =
      (1, timer_of false false 4 true)
      ∷ (2, timer_of true false 6 true)
      ∷ (3, timer_of true true 5 true)
      ∷ (4, timer_of true false 9 true)
      ∷ [];
  generate_timer_id = 4;
  shutting_down = false;
  runs = [];
}

update_loop-Served_example :
    Served 10 some_due a_manager (update_loop (λ id s. s) steady_clock 10 9 a_manager)
update_loop-Served_example =
    update_loop-Served 10 9 some_due some_later a_manager refl (omega arith)
      (omega arith, (omega arith, (omega arith, tt))) (omega arith, tt)
      (
        (ground arith, (ground arith, (ground arith, tt))),
        ((ground arith, (ground arith, tt)), ((ground arith, tt), (tt, tt))),
      )
      (
        (timer_of true true 5 true, refl),
        (
          (timer_of false false 4 true, refl),
          ((timer_of true false 6 true, refl), ((timer_of true false 9 true, refl), tt)),
        ),
      )

abbrev a_busy_manager : TimerManager
a_busy_manager = record a_manager {
  system_timers = at_time 7 5 ∷ [];
  all_timers = (5, timer_of true true 0 true) ∷ [];
}
