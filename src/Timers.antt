-- ===== src/Timers.antt =====
-- src/timer: the timers of a `TimerManager`. The queues are ordered lists; an entry of a queue is the
-- pointer to a timer, which is its id, with the end time of the timer, which changes only while the
-- timer is in no queue. Times are numbers of ticks, and durations are not negative.
pub mod Update
pub mod Served
pub mod Endless
mod Tests
use mathlib.Core.Option
use gb_server.Base.{
  ltb, leb, ◌==◌, if◌then◌else◌, ℕ, zero, suc, ◌+◌, Bool, true, false, ◌&&◌, ◌||◌, not, Option,
  none, some, List, [], ◌∷◌, ◌++◌,
}
use gb_server.Workers.{Pending, without, find}

pub record Timer : Type 0 where
  pub active : Bool
  pub loop : Bool
  pub duration : ℕ
  pub has_func : Bool

pub record QueueEntry : Type 0 where
  pub end_time : ℕ
  pub id : ℕ

-- `runs` are the ids of the timers whose functions have been called, in order.
pub record TimerManager : Type 0 where
  pub steady_timers : List QueueEntry
  pub system_timers : List QueueEntry
  pub all_timers : Pending Timer
  pub generate_timer_id : ℕ
  pub shutting_down : Bool
  pub runs : List ℕ

pub data Clock : Type 0 where
  steady_clock system_clock : Clock

-- `IsExpired` of the two kinds of timers.
unfoldable pub is_expired : Clock → ℕ → ℕ → Bool
is_expired steady_clock now end_time = ltb end_time now
is_expired system_clock now end_time = leb end_time now

unfoldable pub queue_of : Clock → TimerManager → List QueueEntry
queue_of steady_clock t = t.steady_timers
queue_of system_clock t = t.system_timers

unfoldable pub with_queue : Clock → List QueueEntry → TimerManager → TimerManager
with_queue steady_clock q t = record t { steady_timers = q }
with_queue system_clock q t = record t { system_timers = q }

-- The comparison of the queues, the other way round.
unfoldable pub earlier : QueueEntry → QueueEntry → Bool
earlier a b = ltb a.end_time b.end_time || (a.end_time == b.end_time && ltb a.id b.id)

unfoldable pub push_timer : QueueEntry → List QueueEntry → List QueueEntry
push_timer e [] = e ∷ []
push_timer e (k ∷ q) = let rest = push_timer e q in if earlier e k then e ∷ k ∷ q else k ∷ rest

-- `RegisterTimer` and `RegisterSystemTimer`; the result -1 is `none`.
unfoldable pub register_timer : Clock → ℕ → ℕ → Bool → Bool → TimerManager → Option ℕ × TimerManager
register_timer c now duration has_func loop t =
    let id = t.generate_timer_id + 1 in
    let timer : Timer = record {
      active = true;
      loop = loop;
      duration = duration;
      has_func = has_func;
    } in
    if t.shutting_down then (none, t) else (
      some id,
      with_queue c (push_timer (record { end_time = now + duration; id = id }) (queue_of c t))
          (record t { generate_timer_id = id; all_timers = (id, timer) ∷ t.all_timers }),
    )

unfoldable pub cancel_timers : (ℕ → Timer → Bool) → Pending Timer → Pending Timer
cancel_timers chosen [] = []
cancel_timers chosen ((id, timer) ∷ rest) =
    let rest' = cancel_timers chosen rest in
    if chosen id timer then (id, record timer { active = false }) ∷ rest' else (id, timer) ∷ rest'

unfoldable pub unregister_timer : ℕ → TimerManager → TimerManager
unregister_timer id t = record t { all_timers = cancel_timers (λ k timer. k == id) t.all_timers }

-- Whether the timer of an id stands expired in a queue.
abbrev pub stands_expired : Clock → ℕ → ℕ → List QueueEntry → Bool
stands_expired c now id [] = false
stands_expired c now id (k ∷ q) =
    (k.id == id && is_expired c now k.end_time) || stands_expired c now id q

-- `EnterShutdownMode`
unfoldable pub enter_shutdown : ℕ → ℕ → TimerManager → TimerManager
enter_shutdown steady_now system_now t =
    let expired = λ (id : ℕ).
      stands_expired steady_clock steady_now id t.steady_timers
      || stands_expired system_clock system_now id t.system_timers in
    record t {
      shutting_down = true;
      all_timers = cancel_timers (λ id timer. not (expired id) && timer.active) t.all_timers;
    }

pub data Round : Type 0 where
  stops : Round
  goes_on : TimerManager → Round
  fault : Round

-- What a loop of `Update` has come to: its end, the end of the fuel with rounds still to come, or a
-- pointer to no timer.
pub data LoopResult : Type 0 where
  loop_ended loop_unfinished : TimerManager → LoopResult
  loop_fault : LoopResult

-- `call id` is what the function of the timer does to the manager, besides being called.
module _ (call : ℕ → TimerManager → TimerManager) (c : Clock) (now : ℕ) where
  unfoldable pub run_timer : ℕ → Timer → TimerManager → TimerManager
  run_timer id timer t =
      if timer.has_func then call id (record t { runs = t.runs ++ id ∷ [] }) else t

  unfoldable pub after_run : ℕ → Timer → TimerManager → TimerManager
  after_run id timer t =
      if timer.loop
      then with_queue c
          (push_timer (record { end_time = now + timer.duration; id = id }) (queue_of c t)) t
      else record t { all_timers = without id t.all_timers }

  -- A round of the loop with the top of the queue; a pointer to no timer is a fault.
  unfoldable pub round_with : QueueEntry → List QueueEntry → Option Timer → TimerManager → Round
  round_with k q none t = fault
  round_with k q (some timer) t =
      if not timer.active
      then goes_on (with_queue c q (record t { all_timers = without k.id t.all_timers }))
      else if is_expired c now k.end_time
      then goes_on (after_run k.id timer (run_timer k.id timer (with_queue c q t)))
      else stops

  unfoldable pub round_of : List QueueEntry → TimerManager → Round
  round_of [] t = stops
  round_of (k ∷ q) t = round_with k q (find k.id t.all_timers) t

  unfoldable pub go_on : (TimerManager → LoopResult) → TimerManager → Round → LoopResult
  go_on again t stops = loop_ended t
  go_on again t (goes_on t') = again t'
  go_on again t fault = loop_fault

  -- One of the two loops of `Update`, which are alike, with fuel. The clock shows `now` in all rounds.
  unfoldable pub update_loop : ℕ → TimerManager → LoopResult
  unfolding go_on
  update_loop zero t = loop_unfinished t
  update_loop (suc fuel) t = go_on (λ t'. update_loop fuel t') t (round_of (queue_of c t) t)

-- `Update`: the loop of the one queue and then that of the other.
abbrev pub update_both : (ℕ → TimerManager → TimerManager) → ℕ → ℕ → LoopResult → LoopResult
update_both call system_now fuel (loop_ended t) = update_loop call system_clock system_now fuel t
update_both call system_now fuel (loop_unfinished t) = loop_unfinished t
update_both call system_now fuel loop_fault = loop_fault

unfoldable pub update_timers :
    (ℕ → TimerManager → TimerManager) → ℕ → ℕ → ℕ → TimerManager → LoopResult
update_timers call steady_now system_now fuel t =
    update_both call system_now fuel (update_loop call steady_clock steady_now fuel t)
