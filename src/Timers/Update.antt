-- ===== src/Timers/Update.antt =====
-- The rounds of the steady loop of `Update`, with functions that leave the manager alone.
use gb_server.Base.{
  if◌then◌else◌, lt→ltb, lt→ltb_false, if_intro, length, All, ℕ, suc, ◌+◌, ◌≤◌, ◌<◌, ◌≡◌, refl, sym,
  ap, ◌∙◌, ◌≢◌, Bool, true, false, ◌&&◌, Option, none, some, List, [], ◌∷◌, ◌++◌, append-nil, arith,
}
use gb_server.Timers.{
  Timer, QueueEntry, TimerManager, steady_clock, is_expired, queue_of, with_queue, earlier,
  push_timer, stops, goes_on, run_timer, after_run, round_with, round_of,
}
use gb_server.Workers.{Pending, without, find}
use gb_server.Workers.Calls.{find-without_other}

abbrev pub quiet : ℕ → TimerManager → TimerManager
quiet id t = t

abbrev pub Due : ℕ → QueueEntry → Type 0
Due now k = k.end_time < now

abbrev pub Later : ℕ → QueueEntry → Type 0
Later now k = now ≤ k.end_time

abbrev pub NotIn : ℕ → List QueueEntry → Type 0
NotIn id q = All (λ k. k.id ≢ id) q

-- The ids of the entries are different.
abbrev pub Distinct : List QueueEntry → Type 0
Distinct [] = Unit {0}
Distinct (k ∷ q) = NotIn k.id q × Distinct q

-- The timer of each entry exists.
abbrev pub Registered : Pending Timer → List QueueEntry → Type 0
Registered all q = All (λ k. (timer : Timer) × (find k.id all ≡ some timer)) q

abbrev pub called_id : ℕ → Option Timer → List ℕ
called_id id none = []
called_id id (some timer) = if timer.active && timer.has_func then id ∷ [] else []

-- The timers of the entries that are active and have a function.
abbrev pub called : Pending Timer → List QueueEntry → List ℕ
called all [] = []
called all (k ∷ q) = called_id k.id (find k.id all) ++ called all q

pub Registered-without :
    (all : Pending Timer) (id : ℕ) (q : List QueueEntry)
    → NotIn id q
    → Registered all q
    → Registered (without id all) q
Registered-without all id [] a r = tt
Registered-without all id (k ∷ q) a ((timer, e), r) =
    ((timer, find-without_other id k.id all a.0 ∙ e), Registered-without all id q a.1 r)

pub called-without :
    (all : Pending Timer) (id : ℕ) (q : List QueueEntry)
    → NotIn id q
    → called (without id all) q ≡ called all q
called-without all id [] a = refl
called-without all id (k ∷ q) a =
    rw (find-without_other id k.id all a.0, called-without all id q a.1) refl

earlier-Due : (now : ℕ) (e k : QueueEntry) → Later now e → Due now k → earlier e k ≡ false
unfolding earlier
earlier-Due now e k l d = ground arith

-- A timer that is set to a later time goes behind those that are due.
pub push_timer-behind :
    (now : ℕ) (e : QueueEntry) (ds rest : List QueueEntry)
    → Later now e
    → All (Due now) ds
    → push_timer e (ds ++ rest) ≡ ds ++ push_timer e rest
unfolding push_timer
push_timer-behind now e [] rest l d = refl
push_timer-behind now e (k ∷ ds) rest l d =
    rw (earlier-Due now e k l d.0) (ap (λ q. k ∷ q) (push_timer-behind now e ds rest l d.1))

pub push_timer-All :
    (P : QueueEntry → Type 0) (e : QueueEntry) (q : List QueueEntry)
    → P e
    → All P q
    → All P (push_timer e q)
unfolding push_timer
push_timer-All P e [] p a = (p, tt)
push_timer-All P e (k ∷ q) p a =
    if_intro (λ l. All P l) (earlier e k) (λ _. (p, a)) (λ _. (a.0, push_timer-All P e q p a.1))

pub push_timer-Distinct :
    (e : QueueEntry) (q : List QueueEntry) → NotIn e.id q → Distinct q → Distinct (push_timer e q)
unfolding push_timer
push_timer-Distinct e [] a d = (tt, tt)
push_timer-Distinct e (k ∷ q) a d =
    if_intro Distinct (earlier e k) (λ _. (a, d))
      (λ _. (
        push_timer-All (λ j. j.id ≢ k.id) e q (λ same. a.0 (sym same)) d.0,
        push_timer-Distinct e q a.1 d.1,
      ))

pub push_timer-length :
    (e : QueueEntry) (q : List QueueEntry) → length (push_timer e q) ≡ suc (length q)
unfolding push_timer
push_timer-length e [] = refl
push_timer-length e (k ∷ q) =
    let rest = push_timer-length e q in
    if_intro (λ (l : List QueueEntry). length l ≡ suc (length (k ∷ q))) (earlier e k) (λ _. refl)
      (λ _. ap suc rest)

abbrev pub timer_of : Bool → Bool → ℕ → Bool → Timer
timer_of active loop duration has_func = record {
  active = active;
  loop = loop;
  duration = duration;
  has_func = has_func;
}

abbrev pub entry_again : ℕ → QueueEntry → ℕ → QueueEntry
entry_again now k duration = record { end_time = now + duration; id = k.id }

-- The manager after a round with a timer that is due, where the function has no other effect.
abbrev pub looped : ℕ → QueueEntry → List QueueEntry → ℕ → Bool → TimerManager → TimerManager
looped now k q duration has_func t = record t {
  steady_timers = push_timer (entry_again now k duration) q;
  runs = t.runs ++ called_id k.id (some (timer_of true true duration has_func));
}

abbrev pub ended : QueueEntry → List QueueEntry → ℕ → Bool → TimerManager → TimerManager
ended k q duration has_func t = record t {
  steady_timers = q;
  all_timers = without k.id t.all_timers;
  runs = t.runs ++ called_id k.id (some (timer_of true false duration has_func));
}

abbrev pub dropped : QueueEntry → List QueueEntry → TimerManager → TimerManager
dropped k q t = record t { steady_timers = q; all_timers = without k.id t.all_timers }

module _ (now : ℕ) (k : QueueEntry) (q : List QueueEntry) (t : TimerManager) where
  pub round_inactive :
      (loop has_func : Bool) (duration : ℕ)
      → find k.id t.all_timers ≡ some (timer_of false loop duration has_func)
      → round_of quiet steady_clock now (k ∷ q) t ≡ goes_on (dropped k q t)
  unfolding round_of round_with with_queue
  round_inactive loop has_func duration e = rw e refl

  pub round_stops :
      (loop has_func : Bool) (duration : ℕ)
      → find k.id t.all_timers ≡ some (timer_of true loop duration has_func)
      → Later now k
      → round_of quiet steady_clock now (k ∷ q) t ≡ stops
  unfolding round_of round_with is_expired
  round_stops loop has_func duration e l = rw (e, lt→ltb_false k.end_time now l) refl

  pub round_loop :
      (has_func : Bool) (duration : ℕ)
      → find k.id t.all_timers ≡ some (timer_of true true duration has_func)
      → Due now k
      → round_of quiet steady_clock now (k ∷ q) t ≡ goes_on (looped now k q duration has_func t)
  unfolding round_of round_with with_queue is_expired after_run queue_of run_timer
  round_loop true duration e d = rw (e, lt→ltb k.end_time now d) refl
  round_loop false duration e d =
      rw (e, lt→ltb k.end_time now d)
        (ap
          (λ l.
            goes_on
              (record t { steady_timers = push_timer (entry_again now k duration) q; runs = l }))
          (sym (append-nil t.runs)))

  pub round_once :
      (has_func : Bool) (duration : ℕ)
      → find k.id t.all_timers ≡ some (timer_of true false duration has_func)
      → Due now k
      → round_of quiet steady_clock now (k ∷ q) t ≡ goes_on (ended k q duration has_func t)
  unfolding round_of round_with with_queue is_expired after_run run_timer
  round_once true duration e d = rw (e, lt→ltb k.end_time now d) refl
  round_once false duration e d =
      rw (e, lt→ltb k.end_time now d)
        (ap (λ l. goes_on (record (dropped k q t) { runs = l })) (sym (append-nil t.runs)))
