-- ===== src/Timers/Served.antt =====
-- What a loop of `Update` runs.
use gb_server.Base.{
  length, All, ℕ, zero, suc, ◌+◌, ◌<◌, ◌≡◌, refl, sym, ap, ◌∙◌, Bool, true, false, some, List, [],
  ◌∷◌, ◌++◌, append_assoc, append-nil, arith,
}
use mathlib.Core.Path.{subst}
use gb_server.Timers.{
  Timer, QueueEntry, TimerManager, steady_clock, queue_of, push_timer, stops, goes_on, LoopResult,
  loop_ended, round_of, go_on, update_loop,
}
use gb_server.Timers.Update.{
  quiet, Due, Later, NotIn, Distinct, Registered, called_id, called, Registered-without,
  called-without, push_timer-behind, push_timer-All, push_timer-Distinct, push_timer-length,
  timer_of, entry_again, looped, ended, dropped, round_inactive, round_stops, round_loop,
  round_once,
}
use gb_server.Workers.{Pending, without, find}

-- The loop has ended, has run the timers of the entries `ds` that were active, in order, and has left
-- none in the queue that is due.
pub record Served (now : ℕ) (ds : List QueueEntry) (t : TimerManager) (o : LoopResult)
    : Type 0 where
  pub after : TimerManager
  pub result : o ≡ loop_ended after
  pub in_order : after.runs ≡ t.runs ++ called t.all_timers ds
  pub later : All (Later now) after.steady_timers

steady_loop : ℕ → ℕ → TimerManager → LoopResult
steady_loop now fuel t = update_loop quiet steady_clock now fuel t

loop-again :
    (now fuel : ℕ) (k : QueueEntry) (q : List QueueEntry) (t t' : TimerManager)
    → round_of quiet steady_clock now (k ∷ q) (record t { steady_timers = k ∷ q }) ≡ goes_on t'
    → steady_loop now (suc fuel) (record t { steady_timers = k ∷ q }) ≡ steady_loop now fuel t'
unfolding steady_loop update_loop go_on queue_of
loop-again now fuel k q t t' e = rw e refl

loop-stops :
    (now fuel : ℕ) (k : QueueEntry) (q : List QueueEntry) (t : TimerManager)
    → round_of quiet steady_clock now (k ∷ q) (record t { steady_timers = k ∷ q }) ≡ stops
    → steady_loop now (suc fuel) (record t { steady_timers = k ∷ q })
      ≡ loop_ended (record t { steady_timers = k ∷ q })
unfolding steady_loop update_loop go_on queue_of
loop-stops now fuel k q t e = rw e refl

waiting_round :
    (now fuel : ℕ) (k : QueueEntry) (q : List QueueEntry) (t : TimerManager)
    (active loop has_func : Bool) (duration : ℕ)
    → find k.id t.all_timers ≡ some (timer_of active loop duration has_func)
    → All (Later now) (k ∷ q)
    → Served now [] t (steady_loop now fuel (dropped k q t))
    → Served now [] t (steady_loop now (suc fuel) (record t { steady_timers = k ∷ q }))
waiting_round now fuel k q t true loop has_func duration e l s = record {
  after = record t { steady_timers = k ∷ q };
  result =
      loop-stops now fuel k q t
        (round_stops now k q (record t { steady_timers = k ∷ q }) loop has_func duration e l.0);
  in_order = sym (append-nil t.runs);
  later = l;
}
waiting_round now fuel k q t false loop has_func duration e l s = record {
  after = s.after;
  result =
      loop-again now fuel k q t (dropped k q t)
        (round_inactive now k q (record t { steady_timers = k ∷ q }) loop has_func duration e)
      ∙ s.result;
  in_order = s.in_order;
  later = s.later;
}

rest-Served :
    (now fuel : ℕ) (rest : List QueueEntry) (t : TimerManager)
    → length rest < fuel
    → All (Later now) rest
    → Distinct rest
    → Registered t.all_timers rest
    → Served now [] t (steady_loop now fuel (record t { steady_timers = rest }))
rest-Served now zero rest t h l d r = absurd (omega (arith, h))
rest-Served now (suc fuel) [] t h l d r = record {
  after = record t { steady_timers = [] };
  result = unfold steady_loop update_loop go_on queue_of round_of in refl;
  in_order = sym (append-nil t.runs);
  later = tt;
}
rest-Served now (suc fuel) (k ∷ q) t h l d r =
    let timer : Timer = r.0.0 in
    let t' : TimerManager = record t { all_timers = without k.id t.all_timers } in
    let again =
      rest-Served now fuel q t' (omega arith) l.1 d.1
        (Registered-without t.all_timers k.id q d.0 r.1) in
    waiting_round now fuel k q t timer.active timer.loop timer.has_func timer.duration r.0.1 l
      (record {
        after = again.after;
        result = again.result;
        in_order = again.in_order;
        later = again.later;
      })

expired_round :
    (now fuel : ℕ) (k : QueueEntry) (ds rest : List QueueEntry) (t : TimerManager)
    (active loop has_func : Bool) (duration : ℕ)
    → find k.id t.all_timers ≡ some (timer_of active loop duration has_func)
    → All (Due now) (k ∷ ds)
    → NotIn k.id ds
    → Served now ds (dropped k (ds ++ rest) t) (steady_loop now fuel (dropped k (ds ++ rest) t))
    → Served now ds
        (ended k (ds ++ rest) duration has_func t)
        (steady_loop now fuel (ended k (ds ++ rest) duration has_func t))
    → Served now ds
        (looped now k (ds ++ rest) duration has_func t)
        (steady_loop now fuel (looped now k (ds ++ rest) duration has_func t))
    → Served now
        (k ∷ ds)
        t
        (steady_loop now (suc fuel) (record t { steady_timers = k ∷ (ds ++ rest) }))
expired_round now fuel k ds rest t false loop has_func duration e d n a b c = record {
  after = a.after;
  result =
      loop-again now fuel k (ds ++ rest) t (dropped k (ds ++ rest) t) (
        round_inactive now k (ds ++ rest) (record t { steady_timers = k ∷ (ds ++ rest) }) loop
          has_func duration e)
      ∙ a.result;
  in_order = rw e (a.in_order ∙ ap (λ l. t.runs ++ l) (called-without t.all_timers k.id ds n));
  later = a.later;
}
expired_round now fuel k ds rest t true false has_func duration e d n a b c = record {
  after = b.after;
  result =
      loop-again now fuel k (ds ++ rest) t (ended k (ds ++ rest) duration has_func t) (
        round_once now k (ds ++ rest) (record t { steady_timers = k ∷ (ds ++ rest) }) has_func
          duration e d.0)
      ∙ b.result;
  in_order = rw e (
      b.in_order
      ∙ ap (λ l. (t.runs ++ called_id k.id (some (timer_of true false duration has_func))) ++ l)
          (called-without t.all_timers k.id ds n)
      ∙ append_assoc t.runs (called_id k.id (some (timer_of true false duration has_func)))
          (called t.all_timers ds));
  later = b.later;
}
expired_round now fuel k ds rest t true true has_func duration e d n a b c = record {
  after = c.after;
  result =
      loop-again now fuel k (ds ++ rest) t (looped now k (ds ++ rest) duration has_func t) (
        round_loop now k (ds ++ rest) (record t { steady_timers = k ∷ (ds ++ rest) }) has_func
          duration e d.0)
      ∙ c.result;
  in_order = rw e (
      c.in_order
      ∙ append_assoc t.runs (called_id k.id (some (timer_of true true duration has_func)))
          (called t.all_timers ds));
  later = c.later;
}

NotIn-append-left : (id : ℕ) (xs ys : List QueueEntry) → NotIn id (xs ++ ys) → NotIn id xs
NotIn-append-left id [] ys n = tt
NotIn-append-left id (x ∷ xs) ys n = (n.0, NotIn-append-left id xs ys n.1)

steady_loop-Served :
    (now fuel : ℕ) (ds rest : List QueueEntry) (t : TimerManager)
    → length ds + length (ds ++ rest) < fuel
    → All (Due now) ds
    → All (Later now) rest
    → Distinct (ds ++ rest)
    → Registered t.all_timers (ds ++ rest)
    → Served now ds t (steady_loop now fuel (record t { steady_timers = ds ++ rest }))
steady_loop-Served now zero ds rest t h d l x r = absurd (omega (arith, h))
steady_loop-Served now (suc fuel) [] rest t h d l x r =
    rest-Served now (suc fuel) rest t (omega arith) l x r
steady_loop-Served now (suc fuel) (k ∷ ds) rest t h d l x r =
    let timer : Timer = r.0.0 in
    let e : QueueEntry = entry_again now k timer.duration in
    let q : List QueueEntry = ds ++ rest in
    let gone : Pending Timer = without k.id t.all_timers in
    let kept = Registered-without t.all_timers k.id q x.0 r.1 in
    let runs_loop : List ℕ =
      t.runs ++ called_id k.id (some (timer_of true true timer.duration timer.has_func)) in
    let runs_once : List ℕ =
      t.runs ++ called_id k.id (some (timer_of true false timer.duration timer.has_func)) in
    let future : Later now e = omega arith in
    let moved : push_timer e q ≡ ds ++ push_timer e rest =
      push_timer-behind now e ds rest future d.1 in
    let longer : length (push_timer e q) ≡ suc (length q) = push_timer-length e q in
    let size : length (ds ++ push_timer e rest) ≡ suc (length q) =
      subst (λ l. length l ≡ suc (length q)) moved longer in
    let a =
      steady_loop-Served now fuel ds rest (record t { all_timers = gone }) (omega arith) d.1 l x.1
        kept in
    let b =
      steady_loop-Served now fuel ds rest (record t { all_timers = gone; runs = runs_once })
        (omega arith) d.1 l x.1 kept in
    let c =
      steady_loop-Served now fuel ds (push_timer e rest) (record t { runs = runs_loop })
        (omega arith) d.1 (push_timer-All (Later now) e rest future l)
        (subst Distinct moved (push_timer-Distinct e q x.0 x.1))
        (subst (Registered t.all_timers) moved (
          push_timer-All (λ j. (timer : Timer) × (find j.id t.all_timers ≡ some timer)) e q r.0
            r.1)) in
    expired_round now fuel k ds rest t timer.active timer.loop timer.has_func timer.duration r.0.1 d
      (NotIn-append-left k.id ds rest x.0)
      (record { after = a.after; result = a.result; in_order = a.in_order; later = a.later })
      (record { after = b.after; result = b.result; in_order = b.in_order; later = b.later })
      (record {
        after = c.after;
        result =
            ap (λ l. steady_loop now fuel (record t { steady_timers = l; runs = runs_loop })) moved
            ∙ c.result;
        in_order = c.in_order;
        later = c.later;
      })

-- While the clock stands still, the loop of `Update` over the steady timers ends where the functions of
-- the timers leave the manager alone: with the entries whose end time is over first in the queue, different ids and a
-- timer for each entry, a round for each entry, one more for each that is due and a last one are
-- enough. It calls the functions of the timers that are due and active, each once and in the order of
-- the queue, also where they loop, and leaves no entry in the queue that is due.
pub update_loop-Served :
    (now fuel : ℕ) (ds rest : List QueueEntry) (t : TimerManager)
    → t.steady_timers ≡ ds ++ rest
    → length ds + length (ds ++ rest) < fuel
    → All (Due now) ds
    → All (Later now) rest
    → Distinct (ds ++ rest)
    → Registered t.all_timers (ds ++ rest)
    → Served now ds t (update_loop (λ id s. s) steady_clock now fuel t)
unfolding steady_loop
update_loop-Served now fuel ds rest t e h d l x r =
    let s = steady_loop-Served now fuel ds rest t h d l x r in
    record {
      after = s.after;
      result = ap (λ q. steady_loop now fuel (record t { steady_timers = q })) e ∙ s.result;
      in_order = s.in_order;
      later = s.later;
    }
