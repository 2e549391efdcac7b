-- ===== src/Workers/Order.antt =====
-- What a worker has run and what stands in its queue (src/worker/worker.cpp), thread by thread.
use gb_server.Base.{
  ◌==◌, if◌then◌else◌, Bool-cases, if_intro, some_injective, get_elem?, take, ℕ, zero, suc, ◌≡◌,
  refl, sym, ap, ◌∙◌, inl, inr, Bool, true, false, ◌&&◌, ◌||◌, not, Option, none, some, List, [],
  ◌∷◌, ◌++◌, append_assoc, append-nil, arith,
}
use gb_server.Workers.{
  without_at, Worker, start, stop, enter_shutdown_mode, enqueue_task, dequeued, try_dequeue,
}
use gb_server.Workers.History.{
  stops, shuts_down, starts, Event, enqueues, serves, History, is_from, of_thread, taken,
  new_history, serve, worker_step, worker_run,
}

apart_of : (p q q' : ℕ) (b : Bool) → (q' == p) ≡ true → (q' == q) || b ≡ false → (q == p) ≡ false
apart_of p q q' true same a = ground arith
apart_of p q q' false same a = ground arith

Bool-or_right : (a b : Bool) → a || b ≡ false → b ≡ false
Bool-or_right true b e = cc
Bool-or_right false b e = e

module _ {Task : Type 0} where
  of_thread-append :
      (p : ℕ) (xs ys : List (ℕ × Task)) → of_thread p (xs ++ ys) ≡ of_thread p xs ++ of_thread p ys
  of_thread-append p [] ys = refl
  of_thread-append p ((q, t) ∷ xs) ys = elim (Bool-cases (q == p)) [
    | inl same ↦ rw same (ap (λ l. t ∷ l) (of_thread-append p xs ys))
    | inr other ↦ rw other (of_thread-append p xs ys)
  ]

  of_thread-without_at :
      (p place q : ℕ) (t : Task) (l : List (ℕ × Task))
      → get_elem? l place ≡ some (q, t)
      → is_from q (take place l) ≡ false
      → of_thread p l ≡ of_thread p ((q, t) ∷ []) ++ of_thread p (without_at place l)
  of_thread-without_at p place q t [] e a = cc
  of_thread-without_at p zero q t (x ∷ l) e a =
      ap (λ y. of_thread p (y ∷ l)) (some_injective e) ∙ of_thread-append p ((q, t) ∷ []) l
  of_thread-without_at p (suc i) q t ((q', t') ∷ l) e a =
      let ih =
        of_thread-without_at p i q t l e (Bool-or_right (q' == q) (is_from q (take i l)) a) in
      elim (Bool-cases (q' == p)) [
        | inr other ↦ rw other ih
        | inl same ↦
            let apart : (q == p) ≡ false = apart_of p q q' (is_from q (take i l)) same a in
            rw (same, apart)
              (ap (λ l. t' ∷ l)
                (ih ∙ ap (λ b. (if b then t ∷ [] else []) ++ of_thread p (without_at i l)) apart))
      ]

  accepted-seen :
      (p q : ℕ) (t : Task) (executed events : List (ℕ × Task)) (rest : List Task)
      → (of_thread p executed ++ of_thread p (events ++ (q, t) ∷ [])) ++ rest
        ≡ (of_thread p executed ++ of_thread p events) ++ (if q == p then t ∷ rest else rest)
  accepted-seen p q t executed events rest =
      ap (λ l. (of_thread p executed ++ l) ++ rest) (of_thread-append p events ((q, t) ∷ []))
      ∙ ap (λ l. l ++ rest)
          (sym
            (append_assoc (of_thread p executed) (of_thread p events) (of_thread p ((q, t) ∷ []))))
      ∙ append_assoc (of_thread p executed ++ of_thread p events) (of_thread p ((q, t) ∷ [])) rest
      ∙ ap (λ l. (of_thread p executed ++ of_thread p events) ++ l)
          (if_intro (λ l. l ++ rest ≡ (if q == p then t ∷ rest else rest)) (q == p) (λ e. rw e refl)
            (λ e. rw e refl))

module _ {Task Call : Type 0} where
  abbrev seen : ℕ → History Task Call → List Task
  seen p h = of_thread p h.executed ++ of_thread p h.worker.events

  serve-seen :
      (p place : ℕ) (h : History Task Call) (o : Option (ℕ × Task))
      → get_elem? h.worker.events place ≡ o
      → seen p (serve place h) ≡ seen p h
  unfolding serve try_dequeue dequeued
  serve-seen p place h none e = rw e refl
  serve-seen p place h (some (q, t)) e =
      elim (Bool-cases (is_from q (take place h.worker.events))) [
        | inl younger ↦ rw (e, younger) refl
        | inr oldest ↦
            rw (e, oldest)
              (ap (λ l. l ++ of_thread p (without_at place h.worker.events))
                  (of_thread-append p h.executed ((q, t) ∷ []))
                ∙ append_assoc (of_thread p h.executed) (of_thread p ((q, t) ∷ [])) _
                ∙ ap (λ l. of_thread p h.executed ++ l)
                    (sym (of_thread-without_at p place q t h.worker.events e oldest)))
      ]

  serve-flags :
      (place : ℕ) (h : History Task Call) (o : Option (ℕ × Task))
      → get_elem? h.worker.events place ≡ o
      → ((serve place h).worker.runing ≡ h.worker.runing)
        × ((serve place h).worker.shutting_down ≡ h.worker.shutting_down)
  unfolding serve try_dequeue dequeued
  serve-flags place h none e = rw e (refl, refl)
  serve-flags place h (some (q, t)) e = elim (Bool-cases (is_from q (take place h.worker.events))) [
    | inl younger ↦ rw (e, younger) (refl, refl)
    | inr oldest ↦ rw (e, oldest) (refl, refl)
  ]

  enqueue-flags :
      (force : Bool) (x : Option (ℕ × Task)) (w : Worker (ℕ × Task) Call)
      → ((enqueue_task force x w).1.runing ≡ w.runing)
        × ((enqueue_task force x w).1.shutting_down ≡ w.shutting_down)
  unfolding enqueue_task
  enqueue-flags force none w = (refl, refl)
  enqueue-flags force (some x) w =
      let Same = λ (r : Bool × Worker (ℕ × Task) Call).
        (r.1.runing ≡ w.runing) × (r.1.shutting_down ≡ w.shutting_down) in
      if_intro Same (not force && w.shutting_down) (λ _. (refl, refl))
        (λ _. if_intro Same w.runing (λ _. (refl, refl)) (λ _. (refl, refl)))

  enqueue-seen :
      (p q : ℕ) (t : Task) (h : History Task Call) (rest : List Task) (force runs down : Bool)
      → h.worker.runing ≡ runs
      → h.worker.shutting_down ≡ down
      → seen p (record h { worker = (enqueue_task force (some (q, t)) h.worker).1 }) ++ rest
        ≡ seen p h ++ (if (runs && (force || not down)) && q == p then t ∷ rest else rest)
  unfolding enqueue_task
  enqueue-seen p q t h rest true true down r d =
      rw r (accepted-seen p q t h.executed h.worker.events rest)
  enqueue-seen p q t h rest true false down r d = rw r refl
  enqueue-seen p q t h rest false true true r d = rw d refl
  enqueue-seen p q t h rest false false true r d = rw d refl
  enqueue-seen p q t h rest false true false r d =
      rw (d, r) (accepted-seen p q t h.executed h.worker.events rest)
  enqueue-seen p q t h rest false false false r d = rw (d, r) refl

  worker_run-seen :
      (p : ℕ) (es : List (Event Task)) (h : History Task Call)
      → seen p (worker_run es h) ≡ seen p h ++ taken p h.worker.runing h.worker.shutting_down es
  unfolding worker_step start stop enter_shutdown_mode enqueue_task
  worker_run-seen p [] h = sym (append-nil (seen p h))
  worker_run-seen p (starts index ∷ es) h = worker_run-seen p es (worker_step (starts index) h)
  worker_run-seen p (enqueues force q none ∷ es) h = worker_run-seen p es h
  worker_run-seen p (enqueues force q (some t) ∷ es) h =
      let s : History Task Call = worker_step (enqueues force q (some t)) h in
      let flags = enqueue-flags force (some (q, t)) h.worker in
      worker_run-seen p es s
      ∙ ap (λ r. seen p s ++ taken p r s.worker.shutting_down es) flags.0
      ∙ ap (λ d. seen p s ++ taken p h.worker.runing d es) flags.1
      ∙ enqueue-seen p q t h (taken p h.worker.runing h.worker.shutting_down es) force
          h.worker.runing h.worker.shutting_down refl refl
  worker_run-seen p (serves place ∷ es) h =
      let s : History Task Call = serve place h in
      let flags = serve-flags place h (get_elem? h.worker.events place) refl in
      worker_run-seen p es s
      ∙ ap (λ r. seen p s ++ taken p r s.worker.shutting_down es) flags.0
      ∙ ap (λ d. seen p s ++ taken p h.worker.runing d es) flags.1
      ∙ ap (λ l. l ++ taken p h.worker.runing h.worker.shutting_down es)
          (serve-seen p place h (get_elem? h.worker.events place) refl)
  worker_run-seen p (shuts_down ∷ es) h = worker_run-seen p es (worker_step shuts_down h)
  worker_run-seen p (stops ∷ es) h = worker_run-seen p es (worker_step stops h)

-- Of the tasks of each thread, a new worker has run the first ones that it should take, in the order in
-- which the thread handed them over, and the others stand in its queue: none is lost, run twice or
-- overtaken by another one of its thread. It should take a task while it runs, and after the begin of
-- its shutdown only where the task is forced.
pub worker_run-in_order :
    (Task Call : Type 0) (p : ℕ) (es : List (Event Task))
    → of_thread p (worker_run es (new_history {Task = Task} {Call = Call})).executed
        ++ of_thread p (worker_run es (new_history {Task = Task} {Call = Call})).worker.events
      ≡ taken p false false es
worker_run-in_order Task Call p es = worker_run-seen p es new_history
