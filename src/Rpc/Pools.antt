-- ===== src/Rpc/Pools.antt =====
-- The counters and the ids of a pool of timers.
use gb_server.Base.{
  length, get_elem?, ℕ, zero, suc, ◌+◌, ◌^◌, ◌<◌, ◌≡◌, refl, ap, Option, none, some, List, [], ◌∷◌,
  arith,
}
use mathlib.Core.Path.{subst}
use gb_server.Rpc.TimerPool.{
  TimerHandle, TimerPool, new_pool, add_size, acquire_from, acquire_timer, release_timer,
  new_handles, pre_warm,
}

-- A pool with the timers that it has given out.
pub record Lent : Type 0 where
  pub pool : TimerPool
  pub out : List TimerHandle

-- The operations of one thread: the index says which of the timers that are out comes back.
pub data PoolEvent : Type 0 where
  acquires : ℕ → PoolEvent
  releases : ℕ → PoolEvent
  warms : ℕ → ℕ → PoolEvent

abbrev pub without_nth : ℕ → List TimerHandle → List TimerHandle
without_nth i [] = []
without_nth zero (h ∷ hs) = hs
without_nth (suc i) (h ∷ hs) = h ∷ without_nth i hs

abbrev lend : TimerHandle × TimerPool → List TimerHandle → Lent
lend (handle, pool) out = record { pool = pool; out = handle ∷ out }

unfoldable pub pool_step : PoolEvent → Lent → Lent
pool_step (acquires ios) s = lend (acquire_timer ios s.pool) s.out
pool_step (releases i) s = record {
  pool = release_timer (get_elem? s.out i) s.pool;
  out = without_nth i s.out;
}
pool_step (warms ios count) s = record s { pool = pre_warm ios count s.pool }

abbrev pub pool_run : List PoolEvent → Lent → Lent
pool_run [] s = s
pool_run (e ∷ es) s = pool_run es (pool_step e s)

-- How many timers a run makes at most.
abbrev pub demand : List PoolEvent → ℕ
demand [] = 0
demand (acquires ios ∷ es) = 1 + demand es
demand (releases i ∷ es) = demand es
demand (warms ios count ∷ es) = count + demand es

-- The counters count: the timers in the pool and those that are out, up to `n` of them.
pub record Counts (n : ℕ) (s : Lent) : Type 0 where
  pub sizes : s.pool.pool_size ≡ length s.pool.available + length s.out
  pub lent : s.pool.in_use ≡ length s.out
  pub bounded : s.pool.pool_size + n < 2 ^ 64

acquire-Counts :
    (n ios : ℕ) (l : List TimerHandle) (s : Lent)
    → s.pool.available ≡ l
    → Counts (1 + n) s
    → Counts n (lend (acquire_from l ios s.pool) s.out)
unfolding acquire_from
acquire-Counts n ios [] s e c =
    let sizes = c.sizes in
    let lent = c.lent in
    let bounded = c.bounded in
    let none_there : length s.pool.available ≡ 0 = ap length e in
    record { sizes = omega arith; lent = omega arith; bounded = omega arith }
acquire-Counts n ios (h ∷ rest) s e c =
    let sizes = c.sizes in
    let lent = c.lent in
    let bounded = c.bounded in
    let some_there : length s.pool.available ≡ suc (length rest) = ap length e in
    record { sizes = omega arith; lent = omega arith; bounded = omega arith }

get_elem?-length :
    (i : ℕ) (l : List TimerHandle) (h : TimerHandle)
    → get_elem? l i ≡ some h
    → suc (length (without_nth i l)) ≡ length l
get_elem?-length i [] h e = ground arith
get_elem?-length zero (x ∷ l) h e = omega arith
get_elem?-length (suc i) (x ∷ l) h e = omega (arith, get_elem?-length i l h e)

get_elem?-none : (i : ℕ) (l : List TimerHandle) → get_elem? l i ≡ none → without_nth i l ≡ l
get_elem?-none i [] e = refl
get_elem?-none zero (x ∷ l) e = ground arith
get_elem?-none (suc i) (x ∷ l) e = ap (λ t. x ∷ t) (get_elem?-none i l e)

release-Counts :
    (n i : ℕ) (o : Option TimerHandle) (s : Lent)
    → get_elem? s.out i ≡ o
    → Counts n s
    → Counts n (record { pool = release_timer o s.pool; out = without_nth i s.out })
unfolding release_timer
release-Counts n i none s e c = rw (get_elem?-none i s.out e) c
release-Counts n i (some h) s e c =
    let sizes = c.sizes in
    let lent = c.lent in
    let bounded = c.bounded in
    let fewer = get_elem?-length i s.out h e in
    record { sizes = omega arith; lent = omega arith; bounded = omega arith }

new_handles-length :
    (count ios first : ℕ) (l : List TimerHandle)
    → length (new_handles count ios first l) ≡ count + length l
unfolding new_handles
new_handles-length zero ios first l = omega arith
new_handles-length (suc count) ios first l =
    omega (
      arith,
      new_handles-length count ios (add_size first 1) (record { ios = ios; id = first } ∷ l),
    )

warm-Counts :
    (n ios count : ℕ) (s : Lent) → Counts (count + n) s → Counts n (pool_step (warms ios count) s)
unfolding pool_step pre_warm
warm-Counts n ios count s c =
    let sizes = c.sizes in
    let lent = c.lent in
    let bounded = c.bounded in
    let longer = new_handles-length count ios s.pool.next_id s.pool.available in
    record { sizes = omega arith; lent = omega arith; bounded = omega arith }

recount : {m n : ℕ} {s : Lent} → m ≡ n → Counts m s → Counts n s
recount {s = s} e c = subst (λ k. Counts k s) e c

pool_run-Counts :
    (es : List PoolEvent) (n : ℕ) (s : Lent) → Counts (demand es + n) s → Counts n (pool_run es s)
unfolding pool_step acquire_timer
pool_run-Counts [] n s c = recount (omega arith) c
pool_run-Counts (acquires ios ∷ es) n s c =
    pool_run-Counts es n (pool_step (acquires ios) s)
      (acquire-Counts (demand es + n) ios s.pool.available s refl (recount (omega arith) c))
pool_run-Counts (releases i ∷ es) n s c =
    pool_run-Counts es n (pool_step (releases i) s)
      (release-Counts (demand es + n) i (get_elem? s.out i) s refl c)
pool_run-Counts (warms ios count ∷ es) n s c =
    pool_run-Counts es n (pool_step (warms ios count) s)
      (warm-Counts (demand es + n) ios count s (recount (omega arith) c))

-- While a thread returns to its pool only timers that it got from it, and makes fewer than 2^64 of
-- them, `pool_size` is the number of the timers in the pool and of those given out, and `in_use` the
-- number of those given out.
pub pool_run-counts :
    (es : List PoolEvent)
    → demand es < 2 ^ 64
    → ((pool_run es (record { pool = new_pool; out = [] })).pool.pool_size
        ≡ length (pool_run es (record { pool = new_pool; out = [] })).pool.available
          + length (pool_run es (record { pool = new_pool; out = [] })).out)
      × ((pool_run es (record { pool = new_pool; out = [] })).pool.in_use
          ≡ length (pool_run es (record { pool = new_pool; out = [] })).out)
pool_run-counts es h =
    let start : Counts (demand es + 0) (record { pool = new_pool; out = [] }) = record {
      sizes = omega arith;
      lent = omega arith;
      bounded = omega arith;
    } in
    let kept = pool_run-Counts es 0 (record { pool = new_pool; out = [] }) start in
    (kept.sizes, kept.lent)
