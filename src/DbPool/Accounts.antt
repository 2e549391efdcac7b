-- ===== src/DbPool/Accounts.antt =====
-- src/db/postgres/db_pool.cpp: the counters over all calls of a pool.
use mathlib.Core.Option
use gb_server.Base.{
  Option-cases, length, get_elem?, drop, length-append, drop-length-append, ℕ, zero, suc, ◌+◌, ◌%◌,
  ◌^◌, ◌≤◌, ◌<◌, min, ◌≡◌, refl, sym, ap, ◌∙◌, inl, inr, Bool, true, false, Option, none, some,
  List, [], ◌∷◌, ◌++◌, map, append_assoc, append-nil, arith,
}
use mathlib.Core.Path.{subst}
use gb_server.DbPool.{
  closed, DbPool, create_pool, put_idle, start_heartbeat, add_created, create_initial, start_pool,
  close_idle, close_waiters, stop_pool, do_acquire, do_release,
}
use gb_server.DbPool.Counts.{
  hand_overs-append, gave, Counted, drop-length, add_created-Counted, acquire_idle-Counted,
  do_release-Counted,
}
use gb_server.DbPool.Runs.{
  stops, acquires, without_nth, Lending, DbEvent, gives_back, beats, conns, settle, db_step, db_run,
  hand_overs,
}
use gb_server.DbPool.Totals.{dropped_idle-Counted, on_heartbeat-Filled}

close_idle-Counted :
    (bound n : ℕ) (l : List ℕ) (p : DbPool)
    → p.idle ≡ l
    → Counted bound 0 n p
    → Counted bound 0 n (close_idle l p)
unfolding close_idle
close_idle-Counted bound n [] p e c = c
close_idle-Counted bound n (conn ∷ rest) p e c =
    close_idle-Counted bound n rest _ refl (dropped_idle-Counted bound 0 n conn rest p c e)

pub close_idle-answers : (l : List ℕ) (p : DbPool) → (close_idle l p).answers ≡ p.answers
unfolding close_idle
close_idle-answers [] p = refl
close_idle-answers (conn ∷ rest) p = close_idle-answers rest _

close_waiters-Counted :
    (bound n : ℕ) (l : List ℕ) (p : DbPool)
    → Counted bound 0 n p
    → Counted bound 0 n (close_waiters l p)
unfolding close_waiters
close_waiters-Counted bound n [] p c = c
close_waiters-Counted bound n (promise ∷ rest) p c =
    close_waiters-Counted bound n rest _
      (ground (arith, c, hand_overs-append p.answers (closed promise ∷ [])))

pub close_waiters-answers :
    (l : List ℕ) (p : DbPool) → (close_waiters l p).answers ≡ p.answers ++ map closed l
unfolding close_waiters
close_waiters-answers [] p = sym (append-nil p.answers)
close_waiters-answers (promise ∷ rest) p =
    close_waiters-answers rest _ ∙ append_assoc p.answers (closed promise ∷ []) (map closed rest)

conns-closed : (l : List ℕ) → conns (map closed l) ≡ []
conns-closed [] = refl
conns-closed (promise ∷ rest) = conns-closed rest

stop_pool-Counted :
    (bound n : ℕ) (p : DbPool) → Counted bound 0 n p → Counted bound 0 n (stop_pool p)
unfolding stop_pool
stop_pool-Counted bound n p c =
    let q = record p { running = false; heartbeat_armed = false } in
    let q' = close_idle p.idle q in
    close_waiters-Counted bound n q'.waiters q'
      (close_idle-Counted bound n p.idle q refl (ground (arith, c)))

stop_pool-answers : (p : DbPool) → conns (drop (length p.answers) (stop_pool p).answers) ≡ []
unfolding stop_pool
stop_pool-answers p =
    let q' = close_idle p.idle (record p { running = false; heartbeat_armed = false }) in
    rw (close_waiters-answers q'.waiters q', close_idle-answers)
      (rw drop-length-append (conns-closed q'.waiters))

create_initial-Counted :
    (bound : ℕ) (connect : ℕ → Option ℕ) (left created : ℕ) (p : DbPool)
    → Counted bound 0 0 p
    → length p.idle + left ≤ bound
    → Counted bound 0 0 (create_initial connect left (created, p)).1
unfolding create_initial
create_initial-Counted bound connect zero created p c h = c
create_initial-Counted bound connect (suc left) created p c h = elim (Option-cases (connect left)) [
  | inl failed ↦
      rw (failed, create_initial)
        (create_initial-Counted bound connect left created _ (unfold add_created in c)
          (unfold add_created in omega arith))
  | inr (conn, made) ↦
      rw (made, create_initial)
        (create_initial-Counted bound connect left (created + 1) _
          (add_created-Counted bound 0 0 p conn c (omega arith))
          (unfold add_created in
            unfold put_idle in omega (arith, length-append {0} p.idle (conn ∷ []))))
]

start_pool-Counted :
    (bound : ℕ) (connect : ℕ → Option ℕ) (p : DbPool)
    → Counted bound 0 0 p
    → p.idle ≡ []
    → Counted bound 0 0 (start_pool connect p).1
unfolding start_pool start_heartbeat
start_pool-Counted bound connect p c e = ground (
  arith,
  create_initial-Counted bound connect (min p.min_pool_size p.max_pool_size) 0
      (record p { running = true }) (ground (arith, c)) (omega (arith, c, ap length e)),
)

-- The connections that are out are counted.
pub record Accounts (bound : ℕ) (s : Lending) : Type 0 where
  pub idles : s.pool.idle_count ≡ length s.pool.idle
  pub totals : s.pool.total_connections ≡ length s.pool.idle + length s.out
  pub actives : (s.pool.active_count + hand_overs s.pool.answers) % 2 ^ 64 ≡ length s.out
  pub bounded : s.pool.total_connections ≤ bound

without_nth-length :
    (i : ℕ) (out : List ℕ) {conn : ℕ}
    → get_elem? out i ≡ some conn
    → suc (length (without_nth i out)) ≡ length out
without_nth-length i [] e = cc
without_nth-length zero (h ∷ hs) e = refl
without_nth-length (suc i) (h ∷ hs) e = ap suc (without_nth-length i hs e)

without_nth-none : (i : ℕ) (out : List ℕ) → get_elem? out i ≡ none → without_nth i out ≡ out
without_nth-none i [] e = refl
without_nth-none zero (h ∷ hs) e = cc
without_nth-none (suc i) (h ∷ hs) e = ap (λ l. h ∷ l) (without_nth-none i hs e)

-- A step that ends, with the counters of the pool after it.
pub record Stepped (bound : ℕ) (r : Option Lending) : Type 0 where
  pub next : Lending
  pub ended : r ≡ some next
  pub counted : Counted bound 0 (length next.out) next.pool

settled-Stepped :
    (bound : ℕ) (p : DbPool) (out : List ℕ) (q : DbPool)
    → Counted bound 0 (gave p q + length out) q
    → Stepped bound (some (settle p out q))
settled-Stepped bound p out q c = record {
  next = settle p out q;
  ended = refl;
  counted =
      subst (λ n. Counted bound 0 n q)
        (sym (length-append (conns (drop (length p.answers) q.answers)) out)) c;
}

nothing-Counted :
    (bound n : ℕ) (p q : DbPool)
    → conns (drop (length p.answers) q.answers) ≡ []
    → Counted bound 0 n q
    → Counted bound 0 (gave p q + n) q
nothing-Counted bound n p q e c = rw e (ground (arith, c))

returned-Stepped :
    (bound : ℕ) (connected : ℕ → Bool) (i : ℕ) (s : Lending) (conn : Option ℕ)
    → get_elem? s.out i ≡ conn
    → Counted bound 0 (length s.out) s.pool
    → Stepped bound (some (settle s.pool (without_nth i s.out) (do_release connected conn s.pool)))
returned-Stepped bound connected i s none e c =
    settled-Stepped bound s.pool (without_nth i s.out) _ (
      rw (without_nth-none i s.out e) (
        nothing-Counted bound (length s.out) s.pool (do_release connected none s.pool)
          (unfold do_release in ap conns (drop-length s.pool.answers)) (unfold do_release in c)))
returned-Stepped bound connected i s (some conn) e c =
    settled-Stepped bound s.pool (without_nth i s.out) _ (
      do_release-Counted bound (length (without_nth i s.out)) s.pool connected conn
        (rw (without_nth-length i s.out e) c))

pub db_step-Stepped :
    (bound : ℕ) (e : DbEvent) (s : Lending)
    → Counted bound 0 (length s.out) s.pool
    → Stepped bound (db_step e s)
unfolding db_step
db_step-Stepped bound (acquires connected created promise) s c =
    settled-Stepped bound s.pool s.out _ (
      unfold do_acquire in
      acquire_idle-Counted bound (length s.out) s.pool s.pool.idle connected created promise c refl)
db_step-Stepped bound (gives_back connected i) s c =
    returned-Stepped bound connected i s (get_elem? s.out i) refl c
db_step-Stepped bound (beats failed connected connect) s c =
    let f = on_heartbeat-Filled bound (length s.out) failed connected connect s.pool c in
    rw f.ended (
      settled-Stepped bound s.pool s.out f.pool (
        nothing-Counted bound (length s.out) s.pool f.pool
          (rw f.left.answers_kept (ap conns (drop-length s.pool.answers))) f.counted))
db_step-Stepped bound stops s c = settled-Stepped bound s.pool s.out (stop_pool s.pool) (
    nothing-Counted bound (length s.out) s.pool (stop_pool s.pool) (stop_pool-answers s.pool)
      (stop_pool-Counted bound (length s.out) s.pool c))

pub db_run-Stepped :
    (bound : ℕ) (es : List DbEvent) (s : Lending)
    → Counted bound 0 (length s.out) s.pool
    → Stepped bound (db_run es s)
unfolding Option.bind
db_run-Stepped bound [] s c = record { next = s; ended = refl; counted = c }
db_run-Stepped bound (e ∷ es) s c =
    let h = db_step-Stepped bound e s c in rw h.ended (db_run-Stepped bound es h.next h.counted)

abbrev pub started : (ℕ → Option ℕ) → ℕ → ℕ → Lending
started connect min_size max_size = record {
  pool = (start_pool connect (create_pool min_size max_size)).1;
  out = [];
}

create_pool-Counted :
    (bound min_size max_size : ℕ)
    → let p = create_pool min_size max_size in
      p.min_pool_size ≤ bound → p.max_pool_size ≤ bound → bound < 2 ^ 64 → Counted bound 0 0 p
unfolding create_pool
create_pool-Counted bound min_size max_size h k b = ground arith

-- A run from the start ends, and the counters count.
pub started-Stepped :
    (bound min_size max_size : ℕ) (connect : ℕ → Option ℕ) (es : List DbEvent)
    → (create_pool min_size max_size).min_pool_size ≤ bound
    → (create_pool min_size max_size).max_pool_size ≤ bound
    → bound < 2 ^ 64
    → Stepped bound (db_run es (started connect min_size max_size))
started-Stepped bound min_size max_size connect es h k b =
    db_run-Stepped bound es (started connect min_size max_size) (
      start_pool-Counted bound connect (create_pool min_size max_size)
        (create_pool-Counted bound min_size max_size h k b) (unfold create_pool in refl))

-- Whatever calls and heartbeats come after the start of a pool, in whatever order, whatever connections
-- break and whatever attempts to connect fail, as long as callers give back only connections that they
-- have, each once: every heartbeat ends. idle_count is then the number of
-- the idle connections and total_connections that of the idle ones and those with the callers, which
-- is at most `bound` where the two sizes that are set are. active_count is the number of the
-- connections with the callers less one for each connection that ever went from one caller to
-- another, modulo 2^64.
pub db_run-Accounts :
    (bound min_size max_size : ℕ) (connect : ℕ → Option ℕ) (es : List DbEvent)
    → (create_pool min_size max_size).min_pool_size ≤ bound
    → (create_pool min_size max_size).max_pool_size ≤ bound
    → bound < 2 ^ 64
    → (s : Lending) × (db_run es (started connect min_size max_size) ≡ some s) × Accounts bound s
db_run-Accounts bound min_size max_size connect es h k b =
    let r = started-Stepped bound min_size max_size connect es h k b in
    (r.next, r.ended, ground (arith, r.counted))
