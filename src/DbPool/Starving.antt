-- ===== src/DbPool/Starving.antt =====
-- src/db/postgres/db_pool.cpp: callers that wait for ever.
use mathlib.Core.Option
use gb_server.Base.{
  ltb, if◌then◌else◌, Bool-cases, length, get_elem?, All, ℕ, ◌-◌, ◌^◌, ◌<◌, ◌≡◌, refl, ap, ◌∙◌, inl,
  inr, Bool, false, Option, none, some, List, [], ◌∷◌, ◌++◌, append-nil,
}
use gb_server.DbPool.{
  DbPool, size_dec, acquire_made, acquire_new, acquire_idle, do_acquire, do_release,
}
use gb_server.DbPool.Accounts.{db_step-Stepped, started}
use gb_server.DbPool.Counts.{Counted}
use gb_server.DbPool.Runs.{stops, acquires, Lending, DbEvent, gives_back, beats, db_step, db_run}
use gb_server.DbPool.Totals.{on_heartbeat-Filled}
use gb_server.DbPool.Turns.{moved, db_run-Turned, reached-Counted}
use gb_server.DbPool.Waiting.{served, served-append}

-- No connection that lives comes back, and the pool is not stopped.
abbrev pub NoneLives : DbEvent → Type 0
NoneLives (acquires connected created promise) = Unit
NoneLives (gives_back connected i) = (conn : ℕ) → connected conn ≡ false
NoneLives (beats failed connected connect) = Unit
NoneLives stops = ⊥

made-served :
    (created : Option ℕ) (promise : ℕ) (p : DbPool)
    → served (acquire_made created promise p).answers ≡ served p.answers
unfolding acquire_made
made-served none promise p = refl
made-served (some conn) promise p = served-append p.answers _ ∙ append-nil _

idle-served :
    (l : List ℕ) (connected : ℕ → Bool) (created : Option ℕ) (promise : ℕ) (p : DbPool)
    → served (acquire_idle l connected created promise p).answers ≡ served p.answers
unfolding acquire_idle acquire_new
idle-served [] connected created promise p = made-served _ promise p
idle-served (conn ∷ rest) connected created promise p = elim (Bool-cases (connected conn)) [
  | inl live ↦ rw live (served-append p.answers _ ∙ append-nil _)
  | inr dead ↦
      let q = record p {
        idle = rest;
        idle_count = size_dec p.idle_count;
        total_connections = size_dec p.total_connections;
      } in
      rw dead
        (made-served (if ltb q.total_connections q.max_pool_size then created else none) promise q)
]

release-served :
    (connected : ℕ → Bool) (conn : Option ℕ) (p : DbPool)
    → ((c : ℕ) → connected c ≡ false)
    → served (do_release connected conn p).answers ≡ served p.answers
unfolding do_release
release-served connected none p h = refl
release-served connected (some conn) p h = rw (h conn)

step-served :
    (bound : ℕ) (e : DbEvent) (s : Lending) {t : Lending}
    → Counted bound 0 (length s.out) s.pool
    → NoneLives e
    → db_step e s ≡ some t
    → served t.pool.answers ≡ served s.pool.answers
unfolding db_step
step-served bound (acquires connected created promise) s c n h =
    moved (λ q. served q.answers ≡ served s.pool.answers) h
      (unfold do_acquire in idle-served s.pool.idle connected created promise s.pool)
step-served bound (gives_back connected i) s c n h =
    moved (λ q. served q.answers ≡ served s.pool.answers) h
      (release-served connected (get_elem? s.out i) s.pool n)
step-served bound (beats failed connected connect) s c n h =
    let f = on_heartbeat-Filled bound (length s.out) failed connected connect s.pool c in
    moved (λ q. served q.answers ≡ served s.pool.answers) (rw f.ended at h)
      (ap served f.left.answers_kept)
step-served bound stops s c n h = elim n [ ]

run-served :
    (bound : ℕ) (es : List DbEvent) (s : Lending) {t : Lending}
    → Counted bound 0 (length s.out) s.pool
    → All NoneLives es
    → db_run es s ≡ some t
    → served t.pool.answers ≡ served s.pool.answers
unfolding Option.bind
run-served bound [] s c n h = moved (λ q. served q.answers ≡ served s.pool.answers) h refl
run-served bound (e ∷ es) s c n h =
    let k = db_step-Stepped bound e s c in
    run-served bound es k.next k.counted n.1 (rw k.ended at h) ∙ step-served bound e s c n.0 k.ended

append_cancel : (xs : List ℕ) {ys zs : List ℕ} → xs ++ ys ≡ xs ++ zs → ys ≡ zs
append_cancel [] e = e
append_cancel (x ∷ xs) e = append_cancel xs (cc)

-- From a state that calls of the pool reach: as long as no living connection comes back and the pool
-- is not stopped, the callers that wait go on to wait, in their order and before all later ones,
-- whatever further calls of Acquire and heartbeats come and whatever connections they make.
pub db_run-starves :
    (min_size max_size : ℕ) (connect : ℕ → Option ℕ) (before after : List DbEvent) (s : Lending)
    → min_size < 2 ^ 64
    → max_size < 2 ^ 64
    → db_run before (started connect min_size max_size) ≡ some s
    → All NoneLives after
    → (t : Lending) × (db_run after s ≡ some t)
      × (late : List ℕ) × (t.pool.waiters ≡ s.pool.waiters ++ late)
db_run-starves min_size max_size connect before after s h k e n =
    let c = reached-Counted min_size max_size connect before h k e in
    let r = db_run-Turned (2 ^ 64 - 1) after s c in
    let same = run-served (2 ^ 64 - 1) after s c n r.ended in
    (
      r.last,
      r.ended,
      r.turn.late,
      append_cancel (served s.pool.answers) (rw same at r.turn.in_turn),
    )
