-- ===== src/DbPool/Turns.antt =====
-- src/db/postgres/db_pool.cpp: the waiting callers over all calls of a pool.
use mathlib.Core.Option
use gb_server.Base.{
  some_injective, length, get_elem?, ℕ, ◌-◌, ◌^◌, ◌≤◌, ◌<◌, ◌≡◌, refl, sym, ◌∙◌, Option, some, List,
  [], ◌∷◌, ◌++◌, arith,
}
use mathlib.Core.Path.{subst}
use gb_server.DbPool.{DbPool, create_pool, do_acquire}
use gb_server.DbPool.Accounts.{db_step-Stepped, started, started-Stepped}
use gb_server.DbPool.Counts.{Counted}
use gb_server.DbPool.Runs.{stops, acquires, Lending, DbEvent, gives_back, beats, db_step, db_run}
use gb_server.DbPool.Totals.{on_heartbeat-Filled}
use gb_server.DbPool.Waiting.{
  asked, InTurn, kept-InTurn, InTurn-trans, acquire_idle-InTurn, do_release-InTurn,
  stop_pool-InTurn,
}

abbrev new_of : DbEvent → List ℕ
new_of (acquires connected created promise) = promise ∷ []
new_of _ = []

pub moved : (Q : DbPool → Type 0) {s t : Lending} → some s ≡ some t → Q s.pool → Q t.pool
moved Q e q = subst (λ (u : Lending). Q u.pool) (some_injective e) q

db_step-InTurn :
    (bound : ℕ) (e : DbEvent) (s : Lending) {t : Lending}
    → Counted bound 0 (length s.out) s.pool
    → db_step e s ≡ some t
    → InTurn (new_of e) s.pool t.pool
unfolding db_step
db_step-InTurn bound (acquires connected created promise) s c h =
    moved (InTurn (promise ∷ []) s.pool) h
      (unfold do_acquire in acquire_idle-InTurn s.pool.idle connected created promise s.pool)
db_step-InTurn bound (gives_back connected i) s c h =
    moved (InTurn [] s.pool) h (do_release-InTurn connected (get_elem? s.out i) s.pool)
db_step-InTurn bound (beats failed connected connect) s c h =
    let f = on_heartbeat-Filled bound (length s.out) failed connected connect s.pool c in
    moved (InTurn [] s.pool) (rw f.ended at h) (kept-InTurn f.left.answers_kept f.left.waiters_kept)
db_step-InTurn bound stops s c h = moved (InTurn [] s.pool) h (stop_pool-InTurn s.pool)

-- A run that ends, with what it does to the callers.
pub record Turned (new : List ℕ) (s : Lending) (r : Option Lending) : Type 0 where
  pub last : Lending
  pub ended : r ≡ some last
  pub turn : InTurn new s.pool last.pool

asked-new_of : (e : DbEvent) (es : List DbEvent) → asked (e ∷ es) ≡ new_of e ++ asked es
asked-new_of (acquires connected created promise) es = refl
asked-new_of (gives_back connected i) es = refl
asked-new_of (beats failed connected connect) es = refl
asked-new_of stops es = refl

pub db_run-Turned :
    (bound : ℕ) (es : List DbEvent) (s : Lending)
    → Counted bound 0 (length s.out) s.pool
    → Turned (asked es) s (db_run es s)
unfolding Option.bind
db_run-Turned bound [] s c = record { last = s; ended = refl; turn = kept-InTurn refl refl }
db_run-Turned bound (e ∷ es) s c =
    let h = db_step-Stepped bound e s c in
    let k = db_run-Turned bound es h.next h.counted in
    rw (h.ended, asked-new_of e es)
      (record {
        last = k.last;
        ended = k.ended;
        turn = InTurn-trans (db_step-InTurn bound e s c h.ended) k.turn;
      })

sizes_fit :
    (min_size max_size : ℕ)
    → min_size < 2 ^ 64
    → max_size < 2 ^ 64
    → let p = create_pool min_size max_size in
      (p.min_pool_size ≤ 2 ^ 64 - 1) × (p.max_pool_size ≤ 2 ^ 64 - 1)
unfolding create_pool
sizes_fit min_size max_size h k = ground arith

-- What is reached from the start of a pool is counted.
pub reached-Counted :
    (min_size max_size : ℕ) (connect : ℕ → Option ℕ) (before : List DbEvent) {s : Lending}
    → min_size < 2 ^ 64
    → max_size < 2 ^ 64
    → db_run before (started connect min_size max_size) ≡ some s
    → Counted (2 ^ 64 - 1) 0 (length s.out) s.pool
reached-Counted min_size max_size connect before h k e =
    let f = sizes_fit min_size max_size h k in
    let r = started-Stepped (2 ^ 64 - 1) min_size max_size connect before f.0 f.1 (omega arith) in
    subst (λ (u : Lending). Counted (2 ^ 64 - 1) 0 (length u.out) u.pool)
      (some_injective (sym r.ended ∙ e)) r.counted

-- After any calls and heartbeats, whatever further ones come: the callers that wait are answered
-- in the order in which they began to, before those that begin to wait later; and each call of Acquire has
-- one answer or one place among those that wait, never both and never two.
pub db_run-InTurn :
    (min_size max_size : ℕ) (connect : ℕ → Option ℕ) (before after : List DbEvent) (s : Lending)
    → min_size < 2 ^ 64
    → max_size < 2 ^ 64
    → db_run before (started connect min_size max_size) ≡ some s
    → Turned (asked after) s (db_run after s)
db_run-InTurn min_size max_size connect before after s h k e =
    db_run-Turned (2 ^ 64 - 1) after s (reached-Counted min_size max_size connect before h k e)
