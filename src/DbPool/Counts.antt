-- ===== src/DbPool/Counts.antt =====
-- src/db/postgres/db_pool.cpp: the counters of the pool.
use gb_server.Base.{
  ltb, ltb→lt, Bool-cases, length, drop, length-append, drop-length-append, ℕ, suc, ◌+◌, ◌%◌, ◌^◌,
  ◌≤◌, ◌<◌, ◌≡◌, refl, sym, ap, ◌∙◌, inl, inr, Bool, Option, none, some, List, [], ◌∷◌, ◌++◌,
  append-nil, arith,
}
use gb_server.DbPool.{
  Answer, idle_one, new_one, given_back, closed, DbPool, size_inc, size_dec, put_idle, add_created,
  acquire_made, acquire_new, acquire_idle, release_to, do_release,
}
use gb_server.DbPool.Runs.{conns, hand_overs}

pub hand_overs-append :
    (xs ys : List Answer) → hand_overs (xs ++ ys) ≡ hand_overs xs + hand_overs ys
hand_overs-append [] ys = omega arith
hand_overs-append (idle_one p c ∷ xs) ys = hand_overs-append xs ys
hand_overs-append (new_one p c ∷ xs) ys = hand_overs-append xs ys
hand_overs-append (given_back p c ∷ xs) ys = omega (arith, hand_overs-append xs ys)
hand_overs-append (closed p ∷ xs) ys = hand_overs-append xs ys

-- What a pool has given to callers since it was `p`.
abbrev pub gave : DbPool → DbPool → ℕ
gave p q = length (conns (drop (length p.answers) q.answers))

-- The counters of a pool from which `n` connections are out, of `bound` at most; the loop of the
-- heartbeat has `kept` connections in its hands.
pub record Counted (bound kept n : ℕ) (p : DbPool) : Type 0 where
  pub idles : p.idle_count ≡ length p.idle
  pub totals : p.total_connections ≡ length p.idle + kept + n
  pub actives : (p.active_count + hand_overs p.answers) % 2 ^ 64 ≡ n
  pub bounded : length p.idle + kept + n ≤ bound
  pub min_fits : p.min_pool_size ≤ bound
  pub max_fits : p.max_pool_size ≤ bound
  pub bound_fits : bound < 2 ^ 64

pub drop-length {ℓ} : {A : Type ℓ} (xs : List A) → drop (length xs) xs ≡ []
drop-length xs = ap (drop (length xs)) (sym (append-nil xs)) ∙ drop-length-append xs []

module _ (bound kept n : ℕ) where
  pub put_idle-Counted :
      (p : DbPool) (conn : ℕ)
      → Counted bound (suc kept) n p
      → Counted bound kept n (put_idle conn p)
  unfolding put_idle
  put_idle-Counted p conn c = ground (arith, length-append {0} p.idle (conn ∷ []), c)

  pub add_created-Counted :
      (p : DbPool) (conn : ℕ)
      → Counted bound kept n p
      → length p.idle + kept + n < bound
      → Counted bound kept n (add_created (some conn) p)
  unfolding add_created put_idle
  add_created-Counted p conn c h = ground (arith, length-append {0} p.idle (conn ∷ []), c)

module _ (bound n : ℕ) (p : DbPool) (c : Counted bound 0 n p) where
  wait-Counted :
      (promise : ℕ) → let q = acquire_made none promise p in Counted bound 0 (gave p q + n) q
  unfolding acquire_made
  wait-Counted promise = rw (drop-length p.answers) (ground (arith, c))

  made-Counted :
      (conn promise : ℕ)
      → p.total_connections < p.max_pool_size
      → let q = acquire_made (some conn) promise p in Counted bound 0 (gave p q + n) q
  unfolding acquire_made
  made-Counted conn promise h =
      rw (drop-length-append p.answers (new_one promise conn ∷ []))
        (ground (arith, hand_overs-append p.answers (new_one promise conn ∷ []), c))

  new-Counted :
      (created : Option ℕ) (promise : ℕ)
      → let q = acquire_new created promise p in Counted bound 0 (gave p q + n) q
  unfolding acquire_new
  new-Counted none promise = elim (Bool-cases (ltb p.total_connections p.max_pool_size)) [
    | inl room ↦ rw room (wait-Counted promise)
    | inr full ↦ rw full (wait-Counted promise)
  ]
  new-Counted (some conn) promise = elim (Bool-cases (ltb p.total_connections p.max_pool_size)) [
    | inl room ↦ rw room (made-Counted conn promise (ltb→lt _ _ room))
    | inr full ↦ rw full (wait-Counted promise)
  ]

  idle-Counted :
      (conn promise : ℕ) (rest : List ℕ)
      → p.idle ≡ conn ∷ rest
      → let q = record p {
        idle = rest;
        idle_count = size_dec p.idle_count;
        active_count = size_inc p.active_count;
        answers = p.answers ++ idle_one promise conn ∷ [];
      } in
        Counted bound 0 (gave p q + n) q
  idle-Counted conn promise rest e =
      rw (drop-length-append p.answers (idle_one promise conn ∷ []))
        (ground (arith, hand_overs-append p.answers (idle_one promise conn ∷ []), c, ap length e))

  dead-Counted :
      (conn : ℕ) (rest : List ℕ)
      → p.idle ≡ conn ∷ rest
      → Counted bound 0 n (record p {
        idle = rest;
        idle_count = size_dec p.idle_count;
        total_connections = size_dec p.total_connections;
      })
  dead-Counted conn rest e = ground (arith, c, ap length e)

pub acquire_idle-Counted :
    (bound n : ℕ) (p : DbPool) (l : List ℕ) (connected : ℕ → Bool) (created : Option ℕ)
    (promise : ℕ)
    → Counted bound 0 n p
    → p.idle ≡ l
    → let q = acquire_idle l connected created promise p in Counted bound 0 (gave p q + n) q
unfolding acquire_idle
acquire_idle-Counted bound n p [] connected created promise c e =
    new-Counted bound n p c created promise
acquire_idle-Counted bound n p (conn ∷ rest) connected created promise c e =
    elim (Bool-cases (connected conn)) [
      | inl live ↦ rw live (idle-Counted bound n p c conn promise rest e)
      | inr dead ↦
          rw dead (new-Counted bound n _ (dead-Counted bound n p c conn rest e) created promise)
    ]

release_to-Counted :
    (bound n : ℕ) (p : DbPool) (l : List ℕ) (conn : ℕ)
    → Counted bound 0 (suc n) p
    → p.waiters ≡ l
    → let q = release_to l conn p in Counted bound 0 (gave p q + n) q
unfolding release_to put_idle
release_to-Counted bound n p [] conn c e =
    rw (drop-length p.answers) (ground (arith, length-append {0} p.idle (conn ∷ []), c))
release_to-Counted bound n p (promise ∷ rest) conn c e =
    rw (drop-length-append p.answers (given_back promise conn ∷ []))
      (ground (arith, hand_overs-append p.answers (given_back promise conn ∷ []), c))

pub do_release-Counted :
    (bound n : ℕ) (p : DbPool) (connected : ℕ → Bool) (conn : ℕ)
    → Counted bound 0 (suc n) p
    → let q = do_release connected (some conn) p in Counted bound 0 (gave p q + n) q
unfolding do_release
do_release-Counted bound n p connected conn c = elim (Bool-cases (connected conn)) [
  | inl live ↦ rw live (release_to-Counted bound n p p.waiters conn c refl)
  | inr dead ↦ rw dead (rw (drop-length p.answers) (ground (arith, c)))
]
