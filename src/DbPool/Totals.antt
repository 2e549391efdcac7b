-- ===== src/DbPool/Totals.antt =====
-- src/db/postgres/db_pool.cpp: the counters and the heartbeat.
use mathlib.Core.Option
use gb_server.Base.{
  ltb, ltb→lt, lt→ltb_false, Bool-cases, Option-cases, length, ℕ, zero, suc, ◌+◌, ◌≤◌, ◌≡◌, refl,
  ap, ◌∙◌, inl, inr, Bool, false, ◌||◌, not, Option, some, List, [], ◌∷◌, arith,
}
use gb_server.DbPool.{
  DbPool, size_inc, size_dec, put_idle, start_heartbeat, add_created, check_idle, put_all, fill_up,
  on_heartbeat,
}
use gb_server.DbPool.Counts.{Counted, put_idle-Counted, add_created-Counted}

checked_idle-Counted :
    (bound kept n conn : ℕ) (rest : List ℕ) (p : DbPool)
    → Counted bound kept n p
    → p.idle ≡ conn ∷ rest
    → Counted bound (suc kept) n (record p { idle = rest; idle_count = size_dec p.idle_count })
checked_idle-Counted bound kept n conn rest p c e = ground (arith, c, ap length e)

pub dropped_idle-Counted :
    (bound kept n conn : ℕ) (rest : List ℕ) (p : DbPool)
    → Counted bound kept n p
    → p.idle ≡ conn ∷ rest
    → Counted bound kept n (record p {
      idle = rest;
      idle_count = size_dec p.idle_count;
      total_connections = size_dec p.total_connections;
    })
dropped_idle-Counted bound kept n conn rest p c e = ground (arith, c, ap length e)

-- What the heartbeat leaves as it is.
pub record IsKept (p q : DbPool) : Type 0 where
  pub answers_kept : q.answers ≡ p.answers
  pub waiters_kept : q.waiters ≡ p.waiters
  pub min_kept : q.min_pool_size ≡ p.min_pool_size

record Checked (bound kept n : ℕ) (p : DbPool) (r : List ℕ × DbPool) : Type 0 where
  counted : Counted bound (length r.0 + kept) n r.1
  left : IsKept p r.1

IsKept_trans : {p q r : DbPool} → IsKept p q → IsKept q r → IsKept p r
IsKept_trans h k = record {
  answers_kept = k.answers_kept ∙ h.answers_kept;
  waiters_kept = k.waiters_kept ∙ h.waiters_kept;
  min_kept = k.min_kept ∙ h.min_kept;
}

check_idle-Checked :
    (bound kept n : ℕ) (connected : ℕ → Bool) (l : List ℕ) (p : DbPool)
    → Counted bound kept n p
    → p.idle ≡ l
    → Checked bound kept n p (check_idle connected l p)
unfolding check_idle
check_idle-Checked bound kept n connected [] p c e = record {
  counted = ground (arith, c);
  left = ground arith;
}
check_idle-Checked bound kept n connected (conn ∷ rest) p c e = elim (Bool-cases (connected conn)) [
  | inl live ↦
      let h =
        check_idle-Checked bound (suc kept) n connected rest _
          (checked_idle-Counted bound kept n conn rest p c e) refl in
      rw live
        (record { counted = ground (arith, h.counted); left = IsKept_trans (ground arith) h.left })
  | inr dead ↦
      let h =
        check_idle-Checked bound kept n connected rest _
          (dropped_idle-Counted bound kept n conn rest p c e) refl in
      rw dead (record { counted = h.counted; left = IsKept_trans (ground arith) h.left })
]

put_all-Counted :
    (bound n : ℕ) (l : List ℕ) (p : DbPool)
    → Counted bound (length l) n p
    → Counted bound 0 n (put_all l p)
unfolding put_all
put_all-Counted bound n [] p c = c
put_all-Counted bound n (conn ∷ rest) p c =
    put_all-Counted bound n rest _ (put_idle-Counted bound (length rest) n p conn c)

put_all-IsKept : (l : List ℕ) (p : DbPool) → IsKept p (put_all l p)
unfolding put_all put_idle
put_all-IsKept [] p = ground arith
put_all-IsKept (conn ∷ rest) p = IsKept_trans (ground arith) (put_all-IsKept rest (put_idle conn p))

-- The pool is filled up.
pub record Filled (bound n : ℕ) (p : DbPool) (r : Option DbPool) : Type 0 where
  pub pool : DbPool
  pub ended : r ≡ some pool
  pub counted : Counted bound 0 n pool
  pub left : IsKept p pool

Filled-after :
    {bound n : ℕ} {p q : DbPool} {r : Option DbPool}
    → IsKept p q
    → Filled bound n q r
    → Filled bound n p r
Filled-after k f = record {
  pool = f.pool;
  ended = f.ended;
  counted = f.counted;
  left = IsKept_trans k f.left;
}

added-IsKept : (conn : ℕ) (p : DbPool) → IsKept p (add_created (some conn) p)
unfolding add_created put_idle
added-IsKept conn p = ground arith

added-total :
    (conn : ℕ) (p : DbPool)
    → (add_created (some conn) p).total_connections ≡ size_inc p.total_connections
unfolding add_created put_idle
added-total conn p = refl

fill_up-Filled :
    (bound n fuel : ℕ) (connect : ℕ → Option ℕ) (p : DbPool)
    → Counted bound 0 n p
    → p.min_pool_size ≤ p.total_connections + fuel
    → Filled bound n p (fill_up connect (suc fuel) p)
unfolding fill_up
fill_up-Filled bound n zero connect p c h =
    rw (lt→ltb_false p.total_connections p.min_pool_size (omega arith))
      (record { pool = p; ended = refl; counted = c; left = ground arith })
fill_up-Filled bound n (suc fuel) connect p c h =
    elim (Bool-cases (ltb p.total_connections p.min_pool_size)) [
      | inl small ↦ rw small (elim (Option-cases (connect (suc fuel))) [
        | inl failed ↦
            rw failed (record { pool = p; ended = refl; counted = c; left = ground arith })
        | inr (conn, made) ↦ rw made (
            Filled-after (added-IsKept conn p) (
              fill_up-Filled bound n fuel connect (add_created (some conn) p)
                (add_created-Counted bound 0 n p conn c (omega (arith, ltb→lt _ _ small, c)))
                (omega (
                  arith,
                  added-total conn p,
                  ltb→lt _ _ small,
                  c,
                  (added-IsKept conn p).min_kept,
                ))))
      ])
      | inr large ↦ rw large (record { pool = p; ended = refl; counted = c; left = ground arith })
    ]

refilled :
    (bound n : ℕ) (connect : ℕ → Option ℕ) (p : DbPool) (r : List ℕ × DbPool)
    → Checked bound 0 n p r
    → Filled bound n p (fill_up connect (suc p.min_pool_size) (put_all r.0 r.1))
refilled bound n connect p (checked, q) c =
    let k = IsKept_trans c.left (put_all-IsKept checked q) in
    Filled-after k (
      fill_up-Filled bound n p.min_pool_size connect (put_all checked q)
        (put_all-Counted bound n checked q (ground (arith, c.counted))) (omega (arith, k.min_kept)))

rearmed :
    {bound n : ℕ} {p : DbPool} (r : Option DbPool)
    → Filled bound n p r
    → Filled bound n p (Option.map start_heartbeat r)
unfolding start_heartbeat
rearmed r f = rw f.ended (record {
  pool = start_heartbeat f.pool;
  ended = refl;
  counted = ground (arith, f.counted);
  left = IsKept_trans f.left (ground arith);
})

-- The heartbeat ends, and the counters still count.
pub on_heartbeat-Filled :
    (bound n : ℕ) (failed : Bool) (connected : ℕ → Bool) (connect : ℕ → Option ℕ) (p : DbPool)
    → Counted bound 0 n p
    → Filled bound n p (on_heartbeat failed connected connect p)
unfolding on_heartbeat
on_heartbeat-Filled bound n failed connected connect p c =
    let p' = record p { heartbeat_armed = false } in
    elim (Bool-cases (failed || not p.running)) [
      | inl over ↦
          rw over
            (record { pool = p'; ended = refl; counted = ground (arith, c); left = ground arith })
      | inr on ↦ rw on (
          rearmed _ (
            Filled-after (ground arith) (
              refilled bound n connect p' (check_idle connected p'.idle p')
                (check_idle-Checked bound 0 n connected p'.idle p' (ground (arith, c)) refl))))
    ]
