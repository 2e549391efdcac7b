-- ===== src/RoundRobin/IoServices.antt =====
-- src/network/io/io_service_pool.cpp: the services of a pool in turn, and a worker by its index.
use mathlib.Core.Option
use gb_server.Base.{
  ltb, if◌then◌else◌, ltb→lt, Bool-cases, length, get_elem?, ℤ, pos, negsuc, ℕ, zero, suc, ◌+◌, ◌%◌,
  ◌^◌, ◌≤◌, ◌<◌, ◌≡◌, refl, ap, ◌↔◌, inl, inr, Option, none, some, List, [], ◌∷◌, arith,
}
use gb_server.RoundRobin.Turns.{turn_reaches, get_elem-lt}

-- The counter is of type size_t.
pub record IoServicePool : Type 0 where
  pub io_workers : List ℕ
  pub next_service : ℕ

-- The index with the worker whose service it is; `none` is the division by a size of 0.
unfoldable pub get_io_service : IoServicePool → Option (ℕ × ℕ) × IoServicePool
get_io_service p =
    let index = p.next_service % length p.io_workers in
    (
      Option.map (λ w. (index, w)) (get_elem? p.io_workers index),
      record p { next_service = (p.next_service + 1) % 2 ^ 64 },
    )

-- nullptr, a worker, or the exception of vector::at.
pub data WorkerAt : Type 0 where
  no_worker out_of_range : WorkerAt
  worker_at : ℕ → WorkerAt

abbrev at_index : Option ℕ → WorkerAt
at_index none = out_of_range
at_index (some w) = worker_at w

unfoldable pub get_io_worker : ℤ → IoServicePool → WorkerAt
get_io_worker (negsuc index) p = no_worker
get_io_worker (pos index) p =
    if ltb (length p.io_workers) index then no_worker else at_index (get_elem? p.io_workers index)

-- After `k` calls in a row.
abbrev pub after_calls : ℕ → IoServicePool → IoServicePool
after_calls zero p = p
after_calls (suc k) p = after_calls k (get_io_service p).1

after_calls-next :
    (k : ℕ) (p : IoServicePool)
    → p.next_service + k < 2 ^ 64
    → ((after_calls k p).next_service ≡ p.next_service + k)
      × ((after_calls k p).io_workers ≡ p.io_workers)
unfolding get_io_service
after_calls-next zero p h = (omega arith, refl)
after_calls-next (suc k) p h = grind (arith, after_calls-next k (get_io_service p).1)

-- Any as many calls in a row as there are workers, before the counter wraps, give the service of
-- every worker, whatever the counter is at first.
pub get_io_service-each :
    (p : IoServicePool) (i : ℕ)
    → i < length p.io_workers
    → p.next_service + length p.io_workers ≤ 2 ^ 64
    → (k : ℕ) × (w : ℕ) × (k < length p.io_workers)
      × (get_elem? p.io_workers i ≡ some w)
      × ((get_io_service (after_calls k p)).0 ≡ some (i, w))
unfolding get_io_service
get_io_service-each p i h b =
    let (k, below, there) = turn_reaches p.next_service i (length p.io_workers) h in
    let (w, e) = get_elem-lt p.io_workers i h in
    let (n, same) = after_calls-next k p (omega arith) in (k, w, below, e, rw (same, n, there, e))

get_elem-none : (xs : List ℕ) (i : ℕ) → length xs ≤ i → get_elem? xs i ≡ none
get_elem-none [] i h = refl
get_elem-none (x ∷ xs) zero h = absurd (omega arith)
get_elem-none (x ∷ xs) (suc i) h = get_elem-none xs i (omega arith)

out_of_range-eq :
    (index : ℕ) (xs : List ℕ)
    → (if ltb (length xs) index then no_worker else at_index (get_elem? xs index)) ≡ out_of_range
    → index ≡ length xs
out_of_range-eq index xs h = elim (Bool-cases (ltb index (length xs))) [
  | inl b ↦
      let (w, e) = get_elem-lt xs index (ltb→lt index (length xs) b) in absurd (ground (arith, e))
  | inr b ↦ ground arith
]

-- The guard of GetWorker lets one index too many through: the exception is thrown for the number of
-- the workers and for no other index.
pub get_io_worker-range :
    (index : ℤ) (p : IoServicePool)
    → (get_io_worker index p ≡ out_of_range) ↔ (index ≡ pos (length p.io_workers))
unfolding get_io_worker
get_io_worker-range (negsuc index) p = (λ h. cc, λ h. cc)
get_io_worker-range (pos index) p = (
  λ h. ap pos (out_of_range-eq index p.io_workers h),
  λ h. ground (arith, get_elem-none p.io_workers index),
)
