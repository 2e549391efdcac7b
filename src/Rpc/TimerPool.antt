-- ===== src/Rpc/TimerPool.antt =====
-- src/network/rpc/rpc_timer_pool.cpp: the timers of one thread, which are used again.
use gb_server.Base.{ℕ, zero, suc, ◌+◌, ◌-◌, ◌%◌, ◌^◌, Option, none, some, List, [], ◌∷◌}

pub record TimerHandle : Type 0 where
  pub ios : ℕ
  pub id : ℕ

-- The back of `available_` is the head of the list. The counters are of type size_t.
pub record TimerPool : Type 0 where
  pub available : List TimerHandle
  pub pool_size : ℕ
  pub in_use : ℕ
  pub next_id : ℕ

abbrev pub new_pool : TimerPool
new_pool = record { available = []; pool_size = 0; in_use = 0; next_id = 0 }

abbrev pub add_size : ℕ → ℕ → ℕ
add_size a b = (a + b) % 2 ^ 64

unfoldable pub acquire_from : List TimerHandle → ℕ → TimerPool → TimerHandle × TimerPool
acquire_from [] ios pool = (
  record { ios = ios; id = pool.next_id },
  record pool {
    next_id = add_size pool.next_id 1;
    pool_size = add_size pool.pool_size 1;
    in_use = add_size pool.in_use 1;
  },
)
acquire_from (handle ∷ rest) ios pool = (
  record { ios = ios; id = pool.next_id },
  record pool {
    available = rest;
    next_id = add_size pool.next_id 1;
    in_use = add_size pool.in_use 1;
  },
)

-- A timer that is used again gets a new service and a new id.
unfoldable pub acquire_timer : ℕ → TimerPool → TimerHandle × TimerPool
acquire_timer ios pool = acquire_from pool.available ios pool

unfoldable pub release_timer : Option TimerHandle → TimerPool → TimerPool
release_timer none pool = pool
release_timer (some handle) pool = record pool {
  available = handle ∷ pool.available;
  in_use = add_size pool.in_use (2 ^ 64 - 1);
}

unfoldable pub new_handles : ℕ → ℕ → ℕ → List TimerHandle → List TimerHandle
new_handles zero ios first acc = acc
new_handles (suc n) ios first acc =
    new_handles n ios (add_size first 1) (record { ios = ios; id = first } ∷ acc)

unfoldable pub pre_warm : ℕ → ℕ → TimerPool → TimerPool
unfolding new_handles
pre_warm ios count pool = record pool {
  available = new_handles count ios pool.next_id pool.available;
  next_id = add_size pool.next_id count;
  pool_size = add_size pool.pool_size count;
}
