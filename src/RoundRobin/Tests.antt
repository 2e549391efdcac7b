-- ===== src/RoundRobin/Tests.antt =====
-- The pools in turn at concrete inputs.
use gb_server.Base.{◌==◌, get_elem?, pos, ℕ, ◌<◌, ◌≡◌, refl, ◌↔◌, Bool, none, some, [], ◌∷◌, arith}
use gb_server.RoundRobin.IoServices.{
  IoServicePool, get_io_service, out_of_range, get_io_worker, after_calls, get_io_service-each,
}
use gb_server.RoundRobin.Redis.{
  RedisPool, get_connection, count_healthy, IsHealthy, get_connection-IsHealthy,
}

abbrev only_nine : ℕ → Bool
only_nine conn = conn == 9

abbrev three_connections : RedisPool
three_connections = record { connections = 7 ∷ 9 ∷ 8 ∷ []; next_index = 5 }

passes_over : (get_connection only_nine three_connections).0 ≡ some 9
unfolding get_connection
passes_over = refl

abbrev two_workers : IoServicePool
two_workers = record { io_workers = 30 ∷ 31 ∷ []; next_service = 5 }

one_too_many : get_io_worker (pos 2) two_workers ≡ out_of_range
unfolding get_io_worker
one_too_many = refl

get_connection-IsHealthy_example :
    ((get_connection only_nine three_connections).0 ≡ none
      ↔ (count_healthy only_nine three_connections ≡ 0))
    × ((conn : ℕ)
        → (get_connection only_nine three_connections).0 ≡ some conn
        → IsHealthy only_nine (7 ∷ 9 ∷ 8 ∷ []) conn)
get_connection-IsHealthy_example = get_connection-IsHealthy only_nine three_connections

get_io_service-each_example :
    (k : ℕ) × (w : ℕ) × (k < 2)
    × (get_elem? (30 ∷ 31 ∷ []) 1 ≡ some w)
    × ((get_io_service (after_calls k two_workers)).0 ≡ some (1, w))
get_io_service-each_example = get_io_service-each two_workers 1 (omega arith) (omega arith)
