-- ===== src/Router/Entities/Tests.antt =====
-- The route table at concrete inputs.
use mathlib.Core.Option
use gb_server.Base.{All, ℕ, ◌≡◌, refl, some, List, [], ◌∷◌, map, arith}
use gb_server.Router.Entities.{
  invalid_worker, Table, bind_pass, bind_loop, bind, LockFreeRouteTable, empty_table, lookup, Call,
  binds, binds_single, unbinds, freezes, run,
}
use gb_server.Router.Entities.Binding.{Bound, bind-Bound}
use gb_server.Router.Entities.Laws.{no_routes, assign_all, InDomain, run-lookup}

abbrev split_calls : List Call
split_calls =
    binds 100 200 3
    ∷ binds 120 130 4
    ∷ binds_single 150 5
    ∷ unbinds 160
    ∷ freezes
    ∷ binds 0 500 9
    ∷ []

in_domain : All InDomain split_calls
in_domain = omega arith

-- The searches of a run; the last binding is not yet published.
split_lookups :
    Option.map
      (λ r. map (λ id. lookup id r) (99 ∷ 110 ∷ 125 ∷ 150 ∷ 160 ∷ 161 ∷ 200 ∷ []))
      (run empty_table split_calls)
    ≡ some (invalid_worker ∷ 3 ∷ 4 ∷ 5 ∷ invalid_worker ∷ 3 ∷ invalid_worker ∷ [])
unfolding run bind_loop bind_pass lookup
split_lookups = refl

run-lookup_example :
    (r : LockFreeRouteTable) × (run empty_table split_calls ≡ some r)
    × ((id : ℕ) → lookup id r ≡ (assign_all no_routes split_calls).published id)
run-lookup_example = run-lookup split_calls in_domain

abbrev one_entry : Table
one_entry = record { begin = 10; end = 20; worker_index = 1 } ∷ []

bind-Bound_example :
    (vec' : Table) × (bind 12 15 2 one_entry ≡ some vec') × Bound 12 15 2 one_entry vec'
bind-Bound_example = bind-Bound 12 15 2 one_entry (omega arith) (omega arith)
