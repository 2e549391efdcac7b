-- ===== src/Router/Services/Tests.antt =====
-- The router at concrete inputs. Tasks and calls are numbers.
use gb_server.Base.{ℕ, ◌≡◌, refl, true, false, none, some, List, [], ◌∷◌}
use gb_server.Router.Entities.{LockFreeRouteTable, Call, binds, freezes}
use gb_server.Router.Services.{
  new_route_table, stateful, stateless, Router, freeze_router, registers, sets_resolver,
  sets_route_key, get_executor,
}
use gb_server.Router.Services.Freezing.{configure_all, freeze-keeps}
use gb_server.Workers.{Worker, new_worker}
use gb_server.Workers.Executor.{Thread}
use gb_server.Workers.Manager.{WorkerManager}

abbrev running : ℕ → Worker ℕ ℕ
running index = record new_worker { index = index; has_executor = true; runing = true }

abbrev two_workers : WorkerManager ℕ ℕ
two_workers = record { main_worker = some (running 0); workers = running 1 ∷ running 2 ∷ [] }

-- A thread of the input and output.
abbrev io_thread : Thread
io_thread = record { current_worker = none; is_main = false }

abbrev route_calls : List Call
route_calls = binds 100 200 2 ∷ freezes ∷ []

abbrev routes : LockFreeRouteTable
routes = record {
  pending = record { begin = 100; end = 200; worker_index = 2 } ∷ [];
  current = some (record { begin = 100; end = 200; worker_index = 2 } ∷ []);
  retired = none;
}

abbrev scene_router : Router
scene_router = record {
  policy = stateful;
  route_table = new_route_table;
  strategy = record { route_key_selector = none; worker_index_selector = none };
  entity_route_table = routes;
  frozen_strategy = none;
}

-- A gateway whose messages all go to the first service type, which has the workers 1 and 2.
abbrev gateway_router : Router
gateway_router = record scene_router {
  policy = stateless;
  route_table = record {
    service_type_resolver = some (λ _. 0);
    workers = (1 ∷ 2 ∷ []) ∷ [] ∷ [] ∷ [];
    frozen = none;
  };
}

freeze-keeps_example :
    get_executor 1 7
      (configure_all
        (registers 0 9 ∷ sets_resolver (λ _. 1) ∷ sets_route_key (λ _ _. 0) ∷ [])
        (freeze_router gateway_router))
      two_workers
    ≡ get_executor 1 7 (freeze_router gateway_router) two_workers
freeze-keeps_example =
    freeze-keeps ℕ ℕ two_workers 1 7 (λ _. 0) gateway_router
      (registers 0 9 ∷ sets_resolver (λ _. 1) ∷ sets_route_key (λ _ _. 0) ∷ []) refl
