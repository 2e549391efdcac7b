-- ===== src/Router/Services.antt =====
-- src/network/router/route_table.h and router.cpp: the workers of each service type, and the choice
-- of a worker for a message. A worker is its index at the worker manager; the resolver and the
-- selectors are functions that the application sets, `none` while they are not set.
pub mod Laws
pub mod Freezing
mod Tests
use gb_server.Base.{
  ltb, leb, ◌==◌, if◌then◌else◌, length, get_elem?, set, replicate, ℕ, zero, suc, ◌%◌, Option, none,
  some, List, [], ◌∷◌, ◌++◌, map,
}
use gb_server.Router.Entities.{invalid_worker, LockFreeRouteTable, lookup, Call}
use gb_server.Workers.{Worker}
use gb_server.Workers.Executor.{WorkerExecutor, empty_executor, worker_executor, own_executor}
use gb_server.Workers.Manager.{WorkerManager, get_worker}

-- `SWT_Count`; the service types are the numbers below it, and SWT_Normal is 0.
abbrev pub swt_count : ℕ
swt_count = 3

-- A row of a table that is no row of it is empty.
abbrev pub row : List (List ℕ) → ℕ → List ℕ
row [] i = []
row (r ∷ rs) zero = r
row (r ∷ rs) (suc i) = row rs i

-- The frozen snapshot holds a pointer for each type, which is null when the type has no workers.
pub record FrozenSnapshot : Type 0 where
  pub frozen_resolver : Option (ℕ → ℕ)
  pub frozen_workers : List (Option (List ℕ))

pub record RouteTable : Type 0 where
  pub service_type_resolver : Option (ℕ → ℕ)
  pub workers : List (List ℕ)
  pub frozen : Option FrozenSnapshot

abbrev pub new_route_table : RouteTable
new_route_table = record {
  service_type_resolver = none;
  workers = replicate swt_count [];
  frozen = none;
}

unfoldable pub register_worker : ℕ → ℕ → RouteTable → RouteTable
register_worker service_type worker t =
    if leb (length t.workers) service_type then t else record t {
      workers = set t.workers service_type (row t.workers service_type ++ worker ∷ []);
    }

unfoldable pub set_service_type_resolver : (ℕ → ℕ) → RouteTable → RouteTable
set_service_type_resolver resolver t = record t { service_type_resolver = some resolver }

abbrev pub unless_empty : List ℕ → Option (List ℕ)
unless_empty [] = none
unless_empty (w ∷ ws) = some (w ∷ ws)

unfoldable pub freeze_table : RouteTable → RouteTable
freeze_table t = record t {
  frozen = some (record {
    frozen_resolver = t.service_type_resolver;
    frozen_workers = map unless_empty t.workers;
  });
}

abbrev pub pointer : List (Option (List ℕ)) → ℕ → Option (List ℕ)
pointer [] i = none
pointer (p ∷ ps) zero = p
pointer (p ∷ ps) (suc i) = pointer ps i

unfoldable pub get_worker_ref : ℕ → RouteTable → Option (List ℕ)
get_worker_ref service_type t = elim t.frozen [
  | none ↦ none
  | some snapshot ↦
      if ltb service_type swt_count then pointer snapshot.frozen_workers service_type else none
]

abbrev pub resolve_by : Option (ℕ → ℕ) → ℕ → ℕ
resolve_by none message_type = 0
resolve_by (some resolver) message_type = resolver message_type

-- The resolver of the snapshot, else the one that is set now, else SWT_Normal.
unfoldable pub resolve_service_worker_type : ℕ → RouteTable → ℕ
resolve_service_worker_type message_type t = elim t.frozen [
  | none ↦ resolve_by t.service_type_resolver message_type
  | some snapshot ↦ elim snapshot.frozen_resolver [
    | none ↦ resolve_by t.service_type_resolver message_type
    | some resolver ↦ resolver message_type
  ]
]

pub data Policy : Type 0 where
  stateful stateless : Policy

pub record Strategy : Type 0 where
  pub route_key_selector : Option (ℕ → ℕ → ℕ)
  pub worker_index_selector : Option (List ℕ → ℕ → ℕ → ℕ)

pub record Router : Type 0 where
  pub policy : Policy
  pub route_table : RouteTable
  pub strategy : Strategy
  pub entity_route_table : LockFreeRouteTable
  pub frozen_strategy : Option Strategy

unfoldable pub freeze_router : Router → Router
freeze_router r = record r {
  route_table = freeze_table r.route_table;
  frozen_strategy = some r.strategy;
}

-- What the application may set at any time: `RegisterWorker`, `SetServiceTypeResolver`,
-- `SetRouteKeySelector` and `SetWorkerIndexSelector`.
pub data Setting : Type 0 where
  registers : ℕ → ℕ → Setting
  sets_resolver : (ℕ → ℕ) → Setting
  sets_route_key : (ℕ → ℕ → ℕ) → Setting
  sets_worker_index : (List ℕ → ℕ → ℕ → ℕ) → Setting

unfoldable pub configure : Setting → Router → Router
configure (registers service_type worker) r = record r {
  route_table = register_worker service_type worker r.route_table;
}
configure (sets_resolver resolver) r = record r {
  route_table = set_service_type_resolver resolver r.route_table;
}
configure (sets_route_key key) r = record r {
  strategy = record r.strategy { route_key_selector = some key };
}
configure (sets_worker_index selector) r = record r {
  strategy = record r.strategy { worker_index_selector = some selector };
}

-- The frozen strategy where there is one, else the one that is set now.
abbrev pub strategy_of : Option Strategy → Strategy → Strategy
strategy_of none now = now
strategy_of (some frozen) now = frozen

abbrev pub route_key : Option (ℕ → ℕ → ℕ) → ℕ → ℕ → ℕ
route_key none message_type route_id = route_id
route_key (some key) message_type route_id = key message_type route_id

unfoldable pub pick_by :
    Option (List ℕ → ℕ → ℕ → ℕ) → Option (ℕ → ℕ → ℕ) → List ℕ → ℕ → ℕ → Option ℕ
pick_by (some selector) keys workers message_type route_id =
    get_elem? workers (selector workers message_type route_id)
pick_by none keys workers message_type route_id =
    get_elem? workers (route_key keys message_type route_id % length workers)

-- `none` is the empty weak pointer.
unfoldable pub pick_worker : List ℕ → ℕ → ℕ → Router → Option ℕ
pick_worker [] message_type route_id r = none
pick_worker (w ∷ ws) message_type route_id r =
    let s = strategy_of r.frozen_strategy r.strategy in
    pick_by s.worker_index_selector s.route_key_selector (w ∷ ws) message_type route_id

abbrev pub stateless_target : Option (List ℕ) → ℕ → ℕ → Router → Option ℕ
stateless_target none message_type user r = none
stateless_target (some workers) message_type user r = pick_worker workers message_type user r

module _ {Task Call : Type 0} where
  -- The executor of a worker that the manager has at this index.
  abbrev pub executor_of_worker : Option (Worker Task Call) → ℕ → WorkerExecutor
  executor_of_worker none index = empty_executor
  executor_of_worker (some w) index =
      if w.has_executor then own_executor index else worker_executor index

  unfoldable pub executor_of : ℕ → WorkerManager Task Call → WorkerExecutor
  executor_of index m = executor_of_worker (get_worker index m) index

  abbrev pub executor_of_target : Option ℕ → WorkerManager Task Call → WorkerExecutor
  executor_of_target none m = empty_executor
  executor_of_target (some index) m = executor_of index m

  unfoldable pub entity_executor : ℕ → WorkerManager Task Call → WorkerExecutor
  entity_executor worker_index m =
      if worker_index == invalid_worker then empty_executor else executor_of worker_index m

  unfoldable pub policy_executor :
      Policy → ℕ → ℕ → Router → WorkerManager Task Call → WorkerExecutor
  policy_executor stateful message_type user_unique_id r m =
      entity_executor (lookup user_unique_id r.entity_route_table) m
  policy_executor stateless message_type user_unique_id r m =
      let service_type = resolve_service_worker_type message_type r.route_table in
      executor_of_target
        (stateless_target (get_worker_ref service_type r.route_table) message_type user_unique_id r)
        m

  unfoldable pub get_executor : ℕ → ℕ → Router → WorkerManager Task Call → WorkerExecutor
  get_executor message_type user_unique_id r m =
      if user_unique_id == 0
      then executor_of 0 m
      else policy_executor r.policy message_type user_unique_id r m
