-- ===== src/Router/Services/Freezing.antt =====
-- What a frozen router still reads of its settings.
use gb_server.Base.{
  ltb, leb, ◌==◌, if◌then◌else◌, if_intro, length, ℕ, ◌≡◌, refl, sym, ap, ◌∙◌, Option, none, some,
  List, [], ◌∷◌,
}
use mathlib.Core.Path.{ap₂}
use gb_server.Router.Entities.{LockFreeRouteTable}
use gb_server.Router.Services.{
  swt_count, FrozenSnapshot, register_worker, set_service_type_resolver, freeze_table, pointer,
  get_worker_ref, resolve_service_worker_type, Policy, stateful, stateless, Strategy, Router,
  freeze_router, Setting, registers, sets_resolver, sets_route_key, sets_worker_index, configure,
  strategy_of, pick_by, pick_worker, stateless_target, executor_of, executor_of_target,
  policy_executor, get_executor,
}
use gb_server.Workers.Executor.{WorkerExecutor}
use gb_server.Workers.Manager.{WorkerManager}

abbrev pub configure_all : List Setting → Router → Router
configure_all [] r = r
configure_all (c ∷ cs) r = configure_all cs (configure c r)

-- The parts of a router that were frozen with a resolver set.
pub record IsFrozen (r : Router) : Type 0 where
  pub snapshot : FrozenSnapshot
  pub resolver : ℕ → ℕ
  pub chosen : Strategy
  pub has_snapshot : r.route_table.frozen ≡ some snapshot
  pub has_resolver : snapshot.frozen_resolver ≡ some resolver
  pub has_strategy : r.frozen_strategy ≡ some chosen

freeze-IsFrozen :
    (r : Router) (resolver : ℕ → ℕ)
    → r.route_table.service_type_resolver ≡ some resolver
    → IsFrozen (freeze_router r)
unfolding freeze_router freeze_table
freeze-IsFrozen r resolver e = record {
  snapshot = _;
  resolver = resolver;
  chosen = _;
  has_snapshot = refl;
  has_resolver = e;
  has_strategy = refl;
}

configure-IsFrozen : (c : Setting) (r : Router) → IsFrozen r → IsFrozen (configure c r)
unfolding configure register_worker set_service_type_resolver
configure-IsFrozen (registers t w) r v =
    if_intro (λ x. IsFrozen (record r { route_table = x })) (leb (length r.route_table.workers) t)
      (λ _. v)
      (λ _. record {
        snapshot = v.snapshot;
        resolver = v.resolver;
        chosen = v.chosen;
        has_snapshot = v.has_snapshot;
        has_resolver = v.has_resolver;
        has_strategy = v.has_strategy;
      })
configure-IsFrozen (sets_resolver f) r v = record {
  snapshot = v.snapshot;
  resolver = v.resolver;
  chosen = v.chosen;
  has_snapshot = v.has_snapshot;
  has_resolver = v.has_resolver;
  has_strategy = v.has_strategy;
}
configure-IsFrozen (sets_route_key f) r v = record {
  snapshot = v.snapshot;
  resolver = v.resolver;
  chosen = v.chosen;
  has_snapshot = v.has_snapshot;
  has_resolver = v.has_resolver;
  has_strategy = v.has_strategy;
}
configure-IsFrozen (sets_worker_index f) r v = record {
  snapshot = v.snapshot;
  resolver = v.resolver;
  chosen = v.chosen;
  has_snapshot = v.has_snapshot;
  has_resolver = v.has_resolver;
  has_strategy = v.has_strategy;
}

module _ (Task Rpc : Type 0) (m : WorkerManager Task Rpc) (message_type user : ℕ) where
  -- The executor by the frozen parts alone.
  frozen_executor :
      Policy → FrozenSnapshot → (ℕ → ℕ) → Strategy → LockFreeRouteTable → WorkerExecutor
  frozen_executor p snapshot resolver chosen routes =
      get_executor message_type user
        (record {
          policy = p;
          route_table = record {
            service_type_resolver = none;
            workers = [];
            frozen = some (record snapshot { frozen_resolver = some resolver });
          };
          strategy = chosen;
          entity_route_table = routes;
          frozen_strategy = some chosen;
        })
        m

  same_target :
      (o : Option (List ℕ)) (r r' : Router)
      → strategy_of r.frozen_strategy r.strategy ≡ strategy_of r'.frozen_strategy r'.strategy
      → stateless_target o message_type user r ≡ stateless_target o message_type user r'
  unfolding pick_worker
  same_target none r r' e = refl
  same_target (some []) r r' e = refl
  same_target (some (w ∷ ws)) r r' e =
      ap
        (λ (s : Strategy).
          pick_by s.worker_index_selector s.route_key_selector (w ∷ ws) message_type user)
        e

  by_policy :
      (p : Policy) (snapshot : FrozenSnapshot) (resolver : ℕ → ℕ) (chosen : Strategy) (r : Router)
      → get_executor message_type user
          (record r {
            policy = p;
            route_table = record r.route_table {
              frozen = some (record snapshot { frozen_resolver = some resolver });
            };
            frozen_strategy = some chosen;
          })
          m
        ≡ frozen_executor p snapshot resolver chosen r.entity_route_table
  unfolding frozen_executor get_executor policy_executor resolve_service_worker_type get_worker_ref
  by_policy stateful snapshot resolver chosen r = refl
  by_policy stateless snapshot resolver chosen r =
      ap (λ o. if user == 0 then executor_of 0 m else executor_of_target o m)
        (same_target
          (if ltb (resolver message_type) swt_count
            then pointer snapshot.frozen_workers (resolver message_type)
            else none)
          _ _ refl)

  executor-frozen :
      (r : Router) (v : IsFrozen r)
      → get_executor message_type user r m
        ≡ frozen_executor r.policy v.snapshot v.resolver v.chosen r.entity_route_table
  executor-frozen r v =
      (λ i.
        get_executor message_type user
          (record r {
            route_table = record r.route_table { frozen = v.has_snapshot i };
            frozen_strategy = v.has_strategy i;
          })
          m)
      ∙ ap
          (λ o.
            get_executor message_type user
              (record r {
                route_table = record r.route_table {
                  frozen = some (record v.snapshot { frozen_resolver = o });
                };
                frozen_strategy = some v.chosen;
              })
              m)
          v.has_resolver
      ∙ by_policy r.policy v.snapshot v.resolver v.chosen r

  same_frozen :
      (r r' : Router)
      → r'.route_table.frozen ≡ r.route_table.frozen
      → r'.frozen_strategy ≡ r.frozen_strategy
      → r'.policy ≡ r.policy
      → r'.entity_route_table ≡ r.entity_route_table
      → IsFrozen r
      → get_executor message_type user r' m ≡ get_executor message_type user r m
  same_frozen r r' table strategies policies routes v =
      executor-frozen r' (record {
        snapshot = v.snapshot;
        resolver = v.resolver;
        chosen = v.chosen;
        has_snapshot = table ∙ v.has_snapshot;
        has_resolver = v.has_resolver;
        has_strategy = strategies ∙ v.has_strategy;
      })
      ∙ ap₂ (λ p t. frozen_executor p v.snapshot v.resolver v.chosen t) policies routes
      ∙ sym (executor-frozen r v)

  configure-keeps :
      (c : Setting) (r : Router) (v : IsFrozen r)
      → get_executor message_type user (configure c r) m ≡ get_executor message_type user r m
  unfolding configure register_worker set_service_type_resolver
  configure-keeps (registers t w) r v =
      if_intro
        (λ x.
          get_executor message_type user (record r { route_table = x }) m
          ≡ get_executor message_type user r m)
        (leb (length r.route_table.workers) t) (λ _. refl)
        (λ _. same_frozen r _ refl refl refl refl v)
  configure-keeps (sets_resolver f) r v = same_frozen r _ refl refl refl refl v
  configure-keeps (sets_route_key f) r v = same_frozen r _ refl refl refl refl v
  configure-keeps (sets_worker_index f) r v = same_frozen r _ refl refl refl refl v

  configure_all-keeps :
      (cs : List Setting) (r : Router)
      → IsFrozen r
      → get_executor message_type user (configure_all cs r) m ≡ get_executor message_type user r m
  configure_all-keeps [] r v = refl
  configure_all-keeps (c ∷ cs) r v =
      configure_all-keeps cs (configure c r) (configure-IsFrozen c r v) ∙ configure-keeps c r v

  -- After a freeze with a resolver that is set, no workers that are registered and no resolver or
  -- selector that is set change the executor of a message.
  pub freeze-keeps :
      (resolver : ℕ → ℕ) (r : Router) (cs : List Setting)
      → r.route_table.service_type_resolver ≡ some resolver
      → get_executor message_type user (configure_all cs (freeze_router r)) m
        ≡ get_executor message_type user (freeze_router r) m
  freeze-keeps resolver r cs e =
      configure_all-keeps cs (freeze_router r) (freeze-IsFrozen r resolver e)
