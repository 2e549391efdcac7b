-- ===== src/Router/Services/Laws.antt =====
-- Where messages go, by src/network/router/router.cpp and src/network/rpc/executor.h together.
use gb_server.Base.{
  ◌==◌, if◌then◌else◌, length, get_elem?, ℕ, zero, suc, ◌%◌, ◌<◌, ◌≡◌, refl, ap, ◌∙◌, ◌≢◌, false,
  none, some, List, [], ◌∷◌, arith,
}
use native.Mathlib.Nat.{mod-lt}
use gb_server.Router.Entities.{invalid_worker, lookup}
use gb_server.Router.Services.{
  stateful, Router, strategy_of, route_key, pick_by, pick_worker, executor_of, entity_executor,
  policy_executor, get_executor,
}
use gb_server.Workers.Executor.{Thread, ran_here, dispatch_to, dispatch}
use gb_server.Workers.Manager.{WorkerManager}

get_elem-lt {ℓ} :
    {A : Type ℓ} (xs : List A) (i : ℕ) → i < length xs → (x : A) × (get_elem? xs i ≡ some x)
get_elem-lt [] i h = absurd (omega (arith, h))
get_elem-lt (x ∷ xs) zero h = (x, refl)
get_elem-lt (x ∷ xs) (suc i) h = get_elem-lt xs i (omega (arith, h))

-- Without an index selector a worker is always picked from a list that has one: the one at the
-- route key modulo the length, by the frozen strategy where there is one.
pub pick_worker-key :
    (w : ℕ) (ws : List ℕ) (message_type route_id : ℕ) (r : Router)
    → (strategy_of r.frozen_strategy r.strategy).worker_index_selector ≡ none
    → (x : ℕ) × (pick_worker (w ∷ ws) message_type route_id r ≡ some x)
      × (get_elem? (w ∷ ws) (
            route_key
              (strategy_of r.frozen_strategy r.strategy).route_key_selector
              message_type
              route_id
            % length (w ∷ ws))
          ≡ some x)
unfolding pick_worker pick_by
pick_worker-key w ws message_type route_id r e =
    let keys = (strategy_of r.frozen_strategy r.strategy).route_key_selector in
    let (x, found) =
      get_elem-lt (w ∷ ws) (route_key keys message_type route_id % length (w ∷ ws))
        (mod-lt (route_key keys message_type route_id) (omega arith)) in
    (x, ap (λ o. pick_by o keys (w ∷ ws) message_type route_id) e ∙ found, found)

not_equal : (user : ℕ) → user ≢ 0 → (user == 0) ≡ false
not_equal user h = ground arith

module _ (Task Rpc : Type 0) where
  entity_policy :
      (message_type user : ℕ) (r : Router) (m : WorkerManager Task Rpc)
      → user ≢ 0
      → r.policy ≡ stateful
      → get_executor message_type user r m ≡ entity_executor (lookup user r.entity_route_table) m
  unfolding get_executor policy_executor
  entity_policy message_type user r m h p =
      ap (λ b. if b then executor_of 0 m else policy_executor r.policy message_type user r m)
        (not_equal user h)
      ∙ ap (λ x. policy_executor x message_type user r m) p

  -- A message to an id without a route is not dropped: under the stateful policy the executor that
  -- the router returns for it is the empty one, and it runs the handler at once on the calling
  -- thread.
  dispatch-unrouted :
      (here : Thread) (message_type user : ℕ) (r : Router) (fn : Task) (m : WorkerManager Task Rpc)
      → user ≢ 0
      → r.policy ≡ stateful
      → lookup user r.entity_route_table ≡ invalid_worker
      → dispatch here (get_executor message_type user r m) (some fn) m ≡ ran_here
  unfolding dispatch dispatch_to entity_executor
  dispatch-unrouted here message_type user r fn m h p e =
      ap (λ x. dispatch here x (some fn) m)
        (entity_policy message_type user r m h p ∙ ap (λ i. entity_executor i m) e)
