-- ===== src/Nats/Tests.antt =====
-- Subjects at concrete inputs.
use gb_server.Base.{ℕ, ◌+◌, ◌≡◌, refl, true, false, none, some, List, [], ◌∷◌, arith}
use gb_server.Nats.Inboxes.{inbox_name, on_nats_inbox_msg}
use gb_server.Nats.Names.{on_nats_inbox_msg-inbox_name}
use gb_server.Nats.Once.{pending_of, outcomes_of, nats_run-once}
use gb_server.Nats.Requests.{
  goes_on, requests, timeout, request_failed, new_tls, NatsEvent, gets_response, fires_timer,
  nats_step, nats_run,
}
use gb_server.Nats.Tokens.{any_one, exactly, IsPlain, nats_wildcard_match-tokens}
use gb_server.Nats.Wildcards.{nats_wildcard_match}
use gb_server.Workers.{Worker, new_worker}
use gb_server.Workers.Manager.{WorkerManager, get_worker, put_worker}

-- The pattern "*.b" and the subject "ac.b".
star_matches : nats_wildcard_match (42 ∷ 46 ∷ 98 ∷ []) (97 ∷ 99 ∷ 46 ∷ 98 ∷ []) ≡ true
unfolding nats_wildcard_match
star_matches = refl

-- The pattern "a.>" and the subject "a.", whose last token is empty.
empty_token : nats_wildcard_match (97 ∷ 46 ∷ 62 ∷ []) (97 ∷ 46 ∷ []) ≡ true
unfolding nats_wildcard_match
empty_token = refl

-- A request that times out before its response comes, and one that is refused.
abbrev some_requests : List NatsEvent
some_requests =
    goes_on ∷ requests true true 5 ∷ requests true false 6 ∷ fires_timer 0 ∷ gets_response 0 ∷ []

some_requests-outcomes :
    (nats_run some_requests new_tls).outcomes ≡ (6, request_failed) ∷ (5, timeout) ∷ []
unfolding nats_step
some_requests-outcomes = refl

nats_run-once_example :
    pending_of 5 (nats_run some_requests new_tls).pending
      + outcomes_of 5 (nats_run some_requests new_tls).outcomes
    ≡ 1
nats_run-once_example = nats_run-once 5 some_requests (omega arith)

nats_wildcard_match-tokens_example :
    nats_wildcard_match (42 ∷ 46 ∷ 98 ∷ []) (97 ∷ 99 ∷ 46 ∷ 98 ∷ []) ≡ true
nats_wildcard_match-tokens_example =
    nats_wildcard_match-tokens any_one (exactly (98 ∷ []) ∷ []) (97 ∷ 99 ∷ []) ((98 ∷ []) ∷ [])
      (tt, (b_plain, tt)) ((ac_plain, (b_plain, tt))) tt
  where
    b_plain : IsPlain (98 ∷ [])
    b_plain = (λ e. cc, omega arith)

    ac_plain : IsPlain (97 ∷ 99 ∷ [])
    ac_plain = (λ e. cc, omega arith)

abbrev running_one : Worker ℕ ℕ
running_one = record new_worker { index = 1; has_executor = true; runing = true }

abbrev one_worker : WorkerManager ℕ ℕ
one_worker = record { main_worker = none; workers = running_one ∷ [] }

-- "_INBOX.W1.N20"
some_name : inbox_name 1 20 ≡ 95 ∷ 73 ∷ 78 ∷ 66 ∷ 79 ∷ 88 ∷ 46 ∷ 87 ∷ 49 ∷ 46 ∷ 78 ∷ 50 ∷ 48 ∷ []
unfolding inbox_name
some_name = refl

first_worker : get_worker 1 one_worker ≡ some running_one
unfolding get_worker
first_worker = refl

on_nats_inbox_msg-inbox_name_example :
    on_nats_inbox_msg (some (inbox_name 1 20)) 7 one_worker
    ≡ some (put_worker 1 (record running_one { events = 7 ∷ [] }) one_worker)
on_nats_inbox_msg-inbox_name_example =
    on_nats_inbox_msg-inbox_name ℕ ℕ 1 20 7 one_worker running_one (omega arith) first_worker refl
      refl
