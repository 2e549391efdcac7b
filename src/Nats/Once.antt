-- ===== src/Nats/Once.antt =====
-- src/network/nats/nats_manager.cpp: the outcomes of requests.
use gb_server.Base.{
  ◌==◌, if◌then◌else◌, ==_iff, Bool-cases, if_intro, some_injective, ℕ, suc, ◌+◌, ◌%◌, ◌^◌, ◌≤◌,
  ◌<◌, ◌≡◌, refl, inl, inr, Bool, true, false, Option, none, some, List, [], ◌∷◌, ◌++◌, arith,
}
use gb_server.Nats.Requests.{
  goes_on, requests, NatsOutcome, answered, timeout, disconnected, subscribe_failed, request_failed,
  TlsNats, new_tls, gen_inbox, publish_request, async_request, end_found, on_response, on_timeout,
  NatsEvent, goes_off, gets_response, fires_timer, nats_step, nats_run,
}
use gb_server.Workers.{Pending, without, find}

-- How often a request is pending, has an outcome, and is made.
abbrev pub pending_of : ℕ → Pending ℕ → ℕ
pending_of x [] = 0
pending_of x ((k, r) ∷ rest) = (if x == r then 1 else 0) + pending_of x rest

abbrev pub outcomes_of : ℕ → List (ℕ × NatsOutcome) → ℕ
outcomes_of x [] = 0
outcomes_of x ((r, o) ∷ rest) = (if x == r then 1 else 0) + outcomes_of x rest

abbrev pub requests_of : ℕ → List NatsEvent → ℕ
requests_of x [] = 0
requests_of x (requests subscribed published r ∷ es) = (if x == r then 1 else 0) + requests_of x es
requests_of x (_ ∷ es) = requests_of x es

-- How many requests a run makes.
abbrev pub count_requests : List NatsEvent → ℕ
count_requests [] = 0
count_requests (requests subscribed published r ∷ es) = suc (count_requests es)
count_requests (_ ∷ es) = count_requests es

-- The inboxes of the map, the newest first, are numbered below `n`.
abbrev Below : ℕ → Pending ℕ → Type 0
Below n [] = Unit
Below n ((k, r) ∷ rest) = (k < n) × Below k rest

Below-mono : (m n : ℕ) (p : Pending ℕ) → m ≤ n → Below m p → Below n p
Below-mono m n [] h b = tt
Below-mono m n ((k, r) ∷ rest) h b = (omega arith, b.1)

without-Below : (inbox n : ℕ) (p : Pending ℕ) → Below n p → Below n (without inbox p)
without-Below inbox n [] b = tt
without-Below inbox n ((k, r) ∷ rest) b =
    if_intro (Below n) (k == inbox)
      (λ e. without-Below inbox n rest (Below-mono k n rest (omega (arith, b.0)) b.1))
      (λ e. (b.0, without-Below inbox k rest b.1))

==_true : (a : ℕ) → (a == a) ≡ true
==_true a = ground arith

-- Nothing is removed for a number that no inbox has.
without_above : (inbox n : ℕ) (p : Pending ℕ) → n ≤ inbox → Below n p → without inbox p ≡ p
without_above inbox n [] h b = refl
without_above inbox n ((k, r) ∷ rest) h b = ground (arith, without_above inbox k rest)

found-pending :
    (inbox n x : ℕ) (p : Pending ℕ) {request : ℕ}
    → Below n p
    → find inbox p ≡ some request
    → pending_of x p ≡ (if x == request then 1 else 0) + pending_of x (without inbox p)
found-pending inbox n x [] b e = cc
found-pending inbox n x ((k, r) ∷ rest) {request} b e = elim (Bool-cases (k == inbox)) [
  | inl h ↦
      let same : r ≡ request = some_injective (rw h at e) in
      rw (h, ← same, without_above inbox k rest (omega (arith, (==_iff k inbox).0 h)) b.1)
  | inr h ↦ rw h (omega (arith, found-pending inbox k x rest {request = request} b.1 (rw h at e)))
]

outcomes_of-append :
    (x : ℕ) (xs ys : List (ℕ × NatsOutcome))
    → outcomes_of x (xs ++ ys) ≡ outcomes_of x xs + outcomes_of x ys
outcomes_of-append x [] ys = omega arith
outcomes_of-append x ((r, o) ∷ xs) ys = omega (arith, outcomes_of-append x xs ys)

-- The entries and the outcomes, with room for `left` further requests.
record Settled (x made left : ℕ) (s : TlsNats) : Type 0 where
  ordered : Below s.inbox_seq s.pending
  room : s.inbox_seq + left < 2 ^ 64
  once : pending_of x s.pending + outcomes_of x s.outcomes ≡ made

module _ (x made left : ℕ) (s : TlsNats) where
  -- A new outcome is counted with the requests that are made.
  outcome-Settled :
      (request : ℕ) (o : NatsOutcome)
      → Settled x made left s
      → Settled x
          (made + (if x == request then 1 else 0))
          left
          (record s { outcomes = s.outcomes ++ (request, o) ∷ [] })
  outcome-Settled request o h = record {
    ordered = h.ordered;
    room = h.room;
    once = omega (arith, h.once, outcomes_of-append x s.outcomes ((request, o) ∷ []));
  }

  end_found-Settled :
      (o : NatsOutcome) (inbox : ℕ) (found : Option ℕ)
      → find inbox s.pending ≡ found
      → Settled x made left s
      → Settled x made left (end_found o inbox found s)
  unfolding end_found
  end_found-Settled o inbox none e h = h
  end_found-Settled o inbox (some request) e h = record {
    ordered = without-Below inbox s.inbox_seq s.pending h.ordered;
    room = h.room;
    once = omega (
      arith,
      h.once,
      outcomes_of-append x s.outcomes ((request, o) ∷ []),
      found-pending inbox s.inbox_seq x s.pending {request = request} h.ordered e,
    );
  }

-- The state after `GenInbox`.
abbrev next_inbox : TlsNats → TlsNats
next_inbox s = record s { inbox_seq = (s.inbox_seq + 1) % 2 ^ 64 }

next_inbox-Settled :
    (x made left : ℕ) (s : TlsNats)
    → Settled x made (suc left) s
    → Settled x made left (next_inbox s)
next_inbox-Settled x made left s h =
    let e : (s.inbox_seq + 1) % 2 ^ 64 ≡ s.inbox_seq + 1 = omega (arith, h.room) in
    record {
      ordered = rw e (Below-mono s.inbox_seq (s.inbox_seq + 1) s.pending (omega arith) h.ordered);
      room = omega (arith, e, h.room);
      once = h.once;
    }

publish_request-Settled :
    (x made left : ℕ) (published : Bool) (request : ℕ) (s : TlsNats)
    → Settled x made (suc left) s
    → Settled x
        (made + (if x == request then 1 else 0))
        left
        (publish_request published s.inbox_seq request (next_inbox s))
unfolding publish_request
publish_request-Settled x made left published request s h =
    let n : (s.inbox_seq + 1) % 2 ^ 64 ≡ s.inbox_seq + 1 = omega (arith, h.room) in
    let same = without_above s.inbox_seq s.inbox_seq s.pending (omega arith) h.ordered in
    let g = next_inbox-Settled x made left s h in
    if_intro (Settled x (made + (if x == request then 1 else 0)) left) published
      (λ b. record {
        ordered = rw same (omega (arith, n), h.ordered);
        room = g.room;
        once = rw same (omega (arith, h.once));
      })
      (λ b.
        outcome-Settled x made left
          (record (next_inbox s) {
            pending = without s.inbox_seq ((s.inbox_seq, request) ∷ without s.inbox_seq s.pending);
          })
          request request_failed
          (record {
            ordered = rw (==_true s.inbox_seq, same, same) g.ordered;
            room = g.room;
            once = rw (==_true s.inbox_seq, same, same) h.once;
          }))

async_request-Settled :
    (x made left : ℕ) (subscribed published : Bool) (request : ℕ) (s : TlsNats)
    → Settled x made (suc left) s
    → Settled x
        (made + (if x == request then 1 else 0))
        left
        (async_request subscribed published request s)
unfolding async_request gen_inbox
async_request-Settled x made left subscribed published request s h =
    if_intro (Settled x _ left) s.connected
      (λ c.
        if_intro (Settled x _ left) subscribed
          (λ b. publish_request-Settled x made left published request s h)
          (λ b.
            outcome-Settled x made left (next_inbox s) request subscribe_failed
              (next_inbox-Settled x made left s h)))
      (λ c.
        outcome-Settled x made left s request disconnected
          (record { ordered = h.ordered; room = omega (arith, h.room); once = h.once }))

weaken : {x made left : ℕ} {s : TlsNats} → Settled x made (suc left) s → Settled x made left s
weaken h = record { ordered = h.ordered; room = omega (arith, h.room); once = h.once }

nats_run-Settled :
    (x made : ℕ) (es : List NatsEvent) (s : TlsNats)
    → Settled x made (count_requests es) s
    → Settled x (made + requests_of x es) 0 (nats_run es s)
unfolding nats_step on_response on_timeout
nats_run-Settled x made [] s h = record {
  ordered = h.ordered;
  room = h.room;
  once = omega (arith, h.once);
}
nats_run-Settled x made (goes_on ∷ es) s h =
    nats_run-Settled x made es (record s { connected = true })
      (record { ordered = h.ordered; room = h.room; once = h.once })
nats_run-Settled x made (goes_off ∷ es) s h =
    nats_run-Settled x made es (record s { connected = false })
      (record { ordered = h.ordered; room = h.room; once = h.once })
nats_run-Settled x made (requests subscribed published request ∷ es) s h =
    let k =
      nats_run-Settled x (made + (if x == request then 1 else 0)) es
        (async_request subscribed published request s)
        (async_request-Settled x made (count_requests es) subscribed published request s h) in
    record { ordered = k.ordered; room = k.room; once = omega (arith, k.once) }
nats_run-Settled x made (gets_response inbox ∷ es) s h =
    nats_run-Settled x made es _
      (end_found-Settled x made (count_requests es) s answered inbox (find inbox s.pending) refl h)
nats_run-Settled x made (fires_timer inbox ∷ es) s h =
    nats_run-Settled x made es _
      (end_found-Settled x made (count_requests es) s timeout inbox (find inbox s.pending) refl h)

-- On one thread that makes fewer than 2^64 requests: whatever the library refuses and whichever
-- responses and timers come, for whatever inboxes and in whatever order, each request has had
-- exactly one outcome, or is pending and has had none.
pub nats_run-once :
    (x : ℕ) (es : List NatsEvent)
    → count_requests es < 2 ^ 64
    → let s = nats_run es new_tls in
      pending_of x s.pending + outcomes_of x s.outcomes ≡ requests_of x es
nats_run-once x es h =
    let start : Settled x 0 (count_requests es) new_tls = record {
      ordered = tt;
      room = omega arith;
      once = omega arith;
    } in
    omega (arith, (nats_run-Settled x 0 es new_tls start).once)
