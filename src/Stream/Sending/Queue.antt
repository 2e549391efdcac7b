-- ===== src/Stream/Sending/Queue.antt =====
-- The pending queue of message_stream.cpp as one queue: what its counters count and in which order
-- messages leave it.
use gb_server.Base.{
  lt→ltb, lt→ltb_false, length, length-append, ℕ, ◌+◌, ◌-◌, ◌≡◌, refl, sym, Option, none, some,
  List, [], ◌∷◌, ◌++◌, append_assoc, append-nil, arith,
}
use gb_server.Stream.Sending.{
  Outbound, total_count, Calls, no_calls, PendingQueue, put_into_pending_queue,
  insert_into_pending_queue, swap_calls, pop_swapped, get_from_pending_queue,
}

abbrev pub sum_of : (Outbound → ℕ) → List Outbound → ℕ
sum_of f [] = 0
sum_of f (m ∷ ms) = f m + sum_of f ms

-- The counters of a deque agree with its messages.
pub record AreCounted (c : Calls) : Type 0 where
  pub messages_counted : c.message_count ≡ length c.items
  pub data_counted : c.data_size ≡ sum_of total_count c.items
  pub buffer_counted : c.buffer_size ≡ sum_of (λ m. m.total_block_size) c.items

pub record IsCounted (q : PendingQueue) : Type 0 where
  pub pending_counted : AreCounted q.pending
  pub swapped_counted : AreCounted q.swapped

-- The messages in the order in which they leave.
abbrev pub waiting : PendingQueue → List Outbound
waiting q = q.swapped.items ++ q.pending.items

sum_of-append_one :
    (f : Outbound → ℕ) (ms : List Outbound) (m : Outbound)
    → sum_of f (ms ++ m ∷ []) ≡ sum_of f ms + f m
sum_of-append_one f [] m = omega arith
sum_of-append_one f (x ∷ ms) m = omega (arith, sum_of-append_one f ms m)

pub put-IsCounted :
    (m : Outbound) (q : PendingQueue) → IsCounted q → IsCounted (put_into_pending_queue m q)
unfolding put_into_pending_queue
put-IsCounted m q c = record {
  pending_counted = record {
    messages_counted =
        omega (arith, c.pending_counted.messages_counted, length-append q.pending.items (m ∷ []));
    data_counted =
        omega
          (arith, c.pending_counted.data_counted, sum_of-append_one total_count q.pending.items m);
    buffer_counted = omega (
      arith,
      c.pending_counted.buffer_counted,
      sum_of-append_one (λ m. m.total_block_size) q.pending.items m,
    );
  };
  swapped_counted = c.swapped_counted;
}

pub put-waiting :
    (m : Outbound) (q : PendingQueue) → waiting (put_into_pending_queue m q) ≡ waiting q ++ m ∷ []
unfolding put_into_pending_queue
put-waiting m q = sym (append_assoc q.swapped.items q.pending.items (m ∷ []))

pub insert-IsCounted :
    (m : Outbound) (q : PendingQueue) → IsCounted q → IsCounted (insert_into_pending_queue m q)
unfolding insert_into_pending_queue
insert-IsCounted m q c = record {
  pending_counted = c.pending_counted;
  swapped_counted = record {
    messages_counted = omega (arith, c.swapped_counted.messages_counted);
    data_counted = omega (arith, c.swapped_counted.data_counted);
    buffer_counted = omega (arith, c.swapped_counted.buffer_counted);
  };
}

pub insert-waiting :
    (m : Outbound) (q : PendingQueue) → waiting (insert_into_pending_queue m q) ≡ m ∷ waiting q
unfolding insert_into_pending_queue
insert-waiting m q = refl

no_calls-AreCounted : AreCounted no_calls
no_calls-AreCounted = record { messages_counted = refl; data_counted = refl; buffer_counted = refl }

-- What is left after the messages `ms`, and the message that has been taken.
abbrev pub Takes : List Outbound → Option Outbound × PendingQueue → Type 0
Takes [] (o, q) = (o ≡ none) × (waiting q ≡ []) × IsCounted q
Takes (m ∷ ms) (o, q) = (o ≡ some m) × (waiting q ≡ ms) × IsCounted q

abbrev calls : List Outbound → ℕ → ℕ → ℕ → Calls
calls items n d b = record { items = items; message_count = n; data_size = d; buffer_size = b }

take_first :
    (m : Outbound) (ms : List Outbound) (n d b : ℕ) (p : Calls)
    → AreCounted (calls (m ∷ ms) n d b)
    → AreCounted p
    → IsCounted (record {
      pending = p;
      swapped = calls ms (n - 1) (d - total_count m) (b - m.total_block_size);
    })
take_first m ms n d b p c cp = record {
  pending_counted = cp;
  swapped_counted = record {
    messages_counted = omega (arith, c.messages_counted);
    data_counted = omega (arith, c.data_counted);
    buffer_counted = omega (arith, c.buffer_counted);
  };
}

get-cases :
    (ps : List Outbound) (pn pd pb : ℕ) (ss : List Outbound) (sn sd sb : ℕ)
    → AreCounted (calls ps pn pd pb)
    → AreCounted (calls ss sn sd sb)
    → Takes (ss ++ ps) (
        get_from_pending_queue
          (record { pending = calls ps pn pd pb; swapped = calls ss sn sd sb }))
unfolding get_from_pending_queue swap_calls pop_swapped
get-cases [] pn pd pb [] sn sd sb cp cs =
    rw (lt→ltb_false 0 pn (omega (arith, cp.messages_counted)))
      (refl, refl, record { pending_counted = cp; swapped_counted = cs })
get-cases (m ∷ ms) pn pd pb [] sn sd sb cp cs =
    rw (lt→ltb 0 pn (omega (arith, cp.messages_counted)))
      (refl, append-nil ms, take_first m ms pn pd pb no_calls cp no_calls-AreCounted)
get-cases ps pn pd pb (m ∷ ms) sn sd sb cp cs =
    (refl, refl, take_first m ms sn sd sb (calls ps pn pd pb) cs cp)

-- The next message of the queue is taken, whichever deque holds it, and the counters agree with
-- the messages that are left; only an empty queue yields none.
pub get-Takes : (q : PendingQueue) → IsCounted q → Takes (waiting q) (get_from_pending_queue q)
get-Takes q c =
    get-cases q.pending.items q.pending.message_count q.pending.data_size q.pending.buffer_size
      q.swapped.items q.swapped.message_count q.swapped.data_size q.swapped.buffer_size
      c.pending_counted c.swapped_counted
