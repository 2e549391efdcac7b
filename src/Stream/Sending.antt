-- ===== src/Stream/Sending.antt =====
-- src/message_stream/message_stream.cpp: the pending queue of a `MessageStream`, which
-- `put_into_pending_queue`, `insert_into_pending_queue` and `get_from_pending_queue` change. A
-- message is its `ReadBuffer`: the bytes of the blocks, and the size of the blocks as allocated.
pub mod Queue
pub mod Sender
pub mod Delivery
pub mod Starts
pub mod Steps
pub mod Reachable
mod Tests
use gb_server.Base.{
  ltb, if◌then◌else◌, length, ℕ, ◌+◌, ◌-◌, Bool, true, false, ◌&&◌, Option, none, some, List, [],
  ◌∷◌, ◌++◌,
}
use gb_server.Stream.Agree.{concat}

pub record Outbound : Type 0 where
  pub blocks : List (List ℕ)
  pub total_block_size : ℕ

abbrev pub total_count : Outbound → ℕ
total_count m = length (concat m.blocks)

-- One of the two deques with its three counters.
pub record Calls : Type 0 where
  pub items : List Outbound
  pub message_count : ℕ
  pub data_size : ℕ
  pub buffer_size : ℕ

abbrev pub no_calls : Calls
no_calls = record { items = []; message_count = 0; data_size = 0; buffer_size = 0 }

pub record PendingQueue : Type 0 where
  pub pending : Calls
  pub swapped : Calls

unfoldable pub put_into_pending_queue : Outbound → PendingQueue → PendingQueue
put_into_pending_queue m q = record q {
  pending = record {
    items = q.pending.items ++ m ∷ [];
    message_count = q.pending.message_count + 1;
    data_size = q.pending.data_size + total_count m;
    buffer_size = q.pending.buffer_size + m.total_block_size;
  };
}

unfoldable pub insert_into_pending_queue : Outbound → PendingQueue → PendingQueue
insert_into_pending_queue m q = record q {
  swapped = record {
    items = m ∷ q.swapped.items;
    message_count = q.swapped.message_count + 1;
    data_size = q.swapped.data_size + total_count m;
    buffer_size = q.swapped.buffer_size + m.total_block_size;
  };
}

abbrev pub is_empty {ℓ} : {A : Type ℓ} → List A → Bool
is_empty [] = true
is_empty (x ∷ xs) = false

-- The part of `get_from_pending_queue` under the mutex.
unfoldable pub swap_calls : PendingQueue → PendingQueue
swap_calls q =
    if is_empty q.swapped.items && ltb 0 q.pending.message_count
    then (if is_empty q.pending.items
        then q
        else record { pending = no_calls; swapped = q.pending })
    else q

unfoldable pub pop_swapped : PendingQueue → Calls → Option Outbound × PendingQueue
pop_swapped q c = elim c.items [
  | [] ↦ (none, q)
  | m ∷ ms ↦ (
    some m,
    record q {
      swapped = record {
        items = ms;
        message_count = c.message_count - 1;
        data_size = c.data_size - total_count m;
        buffer_size = c.buffer_size - m.total_block_size;
      };
    },
  )
]

-- The message is `none` where the source returns false.
unfoldable pub get_from_pending_queue : PendingQueue → Option Outbound × PendingQueue
get_from_pending_queue q = let q' = swap_calls q in pop_swapped q' q'.swapped
