-- ===== src/Stream/Sending/Tests.antt =====
-- The sending side at concrete inputs.
use gb_server.Base.{length, pos, ◌≡◌, refl, ap, Bool, true, [], ◌∷◌, arith}
use gb_server.Stream.Sending.{
  Outbound, no_calls, PendingQueue, put_into_pending_queue, swap_calls, pop_swapped,
  get_from_pending_queue,
}
use gb_server.Stream.Sending.Delivery.{IsDelivering}
use gb_server.Stream.Sending.Queue.{IsCounted}
use gb_server.Stream.Sending.Reachable.{Reach, starts, connects, sends, writes, Reach-IsDelivering}
use gb_server.Stream.Sending.Sender.{
  status_connected, Sender, start_message, take_next, try_start_send, async_send_message,
  on_write_some, new_sender,
}

abbrev two_blocks : Outbound
two_blocks = record { blocks = (1 ∷ 2 ∷ 3 ∷ []) ∷ (4 ∷ []) ∷ []; total_block_size = 2048 }

abbrev one_block : Outbound
one_block = record { blocks = (5 ∷ []) ∷ []; total_block_size = 1024 }

abbrev all_pass : Outbound → Bool
all_pass m = true

abbrev connected_sender : Sender
connected_sender = record new_sender { status = status_connected }

-- A message is sent on a connected stream.
abbrev started : Sender
started = async_send_message all_pass (pos 1) two_blocks connected_sender

-- The first block is under way.
started-parts : (started.send_token ≡ true) × (started.sending_data ≡ 1 ∷ 2 ∷ 3 ∷ [])
unfolding async_send_message new_sender try_start_send take_next get_from_pending_queue pop_swapped
    swap_calls put_into_pending_queue start_message
started-parts = (refl, refl)

started-Reach : Reach all_pass (two_blocks ∷ []) started
unfolding new_sender
started-Reach = sends (pos 1) two_blocks (λ e. cc) (connects refl starts)

-- Two of its three bytes are written.
abbrev halfway : Sender
halfway = on_write_some all_pass (pos 1) 2 started

Reach-IsDelivering_example : IsDelivering (two_blocks ∷ []) halfway
Reach-IsDelivering_example =
    Reach-IsDelivering all_pass
      (writes (pos 1) 2 started-parts.0 (omega (arith, ap length started-parts.1)) started-Reach)

-- Two messages are pending and none is swapped.
abbrev two_pending : PendingQueue
two_pending = record {
  pending = record {
    items = two_blocks ∷ one_block ∷ [];
    message_count = 2;
    data_size = 5;
    buffer_size = 3072;
  };
  swapped = no_calls;
}

two_pending-IsCounted : IsCounted two_pending
two_pending-IsCounted = record {
  pending_counted = record { messages_counted = refl; data_counted = refl; buffer_counted = refl };
  swapped_counted = record { messages_counted = refl; data_counted = refl; buffer_counted = refl };
}
