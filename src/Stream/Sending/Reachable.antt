-- ===== src/Stream/Sending/Reachable.antt =====
-- The states of the sending side that sequences of calls and completions reach.
use gb_server.Base.{length, ℤ, ℕ, ◌≤◌, ◌≡◌, refl, Bool, true, false, List, []}
use gb_server.Stream.Sending.{Outbound}
use gb_server.Stream.Sending.Delivery.{HasBlocks, IsDelivering, accepted_with}
use gb_server.Stream.Sending.Sender.{
  status_connected, status_closed, Sender, is_closed, async_send_message, trigger_send,
  on_write_some, on_write_error, new_sender,
}
use gb_server.Stream.Sending.Steps.{
  write-IsDelivering, send-IsDelivering, trigger-IsDelivering, error-IsDelivering,
}

module _ (on_sending : Outbound → Bool) where
  -- The states that calls and completions reach, with the messages that were accepted on the way. A
  -- completion belongs to a write that was started, and transfers at most the bytes asked for.
  pub data Reach : List Outbound → Sender → Type 0 where
    starts : Reach [] new_sender
    connects :
        {l : List Outbound} {s : Sender}
        → is_closed s.status ≡ false
        → Reach l s
        → Reach l (record s { status = status_connected })
    closes :
        {l : List Outbound} {s : Sender} → Reach l s → Reach l (record s { status = status_closed })
    sends :
        {l : List Outbound} {s : Sender} (quota : ℤ) (m : Outbound)
        → HasBlocks m
        → Reach l s
        → Reach (accepted_with m s l) (async_send_message on_sending quota m s)
    triggers :
        {l : List Outbound} {s : Sender} (quota : ℤ)
        → Reach l s
        → Reach l (trigger_send on_sending quota s)
    writes :
        {l : List Outbound} {s : Sender} (quota : ℤ) (n : ℕ)
        → s.send_token ≡ true
        → n ≤ length s.sending_data
        → Reach l s
        → Reach l (on_write_some on_sending quota n s)
    write_fails :
        {l : List Outbound} {s : Sender}
        → s.send_token ≡ true
        → Reach l s
        → Reach l (on_write_error s)

  -- In every state that calls and completions reach, the messages whose outcome has been reported,
  -- the one under way and those in the queue are the accepted messages in their order, the counters
  -- of the queue agree with it, and, while the stream is open, the bytes on the wire are those of
  -- the sent messages followed by the part of the current one that has been transferred.
  pub Reach-IsDelivering : {l : List Outbound} {s : Sender} → Reach l s → IsDelivering l s
  Reach-IsDelivering starts =
      unfold new_sender in
      record {
        filled = tt;
        counted = record {
          pending_counted = record {
            messages_counted = refl;
            data_counted = refl;
            buffer_counted = refl;
          };
          swapped_counted = record {
            messages_counted = refl;
            data_counted = refl;
            buffer_counted = refl;
          };
        };
        in_order = refl;
        idle = λ _. refl;
        busy = λ e. cc;
      }
  Reach-IsDelivering (connects {l} {s} e r) =
      let d = Reach-IsDelivering r in
      record {
        filled = d.filled;
        counted = d.counted;
        in_order = d.in_order;
        idle = d.idle;
        busy = λ locked _. d.busy locked e;
      }
  Reach-IsDelivering (closes {l} {s} r) =
      let d = Reach-IsDelivering r in
      record {
        filled = d.filled;
        counted = d.counted;
        in_order = d.in_order;
        idle = d.idle;
        busy = λ _ e. cc;
      }
  Reach-IsDelivering (sends {l} {s} quota m h r) =
      send-IsDelivering on_sending l quota m s h (Reach-IsDelivering r)
  Reach-IsDelivering (triggers {l} {s} quota r) =
      trigger-IsDelivering on_sending l quota s (Reach-IsDelivering r)
  Reach-IsDelivering (writes {l} {s} quota n locked h r) =
      write-IsDelivering on_sending l quota n s locked h (Reach-IsDelivering r)
  Reach-IsDelivering (write_fails {l} {s} locked r) =
      error-IsDelivering on_sending l s locked (Reach-IsDelivering r)
