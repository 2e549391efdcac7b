-- ===== src/Stream/Sending/Sender.antt =====
-- src/message_stream/message_stream.cpp: the sending side of a `MessageStream`. `on_sending` is the
-- virtual function of the session, and `quota` is what `acquire_write_quota` answers to the call
-- that a step makes. `wire` holds the bytes that the transport has taken, `outcomes` and `refused`
-- the calls of `on_sent` and `on_send_failed`. The ticks of the last transfer, and the receive that a
-- server starts after a message, are not part of this state.
use gb_server.Base.{
  ◌==◌, if◌then◌else◌, length, take, drop, ℤ, pos, leb_ℤ, ℕ, ◌+◌, Bool, true, false, ◌||◌, Option,
  none, some, List, [], ◌∷◌, ◌++◌,
}
use gb_server.Stream.Sending.{
  Outbound, no_calls, PendingQueue, put_into_pending_queue, insert_into_pending_queue,
  get_from_pending_queue,
}

pub data NetStatus : Type 0 where
  status_init status_connecting status_connected status_closed : NetStatus

pub data Outcome : Type 0 where
  sent failed : Outbound → Outcome

pub record Sender : Type 0 where
  pub status : NetStatus
  pub queue : PendingQueue
  pub write_quota_token : ℤ
  pub send_token : Bool
  pub sending_message : Option Outbound
  -- The blocks behind the read cursor of the message, and the bytes at `_sending_data`.
  pub later_blocks : List (List ℕ)
  pub sending_data : List ℕ
  pub sent_size : ℕ
  pub total_sent_count : ℕ
  pub total_sent_size : ℕ
  pub wire : List ℕ
  pub outcomes : List Outcome
  pub refused : List Outbound

abbrev pub is_connected : NetStatus → Bool
is_connected status_connected = true
is_connected _ = false

abbrev pub is_closed : NetStatus → Bool
is_closed status_closed = true
is_closed _ = false

abbrev pub clear_sending_env : Sender → Sender
clear_sending_env s = record s {
  sending_message = none;
  later_blocks = [];
  sending_data = [];
  sent_size = 0;
}

-- `ReadBuffer::Next` on the message: the bytes of the next block.
abbrev pub next_block : List (List ℕ) → Sender → Sender
next_block [] s = s
next_block (b ∷ bs) s = record s { sending_data = b; later_blocks = bs }

abbrev pub outcome : (Outbound → Outcome) → Option Outbound → List Outcome
outcome f none = []
outcome f (some m) = f m ∷ []

module _ (on_sending : Outbound → Bool) where
  -- The loop's body for the message `m` that has been taken from the queue.
  unfoldable pub start_message : ℤ → Outbound → PendingQueue → Sender → Sender
  start_message quota m q s =
      if on_sending m
      then (if leb_ℤ quota (pos 0)
          then clear_sending_env
              (record s { queue = insert_into_pending_queue m q; write_quota_token = quota })
          else next_block m.blocks (record s {
            queue = q;
            write_quota_token = quota;
            send_token = true;
            sending_message = some m;
            sent_size = 0;
          }))
      else clear_sending_env (record s { queue = q; outcomes = s.outcomes ++ failed m ∷ [] })

  -- An empty queue gives the token back. The loop would go round again for a message that another
  -- thread puts in between, which is a step of its own here.
  unfoldable pub take_next : ℤ → Option Outbound × PendingQueue → Sender → Sender
  take_next quota (none, q) s = record s { queue = q }
  take_next quota (some m, q) s = start_message quota m q s

  unfoldable pub try_start_send : ℤ → Sender → Sender
  try_start_send quota s =
      if s.send_token || leb_ℤ s.write_quota_token (pos 0)
      then s
      else if is_connected s.status
      then take_next quota (get_from_pending_queue s.queue) s
      else s

  unfoldable pub async_send_message : ℤ → Outbound → Sender → Sender
  async_send_message quota m s =
      if is_closed s.status
      then record s { refused = s.refused ++ m ∷ [] }
      else try_start_send quota (record s { queue = put_into_pending_queue m s.queue })

  unfoldable pub trigger_send : ℤ → Sender → Sender
  trigger_send quota s = try_start_send quota (record s { write_quota_token = pos 1 })

  -- A block has been written whole.
  unfoldable pub block_written : ℤ → List (List ℕ) → Sender → Sender
  block_written quota [] s =
      try_start_send quota
        (record s { send_token = false; outcomes = s.outcomes ++ outcome sent s.sending_message })
  block_written quota (b ∷ bs) s = record s { sending_data = b; later_blocks = bs }

  -- `on_write_some` without an error.
  unfoldable pub on_write_some : ℤ → ℕ → Sender → Sender
  on_write_some quota bytes_transferred s =
      if is_connected s.status
      then (let s' = record s {
        sent_size = s.sent_size + bytes_transferred;
        total_sent_count = s.total_sent_count + 1;
        total_sent_size = s.total_sent_size + bytes_transferred;
        wire = s.wire ++ take bytes_transferred s.sending_data;
      } in
          if bytes_transferred == length s.sending_data
          then block_written quota s.later_blocks s'
          else record s' { sending_data = drop bytes_transferred s.sending_data })
      else s

-- `on_write_some` with an error: the stream is closed, and the token stays taken.
unfoldable pub on_write_error : Sender → Sender
on_write_error s =
    if is_connected s.status
    then record (clear_sending_env
        (record s { outcomes = s.outcomes ++ outcome failed s.sending_message })) {
          status = status_closed;
        }
    else s

unfoldable pub new_sender : Sender
new_sender = record {
  status = status_init;
  queue = record { pending = no_calls; swapped = no_calls };
  write_quota_token = pos 1;
  send_token = false;
  sending_message = none;
  later_blocks = [];
  sending_data = [];
  sent_size = 0;
  total_sent_count = 0;
  total_sent_size = 0;
  wire = [];
  outcomes = [];
  refused = [];
}
