-- ===== src/Stream/Sending/Steps.antt =====
-- Each operation of the sending side keeps the order of the messages and the bytes on the wire.
use gb_server.Base.{
  ◌==◌, ==_iff, if_intro, if_intro₂, length, take, take_all, ℤ, ℕ, ◌≤◌, ◌≡◌, refl, sym, ap, ◌∙◌,
  Bool, true, List, [], ◌∷◌, ◌++◌, append_assoc,
}
use mathlib.Core.Path.{ap₂}
use gb_server.Stream.Agree.{concat}
use gb_server.Stream.Sending.{Outbound}
use gb_server.Stream.Sending.Delivery.{
  resolved, sent_bytes, in_flight, HasBlocks, IsDelivering, All-append_one, resolved_one,
  nothing_in_flight, end_with, connected_open, cut, accepted_with,
}
use gb_server.Stream.Sending.Queue.{waiting, put-IsCounted, put-waiting}
use gb_server.Stream.Sending.Sender.{
  failed, Sender, is_connected, is_closed, outcome, async_send_message, trigger_send, on_write_some,
  on_write_error,
}
use gb_server.Stream.Sending.Starts.{try_start-IsDelivering, block-IsDelivering}

module _ (on_sending : Outbound → Bool) where
  -- A completed write of at most the bytes that were asked for.
  pub write-IsDelivering :
      (accepted : List Outbound) (quota : ℤ) (n : ℕ) (s : Sender)
      → s.send_token ≡ true
      → n ≤ length s.sending_data
      → IsDelivering accepted s
      → IsDelivering accepted (on_write_some on_sending quota n s)
  unfolding on_write_some
  write-IsDelivering accepted quota n s locked h d =
      if_intro (IsDelivering accepted) (is_connected s.status)
        (λ up.
          let (m, part, now, all, w) = d.busy locked (connected_open s.status up) in
          let taken : s.wire ++ take n s.sending_data
              ≡ sent_bytes s.outcomes ++ (part ++ take n s.sending_data) =
            ap (λ l. l ++ take n s.sending_data) w
            ∙ append_assoc (sent_bytes s.outcomes) part (take n s.sending_data) in
          if_intro (IsDelivering accepted) (n == length s.sending_data)
            (λ whole.
              block-IsDelivering on_sending accepted quota s.later_blocks _ d.filled d.counted
                d.in_order locked m (part ++ take n s.sending_data) now
                (append_assoc part (take n s.sending_data) (concat s.later_blocks)
                  ∙ ap (λ l. part ++ (l ++ concat s.later_blocks))
                      (ap (λ k. take k s.sending_data) ((==_iff n (length s.sending_data)).0 whole)
                        ∙ take_all s.sending_data)
                  ∙ all)
                taken)
            (λ some_left. record {
              filled = d.filled;
              counted = d.counted;
              in_order = d.in_order;
              idle = λ free. cc;
              busy = λ _ _. (
                m,
                part ++ take n s.sending_data,
                now,
                cut part s.sending_data (concat s.later_blocks) n ∙ all,
                taken,
              );
            }))
        (λ _. d)

  pub send-IsDelivering :
      (accepted : List Outbound) (quota : ℤ) (m : Outbound) (s : Sender)
      → HasBlocks m
      → IsDelivering accepted s
      → IsDelivering (accepted_with m s accepted) (async_send_message on_sending quota m s)
  unfolding async_send_message
  send-IsDelivering accepted quota m s h d =
      if_intro₂ IsDelivering (is_closed s.status)
        (λ closed. record {
          filled = d.filled;
          counted = d.counted;
          in_order = d.in_order;
          idle = d.idle;
          busy = d.busy;
        })
        (λ opened. try_start-IsDelivering on_sending (accepted ++ m ∷ []) quota _ (record {
          filled = All-append_one accepted m d.filled h;
          counted = put-IsCounted m s.queue d.counted;
          in_order =
              ap (λ l. resolved s.outcomes ++ (in_flight s.send_token s.sending_message ++ l))
                (put-waiting m s.queue)
              ∙ end_with (resolved s.outcomes) (in_flight s.send_token s.sending_message)
                  (waiting s.queue) (m ∷ [])
              ∙ ap (λ l. l ++ m ∷ []) d.in_order;
          idle = d.idle;
          busy = d.busy;
        }))

  pub trigger-IsDelivering :
      (accepted : List Outbound) (quota : ℤ) (s : Sender)
      → IsDelivering accepted s
      → IsDelivering accepted (trigger_send on_sending quota s)
  unfolding trigger_send
  trigger-IsDelivering accepted quota s d =
      try_start-IsDelivering on_sending accepted quota _ (record {
        filled = d.filled;
        counted = d.counted;
        in_order = d.in_order;
        idle = d.idle;
        busy = d.busy;
      })

  -- A write that was under way fails.
  pub error-IsDelivering :
      (accepted : List Outbound) (s : Sender)
      → s.send_token ≡ true
      → IsDelivering accepted s
      → IsDelivering accepted (on_write_error s)
  unfolding on_write_error
  error-IsDelivering accepted s locked d =
      if_intro (IsDelivering accepted) (is_connected s.status)
        (λ up.
          let (m, part, now, all, w) = d.busy locked (connected_open s.status up) in
          record {
            filled = d.filled;
            counted = d.counted;
            in_order =
                ap
                  (λ l.
                    resolved (s.outcomes ++ outcome failed s.sending_message)
                    ++ (l ++ waiting s.queue))
                  (nothing_in_flight s.send_token)
                ∙ ap (λ x. resolved (s.outcomes ++ outcome failed x) ++ waiting s.queue) now
                ∙ resolved_one s.outcomes (failed m) m (waiting s.queue) refl
                ∙ ap (λ l. resolved s.outcomes ++ (l ++ waiting s.queue))
                    (sym (ap₂ in_flight locked now))
                ∙ d.in_order;
            idle = λ free. cc;
            busy = λ _ e. cc;
          })
        (λ _. d)
