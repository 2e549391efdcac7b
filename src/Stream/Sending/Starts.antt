-- ===== src/Stream/Sending/Starts.antt =====
-- Starting a message, and going on to its next block, keep the order of the messages and the bytes
-- on the wire.
use gb_server.Base.{
  if_intro, some_injective, All, ℤ, pos, leb_ℤ, ℕ, ◌≡◌, refl, sym, ap, ◌∙◌, Bool, true, false, ◌||◌,
  Option, none, some, List, [], ◌∷◌, ◌++◌, append-nil,
}
use mathlib.Core.Path.{subst, ap₂}
use gb_server.Stream.Agree.{concat}
use gb_server.Stream.Sending.{Outbound, PendingQueue, get_from_pending_queue}
use gb_server.Stream.Sending.Delivery.{
  resolved, sent_bytes, in_flight, HasBlocks, IsDelivering, in_flight_free, sent_bytes-append,
  All-append_right, resolved_one, or_false, at_rest,
}
use gb_server.Stream.Sending.Queue.{
  IsCounted, waiting, insert-IsCounted, insert-waiting, Takes, get-Takes,
}
use gb_server.Stream.Sending.Sender.{
  sent, failed, Sender, is_connected, next_block, outcome, start_message, take_next, try_start_send,
  block_written,
}

module _ (on_sending : Outbound → Bool) where
  module _ (accepted : List Outbound) (s : Sender) (filled : All HasBlocks accepted)
      (free : s.send_token ≡ false) (wire : s.wire ≡ sent_bytes s.outcomes) where
    -- The first block of the message is on its way.
    begun :
        (m : Outbound) (bs : List (List ℕ)) (t : Sender)
        → m.blocks ≡ bs
        → HasBlocks m
        → t.send_token ≡ true
        → t.sending_message ≡ some m
        → t.wire ≡ sent_bytes t.outcomes
        → IsCounted t.queue
        → resolved t.outcomes ++ (m ∷ waiting t.queue) ≡ accepted
        → IsDelivering accepted (next_block bs t)
    begun m [] t e h locked now w c o = absurd (h e)
    begun m (b ∷ bs) t e h locked now w c o = record {
      filled = filled;
      counted = c;
      in_order =
          ap (λ l. resolved t.outcomes ++ (l ++ waiting t.queue)) (ap₂ in_flight locked now) ∙ o;
      idle = λ e'. cc;
      busy = λ _ _. (m, [], now, sym (ap concat e), w ∙ sym (append-nil (sent_bytes t.outcomes)));
    }

    start-IsDelivering :
        (quota : ℤ) (m : Outbound) (q : PendingQueue)
        → IsCounted q
        → resolved s.outcomes ++ (m ∷ waiting q) ≡ accepted
        → IsDelivering accepted (start_message on_sending quota m q s)
    unfolding start_message
    start-IsDelivering quota m q c o =
        if_intro (IsDelivering accepted) (on_sending m)
          (λ goes.
            if_intro (IsDelivering accepted) (leb_ℤ quota (pos 0))
              (λ no_quota.
                at_rest accepted _ filled free wire (insert-IsCounted m q c)
                  (ap (λ l. resolved s.outcomes ++ l) (insert-waiting m q) ∙ o))
              (λ some_quota. begun m m.blocks _ refl has_blocks refl refl wire c o))
          (λ refused.
            at_rest accepted _ filled free
              (wire
                ∙ sym (append-nil (sent_bytes s.outcomes))
                ∙ sym (sent_bytes-append s.outcomes (failed m ∷ [])))
              c (resolved_one s.outcomes (failed m) m (waiting q) refl ∙ o))
      where
        has_blocks : HasBlocks m
        has_blocks =
            (All-append_right (resolved s.outcomes) (m ∷ waiting q)
              (subst (All HasBlocks) (sym o) filled)).0

    next-IsDelivering :
        (quota : ℤ) (ms : List Outbound) (r : Option Outbound × PendingQueue)
        → Takes ms r
        → resolved s.outcomes ++ ms ≡ accepted
        → IsDelivering accepted (take_next on_sending quota r s)
    unfolding take_next
    next-IsDelivering quota [] (none, q) t o =
        at_rest accepted _ filled free wire t.2 (ap (λ l. resolved s.outcomes ++ l) t.1 ∙ o)
    next-IsDelivering quota [] (some m, q) t o = cc
    next-IsDelivering quota (m ∷ ms) (none, q) t o = cc
    next-IsDelivering quota (m ∷ ms) (some m', q) t o =
        start-IsDelivering quota m' q t.2
          (ap₂ (λ x l. resolved s.outcomes ++ (x ∷ l)) (some_injective t.0) t.1 ∙ o)

  -- The token is free, or the message that has it is under way.
  pub try_start-IsDelivering :
      (accepted : List Outbound) (quota : ℤ) (s : Sender)
      → IsDelivering accepted s
      → IsDelivering accepted (try_start_send on_sending quota s)
  unfolding try_start_send
  try_start-IsDelivering accepted quota s d =
      if_intro (IsDelivering accepted) (s.send_token || leb_ℤ s.write_quota_token (pos 0)) (λ _. d)
        (λ may.
          if_intro (IsDelivering accepted) (is_connected s.status)
            (λ _.
              let free : s.send_token ≡ false =
                or_false s.send_token (leb_ℤ s.write_quota_token (pos 0)) may in
              next-IsDelivering accepted s d.filled free (d.idle free) quota (waiting s.queue)
                (get_from_pending_queue s.queue) (get-Takes s.queue d.counted)
                (ap (λ l. resolved s.outcomes ++ (l ++ waiting s.queue))
                    (sym (in_flight_free s.send_token s.sending_message free))
                  ∙ d.in_order))
            (λ _. d))

  pub block-IsDelivering :
      (accepted : List Outbound) (quota : ℤ) (bs : List (List ℕ)) (s : Sender)
      → All HasBlocks accepted
      → IsCounted s.queue
      → resolved s.outcomes ++ (in_flight s.send_token s.sending_message ++ waiting s.queue)
        ≡ accepted
      → s.send_token ≡ true
      → (m : Outbound) (part : List ℕ) → s.sending_message ≡ some m
      → part ++ concat bs ≡ concat m.blocks
      → s.wire ≡ sent_bytes s.outcomes ++ part
      → IsDelivering accepted (block_written on_sending quota bs s)
  unfolding block_written
  block-IsDelivering accepted quota [] s filled c o locked m part now all w =
      try_start-IsDelivering accepted quota _ (
        at_rest accepted _ filled refl
          (w
            ∙ ap (λ l. sent_bytes s.outcomes ++ l)
                (sym (append-nil part) ∙ all ∙ sym (append-nil (concat m.blocks)))
            ∙ sym (sent_bytes-append s.outcomes (sent m ∷ []))
            ∙ ap (λ x. sent_bytes (s.outcomes ++ outcome sent x)) (sym now))
          c
          (ap (λ x. resolved (s.outcomes ++ outcome sent x) ++ waiting s.queue) now
            ∙ resolved_one s.outcomes (sent m) m (waiting s.queue) refl
            ∙ ap (λ l. resolved s.outcomes ++ (l ++ waiting s.queue))
                (sym (ap₂ in_flight locked now))
            ∙ o))
  block-IsDelivering accepted quota (b ∷ bs) s filled c o locked m part now all w = record {
    filled = filled;
    counted = c;
    in_order = o;
    idle = λ e. cc;
    busy = λ _ _. (m, part, now, all, w);
  }
