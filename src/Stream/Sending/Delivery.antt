-- ===== src/Stream/Sending/Delivery.antt =====
-- What the sending side of a `MessageStream` puts on the wire, whatever the calls and completions.
use gb_server.Base.{
  if◌then◌else◌, take, drop, All, take-append-drop, ℕ, ◌≡◌, refl, sym, ap, ◌∙◌, ◌≢◌, Bool, true,
  false, ◌||◌, Option, none, some, List, [], ◌∷◌, ◌++◌, append_assoc,
}
use gb_server.Stream.Agree.{concat}
use gb_server.Stream.Sending.{Outbound}
use gb_server.Stream.Sending.Queue.{IsCounted, waiting}
use gb_server.Stream.Sending.Sender.{
  NetStatus, status_init, status_connecting, status_connected, status_closed, Outcome, sent, failed,
  Sender, is_connected, is_closed,
}

abbrev pub resolved : List Outcome → List Outbound
resolved [] = []
resolved (sent m ∷ os) = m ∷ resolved os
resolved (failed m ∷ os) = m ∷ resolved os

abbrev pub sent_bytes : List Outcome → List ℕ
sent_bytes [] = []
sent_bytes (sent m ∷ os) = concat m.blocks ++ sent_bytes os
sent_bytes (failed m ∷ os) = sent_bytes os

-- The message being written.
abbrev pub in_flight : Bool → Option Outbound → List Outbound
in_flight true (some m) = m ∷ []
in_flight _ _ = []

abbrev pub HasBlocks : Outbound → Type 0
HasBlocks m = m.blocks ≢ []

-- The bytes `part` of the message have been taken by the transport.
abbrev pub IsWriting : Sender → Type 0
IsWriting s =
    (m : Outbound) × (part : List ℕ) × (s.sending_message ≡ some m)
    × (part ++ (s.sending_data ++ concat s.later_blocks) ≡ concat m.blocks)
    × (s.wire ≡ sent_bytes s.outcomes ++ part)

pub record IsDelivering (accepted : List Outbound) (s : Sender) : Type 0 where
  pub filled : All HasBlocks accepted
  pub counted : IsCounted s.queue
  pub in_order :
      resolved s.outcomes ++ (in_flight s.send_token s.sending_message ++ waiting s.queue)
      ≡ accepted
  pub idle : s.send_token ≡ false → s.wire ≡ sent_bytes s.outcomes
  pub busy : s.send_token ≡ true → is_closed s.status ≡ false → IsWriting s

pub in_flight_free : (b : Bool) (o : Option Outbound) → b ≡ false → in_flight b o ≡ []
in_flight_free true o e = cc
in_flight_free false o e = refl

pub resolved-append : (os os' : List Outcome) → resolved (os ++ os') ≡ resolved os ++ resolved os'
resolved-append [] os' = refl
resolved-append (sent m ∷ os) os' = ap (λ l. m ∷ l) (resolved-append os os')
resolved-append (failed m ∷ os) os' = ap (λ l. m ∷ l) (resolved-append os os')

pub sent_bytes-append :
    (os os' : List Outcome) → sent_bytes (os ++ os') ≡ sent_bytes os ++ sent_bytes os'
sent_bytes-append [] os' = refl
sent_bytes-append (sent m ∷ os) os' =
    ap (λ l. concat m.blocks ++ l) (sent_bytes-append os os')
    ∙ sym (append_assoc (concat m.blocks) (sent_bytes os) (sent_bytes os'))
sent_bytes-append (failed m ∷ os) os' = sent_bytes-append os os'

pub All-append_right : (xs ys : List Outbound) → All HasBlocks (xs ++ ys) → All HasBlocks ys
All-append_right [] ys h = h
All-append_right (x ∷ xs) ys h = All-append_right xs ys h.1

pub All-append_one :
    (xs : List Outbound) (m : Outbound)
    → All HasBlocks xs
    → HasBlocks m
    → All HasBlocks (xs ++ m ∷ [])
All-append_one [] m h k = (k, tt)
All-append_one (x ∷ xs) m h k = (h.0, All-append_one xs m h.1 k)

pub resolved_one :
    (os : List Outcome) (o : Outcome) (m : Outbound) (rest : List Outbound)
    → resolved (o ∷ []) ≡ m ∷ []
    → resolved (os ++ o ∷ []) ++ rest ≡ resolved os ++ (m ∷ rest)
resolved_one os o m rest e =
    ap (λ l. l ++ rest) (resolved-append os (o ∷ []) ∙ ap (λ l. resolved os ++ l) e)
    ∙ append_assoc (resolved os) (m ∷ []) rest

pub nothing_in_flight : (b : Bool) → in_flight b none ≡ []
nothing_in_flight true = refl
nothing_in_flight false = refl

pub end_with {ℓ} :
    {A : Type ℓ} (xs ys zs ws : List A) → xs ++ (ys ++ (zs ++ ws)) ≡ (xs ++ (ys ++ zs)) ++ ws
end_with xs ys zs ws =
    ap (λ l. xs ++ l) (sym (append_assoc ys zs ws)) ∙ sym (append_assoc xs (ys ++ zs) ws)

pub or_false : (b c : Bool) → (b || c) ≡ false → b ≡ false
or_false true c h = h
or_false false c h = refl

-- A state that writes nothing, by its queue and outcomes.
pub at_rest :
    (accepted : List Outbound) (t : Sender)
    → All HasBlocks accepted
    → t.send_token ≡ false
    → t.wire ≡ sent_bytes t.outcomes
    → IsCounted t.queue
    → resolved t.outcomes ++ waiting t.queue ≡ accepted
    → IsDelivering accepted t
at_rest accepted t filled free w c o = record {
  filled = filled;
  counted = c;
  in_order =
      ap (λ l. resolved t.outcomes ++ (l ++ waiting t.queue))
        (in_flight_free t.send_token t.sending_message free)
      ∙ o;
  idle = λ _. w;
  busy = λ locked _. cc;
}

pub connected_open : (x : NetStatus) → is_connected x ≡ true → is_closed x ≡ false
connected_open status_connected e = refl
connected_open status_init e = cc
connected_open status_connecting e = cc
connected_open status_closed e = cc

-- Some bytes of the middle part move to the first.
pub cut :
    (part data_left later : List ℕ) (n : ℕ)
    → (part ++ take n data_left) ++ (drop n data_left ++ later) ≡ part ++ (data_left ++ later)
cut part data_left later n =
    append_assoc part (take n data_left) (drop n data_left ++ later)
    ∙ ap (λ l. part ++ l)
        (sym (append_assoc (take n data_left) (drop n data_left) later)
          ∙ ap (λ l. l ++ later) (take-append-drop n data_left))

-- A closed stream accepts no message.
abbrev pub accepted_with : Outbound → Sender → List Outbound → List Outbound
accepted_with m s accepted = if is_closed s.status then accepted else accepted ++ m ∷ []
