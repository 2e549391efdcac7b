-- ===== src/Stream/Bodies.antt =====
-- The part of the loop behind the header (`take_message`) does what the byte machine does.
use gb_server.Base.{
  leb, le→leb, lt→leb_false, Bool-cases, length, take, drop, length-append, take-append-drop,
  length-take, length-drop, pos, ℕ, suc, ◌+◌, ◌-◌, ◌≤◌, ◌<◌, ◌≡◌, refl, sym, ap, ◌∙◌, inl, inr,
  Bool, true, false, ◌&&◌, List, [], ◌∷◌, ◌++◌, arith,
}
use mathlib.Core.Path.{subst}
use gb_server.Stream.Agree.{
  concat, concat-append_one, messages, Agrees, fresh-IsWaiting, forward-rest, Handles,
  map-append_one,
}
use gb_server.Stream.Header.{header_of}
use gb_server.Stream.Machine.{
  Message, in_header, in_message, message_of, and_then, feed, feed-append, feed_short_message,
  feed_full_message,
}
use gb_server.Stream.Split.{ReceivedItem, Receiver, fresh, forward, Again, move, take_message}

feed_message_end :
    (header : List ℕ) (total : ℕ)
    → (header_of header).message_size ≡ pos total
    → (b : ℕ) (rest : List ℕ) (c : ℕ) (payload : List ℕ) (out : List Message)
    → length payload + suc c ≡ total
    → c ≤ length rest
    → feed (b ∷ rest) (in_message header payload) out
      ≡ feed
          (drop c rest)
          (in_header [])
          (out ++ message_of header (payload ++ (b ∷ take c rest)) ∷ [])
feed_message_end header total size b rest c payload out e h =
    ap (λ l. feed (b ∷ l) (in_message header payload) out) (sym (take-append-drop c rest))
    ∙ feed-append (b ∷ take c rest) (drop c rest) (in_message header payload) out
    ∙ ap (and_then (feed (drop c rest))) (
        feed_full_message header total size b (take c rest) payload out
          (omega (arith, length-take c rest)))

-- The state in the middle of a message of a known size.
module _ (s : Receiver) (total : ℕ) (items : List ReceivedItem)
    (size : (header_of s.header).message_size ≡ pos total) (known : s.identified ≡ true)
    (counted : s.received_size ≡ length (concat s.message)) where
  abbrev item_with : List (List ℕ) → ReceivedItem
  item_with xss = record {
    message = xss;
    meta_size = (header_of s.header).meta_size;
    data_size = (header_of s.header).data_size;
  }

  -- The buffer ends within the message.
  take_message_short :
      (again : Again) (before rest : List ℕ)
      → s.received_size + length rest < total
      → Agrees
          (take_message again before rest s items)
          (feed rest (in_message s.header (concat s.message)) (messages items))
  unfolding take_message
  take_message_short again before rest h =
      rw
        (feed_short_message s.header total size rest (concat s.message) (messages items)
          (omega (arith, counted)))
        (rw (size, le→leb (s.received_size + length rest + 1) total (omega arith))
          (
            record {
              counted = omega (
                arith,
                counted,
                ap length (concat-append_one s.message rest),
                length-append (concat s.message) rest,
              );
              header_part = λ e. cc;
              message_part = λ _. (total, size, h);
            },
            rw (known, concat-append_one s.message rest),
            refl,
          ))

  -- A result for the rest of the buffer after a message, in the words of the machine.
  emit :
      (again : Again) (before rest part : List ℕ)
      → Agrees
          (again before rest fresh (items ++ item_with (s.message ++ part ∷ []) ∷ []))
          (feed rest (in_header []) (messages (items ++ item_with (s.message ++ part ∷ []) ∷ [])))
      → Agrees (again before rest fresh (items ++ item_with (s.message ++ part ∷ []) ∷ [])) (
          feed rest
            (in_header [])
            (messages items ++ message_of s.header (concat s.message ++ part) ∷ []))
  emit again before rest part a =
      subst
        (λ out.
          Agrees (again before rest fresh (items ++ item_with (s.message ++ part ∷ []) ∷ []))
            (feed rest (in_header []) out))
        (map-append_one items (item_with (s.message ++ part ∷ []))
          ∙ ap (λ xs. messages items ++ message_of s.header xs ∷ [])
              (concat-append_one s.message part))
        a

  -- The message ends within the buffer, `c + 1` bytes from here.
  take_message_full :
      (again : Again) (before : List ℕ) (b : ℕ) (rest : List ℕ) (c : ℕ)
      → total ≡ s.received_size + suc c
      → c ≤ length rest
      → Handles again (length (b ∷ rest))
      → Agrees
          (take_message again before (b ∷ rest) s items)
          (feed (b ∷ rest) (in_message s.header (concat s.message)) (messages items))
  unfolding take_message move
  take_message_full again before b rest c e k next =
      let left : total - s.received_size ≡ suc c = omega arith in
      let fed =
        feed_message_end s.header total size b rest c (concat s.message) (messages items)
          (omega (arith, counted)) k in
      rw
        (
          fed,
          size,
          lt→leb_false (s.received_size + suc (length rest) + 1) total (omega arith),
          le→leb s.received_size total (omega arith),
          left,
          le→leb 1 (suc c) (omega arith),
          forward-rest (suc c) before (b ∷ rest) (omega arith),
        )
        (emit again (forward (suc c) before (b ∷ rest)).0 (drop c rest) (b ∷ take c rest) (
          next (forward (suc c) before (b ∷ rest)).0 (drop c rest) fresh
            (items ++ item_with (s.message ++ (b ∷ take c rest) ∷ []) ∷ [])
            (omega (arith, length-drop c rest)) fresh-IsWaiting))

  pub take_message_any :
      (again : Again) (before rest : List ℕ)
      → s.received_size < total
      → Handles again (length rest)
      → Agrees
          (take_message again before rest s items)
          (feed rest (in_message s.header (concat s.message)) (messages items))
  take_message_any again before [] h next = take_message_short again before [] (omega arith)
  take_message_any again before (b ∷ rest) h next =
      elim (Bool-cases (leb (s.received_size + length (b ∷ rest) + 1) total)) [
        | inl part ↦ take_message_short again before (b ∷ rest) (ground arith)
        | inr whole ↦
            take_message_full again before b rest (total - s.received_size - 1) (omega arith)
              (ground arith) next
      ]

pub Handles-mono : (again : Again) (m n : ℕ) → m ≤ n → Handles again n → Handles again m
Handles-mono again m n h next before rest s items k w = next before rest s items (omega arith) w

pub and_false : (b : Bool) → (b && false) ≡ false
and_false true = refl
and_false false = refl

-- A header that announces an empty message: the message is there at once.
pub take_message_empty :
    (s : Receiver) (items : List ReceivedItem) (again : Again) (before rest : List ℕ)
    → (header_of s.header).message_size ≡ pos 0
    → s.received_size ≡ 0
    → s.message ≡ []
    → Handles again (suc (length rest))
    → Agrees
        (take_message again before rest s items)
        (feed rest (in_header []) (messages items ++ message_of s.header [] ∷ []))
unfolding take_message move forward
take_message_empty s items again before rest size none_yet empty next =
    rw (size, none_yet, empty, lt→leb_false (0 + length rest + 1) 0 (omega arith))
      (subst
        (λ out.
          Agrees (again before rest fresh (items ++ item ∷ [])) (feed rest (in_header []) out))
        (map-append_one items item)
        (next before rest fresh (items ++ item ∷ []) (omega arith) fresh-IsWaiting))
  where
    item : ReceivedItem
    item = record {
      message = [];
      meta_size = (header_of s.header).meta_size;
      data_size = (header_of s.header).data_size;
    }
