-- ===== src/Stream/Heads.antt =====
-- The part of the loop that reads a header (`take_header`) does what the byte machine does.
use gb_server.Base.{
  ltb, ◌==◌, if◌then◌else◌, ltb→lt, lt→ltb, le→leb, lt→ltb_false, ==_iff, Bool-cases, length, take,
  drop, length-append, take-append-drop, length-take, take-length-append, drop-length-append,
  take_all, nil_of_length, ℤ, pos, negsuc, leb_ℤ, ℕ, zero, suc, ◌+◌, ◌-◌, ◌≤◌, ◌<◌, min, ◌≡◌, refl,
  ap, ◌∙◌, inl, inr, true, false, ◌&&◌, List, [], ◌∷◌, ◌++◌, arith,
}
use mathlib.Core.Path.{subst}
use gb_server.Stream.Agree.{concat, messages, IsWaiting, Agrees, forward-rest, Handles}
use gb_server.Stream.Bodies.{take_message_any, Handles-mono, and_false, take_message_empty}
use gb_server.Stream.Header.{header_of, check_magic_string}
use gb_server.Stream.Machine.{
  in_header, in_message, by_size, on_header, and_then, feed, feed-append, feed_short_header,
  feed_full_header,
}
use gb_server.Stream.Split.{
  ReceivedItem, Receiver, finished, forward, Identified, header_ok, header_bad,
  identify_message_header, Again, take_message, after_identify, take_header,
}

-- The bytes `b ∷ xs` complete the header.
module _ (s : Receiver) (again : Again) (before : List ℕ) (b : ℕ) (xs rest : List ℕ)
    (items : List ReceivedItem) (fills : length s.header + length (b ∷ xs) ≡ 24)
    (empty : s.message ≡ []) (none_yet : s.received_size ≡ 0)
    (next : Handles again (length (b ∷ (xs ++ rest)))) where
  abbrev done : Receiver
  done = record s { header = s.header ++ (b ∷ xs); identified = true }

  all_read : (length (b ∷ xs) == length (b ∷ (xs ++ rest))) ≡ true → length rest ≡ 0
  all_read h = omega (arith, (==_iff _ _).0 h, length-append xs rest)

  -- What follows an identified header, by the size that it announces.
  after_header :
      (size : ℤ)
      → (header_of done.header).message_size ≡ size
      → Agrees
          (if (length (b ∷ xs) == length (b ∷ (xs ++ rest))) && leb_ℤ (pos 1) size
            then finished true done items
            else take_message again
                (forward (length (b ∷ xs)) before (b ∷ (xs ++ rest))).0
                rest
                done
                items)
          (and_then (feed rest) (by_size done.header size (messages items)))
  unfolding by_size
  after_header (pos zero) e = rw (and_false (length (b ∷ xs) == length (b ∷ (xs ++ rest)))) (
      take_message_empty done items again (forward (length (b ∷ xs)) before (b ∷ (xs ++ rest))).0
        rest e none_yet empty
        (Handles-mono again (suc (length rest)) (length (b ∷ (xs ++ rest)))
          (omega (arith, length-append xs rest)) next))
  after_header (pos (suc n)) e = elim (Bool-cases (length (b ∷ xs) == length (b ∷ (xs ++ rest)))) [
    | inl all ↦
        let nothing : rest ≡ [] = nil_of_length rest (all_read all) in
        rw (all, le→leb 1 (suc n) (omega arith), nothing)
          (unfold feed in
            (
              record {
                counted = omega (arith, none_yet, ap (λ m. length (concat m)) empty);
                header_part = λ e. cc;
                message_part = λ _. (suc n, e, omega (arith, none_yet));
              },
              ap (λ m. in_message done.header (concat m)) empty,
              refl,
            ))
    | inr some_left ↦ rw some_left (
        subst
          (λ m.
            Agrees
              (take_message again (forward (length (b ∷ xs)) before (b ∷ (xs ++ rest))).0 rest done
                items)
              (feed rest (in_message done.header (concat m)) (messages items)))
          empty
          (take_message_any done (suc n) items e refl
            (omega (arith, none_yet, ap (λ m. length (concat m)) empty)) again
            (forward (length (b ∷ xs)) before (b ∷ (xs ++ rest))).0 rest (omega (arith, none_yet))
            (Handles-mono again (length rest) (length (b ∷ (xs ++ rest)))
              (omega (arith, length-append xs rest)) next)))
  ]
  after_header (negsuc n) e = tt

  abbrev verdict : Identified
  verdict = if check_magic_string (header_of done.header) then header_ok else header_bad

  identify_full :
      identify_message_header (b ∷ (xs ++ rest)) s
      ≡ (verdict, length (b ∷ xs), record s { header = s.header ++ (b ∷ xs) })
  unfolding identify_message_header
  identify_full =
      let copy : min (length (b ∷ (xs ++ rest))) (24 - length s.header) ≡ length (b ∷ xs) =
        omega (arith, length-append xs rest) in
      let whole : ltb (length (s.header ++ (b ∷ xs))) 24 ≡ false =
        lt→ltb_false _ _ (omega (arith, length-append s.header (b ∷ xs))) in
      rw (copy, take-length-append xs rest, whole)
        (elim (Bool-cases (check_magic_string (header_of done.header))) [
          | inl good ↦ rw good
          | inr bad ↦ rw bad
        ])

  forward_full : (forward (length (b ∷ xs)) before (b ∷ (xs ++ rest))).1 ≡ rest
  forward_full =
      forward-rest (length (b ∷ xs)) before (b ∷ (xs ++ rest))
        (omega (arith, length-append xs rest))
      ∙ drop-length-append xs rest

  -- A buffer that completes the header.
  take_header_full :
      Agrees
        (take_header again before (b ∷ (xs ++ rest)) s items)
        (feed (b ∷ (xs ++ rest)) (in_header s.header) (messages items))
  unfolding take_header after_identify on_header
  take_header_full =
      let whole : ltb (length (s.header ++ (b ∷ xs))) 24 ≡ false =
        lt→ltb_false _ _ (omega (arith, length-append s.header (b ∷ xs))) in
      rw
        (
          feed-append (b ∷ xs) rest (in_header s.header) (messages items),
          feed_full_header b xs s.header (messages items) fills,
          whole,
          identify_full,
        )
        (elim (Bool-cases (check_magic_string (header_of done.header))) [
          | inl good ↦
              rw (good, forward_full) (after_header (header_of done.header).message_size refl)
          | inr bad ↦ rw bad refl
        ])

-- A buffer that ends within the header.
take_header_short :
    (s : Receiver) (again : Again) (before rest : List ℕ) (items : List ReceivedItem)
    → IsWaiting s
    → s.identified ≡ false
    → length s.header + length rest < 24
    → Agrees
        (take_header again before rest s items)
        (feed rest (in_header s.header) (messages items))
unfolding take_header after_identify identify_message_header
take_header_short s again before rest items w new h =
    let copy : min (length rest) (24 - length s.header) ≡ length rest = omega arith in
    let part : length (s.header ++ rest) < 24 = omega (arith, length-append s.header rest) in
    rw (copy, take_all rest, lt→ltb _ _ part, feed_short_header rest s.header (messages items) h)
      (
        record {
          counted = w.counted;
          header_part = λ e. (part, (w.header_part new).1);
          message_part = λ e. cc;
        },
        rw new,
        refl,
      )

pub take_header_any :
    (s : Receiver) (again : Again) (before : List ℕ) (b : ℕ) (rest : List ℕ)
    (items : List ReceivedItem)
    → IsWaiting s
    → s.identified ≡ false
    → Handles again (length (b ∷ rest))
    → Agrees
        (take_header again before (b ∷ rest) s items)
        (feed (b ∷ rest) (in_header s.header) (messages items))
take_header_any s again before b rest items w new next =
    elim (Bool-cases (ltb (length s.header + length (b ∷ rest)) 24)) [
      | inl part ↦ take_header_short s again before (b ∷ rest) items w new (ltb→lt _ _ part)
      | inr whole ↦
          let k : ℕ = 23 - length s.header in
          let enough : 24 ≤ length s.header + suc (length rest) = ground arith in
          let (short, empty) = w.header_part new in
          subst
            (λ l.
              Handles again (length (b ∷ l))
              → Agrees (take_header again before (b ∷ l) s items)
                  (feed (b ∷ l) (in_header s.header) (messages items)))
            (take-append-drop k rest)
            (take_header_full s again before b (take k rest) (drop k rest) items
              (omega (arith, length-take k rest)) empty
              (w.counted ∙ ap (λ m. length (concat m)) empty))
            next
    ]
