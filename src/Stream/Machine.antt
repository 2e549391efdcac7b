-- ===== src/Stream/Machine.antt =====
-- What the receiving side means: a machine that takes one byte at a time, and knows nothing of
-- buffers.
use gb_server.Base.{
  ltb, leb, if◌then◌else◌, lt→ltb, le→leb, lt→leb_false, lt→ltb_false, length, length-append, ℤ,
  pos, negsuc, leb_ℤ, ℕ, zero, suc, ◌+◌, ◌≤◌, ◌<◌, ◌≡◌, refl, ap, ◌∙◌, true, false, List, [], ◌∷◌,
  ◌++◌, append_assoc, append-nil, arith,
}
use gb_server.Stream.Header.{header_of, check_magic_string}

pub record Message : Type 0 where
  pub meta_size : ℤ
  pub data_size : ℤ
  pub payload : List ℕ

-- The bytes of a header so far; or a header and the bytes of its message so far.
pub data Phase : Type 0 where
  in_header : List ℕ → Phase
  in_message : List ℕ → List ℕ → Phase

pub data Fed : Type 0 where
  more : Phase → List Message → Fed
  broken : List Message → Fed
  negative : Fed

abbrev pub message_of : List ℕ → List ℕ → Message
message_of header payload = record {
  meta_size = (header_of header).meta_size;
  data_size = (header_of header).data_size;
  payload = payload;
}

unfoldable pub by_size : List ℕ → ℤ → List Message → Fed
by_size header (pos zero) out = more (in_header []) (out ++ message_of header [] ∷ [])
by_size header (pos (suc n)) out = more (in_message header []) out
by_size header (negsuc n) out = negative

-- The machine has the bytes of a header, or not yet all of them.
unfoldable pub on_header : List ℕ → List Message → Fed
unfolding by_size
on_header header out =
    if ltb (length header) 24
    then more (in_header header) out
    else if check_magic_string (header_of header)
    then by_size header (header_of header).message_size out
    else broken out

unfoldable pub on_message : List ℕ → List ℕ → List Message → Fed
on_message header payload out =
    if leb_ℤ (pos (length payload + 1)) (header_of header).message_size
    then more (in_message header payload) out
    else more (in_header []) (out ++ message_of header payload ∷ [])

unfoldable pub feed_byte : Phase → ℕ → List Message → Fed
feed_byte (in_header header) b out = on_header (header ++ b ∷ []) out
feed_byte (in_message header payload) b out = on_message header (payload ++ b ∷ []) out

-- A machine that has stopped takes no more bytes.
abbrev pub and_then : (Phase → List Message → Fed) → Fed → Fed
and_then k (more p out) = k p out
and_then k (broken out) = broken out
and_then k negative = negative

unfoldable pub feed : List ℕ → Phase → List Message → Fed
unfolding feed_byte
feed [] p out = more p out
feed (b ∷ bs) p out = and_then (feed bs) (feed_byte p b out)

and_then-feed :
    (xs ys : List ℕ)
    → ((p : Phase) (out : List Message)
        → feed (xs ++ ys) p out ≡ and_then (feed ys) (feed xs p out))
    → (f : Fed) → and_then (feed (xs ++ ys)) f ≡ and_then (feed ys) (and_then (feed xs) f)
and_then-feed xs ys h (more p out) = h p out
and_then-feed xs ys h (broken out) = refl
and_then-feed xs ys h negative = refl

pub feed-append :
    (xs ys : List ℕ) (p : Phase) (out : List Message)
    → feed (xs ++ ys) p out ≡ and_then (feed ys) (feed xs p out)
unfolding feed
feed-append [] ys p out = refl
feed-append (b ∷ xs) ys p out =
    and_then-feed xs ys (λ q l. feed-append xs ys q l) (feed_byte p b out)

append_one : (xs ys : List ℕ) (b : ℕ) → (xs ++ b ∷ []) ++ ys ≡ xs ++ (b ∷ ys)
append_one xs ys b = append_assoc xs (b ∷ []) ys

-- Bytes that do not fill the header are only kept.
pub feed_short_header :
    (xs header : List ℕ) (out : List Message)
    → length header + length xs < 24
    → feed xs (in_header header) out ≡ more (in_header (header ++ xs)) out
unfolding feed on_header
feed_short_header [] header out h = rw append-nil
feed_short_header (b ∷ xs) header out h =
    let small : length (header ++ b ∷ []) < 24 = omega (arith, length-append header (b ∷ [])) in
    rw (lt→ltb _ _ small) (
      feed_short_header xs (header ++ b ∷ []) out (omega (arith, length-append header (b ∷ [])))
      ∙ ap (λ bs. more (in_header bs) out) (append_one header xs b))

on_header_short :
    (header : List ℕ) (out : List Message)
    → length header < 24
    → on_header header out ≡ more (in_header header) out
unfolding on_header
on_header_short header out h = rw (lt→ltb _ _ h)

-- Bytes that fill the header decide.
pub feed_full_header :
    (b : ℕ) (xs header : List ℕ) (out : List Message)
    → length header + length (b ∷ xs) ≡ 24
    → feed (b ∷ xs) (in_header header) out ≡ on_header (header ++ (b ∷ xs)) out
unfolding feed
feed_full_header b [] header out h = last (on_header (header ++ b ∷ []) out)
  where
    last : (f : Fed) → and_then (feed []) f ≡ f
    last (more q out') = refl
    last (broken out') = refl
    last negative = refl
feed_full_header b (c ∷ xs) header out h =
    let small : length (header ++ b ∷ []) < 24 = omega (arith, length-append header (b ∷ [])) in
    ap (and_then (feed (c ∷ xs))) (on_header_short (header ++ b ∷ []) out small)
    ∙ feed_full_header c xs (header ++ b ∷ []) out (omega (arith, length-append header (b ∷ [])))
    ∙ ap (λ bs. on_header bs out) (append_one header (c ∷ xs) b)

module _ (header : List ℕ) (total : ℕ) (size : (header_of header).message_size ≡ pos total) where
  -- Bytes that do not complete the message are only kept.
  pub feed_short_message :
      (xs payload : List ℕ) (out : List Message)
      → length payload + length xs < total
      → feed xs (in_message header payload) out ≡ more (in_message header (payload ++ xs)) out
  unfolding feed on_message
  feed_short_message [] payload out h = rw append-nil
  feed_short_message (b ∷ xs) payload out h =
      let small : length (payload ++ b ∷ []) + 1 ≤ total =
        omega (arith, length-append payload (b ∷ [])) in
      rw (size, le→leb _ _ small)
        (feed_short_message xs (payload ++ b ∷ []) out
            (omega (arith, length-append payload (b ∷ [])))
          ∙ ap (λ bs. more (in_message header bs) out) (append_one payload xs b))

  -- Bytes that complete the message emit it.
  pub feed_full_message :
      (b : ℕ) (xs payload : List ℕ) (out : List Message)
      → length payload + length (b ∷ xs) ≡ total
      → feed (b ∷ xs) (in_message header payload) out
        ≡ more (in_header []) (out ++ message_of header (payload ++ (b ∷ xs)) ∷ [])
  unfolding feed on_message
  feed_full_message b [] payload out h =
      let full : leb (length (payload ++ b ∷ []) + 1) total ≡ false =
        lt→leb_false _ _ (omega (arith, length-append payload (b ∷ []))) in
      rw (size, full)
  feed_full_message b (c ∷ xs) payload out h =
      let small : length (payload ++ b ∷ []) + 1 ≤ total =
        omega (arith, length-append payload (b ∷ [])) in
      rw (size, le→leb _ _ small)
        (feed_full_message c xs (payload ++ b ∷ []) out
            (omega (arith, length-append payload (b ∷ [])))
          ∙ ap (λ bs. more (in_header []) (out ++ message_of header bs ∷ []))
              (append_one payload (c ∷ xs) b))

pub feed_whole_header :
    (header : List ℕ) (out : List Message)
    → length header ≡ 24
    → check_magic_string (header_of header) ≡ true
    → feed header (in_header []) out ≡ by_size header (header_of header).message_size out
feed_whole_header [] out h e = absurd (omega arith)
feed_whole_header (b ∷ xs) out h e =
    feed_full_header b xs [] out (omega arith)
    ∙ unfold on_header in rw (lt→ltb_false (suc (length xs)) 24 (omega arith), e)
