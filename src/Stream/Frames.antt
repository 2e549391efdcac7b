-- ===== src/Stream/Frames.antt =====
-- src/network/io/session.cpp: the bytes that `Session::Send` puts on the wire for the bytes of a
-- meta and of the data, and what the other side receives.
use gb_server.Base.{
  length, All, length-append, pos, ℕ, ◌+◌, ◌^◌, ◌<◌, ◌≡◌, refl, sym, ap, ◌∙◌, true, some, List, [],
  ◌∷◌, ◌++◌, map, append_assoc, append-nil, arith,
}
use gb_server.Stream.Agree.{phase, messages, fresh-IsWaiting}
use gb_server.Stream.Chunks.{Read, read_all, stream_of, read_all-feed}
use gb_server.Stream.Header.{
  header_magic, MessageHeader, header_of, header_bytes, check_magic_string, IsHeader,
  length-header_bytes, header_of-header_bytes,
}
use gb_server.Stream.Machine.{
  Message, in_header, in_message, more, message_of, by_size, and_then, feed, feed-append,
  feed_full_message, feed_whole_header,
}
use gb_server.Stream.Split.{ReceivedItem, Receiver, fresh}

pub record Outgoing : Type 0 where
  pub meta : List ℕ
  pub body : List ℕ

-- The header as `Send` fills it in.
unfoldable pub send_header : Outgoing → MessageHeader
send_header m = record {
  magic_str_value = header_magic;
  meta_size = pos (length m.meta);
  data_size = pos (length m.body);
  message_size = pos (length m.meta + length m.body);
}

-- `Append` takes the sizes of the meta and of the data as ints, which they are taken to fit.
unfoldable pub send : Outgoing → List ℕ
unfolding send_header
send m = header_bytes (send_header m) ++ (m.meta ++ m.body)

abbrev pub send_all : List Outgoing → List ℕ
send_all [] = []
send_all (m ∷ ms) = send m ++ send_all ms

-- The sizes that `Append` takes are ints.
abbrev pub FitsHeader : Outgoing → Type 0
FitsHeader m = (length m.meta < 2 ^ 31) × (length m.body < 2 ^ 31)

-- What should arrive.
abbrev pub arriving : Outgoing → Message
arriving m = record {
  meta_size = pos (length m.meta);
  data_size = pos (length m.body);
  payload = m.meta ++ m.body;
}

send_header-IsHeader : (m : Outgoing) → FitsHeader m → IsHeader (send_header m)
unfolding send_header
send_header-IsHeader m h = record {
  magic = refl;
  meta_word = ground arith;
  data_word = ground arith;
  message_word = ground arith;
}

-- The machine after a complete header that announces the bytes `payload`.
feed_payload :
    (header payload rest : List ℕ) (out : List Message)
    → (header_of header).message_size ≡ pos (length payload)
    → and_then (feed (payload ++ rest)) (by_size header (pos (length payload)) out)
      ≡ feed rest (in_header []) (out ++ message_of header payload ∷ [])
unfolding by_size
feed_payload header [] rest out size = refl
feed_payload header (b ∷ bs) rest out size =
    feed-append (b ∷ bs) rest (in_message header []) out
    ∙ ap (and_then (feed rest))
        (feed_full_message header (length (b ∷ bs)) size b bs [] out (omega arith))

send_header-eq :
    (m : Outgoing) → FitsHeader m → header_of (header_bytes (send_header m)) ≡ send_header m
send_header-eq m h = header_of-header_bytes (send_header m) (send_header-IsHeader m h)

-- One message, whatever follows it.
feed-send :
    (m : Outgoing) (rest : List ℕ) (out : List Message)
    → FitsHeader m
    → feed (send m ++ rest) (in_header []) out ≡ feed rest (in_header []) (out ++ arriving m ∷ [])
unfolding send
feed-send m rest out h =
    ap (λ l. feed l (in_header []) out) (append_assoc header payload rest)
    ∙ feed-append header (payload ++ rest) (in_header []) out
    ∙ ap (and_then (feed (payload ++ rest))) (
        feed_whole_header header out (length-header_bytes (send_header m)) magic
        ∙ ap (λ z. by_size header z out) size)
    ∙ feed_payload header payload rest out size
    ∙ ap (λ x. feed rest (in_header []) (out ++ x ∷ [])) same
  where
    header : List ℕ
    header = header_bytes (send_header m)

    payload : List ℕ
    payload = m.meta ++ m.body

    magic : check_magic_string (header_of header) ≡ true
    magic = rw (send_header-eq m h) (unfold check_magic_string send_header in refl)

    size : (header_of header).message_size ≡ pos (length payload)
    size =
        ap (λ (x : MessageHeader). x.message_size) (send_header-eq m h)
        ∙ unfold send_header in ap pos (sym (length-append m.meta m.body))

    same : message_of header payload ≡ arriving m
    same = rw (send_header-eq m h) (unfold send_header in refl)

feed-send_all :
    (ms : List Outgoing) (out : List Message)
    → All FitsHeader ms
    → feed (send_all ms) (in_header []) out ≡ more (in_header []) (out ++ map arriving ms)
feed-send_all [] out h = unfold feed in ap (more (in_header [])) (sym (append-nil out))
feed-send_all (m ∷ ms) out h =
    feed-send m (send_all ms) out h.0
    ∙ feed-send_all ms (out ++ arriving m ∷ []) h.1
    ∙ ap (more (in_header [])) (append_assoc out (arriving m ∷ []) (map arriving ms))

-- Messages whose meta and data have less than 2^31 bytes each arrive as they were sent, in their order and with the sizes
-- of their parts, however their bytes are cut into reads: no read fails, and at the end the
-- receiver waits for a new header.
pub read_all-send_all :
    (ms : List Outgoing) (reads : List Read)
    → All FitsHeader ms
    → stream_of reads ≡ send_all ms
    → (s : Receiver) × (items : List ReceivedItem) × (read_all reads fresh ≡ some (s, items))
      × (messages items ≡ map arriving ms)
      × (phase s ≡ in_header [])
read_all-send_all ms reads h e =
    let (s, items, eq, w, ph, o) =
      read_all-feed reads fresh {p = in_header []} {out = map arriving ms} fresh-IsWaiting
        (ap (λ l. feed l (in_header []) []) e ∙ feed-send_all ms [] h) in
    (s, items, eq, o, ph)
