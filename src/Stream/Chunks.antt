-- ===== src/Stream/Chunks.antt =====
-- src/message_stream/message_stream.cpp: `on_read_some`, read by read. However the bytes of a
-- connection are cut into reads, the messages that arrive are those that were sent.
use gb_server.Base.{
  length, ℤ, pos, negsuc, ℕ, zero, suc, ◌≡◌, refl, sym, ap, ◌∙◌, true, false, Option, none, some,
  List, [], ◌∷◌, ◌++◌, append_assoc, append-nil, arith,
}
use mathlib.Core.Path.{subst, ap₂}
use gb_server.Stream.Agree.{phase, message_in, messages, IsWaiting, AgreesMore, Agrees}
use gb_server.Stream.Header.{header_of}
use gb_server.Stream.Machine.{
  Message, Phase, in_header, in_message, Fed, more, broken, negative, message_of, by_size,
  on_header, on_message, feed_byte, and_then, feed, feed-append,
}
use gb_server.Stream.Refine.{split-Agrees}
use gb_server.Stream.Split.{
  ReceivedItem, Receiver, SplitResult, finished, fault, out_of_fuel, split_and_process_message,
}

-- One completed read: what the transport buffer holds before the pointer, and the bytes read.
pub record Read : Type 0 where
  pub before : List ℕ
  pub bytes : List ℕ

-- The messages of the reads, in the order of the calls of `on_received`; `none` after `close`.
abbrev deliver :
    (Receiver → Option (Receiver × List ReceivedItem))
    → SplitResult
    → Option (Receiver × List ReceivedItem)
deliver next (finished true s items) = elim (next s) [
  | none ↦ none
  | some (s', later) ↦ some (s', items ++ later)
]
deliver next _ = none

pub read_all : List Read → Receiver → Option (Receiver × List ReceivedItem)
read_all [] s = some (s, [])
read_all (r ∷ reads) s =
    deliver (λ s'. read_all reads s')
      (split_and_process_message (suc (length r.bytes)) r.before r.bytes s [])

abbrev pub stream_of : List Read → List ℕ
stream_of [] = []
stream_of (r ∷ reads) = r.bytes ++ stream_of reads

-- Messages that are out already stand before the new ones.
abbrev prefix : List Message → Fed → Fed
prefix l (more p out) = more p (l ++ out)
prefix l (broken out) = broken (l ++ out)
prefix l negative = negative

prefix-by_size :
    (l : List Message) (header : List ℕ) (size : ℤ) (out : List Message)
    → by_size header size (l ++ out) ≡ prefix l (by_size header size out)
unfolding by_size
prefix-by_size l header (pos zero) out = ap (more (in_header [])) (append_assoc l out _)
prefix-by_size l header (pos (suc n)) out = refl
prefix-by_size l header (negsuc n) out = refl

prefix-feed_byte :
    (l : List Message) (p : Phase) (b : ℕ) (out : List Message)
    → feed_byte p b (l ++ out) ≡ prefix l (feed_byte p b out)
unfolding feed_byte on_header on_message
prefix-feed_byte l (in_header header) b out =
    ground
      (arith, prefix-by_size l (header ++ b ∷ []) (header_of (header ++ b ∷ [])).message_size out)
prefix-feed_byte l (in_message header payload) b out =
    ground (arith, append_assoc l out (message_of header (payload ++ b ∷ []) ∷ []))

prefix-and_then :
    (k : Phase → List Message → Fed) (l : List Message) (f : Fed)
    → ((p : Phase) (out : List Message) → k p (l ++ out) ≡ prefix l (k p out))
    → and_then k (prefix l f) ≡ prefix l (and_then k f)
prefix-and_then k l (more p out) h = h p out
prefix-and_then k l (broken out) h = refl
prefix-and_then k l negative h = refl

prefix-feed :
    (bs : List ℕ) (l : List Message) (p : Phase) (out : List Message)
    → feed bs p (l ++ out) ≡ prefix l (feed bs p out)
unfolding feed
prefix-feed [] l p out = refl
prefix-feed (b ∷ bs) l p out =
    ap (and_then (feed bs)) (prefix-feed_byte l p b out)
    ∙ prefix-and_then (feed bs) l (feed_byte p b out) (λ q o. prefix-feed bs l q o)

agrees_more :
    (r : SplitResult) {p : Phase} {out : List Message}
    → AgreesMore p out r
    → (s : Receiver) × (items : List ReceivedItem) × (r ≡ finished true s items)
      × IsWaiting s
      × (phase s ≡ p)
      × (messages items ≡ out)
agrees_more (finished true s items) (w, e, o) = (s, items, refl, w, e, o)
agrees_more (finished false s items) a = absurd a
agrees_more fault a = absurd a
agrees_more out_of_fuel a = absurd a

prefix_more :
    (l : List Message) (f : Fed) {p : Phase} {out : List Message}
    → prefix l f ≡ more p out
    → (later : List Message) × (f ≡ more p later) × (out ≡ l ++ later)
prefix_more l (more q later) e = (later, cc, cc)
prefix_more l (broken later) e = cc
prefix_more l negative e = cc

and_then_more :
    (k : Phase → List Message → Fed) (f : Fed) {p : Phase} {out : List Message}
    → and_then k f ≡ more p out
    → (q : Phase) × (o : List Message) × (f ≡ more q o) × (k q o ≡ more p out)
and_then_more k (more q o) e = (q, o, refl, e)
and_then_more k (broken o) e = cc
and_then_more k negative e = cc

messages-append : (xs ys : List ReceivedItem) → messages (xs ++ ys) ≡ messages xs ++ messages ys
messages-append [] ys = refl
messages-append (x ∷ xs) ys = ap (λ l. message_in x ∷ l) (messages-append xs ys)

more_injective : {p q : Phase} {l m : List Message} → more p l ≡ more q m → (p ≡ q) × (l ≡ m)
more_injective e = (cc, cc)

read_all_step :
    (r : Read) (reads : List Read) (s : Receiver) {s1 s2 : Receiver}
    {items1 items2 : List ReceivedItem}
    → split_and_process_message (suc (length r.bytes)) r.before r.bytes s []
      ≡ finished true s1 items1
    → read_all reads s1 ≡ some (s2, items2)
    → read_all (r ∷ reads) s ≡ some (s2, items1 ++ items2)
unfolding read_all
read_all_step r reads s {s1 = s1} {items1 = items1} e1 e2 =
    ap (deliver (λ s'. read_all reads s')) e1
    ∙ ap (λ o. elim o [ none ↦ none | some (s', later) ↦ some (s', items1 ++ later) ]) e2

-- Whatever the reads, if the machine takes all their bytes, then no read fails and the messages
-- that arrive are those of the machine.
pub read_all-feed :
    (reads : List Read) (s : Receiver) {p : Phase} {out : List Message}
    → IsWaiting s
    → feed (stream_of reads) (phase s) [] ≡ more p out
    → (s' : Receiver) × (items : List ReceivedItem) × (read_all reads s ≡ some (s', items))
      × IsWaiting s'
      × (phase s' ≡ p)
      × (messages items ≡ out)
unfolding read_all
read_all-feed [] s {p} {out} w e =
    let (ph, o) = more_injective {p = phase s} {q = p} {l = []} {m = out} (unfold feed in e) in
    (s, [], refl, w, ph, o)
read_all-feed (r ∷ reads) s {p} {out} w e =
    let (q, o, e1, e2) =
      and_then_more (feed (stream_of reads)) (feed r.bytes (phase s) [])
        (sym (feed-append r.bytes (stream_of reads) (phase s) []) ∙ e) in
    let (s1, items1, eq1, w1, ph1, o1) =
      agrees_more (split_and_process_message (suc (length r.bytes)) r.before r.bytes s []) (
        subst (Agrees (split_and_process_message (suc (length r.bytes)) r.before r.bytes s [])) e1
          (split-Agrees (suc (length r.bytes)) r.before r.bytes s [] (omega arith) w)) in
    let (later, e3, e4) = prefix_more o (feed (stream_of reads) q []) {p = p} {out = out} (
      sym (prefix-feed (stream_of reads) o q [])
      ∙ ap (feed (stream_of reads) q) (append-nil o)
      ∙ e2) in
    let e5 : feed (stream_of reads) (phase s1) [] ≡ more p later =
      ap (λ x. feed (stream_of reads) x []) ph1 ∙ e3 in
    let (s2, items2, eq2, w2, ph2, o2) = read_all-feed reads s1 {p = p} {out = later} w1 e5 in
    (
      s2,
      items1 ++ items2,
      read_all_step r reads s eq1 eq2,
      w2,
      ph2,
      messages-append items1 items2 ∙ ap₂ (λ x y. x ++ y) o1 o2 ∙ sym e4,
    )
