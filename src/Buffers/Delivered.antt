-- ===== src/Buffers/Delivered.antt =====
-- Messages from the buffers of one side to the receiver of the other.
use gb_server.Base.{
  some_injective, All, ℕ, ◌≡◌, refl, sym, ap, ◌∙◌, Bool, true, Option, none, some, List, [], ◌∷◌,
  ◌++◌, map,
}
use gb_server.Buffers.Cursor.{all_bytes}
use gb_server.Buffers.Message.{send_buffer}
use gb_server.Buffers.Read.{ReadBuffer}
use gb_server.Buffers.Sent.{send_buffer-send}
use gb_server.Stream.Agree.{phase, messages}
use gb_server.Stream.Chunks.{Read, read_all, stream_of}
use gb_server.Stream.Frames.{Outgoing, send_all, FitsHeader, arriving, read_all-send_all}
use gb_server.Stream.Machine.{in_header}
use gb_server.Stream.Split.{ReceivedItem, Receiver, fresh}

abbrev behind : List ℕ → Option (List ℕ) → Option (List ℕ)
behind bytes none = none
behind bytes (some rest) = some (bytes ++ rest)

abbrev buffer_then : Option ReadBuffer → Option (List ℕ) → Option (List ℕ)
buffer_then none rest = none
buffer_then (some r) rest = behind (all_bytes r.rest) rest

module _ (unset : ℕ → ℕ) (memory : ℕ → Bool) where
  -- The bytes of the blocks that `Send` hands to the message stream for one message after the other.
  abbrev pub sent_stream : List Outgoing → Option (List ℕ)
  sent_stream [] = some []
  sent_stream (m ∷ ms) = buffer_then (send_buffer unset memory m) (sent_stream ms)

  sent_stream-send_all :
      (ms : List Outgoing)
      → ((n : ℕ) → memory n ≡ true)
      → All FitsHeader ms
      → sent_stream ms ≡ some (send_all ms)
  sent_stream-send_all [] enough fits = refl
  sent_stream-send_all (m ∷ ms) enough fits =
      let one = send_buffer-send unset memory m enough fits.0 in
      rw (one.1, sent_stream-send_all ms enough fits.1) (ap (λ l. some (l ++ send_all ms)) one.2)

  -- Where memory is to be had, messages whose meta and data have less than 2^31 bytes each arrive as they were sent: if the
  -- reads of the other side, however they are cut, carry the bytes of the blocks that `Send` made for
  -- one message after the other, then no read fails, the messages are those that were sent, in their
  -- order, and at the end the receiver waits for a new header.
  pub read_all-sent_stream :
      (ms : List Outgoing) (reads : List Read)
      → ((n : ℕ) → memory n ≡ true)
      → All FitsHeader ms
      → sent_stream ms ≡ some (stream_of reads)
      → (s : Receiver) × (items : List ReceivedItem) × (read_all reads fresh ≡ some (s, items))
        × (messages items ≡ map arriving ms)
        × (phase s ≡ in_header [])
  read_all-sent_stream ms reads enough fits e =
      read_all-send_all ms reads fits (some_injective (sym e ∙ sent_stream-send_all ms enough fits))
