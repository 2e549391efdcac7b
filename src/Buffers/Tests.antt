-- ===== src/Buffers/Tests.antt =====
-- Buffers at concrete inputs.
use gb_server.Base.{
  take, drop, ℕ, ◌≡◌, refl, ap, ◌∙◌, Bool, true, some, List, [], ◌∷◌, ◌++◌, map, arith,
}
use gb_server.Buffers.Append.{append-bytes}
use gb_server.Buffers.Cursor.{all_bytes, IsReading, Skipped, skip-Skipped}
use gb_server.Buffers.Delivered.{sent_stream, read_all-sent_stream}
use gb_server.Buffers.Message.{send_buffer}
use gb_server.Buffers.Read.{ReadBuffer, empty_read_buffer, skip}
use gb_server.Buffers.Reserve.{IsBuffer}
use gb_server.Buffers.Sent.{send_buffer-send}
use gb_server.Buffers.Write.{WriteBuffer, empty_buffer, bytes_of, append}
use gb_server.Stream.Agree.{phase, messages}
use gb_server.Stream.Chunks.{Read, read_all, stream_of}
use gb_server.Stream.Frames.{Outgoing, send_header, send, send_all, arriving}
use gb_server.Stream.Header.{header_bytes}
use gb_server.Stream.Machine.{in_header}
use gb_server.Stream.Split.{ReceivedItem, Receiver, fresh}

abbrev unset_170 : ℕ → ℕ
unset_170 n = 170

abbrev enough_memory : ℕ → Bool
enough_memory n = true

-- Two bytes are in a block for four.
abbrev a_buffer : WriteBuffer
a_buffer = record empty_buffer {
  buf_list = record { content = 1 ∷ 2 ∷ []; capacity = 4 } ∷ [];
  write_bytes = 2;
}

append-bytes_example :
    (w' : WriteBuffer) × (append unset_170 enough_memory (3 ∷ 4 ∷ 5 ∷ []) a_buffer
      ≡ some (true, w'))
    × (bytes_of w'.buf_list ≡ bytes_of a_buffer.buf_list ++ (3 ∷ 4 ∷ 5 ∷ []))
    × IsBuffer w'
append-bytes_example =
    append-bytes unset_170 enough_memory (3 ∷ 4 ∷ 5 ∷ []) a_buffer (λ n. refl)
      (record { fits = (omega arith, tt); counts = refl })

abbrev a_read_buffer : ReadBuffer
a_read_buffer = record empty_read_buffer {
  rest =
      record { bytes = 1 ∷ 2 ∷ 3 ∷ []; block = 64 }
      ∷ record { bytes = 4 ∷ 5 ∷ []; block = 64 }
      ∷ [];
  total_bytes = 5;
  cur_pos = 1;
}

skip-Skipped_example : Skipped 3 a_read_buffer (skip 3 a_read_buffer)
skip-Skipped_example =
    skip-Skipped 3 a_read_buffer
      (record { filled = (omega arith, (omega arith, tt)); inside = omega arith })

abbrev a_message : Outgoing
a_message = record { meta = 5 ∷ 6 ∷ []; body = 7 ∷ [] }

send_buffer-send_example :
    (r : ReadBuffer) × (send_buffer unset_170 enough_memory a_message ≡ some r)
    × (all_bytes r.rest ≡ send a_message)
    × IsReading r
    × (r.passed ≡ [])
    × (r.cur_pos ≡ 0)
send_buffer-send_example =
    send_buffer-send unset_170 enough_memory a_message (λ n. refl) (omega arith, omega arith)

abbrev two_reads : List Read
two_reads =
    record { before = []; bytes = take 25 (send_all (a_message ∷ [])) }
    ∷ record { before = []; bytes = drop 25 (send_all (a_message ∷ [])) }
    ∷ []

two_reads-stream_of : some (send_all (a_message ∷ [])) ≡ some (stream_of two_reads)
unfolding send header_bytes send_header
two_reads-stream_of = refl

two_reads-sent_stream :
    sent_stream unset_170 enough_memory (a_message ∷ []) ≡ some (stream_of two_reads)
two_reads-sent_stream =
    let one =
      send_buffer-send unset_170 enough_memory a_message (λ n. refl) (omega arith, omega arith) in
    rw one.1 (ap (λ l. some (l ++ [])) one.2) ∙ two_reads-stream_of

read_all-sent_stream_example :
    (s : Receiver) × (items : List ReceivedItem) × (read_all two_reads fresh ≡ some (s, items))
    × (messages items ≡ map arriving (a_message ∷ []))
    × (phase s ≡ in_header [])
read_all-sent_stream_example =
    read_all-sent_stream unset_170 enough_memory (a_message ∷ []) two_reads (λ n. refl)
      (omega arith) two_reads-sent_stream
