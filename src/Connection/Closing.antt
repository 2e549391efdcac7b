-- ===== src/Connection/Closing.antt =====
-- src/message_stream/byte_stream.cpp: how often a stream is closed.
use gb_server.Base.{if◌then◌else◌, ℕ, ◌+◌, ◌≤◌, Bool, true, false, ◌&&◌, List, [], ◌∷◌, arith}
use gb_server.Connection.{
  Completion, away, ByteStream, async_connect, StreamStep, closes, times_out, stream_step,
  stream_run,
}
use gb_server.Stream.Sending.Sender.{is_closed}

abbrev pub is_away : Completion → Bool
is_away away = true
is_away _ = false

-- A stream that is open, or that a completion under way will open.
abbrev pub live : ByteStream → ℕ
live s = if is_closed s.status && is_away s.completion then 0 else 1

-- A close or a timeout that comes while a completion is under way.
abbrev pub interrupts : StreamStep → ByteStream → ℕ
interrupts closes s = if is_away s.completion then 0 else 1
interrupts (times_out aborted) s = if is_away s.completion then 0 else 1
interrupts _ s = 0

abbrev pub interruptions : List StreamStep → ByteStream → ℕ
interruptions [] s = 0
interruptions (e ∷ es) s = interrupts e s + interruptions es (stream_step e s)

step-live :
    (e : StreamStep) (s : ByteStream)
    → (stream_step e s).on_closed_calls + live (stream_step e s)
      ≤ s.on_closed_calls + live s + interrupts e s
unfolding stream_step
step-live e s = ground arith

run-live :
    (es : List StreamStep) (s : ByteStream)
    → (stream_run es s).on_closed_calls + live (stream_run es s)
      ≤ s.on_closed_calls + live s + interruptions es s
run-live [] s = omega arith
run-live (e ∷ es) s = omega (arith, step-live e s, run-live es (stream_step e s))

-- A stream that has begun to connect: on_closed runs at most once more often than a close or a
-- timeout comes while a completion of the connection is under way. So where none does, it runs at
-- most once, and then the stream is closed for good: it is not open, nor will it be opened.
pub stream_run-closes :
    (with_timer : Bool) (es : List StreamStep)
    → let s = stream_run es (async_connect with_timer) in
      s.on_closed_calls + live s ≤ 1 + interruptions es (async_connect with_timer)
unfolding async_connect
stream_run-closes with_timer es = omega (arith, run-live es (async_connect with_timer))
