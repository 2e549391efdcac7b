-- ===== src/Connection.antt =====
-- src/message_stream/byte_stream.cpp and transport/tcp_transport.cpp beside it: a stream that connects and
-- closes. The thread that completes the connection takes several steps, between which others may
-- close the stream. Whether the calls of Asio and on_connected succeed are arguments.
pub mod Closing
mod Tests
use gb_server.Base.{if◌then◌else◌, ℕ, ◌+◌, Bool, true, false, ◌&&◌, not, List, [], ◌∷◌}
use gb_server.Stream.Sending.Sender.{
  NetStatus, status_connecting, status_connected, status_closed, is_closed,
}

-- Where the completion is: not under way, or behind the check of the status, behind the options of
-- the socket, or behind on_connected.
pub data Completion : Type 0 where
  away checked options_set accepted : Completion

pub record ByteStream : Type 0 where
  pub status : NetStatus
  pub timer_armed : Bool
  pub completion : Completion
  pub on_closed_calls : ℕ

abbrev pub is_connecting : NetStatus → Bool
is_connecting status_connecting = true
is_connecting _ = false

-- The exchange of the status, and on_closed for the one who has changed it.
unfoldable pub close : ByteStream → ByteStream
close s =
    if is_closed s.status
    then s
    else record s { status = status_closed; on_closed_calls = s.on_closed_calls + 1 }

-- A new stream after `async_connect`; `with_timer` where a timeout is set.
unfoldable pub async_connect : Bool → ByteStream
async_connect with_timer = record {
  status = status_connecting;
  timer_armed = with_timer;
  completion = away;
  on_closed_calls = 0;
}

-- `on_connect_timeout`; `aborted` is the error of a timer that is cancelled. Its check and its close
-- are one step: where the status changes between them, the close is the step `closes`.
unfoldable pub on_connect_timeout : Bool → ByteStream → ByteStream
unfolding close
on_connect_timeout aborted s =
    if is_connecting s.status && not aborted
    then close (record s { timer_armed = false })
    else record s { timer_armed = false }

-- `TcpTransport::on_connect` up to the begin of `set_socket_connected`.
unfoldable pub on_connect : Bool → ByteStream → ByteStream
unfolding close
on_connect error s =
    if is_connecting s.status
    then if error then close s else record s { completion = checked; timer_armed = false }
    else s

-- The further steps of `set_socket_connected`.
unfoldable pub go_on_connected : Bool → Completion → ByteStream → ByteStream
unfolding close
go_on_connected good away s = s
go_on_connected good checked s =
    if good then record s { completion = options_set } else close (record s { completion = away })
go_on_connected good options_set s =
    if good then record s { completion = accepted } else close (record s { completion = away })
go_on_connected good accepted s = record s { status = status_connected; completion = away }

pub data StreamStep : Type 0 where
  closes : StreamStep
  times_out completes goes_on_with : Bool → StreamStep

-- One completion is under way at a time.
unfoldable pub stream_step : StreamStep → ByteStream → ByteStream
unfolding close on_connect_timeout on_connect go_on_connected
stream_step closes s = close s
stream_step (times_out aborted) s = on_connect_timeout aborted s
stream_step (completes error) s = elim s.completion [ away ↦ on_connect error s | _ ↦ s ]
stream_step (goes_on_with good) s = go_on_connected good s.completion s

abbrev pub stream_run : List StreamStep → ByteStream → ByteStream
stream_run [] s = s
stream_run (e ∷ es) s = stream_run es (stream_step e s)
