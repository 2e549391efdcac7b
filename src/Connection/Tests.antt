-- ===== src/Connection/Tests.antt =====
-- A stream that connects, at concrete inputs.
use gb_server.Base.{◌+◌, ◌≤◌, ◌≡◌, refl, true, false, List, [], ◌∷◌}
use gb_server.Connection.{
  async_connect, StreamStep, closes, completes, goes_on_with, stream_step, stream_run,
}
use gb_server.Connection.Closing.{live, interruptions, stream_run-closes}
use gb_server.Stream.Sending.Sender.{status_connected}

-- The stream is closed between on_connected and the store of the status: it is connected then.
abbrev closed_between : List StreamStep
closed_between =
    completes false ∷ goes_on_with true ∷ goes_on_with true ∷ closes ∷ goes_on_with true ∷ []

closed_between-status :
    ((stream_run closed_between (async_connect true)).status ≡ status_connected)
    × ((stream_run closed_between (async_connect true)).on_closed_calls ≡ 1)
unfolding stream_step async_connect
closed_between-status = (refl, refl)

stream_run-closes_example :
    let s = stream_run closed_between (async_connect true) in
    s.on_closed_calls + live s ≤ 1 + interruptions closed_between (async_connect true)
stream_run-closes_example = stream_run-closes true closed_between
