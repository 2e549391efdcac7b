-- ===== src/Nats/Requests.antt =====
-- src/network/nats/nats_manager.cpp: the requests of one worker's thread, with its map of pending
-- requests. The number of an inbox stands for its name, and what the client library answers is an
-- argument. The bodies of messages and the library's subscriptions are left out.
use gb_server.Base.{
  ◌==◌, if◌then◌else◌, ℕ, ◌+◌, ◌%◌, ◌^◌, Bool, true, false, Option, none, some, List, [], ◌∷◌, ◌++◌,
}
use gb_server.Workers.{Pending, without, find}

pub data NatsOutcome : Type 0 where
  answered timeout disconnected subscribe_failed request_failed : NatsOutcome

-- `timers` are the inboxes whose timer is registered; `outcomes` are the calls of callbacks and the
-- results of promises, each with its request.
pub record TlsNats : Type 0 where
  pub connected : Bool
  pub inbox_seq : ℕ
  pub pending : Pending ℕ
  pub timers : List ℕ
  pub outcomes : List (ℕ × NatsOutcome)

abbrev pub new_tls : TlsNats
new_tls = record { connected = false; inbox_seq = 0; pending = []; timers = []; outcomes = [] }

abbrev finish_with : ℕ → NatsOutcome → TlsNats → TlsNats
finish_with request o s = record s { outcomes = s.outcomes ++ (request, o) ∷ [] }

-- `GenInbox`
unfoldable pub gen_inbox : TlsNats → ℕ × TlsNats
gen_inbox s = (s.inbox_seq, record s { inbox_seq = (s.inbox_seq + 1) % 2 ^ 64 })

-- After the inbox is subscribed: the entry, the publication, and the timer.
unfoldable pub publish_request : Bool → ℕ → ℕ → TlsNats → TlsNats
publish_request published inbox request s =
    let t = record s { pending = (inbox, request) ∷ without inbox s.pending } in
    if published
    then record t { timers = inbox ∷ t.timers }
    else finish_with request request_failed (record t { pending = without inbox t.pending })

-- `AsyncRequest`, and `RequestRaw` up to its await: whether the library subscribes and publishes.
unfoldable pub async_request : Bool → Bool → ℕ → TlsNats → TlsNats
unfolding gen_inbox publish_request
async_request subscribed published request s =
    let (inbox, t) = gen_inbox s in
    if s.connected
    then if subscribed
      then publish_request published inbox request t
      else finish_with request subscribe_failed t
    else finish_with request disconnected s

abbrev pub remove : ℕ → List ℕ → List ℕ
remove k [] = []
remove k (x ∷ xs) = let rest = remove k xs in if x == k then rest else x ∷ rest

unfoldable pub end_found : NatsOutcome → ℕ → Option ℕ → TlsNats → TlsNats
end_found o inbox none s = s
end_found o inbox (some request) s =
    finish_with request o
      (record s { pending = without inbox s.pending; timers = remove inbox s.timers })

-- The task that `OnNatsInboxMsg` posts to the worker.
unfoldable pub on_response : ℕ → TlsNats → TlsNats
unfolding end_found
on_response inbox s = end_found answered inbox (find inbox s.pending) s

-- The function of the timer.
unfoldable pub on_timeout : ℕ → TlsNats → TlsNats
unfolding end_found
on_timeout inbox s = end_found timeout inbox (find inbox s.pending) s

pub data NatsEvent : Type 0 where
  goes_on goes_off : NatsEvent
  requests : Bool → Bool → ℕ → NatsEvent
  gets_response fires_timer : ℕ → NatsEvent

unfoldable pub nats_step : NatsEvent → TlsNats → TlsNats
unfolding async_request on_response on_timeout
nats_step goes_on s = record s { connected = true }
nats_step goes_off s = record s { connected = false }
nats_step (requests subscribed published request) s = async_request subscribed published request s
nats_step (gets_response inbox) s = on_response inbox s
nats_step (fires_timer inbox) s = on_timeout inbox s

abbrev pub nats_run : List NatsEvent → TlsNats → TlsNats
nats_run [] s = s
nats_run (e ∷ es) s = nats_run es (nats_step e s)
