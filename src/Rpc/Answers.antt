-- ===== src/Rpc/Answers.antt =====
-- The response to a call, from its arrival to the callback.
use gb_server.Base.{◌==◌, ℕ, ◌^◌, ◌<◌, ◌≡◌, refl, true, false, some, List, [], ◌∷◌, arith}
use gb_server.Rpc.Call.{pending, Peer, RpcTask, World, at_key, without_call}
use gb_server.Rpc.TimerPool.{TimerHandle}
use gb_server.Workers.{find, Worker, alloc_rpc_seq, store_pending_rpc}
use gb_server.Workers.Manager.{get_worker}

==-refl : (n : ℕ) → (n == n) ≡ true
==-refl n = ground arith

at_key-same : {A : Type 0} (c : ℕ) (value : A) (f : ℕ → A) → at_key c value f c ≡ value
at_key-same c value f = rw (==-refl c) refl

-- A call that waits for its response: the worker `w` of the index `i` has it under the number `seq`.
record Waits (i seq c : ℕ) (events : List RpcTask) (w : Worker RpcTask ℕ) (s : World) : Type 0 where
  found : get_worker i s.workers ≡ some w
  tasks : w.events ≡ events
  running : w.runing ≡ true
  staying : w.shutting_down ≡ false
  stored : find seq w.pending_rpcs ≡ some c
  still_open : (s.calls c).state ≡ pending
  with_callback : (s.calls c).has_callback ≡ true

-- What the answer needs: a worker that runs and whose queue is empty, and a call with a session, a
-- timer and a callback.
pub record Ready (c : ℕ) (w : Worker RpcTask ℕ) (s : World) : Type 0 where
  pub found : get_worker w.index s.workers ≡ some w
  pub index_fits : w.index < 2 ^ 32
  pub counter_fits : w.rpc_seq_counter < 2 ^ 32
  pub idle : w.events ≡ []
  pub running : w.runing ≡ true
  pub staying : w.shutting_down ≡ false
  pub peer : Peer
  pub with_session : (s.calls c).session ≡ some peer
  pub handle : TimerHandle
  pub with_timer : (s.calls c).timer_handle ≡ some handle
  pub with_callback : (s.calls c).has_callback ≡ true

begun : ℕ → ℕ → World → World
begun c value s = record s {
  calls = at_key c (record (s.calls c) { state = pending }) s.calls;
  waiting = c ∷ without_call c s.waiting;
  sent = value ∷ s.sent;
}

stored_worker : ℕ → Worker RpcTask ℕ → Worker RpcTask ℕ
stored_worker c w = store_pending_rpc w.rpc_seq_counter c (alloc_rpc_seq w).1
