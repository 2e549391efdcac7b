-- ===== src/Shutdown/Requests.antt =====
-- src/async/shutdown.cpp: how far the phases go.
use gb_server.Base.{
  if_intro, All, ℕ, suc, ◌+◌, ◌≤◌, ◌≡◌, refl, ap, Bool, true, false, List, [], ◌∷◌, arith,
}
use mathlib.Core.Path.{subst}
use gb_server.Shutdown.{
  ShutdownPhase, Callback, Holder, outside, looping, checking, leaving, loaded, calling,
  ShutdownManager, initialize, next_phase, advance_phase, mark_pending, load_phase, call,
  run_callback, advance_step, drop_pending, shutdown, ShutdownStep, shuts_down, asks_next, marks,
  advances, drops, forces, shutdown_step, shutdown_run,
}
use gb_server.Shutdown.Order.{rank}

abbrev pub NotForced : ShutdownStep → Type 0
NotForced forces = ⊥
NotForced _ = Unit

-- How often Shutdown and NextPhase are called.
abbrev pub requests : List ShutdownStep → ℕ
requests [] = 0
requests (shuts_down ∷ es) = suc (requests es)
requests (asks_next ∷ es) = suc (requests es)
requests (_ ∷ es) = requests es

abbrev flag : Bool → ℕ
flag true = 1
flag false = 0

-- A thread that will still go to the next phase.
abbrev under_way : Holder → ℕ
under_way looping = 1
under_way (loaded c) = 1
under_way _ = 0

abbrev IsFresh : Holder → ShutdownPhase → Type 0
IsFresh (loaded c) p = p ≡ c
IsFresh _ p = Unit

record Paid (n : ℕ) (s : ShutdownManager) : Type 0 where
  covered : rank s.current_phase + under_way s.holder + flag s.pending_advance + s.wanting ≤ n
  fresh : IsFresh s.holder s.current_phase
  alone : s.is_advancing ≡ false → s.holder ≡ outside

rank-next : (p : ShutdownPhase) → rank (next_phase p) ≤ rank p + 1
unfolding next_phase
rank-next p = ground arith

load_phase-Paid :
    (n : ℕ) (p : ShutdownPhase) (s : ShutdownManager)
    → s.holder ≡ looping
    → s.current_phase ≡ p
    → Paid n s
    → Paid n (load_phase p s)
unfolding load_phase
load_phase-Paid n p s e k h = ground (arith, h)

store-Paid :
    (n : ℕ) (c : ShutdownPhase) (s : ShutdownManager)
    → s.holder ≡ loaded c
    → Paid n s
    → Paid n (record s { current_phase = next_phase c; holder = calling c })
store-Paid n c s e p =
    let f : s.current_phase ≡ c = subst (λ h. IsFresh h s.current_phase) e p.fresh in
    record {
      covered = omega (arith, rank-next c, ap rank f, ap under_way e, p);
      fresh = tt;
      alone = λ a. cc (p.alone a);
    }

run_callback-Paid :
    (n : ℕ) (c : ShutdownPhase) (s : ShutdownManager)
    → s.holder ≡ calling c
    → Paid n s
    → Paid n (run_callback c s)
unfolding run_callback call
run_callback-Paid n c s e p = ground (arith, p)

advance_step-Paid :
    (n : ℕ) (h : Holder) (s : ShutdownManager) → s.holder ≡ h → Paid n s → Paid n (advance_step h s)
unfolding advance_step
advance_step-Paid n outside s e p = p
advance_step-Paid n looping s e p = load_phase-Paid n s.current_phase s e refl p
advance_step-Paid n (loaded c) s e p = store-Paid n c s e p
advance_step-Paid n (calling c) s e p = run_callback-Paid n c s e p
advance_step-Paid n checking s e p = ground (arith, p)
advance_step-Paid n leaving s e p = ground (arith, p)

request-Paid : (n : ℕ) (s : ShutdownManager) → Paid n s → Paid (suc n) (advance_phase s)
unfolding advance_phase
request-Paid n s p = ground (arith, p)

shutdown-Paid : (n : ℕ) (s : ShutdownManager) → Paid n s → Paid (suc n) (shutdown s)
unfolding shutdown
shutdown-Paid n s p =
    if_intro (Paid (suc n)) s.shutdown_requested (λ b. ground (arith, p))
      (λ b. request-Paid n (record s { shutdown_requested = true }) (ground (arith, p)))

mark_pending-Paid :
    (n m : ℕ) (s : ShutdownManager) → s.wanting ≡ m → Paid n s → Paid n (mark_pending m s)
unfolding mark_pending
mark_pending-Paid n m s e p = ground (arith, p)

drop_pending-Paid : (n m : ℕ) (s : ShutdownManager) → Paid n s → Paid n (drop_pending m s)
unfolding drop_pending
drop_pending-Paid n m s p = ground (arith, p)

run-Paid :
    (n : ℕ) (es : List ShutdownStep) (s : ShutdownManager)
    → All NotForced es
    → Paid n s
    → Paid (requests es + n) (shutdown_run es s)
unfolding shutdown_step
run-Paid n [] s f p = subst (λ k. Paid k s) (omega arith) p
run-Paid n (shuts_down ∷ es) s f p =
    subst (λ k. Paid k (shutdown_run es (shutdown s))) (omega arith)
      (run-Paid (suc n) es (shutdown s) f.1 (shutdown-Paid n s p))
run-Paid n (asks_next ∷ es) s f p =
    subst (λ k. Paid k (shutdown_run es (advance_phase s))) (omega arith)
      (run-Paid (suc n) es (advance_phase s) f.1 (request-Paid n s p))
run-Paid n (marks ∷ es) s f p = run-Paid n es _ f.1 (mark_pending-Paid n s.wanting s refl p)
run-Paid n (advances ∷ es) s f p = run-Paid n es _ f.1 (advance_step-Paid n s.holder s refl p)
run-Paid n (drops ∷ es) s f p = run-Paid n es _ f.1 (drop_pending-Paid n s.dropping s p)
run-Paid n (forces ∷ es) s f p = elim f.0 [ ]

-- As long as the end is not forced, the shutdown is at most as many phases further than Normal as
-- there have been calls of Shutdown and NextPhase, however the operations of the threads follow each other.
pub shutdown_run-requests :
    (is_set : Callback → Bool) (es : List ShutdownStep)
    → All NotForced es
    → rank (shutdown_run es (initialize is_set)).current_phase ≤ requests es
unfolding initialize
shutdown_run-requests is_set es f = omega (
  arith,
  run-Paid 0 es (initialize is_set) f
      (record { covered = omega arith; fresh = tt; alone = λ a. refl }),
)
