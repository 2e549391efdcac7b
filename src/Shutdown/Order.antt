-- ===== src/Shutdown/Order.antt =====
-- src/async/shutdown.cpp: the order of the callbacks, where one thread advances.
use gb_server.Base.{
  if◌then◌else◌, Bool-cases, if_intro, take, ℕ, ◌≡◌, refl, sym, ap, ◌∙◌, ◌≢◌, ◌⊎◌, inl, inr, Bool,
  true, false, List, [], ◌∷◌, ◌++◌, append-nil, arith,
}
use mathlib.Core.Path.{subst}
use gb_server.Shutdown.{
  ShutdownPhase, normal, stopping_io, completing_timers, processing_tasks, cleaning, done, Callback,
  on_stop_io, on_complete_timers, on_process_tasks, on_cleanup, Holder, outside, looping, checking,
  leaving, loaded, calling, ShutdownManager, next_phase, load_phase, call, run_callback,
  advance_step,
}

abbrev pub rank : ShutdownPhase → ℕ
rank normal = 0
rank stopping_io = 1
rank completing_timers = 2
rank processing_tasks = 3
rank cleaning = 4
rank done = 5

abbrev pub all_callbacks : List Callback
all_callbacks = on_stop_io ∷ on_complete_timers ∷ on_process_tasks ∷ on_cleanup ∷ []

-- The callbacks that are set, in their order.
abbrev pub chosen : (Callback → Bool) → List Callback → List Callback
chosen is_set [] = []
chosen is_set (c ∷ cs) = let rest = chosen is_set cs in if is_set c then c ∷ rest else rest

-- The callbacks of the phases before `p`.
abbrev pub due : (Callback → Bool) → ShutdownPhase → List Callback
due is_set p = chosen is_set (take (rank p) all_callbacks)

abbrev pub IsAt : ShutdownPhase → ShutdownPhase → Type 0
IsAt q p = (p ≡ q) ⊎ (p ≡ done)

-- `q` is the phase whose predecessors have run their callbacks.
abbrev pub Holds : ShutdownPhase → Holder → ShutdownPhase → Type 0
Holds q (loaded c) p = (q ≡ c) × IsAt q p
Holds q (calling c) p = (q ≡ c) × IsAt (next_phase q) p
Holds q h p = IsAt q p

pub record InOrder (is_set : Callback → Bool) (s : ShutdownManager) : Type 0 where
  pub at : ShutdownPhase
  pub holds : Holds at s.holder s.current_phase
  pub called : s.calls ≡ due is_set at
  pub same : s.is_set ≡ is_set

-- The callback of a phase comes next.
due-call :
    (is_set : Callback → Bool) (c : Callback) (p : ShutdownPhase) (s : ShutdownManager)
    → due is_set (next_phase p) ≡ due is_set p ++ chosen is_set (c ∷ [])
    → IsAt (next_phase p) s.current_phase
    → s.calls ≡ due is_set p
    → s.is_set ≡ is_set
    → InOrder is_set (call c s)
unfolding call
due-call is_set c p s d h e w = elim (Bool-cases (s.is_set c)) [
  | inl there ↦
      let there' : is_set c ≡ true = ap (λ f. f c) (sym w) ∙ there in
      rw there (record { at = next_phase p; holds = h; called = rw (d, e, there'); same = w })
  | inr empty ↦
      let empty' : is_set c ≡ false = ap (λ f. f c) (sym w) ∙ empty in
      rw empty
        (record { at = next_phase p; holds = h; called = rw (d, e, empty', append-nil); same = w })
]

run_callback-InOrder :
    (is_set : Callback → Bool) (p : ShutdownPhase) (s : ShutdownManager)
    → IsAt (next_phase p) s.current_phase
    → s.calls ≡ due is_set p
    → s.is_set ≡ is_set
    → InOrder is_set (run_callback p s)
unfolding run_callback next_phase
run_callback-InOrder is_set normal s h e w = due-call is_set on_stop_io normal s refl h e w
run_callback-InOrder is_set stopping_io s h e w =
    due-call is_set on_complete_timers stopping_io s (ground arith) h e w
run_callback-InOrder is_set completing_timers s h e w =
    due-call is_set on_process_tasks completing_timers s (ground arith) h e w
run_callback-InOrder is_set processing_tasks s h e w =
    due-call is_set on_cleanup processing_tasks s (ground arith) h e w
run_callback-InOrder is_set cleaning s h e w = record { at = done; holds = h; called = e; same = w }
run_callback-InOrder is_set done s h e w = record { at = done; holds = h; called = e; same = w }

loaded-InOrder :
    (is_set : Callback → Bool) (q p : ShutdownPhase) (s : ShutdownManager)
    → p ≢ done
    → IsAt q p
    → s.current_phase ≡ p
    → s.calls ≡ due is_set q
    → s.is_set ≡ is_set
    → InOrder is_set (record s { holder = loaded p })
loaded-InOrder is_set q p s n (inl h) k e w = record {
  at = q;
  holds = (sym h, inl (k ∙ h));
  called = e;
  same = w;
}
loaded-InOrder is_set q p s n (inr h) k e w = absurd (n h)

load_phase-InOrder :
    (is_set : Callback → Bool) (q p : ShutdownPhase) (s : ShutdownManager)
    → IsAt q p
    → s.current_phase ≡ p
    → s.calls ≡ due is_set q
    → s.is_set ≡ is_set
    → InOrder is_set (load_phase p s)
unfolding load_phase
load_phase-InOrder is_set q normal s h k e w = loaded-InOrder is_set q normal s (λ n. cc) h k e w
load_phase-InOrder is_set q stopping_io s h k e w =
    loaded-InOrder is_set q stopping_io s (λ n. cc) h k e w
load_phase-InOrder is_set q completing_timers s h k e w =
    loaded-InOrder is_set q completing_timers s (λ n. cc) h k e w
load_phase-InOrder is_set q processing_tasks s h k e w =
    loaded-InOrder is_set q processing_tasks s (λ n. cc) h k e w
load_phase-InOrder is_set q cleaning s h k e w =
    loaded-InOrder is_set q cleaning s (λ n. cc) h k e w
load_phase-InOrder is_set q done s h k e w = record { at = q; holds = inr k; called = e; same = w }

-- The place of a thread is rewritten where the phases are described.
pub Holds-at :
    {is_set : Callback → Bool} {s : ShutdownManager} {h : Holder} (i : InOrder is_set s)
    → s.holder ≡ h
    → Holds i.at h s.current_phase
Holds-at {is_set} {s} i e = subst (λ h. Holds i.at h s.current_phase) e i.holds

pub advance_step-InOrder :
    (is_set : Callback → Bool) (h : Holder) (s : ShutdownManager)
    → s.holder ≡ h
    → InOrder is_set s
    → InOrder is_set (advance_step h s)
unfolding advance_step
advance_step-InOrder is_set outside s e i = i
advance_step-InOrder is_set looping s e i =
    load_phase-InOrder is_set i.at s.current_phase s (Holds-at i e) refl i.called i.same
advance_step-InOrder is_set (loaded c) s e i =
    let (p, q) = Holds-at i e in
    record { at = i.at; holds = (p, inl (ap next_phase (sym p))); called = i.called; same = i.same }
advance_step-InOrder is_set (calling c) s e i =
    let (p, q) = Holds-at i e in
    run_callback-InOrder is_set c s (subst (λ r. IsAt (next_phase r) s.current_phase) p q)
      (i.called ∙ ap (due is_set) p) i.same
advance_step-InOrder is_set checking s e i = record {
  at = i.at;
  holds =
      if_intro (λ h. Holds i.at h s.current_phase) s.pending_advance (λ b. Holds-at i e)
        (λ b. Holds-at i e);
  called = i.called;
  same = i.same;
}
advance_step-InOrder is_set leaving s e i = record {
  at = i.at;
  holds = Holds-at i e;
  called = i.called;
  same = i.same;
}
