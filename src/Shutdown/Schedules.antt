-- ===== src/Shutdown/Schedules.antt =====
-- src/async/shutdown.cpp: the order of the callbacks under any schedule of the threads.
use gb_server.Base.{
  Bool-cases, if_intro, take, ℕ, zero, suc, ◌≡◌, refl, ◌⊎◌, inl, inr, Bool, true, false, List, [],
  ◌∷◌, arith,
}
use mathlib.Core.Path.{subst}
use gb_server.Shutdown.{
  ShutdownPhase, normal, done, Callback, Holder, outside, looping, checking, leaving, loaded,
  calling, ShutdownManager, initialize, advance_phase, mark_pending, load_phase, call, run_callback,
  advance_step, drop_pending, shutdown, force_shutdown, ShutdownStep, shuts_down, asks_next, marks,
  advances, drops, forces, shutdown_step, shutdown_run,
}
use gb_server.Shutdown.Order.{
  rank, all_callbacks, chosen, Holds, InOrder, Holds-at, advance_step-InOrder,
}

force-Holds : (q : ShutdownPhase) (h : Holder) (p : ShutdownPhase) → Holds q h p → Holds q h done
force-Holds q outside p k = inr refl
force-Holds q looping p k = inr refl
force-Holds q checking p k = inr refl
force-Holds q leaving p k = inr refl
force-Holds q (loaded c) p k = (k.0, inr refl)
force-Holds q (calling c) p k = (k.0, inr refl)

-- is_advancing_ is set while a thread advances.
enter-Holds :
    (q : ShutdownPhase) (h : Holder) (p : ShutdownPhase)
    → h ≡ outside
    → Holds q h p
    → Holds q looping p
enter-Holds q h p e k = subst (λ h. Holds q h p) e k

advance_phase-InOrder :
    (is_set : Callback → Bool) (s : ShutdownManager)
    → (s.is_advancing ≡ false → s.holder ≡ outside)
    → InOrder is_set s
    → InOrder is_set (advance_phase s)
unfolding advance_phase
advance_phase-InOrder is_set s f i = elim (Bool-cases s.is_advancing) [
  | inl busy ↦ rw busy (record { at = i.at; holds = i.holds; called = i.called; same = i.same })
  | inr free ↦ rw free (record {
    at = i.at;
    holds = enter-Holds i.at s.holder s.current_phase (f free) i.holds;
    called = i.called;
    same = i.same;
  })
]

-- The order does not depend on the flags.
flags-InOrder :
    {is_set : Callback → Bool} {s : ShutdownManager} (b c d : Bool) (m n : ℕ)
    → InOrder is_set s
    → InOrder is_set (record s {
      shutdown_requested = b;
      is_advancing = c;
      pending_advance = d;
      wanting = m;
      dropping = n;
    })
flags-InOrder b c d m n i = record { at = i.at; holds = i.holds; called = i.called; same = i.same }

mark_pending-InOrder :
    (is_set : Callback → Bool) (n : ℕ) (s : ShutdownManager)
    → InOrder is_set s
    → InOrder is_set (mark_pending n s)
unfolding mark_pending
mark_pending-InOrder is_set zero s i = i
mark_pending-InOrder is_set (suc n) s i = flags-InOrder _ _ _ _ _ i

drop_pending-InOrder :
    (is_set : Callback → Bool) (n : ℕ) (s : ShutdownManager)
    → InOrder is_set s
    → InOrder is_set (drop_pending n s)
unfolding drop_pending
drop_pending-InOrder is_set zero s i = i
drop_pending-InOrder is_set (suc n) s i = flags-InOrder _ _ _ _ _ i

shutdown-InOrder :
    (is_set : Callback → Bool) (s : ShutdownManager)
    → (s.is_advancing ≡ false → s.holder ≡ outside)
    → InOrder is_set s
    → InOrder is_set (shutdown s)
unfolding shutdown
shutdown-InOrder is_set s f i =
    if_intro (InOrder is_set) s.shutdown_requested (λ b. i)
      (λ b.
        advance_phase-InOrder is_set (record s { shutdown_requested = true }) f
          (flags-InOrder true s.is_advancing s.pending_advance s.wanting s.dropping i))

-- A thread advances only while is_advancing_ is set.
abbrev pub IsAlone : ShutdownManager → Type 0
IsAlone s = s.is_advancing ≡ false → s.holder ≡ outside

advance_step-IsAlone :
    (h : Holder) (s : ShutdownManager) → s.holder ≡ h → IsAlone s → IsAlone (advance_step h s)
unfolding advance_step load_phase run_callback call
advance_step-IsAlone outside s e a = a
advance_step-IsAlone leaving s e a = λ f. refl
advance_step-IsAlone h s e a = ground arith

step-IsAlone : (e : ShutdownStep) (s : ShutdownManager) → IsAlone s → IsAlone (shutdown_step e s)
unfolding shutdown_step shutdown advance_phase mark_pending drop_pending force_shutdown
step-IsAlone advances s a = advance_step-IsAlone s.holder s refl a
step-IsAlone forces s a = a
step-IsAlone e s a = ground arith

step-InOrder :
    (is_set : Callback → Bool) (e : ShutdownStep) (s : ShutdownManager)
    → IsAlone s
    → InOrder is_set s
    → InOrder is_set (shutdown_step e s)
unfolding shutdown_step force_shutdown
step-InOrder is_set shuts_down s a i = shutdown-InOrder is_set s a i
step-InOrder is_set asks_next s a i = advance_phase-InOrder is_set s a i
step-InOrder is_set marks s a i = mark_pending-InOrder is_set s.wanting s i
step-InOrder is_set advances s a i = advance_step-InOrder is_set s.holder s refl i
step-InOrder is_set drops s a i = drop_pending-InOrder is_set s.dropping s i
step-InOrder is_set forces s a i = record {
  at = i.at;
  holds = force-Holds i.at s.holder s.current_phase i.holds;
  called = i.called;
  same = i.same;
}

run-InOrder :
    (is_set : Callback → Bool) (es : List ShutdownStep) (s : ShutdownManager)
    → IsAlone s
    → InOrder is_set s
    → InOrder is_set (shutdown_run es s)
run-InOrder is_set [] s a i = i
run-InOrder is_set (e ∷ es) s a i =
    run-InOrder is_set es (shutdown_step e s) (step-IsAlone e s a) (step-InOrder is_set e s a i)

-- Whatever threads ask for the shutdown, for the next phase and for the end at once, and however
-- their operations follow each other: the callbacks that have run are those of the first phases
-- up to some phase that are set, each once and in the order of the phases; and where no thread is
-- advancing, the current phase is that phase, or Done.
pub shutdown_run-order :
    (is_set : Callback → Bool) (es : List ShutdownStep)
    → let s = shutdown_run es (initialize is_set) in
      (q : ShutdownPhase) × (s.calls ≡ chosen is_set (take (rank q) all_callbacks))
      × (s.holder ≡ outside → (s.current_phase ≡ q) ⊎ (s.current_phase ≡ done))
unfolding initialize
shutdown_run-order is_set es =
    let i =
      run-InOrder is_set es (initialize is_set) (λ f. refl)
        (record { at = normal; holds = inl refl; called = refl; same = refl }) in
    (i.at, i.called, λ e. Holds-at i e)
