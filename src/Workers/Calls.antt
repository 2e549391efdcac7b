-- ===== src/Workers/Calls.antt =====
-- The pending calls of a worker and the numbers that they get.
use gb_server.Base.{
  ℕ, zero, suc, ◌+◌, ◌%◌, ◌^◌, ◌<◌, ◌≡◌, refl, sym, ◌∙◌, ◌≢◌, Option, none, some, [], ◌∷◌, arith,
}
use gb_server.Workers.{
  Pending, without, find, Worker, alloc_rpc_seq, store_pending_rpc, take_found, take_pending_rpc,
}

find-without {ℓ} :
    {Call : Type ℓ} (seq : ℕ) (calls : Pending Call) → find seq (without seq calls) ≡ none
find-without seq [] = refl
find-without seq ((k, call) ∷ calls) = ground (arith, find-without seq calls)

pub find-without_other {ℓ} :
    {Call : Type ℓ} (seq other : ℕ) (calls : Pending Call)
    → other ≢ seq
    → find other (without seq calls) ≡ find other calls
find-without_other seq other [] h = refl
find-without_other seq other ((k, call) ∷ calls) h =
    ground (arith, find-without_other seq other calls h)

first {ℓ} :
    {Call : Type ℓ} (seq : ℕ) (call : Call) (calls : Pending Call)
    → find seq ((seq, call) ∷ calls) ≡ some call
first seq call calls = ground arith

other_first {ℓ} :
    {Call : Type ℓ} (seq other : ℕ) (call : Call) (calls : Pending Call)
    → other ≢ seq
    → find other ((seq, call) ∷ calls) ≡ find other calls
other_first seq other call calls h = ground arith

module _ (Task Call : Type 0) where
  found_first : (seq : ℕ) (w : Worker Task Call) (o : Option Call) → (take_found seq w o).0 ≡ o
  unfolding take_found
  found_first seq w none = refl
  found_first seq w (some call) = refl

  take-find :
      (seq : ℕ) (w : Worker Task Call) → (take_pending_rpc seq w).0 ≡ find seq w.pending_rpcs
  unfolding take_pending_rpc
  take-find seq w = found_first seq w (find seq w.pending_rpcs)

  found_gone :
      (seq : ℕ) (w : Worker Task Call) (o : Option Call)
      → find seq w.pending_rpcs ≡ o
      → find seq (take_found seq w o).1.pending_rpcs ≡ none
  unfolding take_found
  found_gone seq w none e = e
  found_gone seq w (some call) e = find-without seq w.pending_rpcs

  take-gone :
      (seq : ℕ) (w : Worker Task Call) → find seq (take_pending_rpc seq w).1.pending_rpcs ≡ none
  unfolding take_pending_rpc
  take-gone seq w = found_gone seq w (find seq w.pending_rpcs) refl

  -- A call that has been stored is taken under its number, once; what is taken under another number
  -- is what would have been taken without it.
  pub take-store :
      (seq : ℕ) (call : Call) (w : Worker Task Call)
      → ((take_pending_rpc seq (store_pending_rpc seq call w)).0 ≡ some call)
        × ((take_pending_rpc seq (take_pending_rpc seq (store_pending_rpc seq call w)).1).0 ≡ none)
        × ((other : ℕ)
            → other ≢ seq
            → (take_pending_rpc other (store_pending_rpc seq call w)).0
              ≡ (take_pending_rpc other w).0)
  unfolding store_pending_rpc
  take-store seq call w =
      let stored = store_pending_rpc seq call w in
      (
        take-find seq stored ∙ first seq call (without seq w.pending_rpcs),
        take-find seq (take_pending_rpc seq stored).1 ∙ take-gone seq stored,
        λ other h.
            take-find other stored
            ∙ other_first seq other call (without seq w.pending_rpcs) h
            ∙ find-without_other seq other w.pending_rpcs h
            ∙ sym (take-find other w),
      )

  -- The worker after `n` calls of `AllocRpcSeq`.
  abbrev pub after_allocs : ℕ → Worker Task Call → Worker Task Call
  after_allocs zero w = w
  after_allocs (suc n) w = (alloc_rpc_seq (after_allocs n w)).1

  alloc-eq :
      (n : ℕ) (w : Worker Task Call)
      → w.rpc_seq_counter < 2 ^ 32
      → (after_allocs n w).rpc_seq_counter ≡ (w.rpc_seq_counter + n) % 2 ^ 32
  unfolding alloc_rpc_seq
  alloc-eq zero w h = omega (arith, h)
  alloc-eq (suc n) w h = omega (arith, alloc-eq n w h)

  -- Two calls of `AllocRpcSeq` with fewer than 2 ^ 32 - 1 calls between them give different numbers.
  pub alloc-distinct :
      (i d : ℕ) (w : Worker Task Call)
      → w.rpc_seq_counter < 2 ^ 32
      → 0 < d
      → d < 2 ^ 32
      → (alloc_rpc_seq (after_allocs i w)).0 ≢ (alloc_rpc_seq (after_allocs (i + d) w)).0
  unfolding alloc_rpc_seq
  alloc-distinct i d w h lo hi e = omega (arith, e, alloc-eq i w h, alloc-eq (i + d) w h)
