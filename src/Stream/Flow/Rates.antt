-- ===== src/Stream/Flow/Rates.antt =====
-- What the quotas of src/message_stream/flow_controller.cpp let through.
use gb_server.Base.{
  ltb, if◌then◌else◌, ltb→lt, le→leb, lt→leb_false, Bool-cases, length, All, ℤ, pos, negsuc, ℕ,
  zero, suc, ◌+◌, ◌-◌, ◌^◌, ◌≤◌, ◌<◌, ◌≡◌, refl, ap, ◌∙◌, inl, inr, false, List, [], ◌∷◌, arith,
}
use gb_server.Stream.Flow.{
  Quota, FlowController, add_ℕ, is_positive, recharge, acquire, recharge_write_quota,
  acquire_write_quota,
}
use gb_server.Stream.Split.{remaining}

-- The amounts that a sequence of calls is granted, by the results of the calls.
abbrev pub granted : List ℕ → FlowController → ℕ
granted [] c = 0
granted (amount ∷ amounts) c =
    let (result, c') = acquire_write_quota amount c in
    let later = granted amounts c' in if is_positive result then amount + later else later

granted_by : List ℕ → ℤ → ℕ
granted_by [] z = 0
granted_by (a ∷ rest) z =
    let more = granted_by rest (remaining z a) in
    let less = granted_by rest (remaining z 1) in if is_positive z then a + more else less

abbrev limited : Quota → ℤ → FlowController
limited read z = record { read = read; write = record { no_limit = false; quota = z } }

granted-limited :
    (amounts : List ℕ) (read : Quota) (z : ℤ)
    → granted amounts (limited read z) ≡ granted_by amounts z
unfolding granted_by acquire_write_quota acquire
granted-limited [] read z = refl
granted-limited (a ∷ rest) read z = elim (Bool-cases (is_positive z)) [
  | inl some_left ↦ rw some_left (ap (λ n. a + n) (granted-limited rest read (remaining z a)))
  | inr none_left ↦ rw none_left (granted-limited rest read (remaining z 1))
]

granted_none : (amounts : List ℕ) (z : ℤ) → is_positive z ≡ false → granted_by amounts z ≡ 0
unfolding granted_by
granted_none [] z e = refl
granted_none (a ∷ rest) (pos n) e = ground (arith, granted_none rest (remaining (pos n) 1))
granted_none (a ∷ rest) (negsuc n) e = granted_none rest (negsuc (n + 1)) refl

used_up : (n a : ℕ) → ltb a n ≡ false → is_positive (remaining (pos n) a) ≡ false
used_up n a h = ground arith

granted-lt :
    (amounts : List ℕ) (most n : ℕ)
    → All (λ a. a ≤ most) amounts
    → 0 < n
    → granted_by amounts (pos n) < n + most
unfolding granted_by
granted-lt [] most n h k = omega (arith, k)
granted-lt (a ∷ rest) most n h k = elim (Bool-cases (ltb a n)) [
  | inl less ↦
      let a_lt : a < n = ltb→lt a n less in
      rw (le→leb 1 n k, le→leb a n (omega arith))
        (omega (arith, granted-lt rest most (n - a) h.1 (omega arith)))
  | inr all_used ↦
      let nothing : granted_by rest (remaining (pos n) a) ≡ 0 =
        granted_none rest (remaining (pos n) a) (used_up n a all_used) in
      rw (le→leb 1 n k, nothing) (omega (arith, h.0))
]

after_recharge : ℕ → ℤ → ℤ
after_recharge amount z = if is_positive z then pos amount else add_ℕ z amount

-- A quota of at most `n`.
abbrev UpTo : ℕ → ℤ → Type 0
UpTo n (pos m) = m ≤ n
UpTo n (negsuc m) = Unit {0}

after_recharge-UpTo : (amount : ℕ) (z : ℤ) → 0 < amount → UpTo amount (after_recharge amount z)
unfolding after_recharge
after_recharge-UpTo amount (pos m) k = ground arith
after_recharge-UpTo amount (negsuc m) k = ground arith

at_most :
    (amounts : List ℕ) (most amount : ℕ) (z : ℤ)
    → All (λ a. a ≤ most) amounts
    → 0 < amount
    → UpTo amount z
    → granted_by amounts z < amount + most
at_most amounts most amount (pos zero) h k u = omega (arith, granted_none amounts (pos zero) refl)
at_most amounts most amount (pos (suc n)) h k u =
    omega (arith, granted-lt amounts most (suc n) h (omega arith))
at_most amounts most amount (negsuc n) h k u = omega (arith, granted_none amounts (negsuc n) refl)

recharged :
    (amount : ℕ) (c : FlowController)
    → c.write.no_limit ≡ false
    → recharge_write_quota amount c ≡ limited c.read (after_recharge amount c.write.quota)
unfolding recharge_write_quota recharge after_recharge
recharged amount c e =
    ap
      (λ b. record {
        read = c.read;
        write = if b then record { no_limit = b; quota = c.write.quota } else record {
          no_limit = b;
          quota = if is_positive c.write.quota then pos amount else add_ℕ c.write.quota amount;
        };
      })
      e

-- The controller after a sequence of calls.
abbrev pub after_requests : List ℕ → FlowController → FlowController
after_requests [] c = c
after_requests (amount ∷ amounts) c = after_requests amounts (acquire_write_quota amount c).1

-- A quota of at least `- n`.
abbrev pub AtLeast : ℕ → ℤ → Type 0
AtLeast n (pos m) = Unit {0}
AtLeast n (negsuc m) = suc m ≤ n

request-AtLeast :
    (n most a : ℕ) (z : ℤ)
    → a ≤ most
    → most ≤ n
    → AtLeast n z
    → AtLeast (suc n) (if is_positive z then remaining z a else remaining z 1)
request-AtLeast n most a (pos zero) h k l = ground arith
request-AtLeast n most a (pos (suc m)) h k l = ground arith
request-AtLeast n most a (negsuc m) h k l = omega (arith, l)

AtLeast-le : (n n' : ℕ) (z : ℤ) → n ≤ n' → AtLeast n z → AtLeast n' z
AtLeast-le n n' (pos m) h l = tt
AtLeast-le n n' (negsuc m) h l = omega (arith, l)

requests-AtLeast :
    (amounts : List ℕ) (n most : ℕ) (read : Quota) (z : ℤ)
    → All (λ a. a ≤ most) amounts
    → most ≤ n
    → AtLeast n z
    → AtLeast (n + length amounts) (after_requests amounts (limited read z)).write.quota
unfolding acquire_write_quota acquire
requests-AtLeast [] n most read z h k l = AtLeast-le n (n + 0) z (omega arith) l
requests-AtLeast (a ∷ amounts) n most read z h k l =
    let z' : ℤ = if is_positive z then remaining z a else remaining z 1 in
    AtLeast-le (suc n + length amounts) (n + suc (length amounts))
      (after_requests amounts (limited read z')).write.quota (omega arith)
      (requests-AtLeast amounts (suc n) most read z' h.1 (omega arith)
        (request-AtLeast n most a z h.0 k l))

after_recharge-AtLeast : (n amount : ℕ) (z : ℤ) → AtLeast n z → AtLeast n (after_recharge amount z)
unfolding after_recharge
after_recharge-AtLeast n amount (pos m) l = ground arith
after_recharge-AtLeast n amount (negsuc m) l = ground arith

-- After a recharge of a limited write quota, which is at least `- n`, and until the next one, requests
-- of at most `most` each are granted less than the recharged amount, which is not 0, and `most`
-- together, whatever was granted before. Where `n`, `most` and the number of the requests make at most
-- 2^31, the quota does not leave the range of an int downwards. Amounts are not negative.
pub recharge-granted :
    (amount most n : ℕ) (amounts : List ℕ) (c : FlowController)
    → c.write.no_limit ≡ false
    → All (λ a. a ≤ most) amounts
    → 0 < amount
    → amount < 2 ^ 31
    → AtLeast n c.write.quota
    → n + most + length amounts ≤ 2 ^ 31
    → (granted amounts (recharge_write_quota amount c) < amount + most)
      × AtLeast (2 ^ 31) (after_requests amounts (recharge_write_quota amount c)).write.quota
recharge-granted amount most n amounts c e h k fits l room =
    let z : ℤ = after_recharge amount c.write.quota in
    (
      omega (
        arith,
        ap (granted amounts) (recharged amount c e) ∙ granted-limited amounts c.read z,
        at_most amounts most amount z h k (after_recharge-UpTo amount c.write.quota k),
      ),
      rw (recharged amount c e) (
          AtLeast-le (n + most + length amounts) (2 ^ 31)
            (after_requests amounts (limited c.read z)).write.quota room
            (requests-AtLeast amounts (n + most) most c.read z h (omega arith) (
              AtLeast-le n (n + most) z (omega arith)
                (after_recharge-AtLeast n amount c.write.quota l)))),
    )

remaining-one :
    (z : ℤ) (n : ℕ) → is_positive z ≡ false → remaining (remaining z 1) n ≡ remaining z (suc n)
remaining-one (pos zero) n e = rw (lt→leb_false (suc n) 0 (omega arith)) (ap negsuc (omega arith))
remaining-one (pos (suc m)) n e = ground arith
remaining-one (negsuc m) n e = ap negsuc (omega arith)

still_none : (z : ℤ) → is_positive z ≡ false → is_positive (remaining z 1) ≡ false
still_none (pos zero) e = refl
still_none (pos (suc m)) e = ground arith
still_none (negsuc m) e = refl

plus_zero : (n : ℕ) → n ≡ n + 0
plus_zero n = omega arith

result-limited :
    (amounts : List ℕ) (amount : ℕ) (read : Quota) (z : ℤ)
    → is_positive z ≡ false
    → (acquire_write_quota amount (after_requests amounts (limited read z))).0
      ≡ remaining z (length amounts)
unfolding acquire_write_quota acquire
result-limited [] amount read (pos zero) e = refl
result-limited [] amount read (pos (suc n)) e = ground arith
result-limited [] amount read (negsuc n) e = ap negsuc (plus_zero n)
result-limited (a ∷ amounts) amount read z e =
    ap
      (λ b.
        (acquire_write_quota amount
          (after_requests amounts (limited read (if b then remaining z a else remaining z 1)))).0)
      e
    ∙ result-limited amounts amount read (remaining z 1) (still_none z e)
    ∙ remaining-one z (length amounts) e

-- Where a limited write quota is used up, each call is refused with a result one below that of the call
-- before, whatever the amounts: the results number the refused calls in their order.
pub acquire-refused :
    (amounts : List ℕ) (amount : ℕ) (c : FlowController)
    → c.write.no_limit ≡ false
    → is_positive c.write.quota ≡ false
    → (acquire_write_quota amount (after_requests amounts c)).0
      ≡ remaining c.write.quota (length amounts)
acquire-refused amounts amount c e no_quota =
    ap
      (λ b.
        (acquire_write_quota amount (
          after_requests amounts
            (record { read = c.read; write = record { no_limit = b; quota = c.write.quota } }))).0)
      e
    ∙ result-limited amounts amount c.read c.write.quota no_quota
