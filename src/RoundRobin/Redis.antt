-- ===== src/RoundRobin/Redis.antt =====
-- src/db/redis/redis_pool.cpp: the connections of a pool in turn. A connection is a number; which of
-- them are connected when the pool is asked is an argument.
use gb_server.Base.{
  if◌then◌else◌, Option-cases, some_injective, length, get_elem?, ℕ, zero, suc, ◌+◌, ◌%◌, ◌^◌, ◌<◌,
  ◌≡◌, refl, sym, ap, ◌∙◌, ◌↔◌, inl, inr, Bool, true, false, Option, none, some, List, [], ◌∷◌,
  arith,
}
use native.Mathlib.Nat.{add-zero, mod-lt}
use gb_server.RoundRobin.Turns.{turn_reaches}

pub record RedisPool : Type 0 where
  pub connections : List ℕ
  pub next_index : ℕ

-- `Init` keeps each connection, also where its Connect fails; there is at least one.
unfoldable pub configured_size : ℕ → ℕ
configured_size zero = 1
configured_size (suc n) = suc n

unfoldable pub make_connections : (ℕ → ℕ) → ℕ → List ℕ → List ℕ
make_connections make zero made = made
make_connections make (suc left) made = make_connections make left (make left ∷ made)

unfoldable pub init_pool : (ℕ → ℕ) → ℕ → RedisPool → RedisPool
unfolding configured_size make_connections
init_pool make configured p = record p {
  connections = make_connections make (configured_size configured) [];
}

unfoldable pub close_all : RedisPool → RedisPool
close_all p = record p { connections = [] }

-- A connection at an index of the vector, if it is there and connected.
unfoldable pub healthy_at : (ℕ → Bool) → List ℕ → ℕ → Option ℕ
healthy_at connected connections i = elim (get_elem? connections i) [
  | none ↦ none
  | some conn ↦ if connected conn then some conn else none
]

-- The loop over the other connections, from the `i`-th on; `left` rounds are left.
unfoldable pub try_others : (ℕ → Bool) → List ℕ → ℕ → ℕ → ℕ → Option ℕ
unfolding healthy_at
try_others connected connections idx i zero = none
try_others connected connections idx i (suc left) =
    let rest = try_others connected connections idx (i + 1) left in
    elim (healthy_at connected connections ((idx + 1 + i) % length connections)) [
      | some conn ↦ some conn
      | none ↦ rest
    ]

unfoldable pub get_from : (ℕ → Bool) → List ℕ → ℕ → Option ℕ
unfolding try_others healthy_at
get_from connected connections idx = elim (healthy_at connected connections idx) [
  | some conn ↦ some conn
  | none ↦ try_others connected connections idx 0 (length connections)
]

unfoldable pub get_of : (ℕ → Bool) → List ℕ → RedisPool → Option ℕ × RedisPool
unfolding get_from
get_of connected [] p = (none, p)
get_of connected (conn ∷ rest) p = (
  get_from connected (conn ∷ rest) (p.next_index % length (conn ∷ rest)),
  record p { next_index = (p.next_index + 1) % 2 ^ 64 },
)

unfoldable pub get_connection : (ℕ → Bool) → RedisPool → Option ℕ × RedisPool
unfolding get_of
get_connection connected p = get_of connected p.connections p

abbrev pub count_in : (ℕ → Bool) → List ℕ → ℕ
count_in connected [] = 0
count_in connected (conn ∷ rest) = (if connected conn then 1 else 0) + count_in connected rest

unfoldable pub count_healthy : (ℕ → Bool) → RedisPool → ℕ
count_healthy connected p = count_in connected p.connections

healthy_at-none :
    (connected : ℕ → Bool) (xs : List ℕ) (i : ℕ) {conn : ℕ}
    → healthy_at connected xs i ≡ none
    → get_elem? xs i ≡ some conn
    → connected conn ≡ false
unfolding healthy_at
healthy_at-none connected xs i h e = ground arith

healthy_at-some :
    (connected : ℕ → Bool) (xs : List ℕ) (i : ℕ) {conn : ℕ}
    → healthy_at connected xs i ≡ some conn
    → (get_elem? xs i ≡ some conn) × (connected conn ≡ true)
unfolding healthy_at
healthy_at-some connected xs i h = ground arith

-- A connection of the list that is connected.
abbrev pub IsHealthy : (ℕ → Bool) → List ℕ → ℕ → Type 0
IsHealthy connected xs conn = (i : ℕ) × (get_elem? xs i ≡ some conn) × (connected conn ≡ true)

try_others-some :
    (connected : ℕ → Bool) (xs : List ℕ) (idx i left : ℕ) {conn : ℕ}
    → try_others connected xs idx i left ≡ some conn
    → IsHealthy connected xs conn
unfolding try_others
try_others-some connected xs idx i zero h = cc
try_others-some connected xs idx i (suc left) {conn} h =
    let at = (idx + 1 + i) % length xs in
    elim (Option-cases (healthy_at connected xs at)) [
      | inl e ↦ try_others-some connected xs idx (i + 1) left (rw (e, try_others) at h)
      | inr (c, e) ↦
          let same : c ≡ conn = some_injective (rw (e, try_others) at h) in
          let (there, on) = healthy_at-some connected xs at (e ∙ ap (λ x. some x) same) in
          (at, there, on)
    ]

try_others-none :
    (connected : ℕ → Bool) (xs : List ℕ) (idx i left k : ℕ)
    → try_others connected xs idx i left ≡ none
    → k < left
    → healthy_at connected xs ((idx + 1 + (i + k)) % length xs) ≡ none
unfolding try_others
try_others-none connected xs idx i zero k h l = absurd (omega arith)
try_others-none connected xs idx i (suc left) zero h l =
    elim (Option-cases (healthy_at connected xs ((idx + 1 + i) % length xs))) [
      | inl e ↦ ap (λ n. healthy_at connected xs ((idx + 1 + n) % length xs)) (add-zero i) ∙ e
      | inr (c, e) ↦ cc (rw (e, try_others) at h)
    ]
try_others-none connected xs idx i (suc left) (suc k) h l =
    elim (Option-cases (healthy_at connected xs ((idx + 1 + i) % length xs))) [
      | inl e ↦
          ap (λ n. healthy_at connected xs ((idx + 1 + n) % length xs)) (omega arith)
          ∙ try_others-none connected xs idx (i + 1) left k (rw (e, try_others) at h) (omega arith)
      | inr (c, e) ↦ cc (rw (e, try_others) at h)
    ]

count_in-zero :
    (connected : ℕ → Bool) (xs : List ℕ)
    → ((i conn : ℕ) → get_elem? xs i ≡ some conn → connected conn ≡ false)
    → count_in connected xs ≡ 0
count_in-zero connected [] h = refl
count_in-zero connected (x ∷ xs) h =
    rw (h 0 x refl) (omega (arith, count_in-zero connected xs (λ i conn e. h (suc i) conn e)))

count_in-pos :
    (connected : ℕ → Bool) (xs : List ℕ) (i : ℕ) {conn : ℕ}
    → get_elem? xs i ≡ some conn
    → connected conn ≡ true
    → 0 < count_in connected xs
count_in-pos connected [] i e h = cc
count_in-pos connected (x ∷ xs) zero e h = ground arith
count_in-pos connected (x ∷ xs) (suc i) e h = omega (arith, count_in-pos connected xs i e h)

get_elem-bound : (xs : List ℕ) (i : ℕ) {conn : ℕ} → get_elem? xs i ≡ some conn → i < length xs
get_elem-bound [] i h = cc
get_elem-bound (x ∷ xs) zero h = omega arith
get_elem-bound (x ∷ xs) (suc i) h = omega (arith, get_elem-bound xs i h)

-- With no answer, no connection of the list is connected.
get_from-none :
    (connected : ℕ → Bool) (xs : List ℕ) (idx : ℕ)
    → idx < length xs
    → get_from connected xs idx ≡ none
    → (i conn : ℕ) → get_elem? xs i ≡ some conn
    → connected conn ≡ false
unfolding get_from
get_from-none connected xs idx l h i conn e = elim (Option-cases (healthy_at connected xs idx)) [
  | inl q ↦
      let f : try_others connected xs idx 0 (length xs) ≡ none = rw (q, get_from) at h in
      let (k, below, there) = turn_reaches (idx + 1) i (length xs) (get_elem-bound xs i e) in
      let at : (idx + 1 + (0 + k)) % length xs ≡ i =
        ap (λ n. (idx + 1 + n) % length xs) (omega arith) ∙ there in
      healthy_at-none connected xs i
        (ap (healthy_at connected xs) (sym at)
          ∙ try_others-none connected xs idx 0 (length xs) k f below)
        e
  | inr (c, q) ↦ cc (rw (q, get_from) at h)
]

get_from-some :
    (connected : ℕ → Bool) (xs : List ℕ) (idx : ℕ) {conn : ℕ}
    → get_from connected xs idx ≡ some conn
    → IsHealthy connected xs conn
unfolding get_from
get_from-some connected xs idx {conn} h = elim (Option-cases (healthy_at connected xs idx)) [
  | inl q ↦ try_others-some connected xs idx 0 (length xs) (rw (q, get_from) at h)
  | inr (c, q) ↦
      let same : c ≡ conn = some_injective (rw (q, get_from) at h) in
      let (there, on) = healthy_at-some connected xs idx (q ∙ ap (λ x. some x) same) in
      (idx, there, on)
]

get_from-IsHealthy :
    (connected : ℕ → Bool) (xs : List ℕ) (idx : ℕ)
    → idx < length xs
    → (get_from connected xs idx ≡ none ↔ (count_in connected xs ≡ 0))
      × ((conn : ℕ) → get_from connected xs idx ≡ some conn → IsHealthy connected xs conn)
get_from-IsHealthy connected xs idx l = (
  (
    λ h. count_in-zero connected xs (get_from-none connected xs idx l h),
    λ h. elim (Option-cases (get_from connected xs idx)) [
      | inl e ↦ e
      | inr (conn, e) ↦
          let (i, there, on) = get_from-some connected xs idx e in
          absurd (omega (arith, h, count_in-pos connected xs i there on))
    ],
  ),
  λ conn h. get_from-some connected xs idx h,
)

get_of-IsHealthy :
    (connected : ℕ → Bool) (xs : List ℕ) (p : RedisPool)
    → ((get_of connected xs p).0 ≡ none ↔ (count_in connected xs ≡ 0))
      × ((conn : ℕ) → (get_of connected xs p).0 ≡ some conn → IsHealthy connected xs conn)
unfolding get_of
get_of-IsHealthy connected [] p = ((λ h. refl, λ h. refl), λ conn h. cc)
get_of-IsHealthy connected (x ∷ xs) p =
    get_from-IsHealthy connected (x ∷ xs) (p.next_index % length (x ∷ xs))
      (mod-lt p.next_index (omega arith))

-- The pool gives a connection exactly where one of its connections is connected: what it gives is one
-- of them, whatever the index of the next one is and whichever connections are broken.
pub get_connection-IsHealthy :
    (connected : ℕ → Bool) (p : RedisPool)
    → ((get_connection connected p).0 ≡ none ↔ (count_healthy connected p ≡ 0))
      × ((conn : ℕ)
          → (get_connection connected p).0 ≡ some conn
          → IsHealthy connected p.connections conn)
unfolding count_healthy get_connection
get_connection-IsHealthy connected p = get_of-IsHealthy connected p.connections p
