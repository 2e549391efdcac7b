-- ===== src/RoundRobin/Turns.antt =====
-- A counter that goes round a list of places.
use gb_server.Base.{
  ltb, ltb→lt, ltb_false→le, Bool-cases, length, get_elem?, ℕ, zero, suc, ◌+◌, ◌-◌, ◌%◌, ◌<◌, ◌≡◌,
  refl, sym, ◌∙◌, inl, inr, some, List, [], ◌∷◌, arith,
}
use native.Mathlib.Nat.{mod-lt, mod-add-mod}

-- From any place, any other is reached in fewer steps than there are places.
turn_reaches_below :
    (from to size : ℕ) → from < size → to < size → (k : ℕ) × (k < size) × ((from + k) % size ≡ to)
turn_reaches_below from to size f t = elim (Bool-cases (ltb to from)) [
  | inl h ↦ (to + size - from, ground arith, grind (arith, ltb→lt to from h))
  | inr h ↦ (to - from, ground arith, grind (arith, ltb_false→le to from h))
]

-- The same from any number that is counted round.
pub turn_reaches : (from to size : ℕ) → to < size → (k : ℕ) × (k < size) × ((from + k) % size ≡ to)
turn_reaches from to size t =
    let (k, b, e) = turn_reaches_below (from % size) to size (mod-lt from (omega arith)) t in
    (k, b, sym (mod-add-mod from size k) ∙ e)

pub get_elem-lt {ℓ} :
    {A : Type ℓ} (xs : List A) (i : ℕ) → i < length xs → (x : A) × (get_elem? xs i ≡ some x)
get_elem-lt [] i h = absurd (omega arith)
get_elem-lt (x ∷ xs) zero h = (x, refl)
get_elem-lt (x ∷ xs) (suc i) h = get_elem-lt xs i (omega arith)
