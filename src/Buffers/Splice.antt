-- ===== src/Buffers/Splice.antt =====
-- Bytes that are replaced in the middle of a list.
use gb_server.Base.{
  length, take, drop, ℕ, zero, suc, ◌+◌, ◌-◌, ◌≤◌, ◌≡◌, refl, ap, List, [], ◌∷◌, ◌++◌, arith,
}
use gb_server.Buffers.Write.{splice}

pub length-splice : (i : ℕ) (d l : List ℕ) → length (splice i d l) ≡ length l
length-splice i d [] = refl
length-splice (suc i) d (y ∷ l) = omega (arith, length-splice i d l)
length-splice zero [] (y ∷ l) = refl
length-splice zero (x ∷ d) (y ∷ l) = omega (arith, length-splice zero d l)

-- A splice behind the first list.
pub splice_behind :
    (c : List ℕ) (i : ℕ) (d r : List ℕ) → splice (length c + i) d (c ++ r) ≡ c ++ splice i d r
splice_behind [] i d r = ap (λ n. splice n d r) (omega arith)
splice_behind (y ∷ c) i d r =
    let shift : length (y ∷ c) + i ≡ suc (length c + i) = omega arith in
    rw shift (ap (λ l. y ∷ l) (splice_behind c i d r))

splice_none : (l : List ℕ) → splice 0 [] l ≡ l
splice_none [] = refl
splice_none (y ∷ l) = refl

-- A splice inside the first list.
pub splice_inside :
    (i : ℕ) (d c r : List ℕ) → i + length d ≤ length c → splice i d (c ++ r) ≡ splice i d c ++ r
splice_inside (suc i) d [] r h = absurd (omega (arith, h))
splice_inside zero (x ∷ d) [] r h = absurd (omega (arith, h))
splice_inside zero [] [] r h = splice_none r
splice_inside (suc i) d (y ∷ c) r h = ap (λ l. y ∷ l) (splice_inside i d c r (omega arith))
splice_inside zero [] (y ∷ c) r h = refl
splice_inside zero (x ∷ d) (y ∷ c) r h = ap (λ l. x ∷ l) (splice_inside zero d c r (omega arith))

-- A splice that begins in the first list and goes on behind it.
pub splice_across :
    (i : ℕ) (d c r : List ℕ)
    → i ≤ length c
    → length c - i ≤ length d
    → splice i d (c ++ r) ≡ splice i (take (length c - i) d) c ++ splice 0 (drop (length c - i) d) r
splice_across (suc i) d [] r h k = absurd (omega (arith, h))
splice_across zero d [] r h k = refl
splice_across (suc i) d (y ∷ c) r h k =
    let same : length (y ∷ c) - suc i ≡ length c - i = omega arith in
    rw same (ap (λ l. y ∷ l) (splice_across i d c r (omega arith) (omega arith)))
splice_across zero [] (y ∷ c) r h k = absurd (omega (arith, k))
splice_across zero (x ∷ d) (y ∷ c) r h k =
    let same : length (y ∷ c) - 0 ≡ suc (length c - 0) = omega arith in
    rw same (ap (λ l. x ∷ l) (splice_across zero d c r (omega arith) (omega arith)))

-- All of a list is replaced.
pub splice_all : (d l : List ℕ) → length d ≡ length l → splice 0 d l ≡ d
splice_all [] [] h = refl
splice_all (x ∷ d) [] h = ground arith
splice_all [] (y ∷ l) h = ground arith
splice_all (x ∷ d) (y ∷ l) h = ap (λ t. x ∷ t) (splice_all d l (omega arith))
