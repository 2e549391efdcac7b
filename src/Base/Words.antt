-- ===== src/Base/Words.antt =====
-- Signed integers, and their bit patterns as native numbers below a modulus.
use Prim.Native.Nat.{ℕ, ◌-◌, ◌/◌, ◌%◌, ◌<◌}
use native.Mathlib.Omega.{arith}
use native.Mathlib.Nat.{mod-lt}
use mathlib.Core.Bool.{Bool, true, false}
use gb_server.Base.Tests.{ltb, leb, if◌then◌else◌}

-- `negsuc n` is -(n + 1).
pub data ℤ : Type 0 where
  pos : ℕ → ℤ
  negsuc : ℕ → ℤ

-- The bit pattern of the value converted to an unsigned type of modulus `m`.
abbrev pub to_word : ℕ → ℤ → ℕ
to_word m (pos n) = n % m
to_word m (negsuc n) = m - 1 - n % m

-- The value of a bit pattern read as a signed type of modulus `m`.
abbrev pub of_word : ℕ → ℕ → ℤ
of_word m u = if ltb u (m / 2) then pos u else negsuc (m - 1 - u)

abbrev pub leb_ℤ : ℤ → ℤ → Bool
leb_ℤ (pos a) (pos b) = leb a b
leb_ℤ (pos a) (negsuc b) = false
leb_ℤ (negsuc a) (pos b) = true
leb_ℤ (negsuc a) (negsuc b) = leb b a

abbrev pub pos_part : ℤ → ℕ
pos_part (pos n) = n
pos_part (negsuc n) = 0

pub to_word-lt : (m : ℕ) (v : ℤ) → 0 < m → to_word m v < m
to_word-lt m (pos n) h = mod-lt n h
to_word-lt m (negsuc n) h = omega arith
