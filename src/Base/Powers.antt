-- ===== src/Base/Powers.antt =====
-- Powers of two, byte by byte.
use Prim.Native.Nat.{ℕ, zero, suc, ◌+◌, ◌*◌, ◌^◌, ◌≤◌, ◌<◌}
use mathlib.Core.Path.{◌≡◌}
use native.Mathlib.Nat.{pow-suc}
use native.Mathlib.Numerals.{towards_suc}
use native.Mathlib.Omega.{arith}

pub byte_rows : (b p : ℕ) → b < 256 → b * p + p ≤ 256 * p
byte_rows b p h = grind arith

pub pow_pos : (k : ℕ) → 0 < 2 ^ k
pow_pos zero = omega arith
pow_pos (suc k) = rw pow-suc (omega (arith, pow_pos k))

pub pow_byte : (k : ℕ) → 2 ^ (8 * suc k) ≡ 256 * 2 ^ (8 * k)
pow_byte k = let e : 8 * suc k ≡ 8 * k + 8 = omega arith in rw e (simp towards_suc (omega arith))
