-- ===== src/Base/Division.antt =====
-- Quotients and remainders by a number that is not known: a number is its quotient and its remainder.
use Prim.Native.Nat.{ℕ, ◌+◌, ◌*◌, ◌/◌, ◌%◌, ◌<◌}
use mathlib.Core.Path.{◌≡◌}
use native.Mathlib.Omega.{arith}

pub div-mul-add : (q k r : ℕ) → r < k → (q * k + r) / k ≡ q
div-mul-add q k r h = grind arith

pub mod-mul-add : (q k r : ℕ) → r < k → (q * k + r) % k ≡ r
mod-mul-add q k r h = grind arith

pub split_by : (n k : ℕ) → 0 < k → (n ≡ n / k * k + n % k) × (n % k < k)
split_by n k h = (grind arith, grind arith)

pub div-lt : (n m k : ℕ) → n < m * k → n / k < m
div-lt n m k h = grind arith

-- a number below `m * k` in two digits
pub mul-add-lt : (q r m k : ℕ) → q < m → r < k → q * k + r < m * k
mul-add-lt q r m k a b = grind arith

pub div-mul : (q k : ℕ) → 0 < k → q * k / k ≡ q
div-mul q k h = grind arith
