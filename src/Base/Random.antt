-- ===== src/Base/Random.antt =====
-- `rand()` of the C library, as the sequence of the values that it has still to return.
use Prim.Native.Nat.{ℕ, suc}

abbrev pub Rand : Type 0
Rand = ℕ → ℕ

-- one call: the value, and the sequence that is left
abbrev pub draw : Rand → ℕ × Rand
draw r = (r 0, λ n. r (suc n))
