-- ===== src/Base/Tally.antt =====
-- The sum of a weight over a list, and what a write, an erasure and an append do to it.
use Prim.Native.Nat.{ℕ, zero, suc, ◌+◌, ◌<◌, ◌≤◌}
use mathlib.Core.Path.{◌≡◌, refl}
use mathlib.Core.List.{List, [], ◌∷◌, ◌++◌}
use native.Mathlib.Omega.{arith}
use mds.Base.Lists.{length, get_or, set, erase_at, replicate}

module _ {ℓ} {A : Type ℓ} (f : A → ℕ) where
  abbrev pub tally : List A → ℕ
  tally [] = 0
  tally (x ∷ xs) = f x + tally xs

  pub tally-append : (xs ys : List A) → tally (xs ++ ys) ≡ tally xs + tally ys
  tally-append [] ys = omega arith
  tally-append (x ∷ xs) ys = omega (arith, tally-append xs ys)

  pub tally-set :
      (xs : List A) (i : ℕ) (v d : A)
      → i < length xs
      → tally (set xs i v) + f (get_or xs i d) ≡ tally xs + f v
  tally-set [] i v d h = absurd (omega arith)
  tally-set (x ∷ xs) zero v d h = omega arith
  tally-set (x ∷ xs) (suc i) v d h = omega (arith, tally-set xs i v d (omega arith))

  pub tally-erase_at :
      (xs : List A) (i : ℕ) (d : A)
      → i < length xs
      → tally (erase_at xs i) + f (get_or xs i d) ≡ tally xs
  tally-erase_at [] i d h = absurd (omega arith)
  tally-erase_at (x ∷ xs) zero d h = omega arith
  tally-erase_at (x ∷ xs) (suc i) d h = omega (arith, tally-erase_at xs i d (omega arith))

  pub tally-replicate_zero : (n : ℕ) (a : A) → f a ≡ 0 → tally (replicate n a) ≡ 0
  tally-replicate_zero zero a h = refl
  tally-replicate_zero (suc n) a h = omega (arith, tally-replicate_zero n a h)

  pub get_or-le-tally : (xs : List A) (i : ℕ) (d : A) → i < length xs → f (get_or xs i d) ≤ tally xs
  get_or-le-tally [] i d h = absurd (omega arith)
  get_or-le-tally (x ∷ xs) zero d h = omega arith
  get_or-le-tally (x ∷ xs) (suc i) d h = omega (arith, get_or-le-tally xs i d (omega arith))

  pub tally-le-length : (xs : List A) → ((x : A) → f x ≤ 1) → tally xs ≤ length xs
  tally-le-length [] h = omega arith
  tally-le-length (x ∷ xs) h = omega (arith, h x, tally-le-length xs h)
