-- ===== src/Base/Lists.antt =====
-- Arrays and vectors as lists with native indices, under the library's names.
use Prim.Native.Nat.{ℕ, zero, suc, ◌+◌, ◌<◌, ◌≤◌}
use mathlib.Core.Path.{◌≡◌, refl, sym, ap}
use mathlib.Core.Logic.{◌≢◌, ◌⊎◌, inl, inr}
use mathlib.Core.List.{List, [], ◌∷◌, ◌++◌}
use native.Mathlib.Omega.{arith}
use native.Mathlib.Decide.{ℕ_discrete}

module _ {ℓ} {A : Type ℓ} where
  abbrev pub length : List A → ℕ
  length [] = 0
  length (x ∷ xs) = suc (length xs)

  -- A read; the default stands for what lies outside the array.
  abbrev pub get_or : List A → ℕ → A → A
  get_or [] i d = d
  get_or (x ∷ xs) zero d = x
  get_or (x ∷ xs) (suc i) d = get_or xs i d

  -- A write; out of range it changes nothing.
  abbrev pub set : List A → ℕ → A → List A
  set [] i v = []
  set (x ∷ xs) zero v = v ∷ xs
  set (x ∷ xs) (suc i) v = x ∷ set xs i v

  abbrev pub replicate : ℕ → A → List A
  replicate zero a = []
  replicate (suc n) a = a ∷ replicate n a

  -- `v.erase(v.begin() + i)`
  abbrev pub erase_at : List A → ℕ → List A
  erase_at [] i = []
  erase_at (x ∷ xs) zero = xs
  erase_at (x ∷ xs) (suc i) = x ∷ erase_at xs i

  pub length-set : (xs : List A) (i : ℕ) (v : A) → length (set xs i v) ≡ length xs
  length-set [] i v = refl
  length-set (x ∷ xs) zero v = refl
  length-set (x ∷ xs) (suc i) v = ap suc (length-set xs i v)

  pub length-replicate : (n : ℕ) (a : A) → length (replicate n a) ≡ n
  length-replicate zero a = refl
  length-replicate (suc n) a = ap suc (length-replicate n a)

  pub length-append : (xs ys : List A) → length (xs ++ ys) ≡ length xs + length ys
  length-append [] ys = omega arith
  length-append (x ∷ xs) ys = omega (arith, length-append xs ys)

  pub length-erase_at :
      (xs : List A) (i : ℕ) → i < length xs → length (erase_at xs i) + 1 ≡ length xs
  length-erase_at [] i h = absurd (omega arith)
  length-erase_at (x ∷ xs) zero h = omega arith
  length-erase_at (x ∷ xs) (suc i) h = omega (arith, length-erase_at xs i (omega arith))

  pub get_or-set_self :
      (xs : List A) (i : ℕ) (v d : A) → i < length xs → get_or (set xs i v) i d ≡ v
  get_or-set_self [] i v d h = absurd (omega arith)
  get_or-set_self (x ∷ xs) zero v d h = refl
  get_or-set_self (x ∷ xs) (suc i) v d h = get_or-set_self xs i v d (omega arith)

  pub get_or-set_ne :
      (xs : List A) (i j : ℕ) (v d : A) → i ≢ j → get_or (set xs i v) j d ≡ get_or xs j d
  get_or-set_ne [] i j v d h = refl
  get_or-set_ne (x ∷ xs) zero zero v d h = absurd (h refl)
  get_or-set_ne (x ∷ xs) zero (suc j) v d h = refl
  get_or-set_ne (x ∷ xs) (suc i) zero v d h = refl
  get_or-set_ne (x ∷ xs) (suc i) (suc j) v d h = get_or-set_ne xs i j v d (λ e. h (ap suc e))

  pub get_or-beyond : (xs : List A) (i : ℕ) (d : A) → length xs ≤ i → get_or xs i d ≡ d
  get_or-beyond [] i d h = refl
  get_or-beyond (x ∷ xs) zero d h = absurd (omega arith)
  get_or-beyond (x ∷ xs) (suc i) d h = get_or-beyond xs i d (omega arith)

  pub set_beyond : (xs : List A) (i : ℕ) (v : A) → length xs ≤ i → set xs i v ≡ xs
  set_beyond [] i v h = refl
  set_beyond (x ∷ xs) zero v h = absurd (omega arith)
  set_beyond (x ∷ xs) (suc i) v h = ap (λ t. x ∷ t) (set_beyond xs i v (omega arith))

  pub get_or-replicate : (n i : ℕ) (a : A) → get_or (replicate n a) i a ≡ a
  get_or-replicate zero i a = refl
  get_or-replicate (suc n) zero a = refl
  get_or-replicate (suc n) (suc i) a = get_or-replicate n i a

  -- What an index reads after a write in range.
  pub get_or-set-cases :
      (xs : List A) (k i : ℕ) (v d : A)
      → k < length xs
      → ((i ≡ k) × (get_or (set xs k v) i d ≡ v))
        ⊎ ((i ≢ k) × (get_or (set xs k v) i d ≡ get_or xs i d))
  get_or-set-cases xs k i v d h = elim (ℕ_discrete i k) [
    | yes e ↦ inl (e, rw e (get_or-set_self xs k v d h))
    | no ne ↦ inr (ne, get_or-set_ne xs k i v d (λ e. ne (sym e)))
  ]

  pub erase_at-set : (xs : List A) (i : ℕ) (v : A) → erase_at (set xs i v) i ≡ erase_at xs i
  erase_at-set [] i v = refl
  erase_at-set (x ∷ xs) zero v = refl
  erase_at-set (x ∷ xs) (suc i) v = ap (λ t. x ∷ t) (erase_at-set xs i v)

  -- what is left after an erasure was there before
  pub get_or-erase_at :
      (P : A → Type 0) (xs : List A) (i : ℕ) (d : A)
      → i < length xs
      → ((k : ℕ) → k < length xs → P (get_or xs k d))
      → (k : ℕ) → k + 1 < length xs
      → P (get_or (erase_at xs i) k d)
  get_or-erase_at P [] i d h all k b = absurd (omega arith)
  get_or-erase_at P (x ∷ xs) zero d h all k b = all (suc k) (omega arith)
  get_or-erase_at P (x ∷ xs) (suc i) d h all zero b = all 0 (omega arith)
  get_or-erase_at P (x ∷ xs) (suc i) d h all (suc k) b =
      get_or-erase_at P xs i d (omega arith) (λ j y. all (suc j) (omega arith)) k (omega arith)

  -- what holds of a list and of one more holds of the longer list
  pub get_or-append :
      (P : A → Type 0) (xs : List A) (v d : A)
      → ((k : ℕ) → k < length xs → P (get_or xs k d))
      → P v
      → (k : ℕ) → k ≤ length xs
      → P (get_or (xs ++ v ∷ []) k d)
  get_or-append P [] v d h p zero b = p
  get_or-append P [] v d h p (suc k) b = absurd (omega arith)
  get_or-append P (x ∷ xs) v d h p zero b = h 0 (omega arith)
  get_or-append P (x ∷ xs) v d h p (suc k) b =
      get_or-append P xs v d (λ j y. h (suc j) (omega arith)) p k (omega arith)
