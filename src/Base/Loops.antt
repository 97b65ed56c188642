-- ===== src/Base/Loops.antt =====
-- The two counted loops of the program, with the number of rounds left as the first number.
use Prim.Native.Nat.{ℕ, zero, suc, ◌+◌, ◌≤◌, ◌<◌}
use mathlib.Core.Path.{◌≡◌, refl, subst}
use mathlib.Core.Logic.{inl, inr}
use mathlib.Core.Bool.{Bool, true, false}
use mathlib.Core.Option.{Option, none, some}
use native.Mathlib.Omega.{arith}
use native.Mathlib.Decide.{dec_lt}
use mds.Base.Tests.{Bool-cases, Option-cases}

-- for (i; i < i + n; i++) if (p(i)) return i;
unfoldable pub find_index : (ℕ → Bool) → ℕ → ℕ → Option ℕ
find_index p zero i = none
find_index p (suc n) i = elim (p i) [ true ↦ some i | false ↦ find_index p n (i + 1) ]

-- for (i; i < i + n; i++) s = body(i, s);
unfoldable pub for_range {ℓ} : {S : Type ℓ} → (ℕ → S → S) → ℕ → ℕ → S → S
for_range body zero i s = s
for_range body (suc n) i s = for_range body n (i + 1) (body i s)

abbrev pub FailsBelow : (ℕ → Bool) → ℕ → ℕ → Type 0
FailsBelow p i k = (j : ℕ) → i ≤ j → j < k → p j ≡ false

-- What the search finds is in range, passes, and is the first to pass.
pub find_index-some :
    (p : ℕ → Bool) (n i k : ℕ)
    → find_index p n i ≡ some k
    → (i ≤ k) × (k < i + n) × (p k ≡ true) × FailsBelow p i k
unfolding find_index
find_index-some p zero i k h = cc
find_index-some p (suc n) i k h = elim (Bool-cases (p i)) [
  | inl hit ↦
      let e : i ≡ k = ground arith in
      (omega arith, omega arith, subst (λ j. p j ≡ true) e hit, λ j a b. absurd (omega arith))
  | inr miss ↦ later miss (find_index-some p n (i + 1) k (ground arith))
]
  where
    later :
        p i ≡ false
        → (i + 1 ≤ k) × (k < i + 1 + n) × (p k ≡ true) × FailsBelow p (i + 1) k
        → (i ≤ k) × (k < i + suc n) × (p k ≡ true) × FailsBelow p i k
    later miss (a, b, c, d) = (omega arith, omega arith, c, λ j x y. before j x y)
      where
        before : (j : ℕ) → i ≤ j → j < k → p j ≡ false
        before j x y = elim (dec_lt i j) [
          | yes q ↦ d j (omega arith) y
          | no q ↦ subst (λ t. p t ≡ false) {x = i} {y = j} (omega arith) miss
        ]

-- A search that finds nothing has seen every index fail.
pub find_index-none : (p : ℕ → Bool) (n i : ℕ) → find_index p n i ≡ none → FailsBelow p i (i + n)
unfolding find_index
find_index-none p zero i h = λ j a b. absurd (omega arith)
find_index-none p (suc n) i h = elim (Bool-cases (p i)) [
  | inl hit ↦ λ j a b. absurd (ground arith)
  | inr miss ↦
      let rest : FailsBelow p (i + 1) (i + 1 + n) = find_index-none p n (i + 1) (ground arith) in
      λ j a b. elim (dec_lt i j) [
        | yes q ↦ rest j (omega arith) (omega arith)
        | no q ↦ subst (λ t. p t ≡ false) {x = i} {y = j} (omega arith) miss
      ]
]

-- Conversely, when all fail nothing is found.
pub find_index-fails : (p : ℕ → Bool) (n i : ℕ) → FailsBelow p i (i + n) → find_index p n i ≡ none
unfolding find_index
find_index-fails p zero i h = refl
find_index-fails p (suc n) i h =
    let miss : p i ≡ false = h i (omega arith) (omega arith) in
    rw (miss, find_index) (find_index-fails p n (i + 1) (λ j a b. h j (omega arith) (omega arith)))

-- A search over a range with an index that passes finds one.
pub find_index-exists :
    (p : ℕ → Bool) (n i j : ℕ)
    → i ≤ j
    → j < i + n
    → p j ≡ true
    → (k : ℕ) × (find_index p n i ≡ some k)
find_index-exists p n i j a b h = elim (Option-cases (find_index p n i)) [
  | inl e ↦ let miss : p j ≡ false = find_index-none p n i e j a b in absurd (ground arith)
  | inr found ↦ found
]

-- Two tests that agree in the range find the same.
pub find_index-cong :
    (p q : ℕ → Bool) (n i : ℕ)
    → ((j : ℕ) → i ≤ j → j < i + n → p j ≡ q j)
    → find_index p n i ≡ find_index q n i
unfolding find_index
find_index-cong p q zero i h = refl
find_index-cong p q (suc n) i h =
    let here : p i ≡ q i = h i (omega arith) (omega arith) in
    let rest : find_index p n (i + 1) ≡ find_index q n (i + 1) =
      find_index-cong p q n (i + 1) (λ j a b. h j (omega arith) (omega arith)) in
    ground arith

-- The invariant rule of the counted loop; the body may use that its index is in range.
pub for_range_inv {ℓ κ} :
    {S : Type ℓ} (P : ℕ → S → Type κ) (body : ℕ → S → S) (n i j : ℕ) (s : S)
    → i + n ≡ j
    → ((k : ℕ) (t : S) → i ≤ k → k < j → P k t → P (k + 1) (body k t))
    → P i s
    → P j (for_range body n i s)
unfolding for_range
for_range_inv P body zero i j s e keep h = subst (λ t. P t s) {x = i} {y = j} (omega arith) h
for_range_inv P body (suc n) i j s e keep h =
    for_range_inv P body n (i + 1) j (body i s) (omega arith) (λ k t a b. keep k t (omega arith) b)
      (keep i s (omega arith) (omega arith) h)

-- What holds at every index up to `k`, and at `k`, holds up to the next one.
pub up_to_next {ℓ} :
    (P : ℕ → Type ℓ) (i k : ℕ)
    → ((j : ℕ) → i ≤ j → j < k → P j)
    → P k
    → (j : ℕ) → i ≤ j
    → j < k + 1
    → P j
up_to_next P i k before here j a b = elim (dec_lt j k) [
  | yes q ↦ before j a q
  | no q ↦ subst P {x = k} {y = j} (omega arith) here
]
