-- ===== src/Core/Rob/Ring.antt =====
-- The positions of a ring of `n` places.
use mds.Base.{ℕ, ◌+◌, ◌%◌, ◌<◌, ◌≤◌, ◌≡◌, ◌≢◌, ap, ◌∙◌, arith, inl, inr, ◌⊎◌}
use native.Mathlib.Decide.{dec_lt}

-- one step round at most
wrap_cases : (a n : ℕ) → a < n + n → ((a < n) × (a % n ≡ a)) ⊎ ((n ≤ a) × (a % n + n ≡ a))
wrap_cases a n h = elim (dec_lt a n) [
  | yes l ↦ inl (l, grind arith)
  | no l ↦ inr (omega arith, grind arith)
]

pub ring_step : (p i n : ℕ) → p < n → i < n → ((p + 1) % n + i) % n ≡ (p + (i + 1)) % n
ring_step p i n a b = elim (wrap_cases (p + 1) n (omega arith)) [
  | inl (l, e) ↦ ap (λ t. (t + i) % n) e ∙ ap (λ t. t % n) (omega arith)
  | inr (l, e) ↦ elim (wrap_cases (p + (i + 1)) n (omega arith)) [
    | inl (l', e') ↦ absurd (omega arith)
    | inr (l', e') ↦
        let low : (p + 1) % n + i < n = omega (arith, e) in
        elim (wrap_cases ((p + 1) % n + i) n (omega arith)) [
          | inl (l2, e2) ↦ omega (arith, e2, e, e')
          | inr (l2, e2) ↦ absurd (omega arith)
        ]
  ]
]

pub ring_ne : (p i j n : ℕ) → p < n → i < j → j < n → (p + j) % n ≢ (p + i) % n
ring_ne p i j n a b c e = elim (wrap_cases (p + j) n (omega arith)) [
  | inl (l, e1) ↦ elim (wrap_cases (p + i) n (omega arith)) [
    | inl (l', e2) ↦ omega (arith, e, e1, e2)
    | inr (l', e2) ↦ omega arith
  ]
  | inr (l, e1) ↦ elim (wrap_cases (p + i) n (omega arith)) [
    | inl (l', e2) ↦ omega (arith, e, e1, e2)
    | inr (l', e2) ↦ omega (arith, e, e1, e2)
  ]
]

pub ring_front : (p n : ℕ) → p < n → (p + 0) % n ≡ p
ring_front p n a = grind arith
