-- ===== src/Dram/Channel/Sweep.antt =====
-- The loops of src/dramchannel.cpp and src/dram.cpp that stop banks for refresh and refresh management.
use mds.Base.{
  ℕ, ◌+◌, ◌<◌, ◌≤◌, ◌≡◌, ◌≢◌, refl, sym, ap, ◌∙◌, ◌⊎◌, inl, inr, arith, ltb, if◌then◌else◌, length,
  length-set, get_or-set-cases, for_range_inv, Bool-cases,
}
use native.Mathlib.Decide.{ℕ_discrete}
use mds.Dram.Types.{Bank, Channel}
use mds.Dram.Cycle.{no_bank, bank_at, put_bank}
use mds.Dram.Channel.{latest_sleep, each_bank}

-- after the banks from `start` up to `k` have had their turn
abbrev pub Swept : (Bank → Bank) → Channel → ℕ → ℕ → Channel → Type 0
Swept f c start k d =
    (length d.bank ≡ length c.bank)
    × ((j : ℕ) → start ≤ j → j < k → bank_at d j ≡ f (bank_at c j))
    × ((j : ℕ) → (j < start) ⊎ (k ≤ j) → bank_at d j ≡ bank_at c j)

sweep_one :
    (f : Bank → Bank) (c d : Channel) (start k : ℕ)
    → start ≤ k
    → k < length c.bank
    → Swept f c start k d
    → Swept f c start (k + 1) (put_bank d k (f (bank_at d k)))
sweep_one f c d start k a b (l, done, rest) = (
  length-set d.bank k (f (bank_at d k)) ∙ l,
  (λ j x y. elim (cases j) [
    | inl (q, r) ↦ r ∙ ap f (rest k (inr (omega arith))) ∙ ap (λ t. f (bank_at c t)) (sym q)
    | inr (q, r) ↦ r ∙ done j x (omega arith)
  ]),
  λ j x. elim (cases j) [ inl (q, r) ↦ absurd (out j x q) | inr (q, r) ↦ r ∙ rest j (before j x) ],
)
  where
    cases :
        (j : ℕ)
        → ((j ≡ k) × (bank_at (put_bank d k (f (bank_at d k))) j ≡ f (bank_at d k)))
          ⊎ ((j ≢ k) × (bank_at (put_bank d k (f (bank_at d k))) j ≡ bank_at d j))
    cases j = get_or-set-cases d.bank k j (f (bank_at d k)) no_bank (omega (arith, l))

    out : (j : ℕ) → (j < start) ⊎ (k + 1 ≤ j) → j ≡ k → ⊥
    out j (inl x) e = omega arith
    out j (inr x) e = omega arith

    before : (j : ℕ) → (j < start) ⊎ (k + 1 ≤ j) → (j < start) ⊎ (k ≤ j)
    before j (inl x) = inl x
    before j (inr x) = inr (omega arith)

pub each_bank-Swept :
    (f : Bank → Bank) (c : Channel) (start n : ℕ)
    → start + n ≤ length c.bank
    → Swept f c start (start + n) (each_bank f c start n)
unfolding each_bank
each_bank-Swept f c start n h =
    for_range_inv (λ k d. Swept f c start k d) (λ ii d. put_bank d ii (f (bank_at d ii))) n start
      (start + n) c refl (λ k d a b s. sweep_one f c d start k a (omega arith) s)
      (refl, (λ j x y. absurd (omega arith)), λ j x. refl)

-- the latest of `now` and the times to which the banks sleep
abbrev pub Latest : Channel → ℕ → ℕ → ℕ → ℕ → Type 0
Latest c now start k t =
    (now ≤ t)
    × ((j : ℕ) → start ≤ j → j < k → (bank_at c j).sleep_cycle ≤ t)
    × ((t ≡ now) ⊎ ((j : ℕ) × (start ≤ j) × (j < k) × (t ≡ (bank_at c j).sleep_cycle)))

one_turn :
    (c : Channel) (now start k t : ℕ)
    → start ≤ k
    → Latest c now start k t
    → Latest c now start
        (k + 1)
        (if ltb t (bank_at c k).sleep_cycle then (bank_at c k).sleep_cycle else t)
one_turn c now start k t a (low, all, one) = elim (Bool-cases (ltb t (bank_at c k).sleep_cycle)) [
  | inl more ↦
      let grows : t < (bank_at c k).sleep_cycle = ground arith in
      rw more (
        omega arith,
        (λ j x y. elim (ℕ_discrete j k) [
          | yes e ↦ omega (arith, ap (λ t. (bank_at c t).sleep_cycle) e)
          | no ne ↦ omega (arith, all j x (omega arith))
        ]),
        inr (k, a, omega arith, refl),
      )
  | inr same ↦
      let stays : (bank_at c k).sleep_cycle ≤ t = ground arith in
      rw same (
        low,
        (λ j x y. elim (ℕ_discrete j k) [
          | yes e ↦ omega (arith, ap (λ t. (bank_at c t).sleep_cycle) e)
          | no ne ↦ all j x (omega arith)
        ]),
        wider one,
      )
]
  where
    wider :
        (t ≡ now) ⊎ ((j : ℕ) × (start ≤ j) × (j < k) × (t ≡ (bank_at c j).sleep_cycle))
        → (t ≡ now) ⊎ ((j : ℕ) × (start ≤ j) × (j < k + 1) × (t ≡ (bank_at c j).sleep_cycle))
    wider (inl e) = inl e
    wider (inr (j, x, y, e)) = inr (j, x, omega arith, e)

pub latest_sleep-Latest :
    (c : Channel) (now start n : ℕ) → Latest c now start (start + n) (latest_sleep c now start n)
unfolding latest_sleep
latest_sleep-Latest c now start n =
    for_range_inv (λ k t. Latest c now start k t)
      (λ ii latest.
        if ltb latest (bank_at c ii).sleep_cycle then (bank_at c ii).sleep_cycle else latest)
      n start (start + n) now refl (λ k t a b s. one_turn c now start k t a s)
      (omega arith, (λ j x y. absurd (omega arith)), inl refl)
