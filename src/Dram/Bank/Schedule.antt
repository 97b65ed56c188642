-- ===== src/Dram/Bank/Schedule.antt =====
-- dram_bank_schedule of src/drambank.cpp: first-ready, first-come-first-served.
use mds.Base.{
  ℕ, ◌<◌, ◌≡◌, refl, ◌⊎◌, inl, inr, true, false, arith, ok, length, Bool-cases, Option-cases,
  lt→ltb, sym, subst, FailsBelow, find_index, find_index-some, find_index-none,
}
use native.Mathlib.Decide.{ℕ_discrete}
use mds.Settings.{Settings}
use mds.Dram.Types.{Bank}
use mds.Dram.Bank.{is_row_hit, first_ready, bank_schedule}

-- The entry that first-ready scheduling takes: the first hit of an open row, or, if the row is closed or
-- no request hits it, the oldest request.
abbrev pub FirstReady : Bank → ℕ → Type 0
FirstReady b k =
    ((b.row_valid ≡ true) × (is_row_hit b k ≡ true) × FailsBelow (is_row_hit b) 0 k)
    ⊎ ((k ≡ 0) × ((b.row_valid ≡ false) ⊎ FailsBelow (is_row_hit b) 0 (length b.bankq)))

first_ready-FirstReady :
    (b : Bank)
    → 0 < length b.bankq
    → (first_ready b < length b.bankq) × FirstReady b (first_ready b)
unfolding first_ready
first_ready-FirstReady b h = elim (Bool-cases b.row_valid) [
  | inr closed ↦ move 0 (rw (closed, first_ready)) (h, inr (refl, inl closed))
  | inl opened ↦ elim (Option-cases (find_index (is_row_hit b) (length b.bankq) 0)) [
    | inl e ↦
        let none_hits : FailsBelow (is_row_hit b) 0 (length b.bankq) =
          λ j x y. find_index-none _ _ _ e j x (omega arith) in
        move 0 (rw (opened, e)) (h, inr (refl, inr none_hits))
    | inr (k, e) ↦
        let f = find_index-some _ _ _ k e in
        move k (rw (opened, e)) (omega (arith, f.1), inl (opened, f.2, f.3))
  ]
]
  where
    move :
        (k : ℕ)
        → first_ready b ≡ k
        → (k < length b.bankq) × FirstReady b k
        → (first_ready b < length b.bankq) × FirstReady b (first_ready b)
    move k e = subst (λ t. (t < length b.bankq) × FirstReady b t) (sym e)

-- With a request in the queue and one of the two policies dram_bank_schedule returns the index of a
-- request: the oldest under FCFS, and under FR-FCFS the first read that hits the open row, if there is one,
-- and else the oldest.
pub bank_schedule-FirstReady :
    (g : Settings) (b : Bank)
    → 0 < length b.bankq
    → g.dram_sched_policy < 2
    → (k : ℕ) × (bank_schedule g b ≡ ok k)
      × (k < length b.bankq)
      × (((g.dram_sched_policy ≡ 0) × (k ≡ 0)) ⊎ ((g.dram_sched_policy ≡ 1) × FirstReady b k))
unfolding bank_schedule
bank_schedule-FirstReady g b h known = elim (ℕ_discrete g.dram_sched_policy 0) [
  | yes e ↦ (0, rw (lt→ltb _ _ h, e), h, inl (e, refl))
  | no ne ↦
      let e : g.dram_sched_policy ≡ 1 = omega arith in
      let f = first_ready-FirstReady b h in (first_ready b, rw (lt→ltb _ _ h, e), f.0, inr (e, f.1))
]
