-- ===== src/Cache/Victim/WriteBack.antt =====
-- mcache_find_victim_lru_wbt of src/mcache.cpp: whom it chooses, and what it counts.
use mds.Base.{
  ℕ, zero, suc, ◌+◌, ◌*◌, ◌≤◌, ◌<◌, ◌≡◌, refl, sym, subst, ◌⊎◌, inl, inr, true, false, arith, ltb,
  Bool-cases, if◌then◌else◌, ltb→lt, up_to_next, add32, length,
}
use mds.Cache.Defs.{Cache, entry_at, start_of, end_of}
use mds.Cache.Victim.Lru.{victim_lru-oldest}
use mds.Cache.Layout.{IsValid, InSet, bounds}
use mds.Cache.Victim.{
  ways, last_access, victim_lru, Choice, affordable, consider, wbt_loop, victim_lru_wbt,
}

-- The progress of the loop of `mcache_find_victim_lru_wbt` over valid entries: nothing affordable seen
-- yet, or the oldest affordable entry seen.
abbrev pub BestTo : ℕ → Cache → ℕ → ℕ → Choice → Type 0
BestTo tth c start k s =
    ((s.found ≡ false) × ((j : ℕ) → start ≤ j → j < k → affordable tth c j ≡ false))
    ⊎ ((s.found ≡ true)
        × (start ≤ s.lowest)
        × (s.lowest < k)
        × (affordable tth c s.lowest ≡ true)
        × ((j : ℕ)
            → start ≤ j
            → j < k
            → affordable tth c j ≡ true
            → last_access c s.lowest ≤ last_access c j))

module _ (tth : ℕ) (c : Cache) (start : ℕ) where
  chosen-BestTo :
      (k : ℕ)
      → start ≤ k
      → affordable tth c k ≡ true
      → ((j : ℕ)
          → start ≤ j
          → j < k
          → affordable tth c j ≡ true
          → last_access c k ≤ last_access c j)
      → BestTo tth c start (k + 1) (record { found = true; lowest = k })
  chosen-BestTo k h a older = inr (
    refl,
    h,
    omega arith,
    a,
    up_to_next (λ j. affordable tth c j ≡ true → last_access c k ≤ last_access c j) start k older
        (λ _. omega arith),
  )

  kept-BestTo :
      (k : ℕ) (s : Choice)
      → s.found ≡ true
      → start ≤ s.lowest
      → s.lowest < k
      → affordable tth c s.lowest ≡ true
      → ((j : ℕ)
          → start ≤ j
          → j < k
          → affordable tth c j ≡ true
          → last_access c s.lowest ≤ last_access c j)
      → (affordable tth c k ≡ true → last_access c s.lowest ≤ last_access c k)
      → BestTo tth c start (k + 1) s
  kept-BestTo k s e low high a best here = inr (
    e,
    low,
    omega arith,
    a,
    up_to_next (λ j. affordable tth c j ≡ true → last_access c s.lowest ≤ last_access c j) start k
        best here,
  )

  -- at the next entry `k`: either it is chosen, or the choice stays
  consider-BestTo :
      (k : ℕ) (s : Choice)
      → start ≤ k
      → BestTo tth c start k s
      → BestTo tth c start (k + 1) (consider tth c k s)
  consider-BestTo k s h (inl (e, none_yet)) = elim (Bool-cases (affordable tth c k)) [
    | inl a ↦
        let q : consider tth c k s ≡ record { found = true; lowest = k } = ground arith in
        rw q (chosen-BestTo k h a (λ j x y z. let m = none_yet j x y in absurd (ground arith)))
    | inr a ↦
        let q : consider tth c k s ≡ s = ground arith in
        rw q (inl (e, up_to_next (λ j. affordable tth c j ≡ false) start k none_yet a))
  ]
  consider-BestTo k s h (inr (e, low, high, fine, best)) = elim (Bool-cases (affordable tth c k)) [
    | inl a ↦ elim (Bool-cases (ltb (last_access c k) (last_access c s.lowest))) [
      | inl l ↦
          let q : consider tth c k s ≡ record { found = true; lowest = k } = ground arith in
          let l' = ltb→lt _ _ l in
          rw q (chosen-BestTo k h a (λ j x y z. let m = best j x y z in omega arith))
      | inr l ↦
          let q : consider tth c k s ≡ s = ground arith in
          rw q (kept-BestTo k s e low high fine best (λ _. ground arith))
    ]
    | inr a ↦
        let q : consider tth c k s ≡ s = ground arith in
        rw q (kept-BestTo k s e low high fine best (λ z. absurd (ground arith)))
  ]

  wbt_loop-BestTo :
      (n k : ℕ) (s : Choice)
      → start ≤ k
      → ((j : ℕ) → k ≤ j → j < k + n → (entry_at c j).valid ≡ true)
      → BestTo tth c start k s
      → BestTo tth c start (k + n) (wbt_loop tth c n k s)
  unfolding wbt_loop
  wbt_loop-BestTo zero k s h all p = let e : k + 0 ≡ k = omega arith in rw e p
  wbt_loop-BestTo (suc n) k s h all p =
      let e : k + suc n ≡ k + 1 + n = omega arith in
      let u : (entry_at c k).valid ≡ true = all k (omega arith) (omega arith) in
      rw (e, u, wbt_loop)
        (wbt_loop-BestTo n (k + 1) (consider tth c k s) (omega arith)
          (λ j x y. all j (omega arith) (omega arith)) (consider-BestTo k s h p))

-- What the write-back aware policy promises of a set whose entries are all valid.
pub record WbtChoice (tth : ℕ) (c : Cache) (s : ℕ) (r : ℕ × Cache) : Type 0 where
  pub in_set : InSet c.assocs s r.0
  pub choice :
      ((affordable tth c r.0 ≡ true)
        × ((j : ℕ)
            → InSet c.assocs s j
            → affordable tth c j ≡ true
            → last_access c r.0 ≤ last_access c j))
      ⊎ (((j : ℕ) → InSet c.assocs s j → affordable tth c j ≡ false) × (r.0 ≡ victim_lru c s))
  pub spent :
      r.1.wb_in_2k_epoch
      ≡ (if (entry_at c r.0).dirty then add32 c.wb_in_2k_epoch 1 else c.wb_in_2k_epoch)
  pub untouched : r.1.entries ≡ c.entries

-- On a set of valid entries of a well-formed cache, mcache_find_victim_lru_wbt returns an entry of the set:
-- an oldest one of those that are clean or that the write-back budget still allows, or, when there is none,
-- the least recently used entry; a dirty victim is charged to the budget and no entry is changed.
pub victim_lru_wbt-WbtChoice :
    (tth : ℕ) (c : Cache) (s : ℕ)
    → IsValid c
    → s < c.sets
    → ((j : ℕ) → InSet c.assocs s j → (entry_at c j).valid ≡ true)
    → WbtChoice tth c s (victim_lru_wbt tth c s)
unfolding victim_lru_wbt
victim_lru_wbt-WbtChoice tth c s v h all = elim best [
  | inl (e, none_fits) ↦
      let q : (victim_lru_wbt tth c s).0 ≡ victim_lru c s = rw e in
      record {
        in_set = subst (InSet c.assocs s) (sym q) lru.0;
        choice = inr (λ j x. none_fits j (omega (arith, b, x)) (omega (arith, b, x)), q);
        spent = refl;
        untouched = refl;
      }
  | inr (e, low, high, fine, oldest) ↦
      let q : (victim_lru_wbt tth c s).0 ≡ chosen.lowest = rw e in
      record {
        in_set = subst (InSet c.assocs s) (sym q) (omega (arith, b, low), omega (arith, b, high));
        choice = inl (
          subst (λ k. affordable tth c k ≡ true) (sym q) fine,
          λ j x z.
              subst (λ k. last_access c k ≤ last_access c j) (sym q)
                (oldest j (omega (arith, b, x)) (omega (arith, b, x)) z),
        );
        spent = refl;
        untouched = refl;
      }
]
  where
    b :
        (start_of c s ≡ s * c.assocs)
        × (end_of c s ≡ s * c.assocs + c.assocs)
        × (s * c.assocs + c.assocs ≤ length c.entries)
    b = bounds c v s h

    lru :
        InSet c.assocs s (victim_lru c s)
        × ((j : ℕ)
            → InSet c.assocs s j
            → (last_access c (victim_lru c s) ≤ last_access c j)
              × (j < victim_lru c s → last_access c (victim_lru c s) < last_access c j))
    lru = victim_lru-oldest c s v h

    chosen : Choice
    chosen =
        wbt_loop tth c (ways c s) (start_of c s) (record { found = false; lowest = start_of c s })

    best : BestTo tth c (start_of c s) (start_of c s + ways c s) chosen
    best =
        wbt_loop-BestTo tth c (start_of c s) (ways c s) (start_of c s) _ (omega arith)
          (λ j x y. all j (omega (arith, b), omega (arith, b)))
          (inl (refl, λ j x y. absurd (omega arith)))
