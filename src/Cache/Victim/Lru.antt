-- ===== src/Cache/Victim/Lru.antt =====
-- mcache_find_victim_lru of src/mcache.cpp: whom it chooses.
use mds.Base.{
  ℕ, ◌+◌, ◌≤◌, ◌<◌, ◌≡◌, refl, ap, ◌⊎◌, inl, inr, arith, ltb, Bool-cases, if◌then◌else◌, for_range,
  for_range_inv, ltb→lt,
}
use native.Mathlib.Decide.{dec_lt}
use mds.Cache.Defs.{Cache, start_of, end_of}
use mds.Cache.Layout.{IsValid, InSet, bounds}
use mds.Cache.Victim.{ways, last_access, lru_step, victim_lru}

-- entry `t` is the least recently used of those from `start` to `k`, the first one at a tie
abbrev pub OldestTo : Cache → ℕ → ℕ → ℕ → Type 0
OldestTo c start k t =
    (start ≤ t)
    × ((t ≡ start) ⊎ (t < k))
    × ((j : ℕ)
        → start ≤ j
        → j < k
        → (last_access c t ≤ last_access c j) × (j < t → last_access c t < last_access c j))

lru_step-OldestTo :
    (c : Cache) (start k t : ℕ)
    → start ≤ k
    → OldestTo c start k t
    → OldestTo c start (k + 1) (lru_step c k t)
lru_step-OldestTo c start k t h p = elim (Bool-cases (ltb (last_access c k) (last_access c t))) [
  | inl less ↦
      rw (less, if◌then◌else◌)
        (let lt = ltb→lt _ _ less in
          (
            h,
            inr (omega arith),
            λ j a b. elim (dec_lt j k) [
              | yes q ↦ let m = p.2 j a q in (omega arith, λ _. omega arith)
              | no q ↦
                  let e : j ≡ k = omega arith in
                  (omega (arith, ap (last_access c) e), λ z. absurd (omega arith))
            ],
          ))
  | inr more ↦
      rw (more, if◌then◌else◌)
        (let le : last_access c t ≤ last_access c k = ground arith in
          (
            p.0,
            omega (arith, p.1),
            λ j a b. elim (dec_lt j k) [
              | yes q ↦ p.2 j a q
              | no q ↦
                  let e : j ≡ k = omega arith in
                  (omega (arith, ap (last_access c) e), λ z. absurd (omega (arith, p.1)))
            ],
          ))
]

-- On a well-formed cache mcache_find_victim_lru returns an entry of the set whose last access is the oldest
-- in the set, and older than that of every entry before it.
pub victim_lru-oldest :
    (c : Cache) (s : ℕ)
    → IsValid c
    → s < c.sets
    → InSet c.assocs s (victim_lru c s)
      × ((j : ℕ)
          → InSet c.assocs s j
          → (last_access c (victim_lru c s) ≤ last_access c j)
            × (j < victim_lru c s → last_access c (victim_lru c s) < last_access c j))
unfolding victim_lru
victim_lru-oldest c s v h =
    let b = bounds c v s h in
    let start = start_of c s in
    let t = for_range (lru_step c) (ways c s) start start in
    let p : OldestTo c start (end_of c s) t =
      for_range_inv (OldestTo c start) (lru_step c) (ways c s) start (end_of c s) start
        (omega (arith, b)) (λ k u x y q. lru_step-OldestTo c start k u x q)
        (omega arith, inl refl, λ j x y. absurd (omega arith)) in
    (
      (omega (arith, b, p.0), omega (arith, b, p.1, v.some_ways)),
      λ j x. p.2 j (omega (arith, b, x)) (omega (arith, b, x)),
    )
