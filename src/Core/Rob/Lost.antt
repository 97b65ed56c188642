-- ===== src/Core/Rob/Lost.antt =====
-- mcore_rob_retire of src/mcore.cpp where the memory may have been too slow: it dies of the first entry that
-- is due and lost.
use mds.Base.{
  ℕ, zero, suc, ◌+◌, ◌-◌, ◌%◌, ◌^◌, ◌<◌, ◌≤◌, ◌≡◌, ◌≢◌, sym, ap, ◌∙◌, subst, ◌⊎◌, inl, inr, true,
  false, arith, err, assert_failed, ltb, lt→ltb, ◌==◌, Bool-cases, length, Safe, Safe-eq, Safe-map,
  aborts, returns,
}
use native.Mathlib.Decide.{ℕ_discrete}
use mds.Settings.{Settings}
use mds.Core.Types.{Rob, Core}
use mds.Core.Rob.{rob_at, is_lost, retire_loop, rob_retire}
use mds.Core.Rob.Ring.{ring_step, ring_front}
use mds.Core.Rob.Queue.{Ring, entry_of}
use mds.Core.Rob.Retire.{
  behind, behind-Ring, entry_of-behind, entry_of-front, is_due, lost_entry, Bounded, Bounded-behind,
  retire_round, none_done, retire_stops, not_empty,
}

-- the buffer without the first `k` entries
abbrev pub behind_by : ℕ → ℕ → Rob → Rob
behind_by rob_size k q = record q { ptr = (q.ptr + k) % rob_size; size = q.size - k }

behind_by-zero : (g : Settings) (q : Rob) → Ring g.rob_size q → behind_by g.rob_size 0 q ≡ q
behind_by-zero g q v =
    ap (λ t. record q { ptr = t; size = q.size - 0 }) (ring_front q.ptr g.rob_size v.front)
    ∙ ap (λ t. record q { size = t }) (omega arith)

behind_by-suc :
    (g : Settings) (q : Rob) (k : ℕ)
    → Ring g.rob_size q
    → k < g.rob_size
    → behind_by g.rob_size k (behind g q) ≡ behind_by g.rob_size (k + 1) q
behind_by-suc g q k v h =
    ap (λ t. record q { ptr = t; size = q.size - 1 - k }) (ring_step q.ptr k g.rob_size v.front h)
    ∙ ap (λ t. record q { ptr = (q.ptr + (k + 1)) % g.rob_size; size = t }) (omega arith)

pub behind_by-Ring :
    (g : Settings) (q : Rob) (k : ℕ)
    → Ring g.rob_size q
    → k ≤ q.size
    → Ring g.rob_size (behind_by g.rob_size k q)
behind_by-Ring g q k v h = record {
  some_room = v.some_room;
  small = v.small;
  inside = v.inside;
  front = (let a = v.some_room in grind arith);
  fits = omega (arith, v.fits);
}

module _ {T : Type 0} (g : Settings) where
  -- Entries were taken off the front, all of them due and none of them lost.
  abbrev pub Taken : ℕ → Core T → ℕ × Core T → Type 0
  Taken done c out =
      (k : ℕ) × (out ≡ (done + k, record c { rob = behind_by g.rob_size k c.rob }))
      × (k ≤ c.rob.size)
      × ((i : ℕ)
          → i < k
          → (is_due g c (entry_of g.rob_size c.rob i) ≡ true)
            × (lost_entry g c (entry_of g.rob_size c.rob i) ≡ false))

  -- the round that dies
  retire_dies :
      (n done : ℕ) (c : Core T)
      → Ring g.rob_size c.rob
      → is_due g c (rob_at c.rob c.rob.ptr) ≡ true
      → is_lost c ≡ true
      → retire_loop g (suc n) done c ≡ err assert_failed
  unfolding retire_loop
  retire_dies n done c v due lost =
      let inside : ltb c.rob.ptr (length c.rob.entries) ≡ true =
        lt→ltb _ _ (omega (arith, v.front, v.inside)) in
      let some_room : (g.rob_size == 0) ≡ false = ground (arith, v.some_room) in
      rw (inside, some_room, due, lost)

  none-Taken : (done : ℕ) (c : Core T) → Ring g.rob_size c.rob → Taken done c (done + 0, c)
  none-Taken done c v = (
    0,
    ap (λ (q : Rob). (done + 0, record c { rob = q })) (sym (behind_by-zero g c.rob v)),
    omega arith,
    λ i h. absurd (omega arith),
  )

  front_first :
      (c : Core T) (k : ℕ)
      → Ring g.rob_size c.rob
      → k ≤ c.rob.size - 1
      → (is_due g c (rob_at c.rob c.rob.ptr) ≡ true) × (is_lost c ≡ false)
      → ((i : ℕ)
          → i < k
          → (is_due g c (entry_of g.rob_size (behind g c.rob) i) ≡ true)
            × (lost_entry g c (entry_of g.rob_size (behind g c.rob) i) ≡ false))
      → (i : ℕ) → i < k + 1
      → (is_due g c (entry_of g.rob_size c.rob i) ≡ true)
        × (lost_entry g c (entry_of g.rob_size c.rob i) ≡ false)
  front_first c k v few front all zero h =
      subst (λ t. (is_due g c t ≡ true) × (lost_entry g c t ≡ false))
        (sym (entry_of-front g c.rob v)) front
  front_first c k v few front all (suc i) h =
      subst (λ t. (is_due g c t ≡ true) × (lost_entry g c t ≡ false))
        (entry_of-behind g c.rob i v (omega arith)
          ∙ ap (λ t. entry_of g.rob_size c.rob t) (omega arith))
        (all i (omega arith))

  one-Taken :
      (done : ℕ) (c : Core T)
      → Ring g.rob_size c.rob
      → 0 < c.rob.size
      → (is_due g c (rob_at c.rob c.rob.ptr) ≡ true) × (is_lost c ≡ false)
      → (out : ℕ × Core T) → Taken (done + 1) (record c { rob = behind g c.rob }) out
      → Taken done c out
  one-Taken done c v h front out (k, e, few, all) = (
    k + 1,
    e
        ∙ ap (λ (t : ℕ). (t, record c { rob = behind_by g.rob_size k (behind g c.rob) }))
            (omega arith)
        ∙ ap (λ (q : Rob). (done + (k + 1), record c { rob = q }))
            (behind_by-suc g c.rob k v (omega (arith, v.fits))),
    omega arith,
    front_first c k v few front all,
  )

  retire_loop-Taken :
      (n done : ℕ) (c : Core T)
      → Ring g.rob_size c.rob
      → Bounded g n c
      → done + n < 2 ^ 32
      → Safe (Taken done c) (retire_loop g n done c)
  retire_loop-Taken zero done c v bound few =
      returns (done + 0, c) (none_done g done c) (none-Taken done c v)
  retire_loop-Taken (suc n) done c v bound few =
      elim (Bool-cases (is_due g c (rob_at c.rob c.rob.ptr))) [
        | inr waits ↦ returns (done + 0, c) (retire_stops g n done c v waits) (none-Taken done c v)
        | inl due ↦ elim (Bool-cases (is_lost c)) [
          | inl lost ↦ aborts (retire_dies n done c v due lost)
          | inr kept ↦
              let h = not_empty g n c bound in
              let c1 = record c { rob = behind g c.rob } in
              Safe-eq (retire_loop g n (done + 1) c1) (retire_loop g (suc n) done c)
                (retire_round g n done c v (omega arith) h due kept)
                (Safe-map (Taken (done + 1) c1) (Taken done c) (retire_loop g n (done + 1) c1)
                  (one-Taken done c v h (due, kept))
                  (retire_loop-Taken n (done + 1) c1 (behind-Ring g c.rob v h)
                    (Bounded-behind g n c v due bound) (omega arith)))
        ]
      ]

  -- the function, on a buffer that is empty or long enough
  pub rob_retire-Taken :
      (c : Core T)
      → Ring g.rob_size c.rob
      → (c.rob.size ≡ 0) ⊎ Bounded g g.core_width c
      → g.core_width < 2 ^ 32
      → Safe (Taken 0 c) (rob_retire g c)
  unfolding rob_retire
  rob_retire-Taken c v bound few = elim (ℕ_discrete c.rob.size 0) [
    | yes e ↦ returns (0 + 0, c) (rw e) (none-Taken 0 c v)
    | no ne ↦
        let some_entry : (c.rob.size == 0) ≡ false = ground arith in
        let loop : rob_retire g c ≡ retire_loop g g.core_width 0 c = rw some_entry in
        Safe-eq (retire_loop g g.core_width 0 c) (rob_retire g c) loop
          (retire_loop-Taken g.core_width 0 c v (filled bound ne) (omega arith))
  ]
    where
      filled :
          ((c.rob.size ≡ 0) ⊎ Bounded g g.core_width c) → c.rob.size ≢ 0 → Bounded g g.core_width c
      filled (inl e) ne = absurd (ne e)
      filled (inr b) ne = b
