-- ===== src/Core/Rob/Retire.antt =====
-- mcore_rob_retire of src/mcore.cpp: what it takes off the front of the reorder buffer.
use mds.Base.{
  ℕ, zero, suc, ◌+◌, ◌-◌, ◌%◌, ◌^◌, ◌<◌, ◌≤◌, ◌≡◌, ◌≢◌, refl, sym, ap, ◌∙◌, subst, ◌⊎◌, inl, inr,
  Bool, true, false, not, ◌&&◌, arith, Result, ok, ltb, leb, lt→ltb, ◌==◌, Bool-cases, length,
  add32, sub32, sub64,
}
use native.Mathlib.Decide.{ℕ_discrete}
use mds.Settings.{Settings}
use mds.Core.Types.{RobEntry, Rob, Core, default_mem_delay}
use mds.Core.Rob.{rob_at, is_lost, retire_loop, rob_retire}
use mds.Core.Rob.Ring.{ring_step, ring_front}
use mds.Core.Rob.Queue.{Ring, entry_of}

module _ (g : Settings) where
  -- the buffer without its front
  abbrev pub behind : Rob → Rob
  behind q = record q { ptr = (q.ptr + 1) % g.rob_size; size = q.size - 1 }

  pub behind-Ring : (q : Rob) → Ring g.rob_size q → 0 < q.size → Ring g.rob_size (behind q)
  behind-Ring q v h = record {
    some_room = v.some_room;
    small = v.small;
    inside = v.inside;
    front = (let a = v.some_room in grind arith);
    fits = omega (arith, v.fits);
  }

  pub entry_of-behind :
      (q : Rob) (i : ℕ)
      → Ring g.rob_size q
      → i < q.size - 1
      → entry_of g.rob_size (behind q) i ≡ entry_of g.rob_size q (i + 1)
  entry_of-behind q i v h =
      ap (λ t. rob_at q t) (ring_step q.ptr i g.rob_size v.front (omega (arith, v.fits)))

  pub entry_of-front : (q : Rob) → Ring g.rob_size q → entry_of g.rob_size q 0 ≡ rob_at q q.ptr
  entry_of-front q v = ap (λ t. rob_at q t) (ring_front q.ptr g.rob_size v.front)

module _ {T : Type 0} (g : Settings) where
  abbrev pub is_due : Core T → RobEntry → Bool
  is_due c e = leb e.ready_time c.cycle

  -- a request that the memory never answered
  abbrev pub lost_entry : Core T → RobEntry → Bool
  lost_entry c e =
      leb default_mem_delay (sub64 e.ready_time e.birth_time)
      && not (c.sleep && e.inst_num == c.sleep_inst_num)

  abbrev pub NoneLost : Core T → Type 0
  NoneLost c =
      (i : ℕ)
      → i < c.rob.size
      → is_due c (entry_of g.rob_size c.rob i) ≡ true
      → lost_entry c (entry_of g.rob_size c.rob i) ≡ false

  -- The loop over `n` rounds ends before the buffer is empty, or with it.
  abbrev pub Bounded : ℕ → Core T → Type 0
  Bounded n c =
      (n ≤ c.rob.size)
      ⊎ ((i : ℕ) × (i < c.rob.size) × (is_due c (entry_of g.rob_size c.rob i) ≡ false))

  -- what `n` rounds come to
  abbrev pub Retired : ℕ → ℕ → Core T → Result (ℕ × Core T) → Type 0
  Retired n done c out =
      (k : ℕ) × (q : Rob) × (out ≡ ok (done + k, record c { rob = q }))
      × Ring g.rob_size q
      × (q.size + k ≡ c.rob.size)
      × (k ≤ n)
      × ((i : ℕ) → i < k → is_due c (entry_of g.rob_size c.rob i) ≡ true)
      × ((i : ℕ) → i < q.size → entry_of g.rob_size q i ≡ entry_of g.rob_size c.rob (i + k))
      × ((k ≡ n) ⊎ ((0 < q.size) × (is_due c (entry_of g.rob_size q 0) ≡ false)))

  -- one round that retires
  pub retire_round :
      (n done : ℕ) (c : Core T)
      → Ring g.rob_size c.rob
      → done + 1 < 2 ^ 32
      → 0 < c.rob.size
      → is_due c (rob_at c.rob c.rob.ptr) ≡ true
      → is_lost c ≡ false
      → retire_loop g (suc n) done c
        ≡ retire_loop g n (done + 1) (record c { rob = behind g c.rob })
  unfolding retire_loop
  retire_round n done c v few h due kept =
      let inside : ltb c.rob.ptr (length c.rob.entries) ≡ true =
        lt→ltb _ _ (omega (arith, v.front, v.inside)) in
      let some_room : (g.rob_size == 0) ≡ false = ground (arith, v.some_room) in
      let d : add32 done 1 ≡ done + 1 = omega arith in
      let p : add32 c.rob.ptr 1 ≡ c.rob.ptr + 1 = omega (arith, v.front, v.small) in
      let s : sub32 c.rob.size 1 ≡ c.rob.size - 1 = ground (arith, v.fits, v.small) in
      rw (inside, some_room, due, kept, d, p, s)

  pub none_done : (done : ℕ) (c : Core T) → retire_loop g zero done c ≡ ok (done + 0, c)
  unfolding retire_loop
  none_done done c = let d : done ≡ done + 0 = omega arith in ap (λ (t : ℕ). ok (t, c)) d

  pub retire_stops :
      (n done : ℕ) (c : Core T)
      → Ring g.rob_size c.rob
      → is_due c (rob_at c.rob c.rob.ptr) ≡ false
      → retire_loop g (suc n) done c ≡ ok (done + 0, c)
  unfolding retire_loop
  retire_stops n done c v waits =
      let inside : ltb c.rob.ptr (length c.rob.entries) ≡ true =
        lt→ltb _ _ (omega (arith, v.front, v.inside)) in
      let some_room : (g.rob_size == 0) ≡ false = ground (arith, v.some_room) in
      let d : done ≡ done + 0 = omega arith in
      rw (inside, some_room, waits) (ap (λ (t : ℕ). ok (t, c)) d)

  pub not_empty : (n : ℕ) (c : Core T) → Bounded (suc n) c → 0 < c.rob.size
  not_empty n c (inl h) = omega arith
  not_empty n c (inr (i, h, e)) = omega arith

  kept_behind :
      (c : Core T)
      → Ring g.rob_size c.rob
      → 0 < c.rob.size
      → NoneLost c
      → NoneLost (record c { rob = behind g c.rob })
  kept_behind c v h kept i l due =
      let e = entry_of-behind g c.rob i v l in
      subst (λ t. lost_entry c t ≡ false) (sym e)
        (kept (i + 1) (omega arith) (subst (λ t. is_due c t ≡ true) e due))

  pub Bounded-behind :
      (n : ℕ) (c : Core T)
      → Ring g.rob_size c.rob
      → is_due c (rob_at c.rob c.rob.ptr) ≡ true
      → Bounded (suc n) c
      → Bounded n (record c { rob = behind g c.rob })
  Bounded-behind n c v due (inl h) = inl (omega arith)
  Bounded-behind n c v due (inr (zero, h, e)) =
      let no : is_due c (rob_at c.rob c.rob.ptr) ≡ false =
        ap (is_due c) (sym (entry_of-front g c.rob v)) ∙ e in
      absurd cc
  Bounded-behind n c v due (inr (suc i, h, e)) = inr (
    i,
    omega arith,
    ap (is_due c) (
          entry_of-behind g c.rob i v (omega arith)
          ∙ ap (λ t. entry_of g.rob_size c.rob t) (omega arith))
        ∙ e,
  )

  due_before :
      (c : Core T)
      → Ring g.rob_size c.rob
      → 0 < c.rob.size
      → is_due c (rob_at c.rob c.rob.ptr) ≡ true
      → (k : ℕ) → ((i : ℕ) → i < k → is_due c (entry_of g.rob_size (behind g c.rob) i) ≡ true)
      → k ≤ c.rob.size - 1
      → (i : ℕ) → i < k + 1
      → is_due c (entry_of g.rob_size c.rob i) ≡ true
  due_before c v h due k all few zero l = ap (is_due c) (entry_of-front g c.rob v) ∙ due
  due_before c v h due k all few (suc i) l =
      ap (is_due c) (
        ap (λ t. entry_of g.rob_size c.rob t) (omega arith)
        ∙ sym (entry_of-behind g c.rob i v (omega arith)))
      ∙ all i (omega arith)

  -- a round that retires, before the rounds that are left
  Retired-one :
      (n done : ℕ) (c : Core T)
      → Ring g.rob_size c.rob
      → 0 < c.rob.size
      → is_due c (rob_at c.rob c.rob.ptr) ≡ true
      → retire_loop g (suc n) done c
        ≡ retire_loop g n (done + 1) (record c { rob = behind g c.rob })
      → Retired n
          (done + 1)
          (record c { rob = behind g c.rob })
          (retire_loop g n (done + 1) (record c { rob = behind g c.rob }))
      → Retired (suc n) done c (retire_loop g (suc n) done c)
  Retired-one n done c v h due step (k, q, e, ring, total, most, all_due, shifted, last) = (
    k + 1,
    q,
    step ∙ e ∙ ap (λ (t : ℕ). ok (t, record c { rob = q })) (omega arith),
    ring,
    omega arith,
    omega arith,
    due_before c v h due k all_due (omega arith),
    (λ i l.
        shifted i l
        ∙ entry_of-behind g c.rob (i + k) v (omega arith)
        ∙ ap (λ t. entry_of g.rob_size c.rob t) (omega arith)),
    ends,
  )
    where
      ends : (k + 1 ≡ suc n) ⊎ ((0 < q.size) × (is_due c (entry_of g.rob_size q 0) ≡ false))
      ends = elim last [ inl a ↦ inl (omega arith) | inr b ↦ inr b ]

  retire_loop-Retired :
      (n done : ℕ) (c : Core T)
      → Ring g.rob_size c.rob
      → NoneLost c
      → Bounded n c
      → done + n < 2 ^ 32
      → Retired n done c (retire_loop g n done c)
  retire_loop-Retired zero done c v kept bound few = (
    0,
    c.rob,
    none_done done c,
    v,
    omega arith,
    omega arith,
    (λ i h. absurd (omega arith)),
    (λ i h. ap (λ t. entry_of g.rob_size c.rob t) (omega arith)),
    inl refl,
  )
  retire_loop-Retired (suc n) done c v kept bound few =
      elim (Bool-cases (is_due c (rob_at c.rob c.rob.ptr))) [
        | inr waits ↦ (
          0,
          c.rob,
          retire_stops n done c v waits,
          v,
          omega arith,
          omega arith,
          (λ i h. absurd (omega arith)),
          (λ i h. ap (λ t. entry_of g.rob_size c.rob t) (omega arith)),
          inr (not_empty n c bound, ap (is_due c) (entry_of-front g c.rob v) ∙ waits),
        )
        | inl due ↦
            let h = not_empty n c bound in
            let front = entry_of-front g c.rob v in
            let here : is_lost c ≡ false =
              subst (λ t. lost_entry c t ≡ false) front (kept 0 h (ap (is_due c) front ∙ due)) in
            Retired-one n done c v h due (retire_round n done c v (omega arith) h due here) (
              retire_loop-Retired n (done + 1) (record c { rob = behind g c.rob })
                (behind-Ring g c.rob v h) (kept_behind c v h kept) (Bounded-behind n c v due bound)
                (omega arith))
      ]

  -- Let the ring of the reorder buffer lie in its array, no entry that is due be a lost request, and the
  -- buffer be empty, or hold at least CORE_WIDTH entries or one that is not due. Then mcore_rob_retire
  -- returns; from a buffer that is not empty it takes entries off the front that are all due, keeps the
  -- order of the others, and stops after CORE_WIDTH entries or before the first that is not due.
  pub rob_retire-Retired :
      (c : Core T)
      → Ring g.rob_size c.rob
      → NoneLost c
      → (c.rob.size ≡ 0) ⊎ Bounded g.core_width c
      → g.core_width < 2 ^ 32
      → ((c.rob.size ≡ 0) × (rob_retire g c ≡ ok (0, c)))
        ⊎ ((0 < c.rob.size) × Retired g.core_width 0 c (rob_retire g c))
  unfolding rob_retire
  rob_retire-Retired c v kept bound few = elim (ℕ_discrete c.rob.size 0) [
    | yes e ↦ inl (e, rw e)
    | no ne ↦
        let some_entry : (c.rob.size == 0) ≡ false = ground arith in
        let loop : rob_retire g c ≡ retire_loop g g.core_width 0 c = rw some_entry in
        inr (
          omega arith,
          subst (Retired g.core_width 0 c) (sym loop)
              (retire_loop-Retired g.core_width 0 c v kept (filled bound ne) (omega arith)),
        )
  ]
    where
      filled : ((c.rob.size ≡ 0) ⊎ Bounded g.core_width c) → c.rob.size ≢ 0 → Bounded g.core_width c
      filled (inl e) ne = absurd (ne e)
      filled (inr b) ne = b
