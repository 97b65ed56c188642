-- ===== src/Core/Rob/Queue.antt =====
-- The reorder buffer of src/mcore.cpp as a queue: what mcore_rob_insert appends, and what mcore_rob_retire
-- takes off its front.
use mds.Base.{
  ℕ, ◌+◌, ◌%◌, ◌<◌, ◌≤◌, ◌≡◌, ap, ◌⊎◌, inl, inr, arith, Result, ok, err, assert_failed, ltb, lt→ltb,
  Bool-cases, length, length-set, get_or-set_self, get_or-set_ne, add32,
}
use mds.Settings.{Settings}
use mds.Core.Types.{RobEntry, Rob, Core, no_rob_entry}
use mds.Core.Rob.{rob_at, put_rob, rob_insert}
use mds.Core.Rob.Ring.{ring_ne}

-- the ring lies in the array
pub record Ring (rob_size : ℕ) (q : Rob) : Type 0 where
  pub some_room : 0 < rob_size
  pub small : rob_size ≤ 1024
  pub inside : rob_size ≤ length q.entries
  pub front : q.ptr < rob_size
  pub fits : q.size ≤ rob_size

-- entry number `i` from the front
abbrev pub entry_of : ℕ → Rob → ℕ → RobEntry
entry_of rob_size q i = rob_at q ((q.ptr + i) % rob_size)

module _ {T : Type 0} (g : Settings) where
  -- what an insertion comes to
  abbrev pub Appended : Core T → RobEntry → Result (ℕ × Core T) → Type 0
  Appended c e out =
      ((g.rob_size ≡ c.rob.size) × (out ≡ err assert_failed))
      ⊎ ((index : ℕ) × (q : Rob) × (out ≡ ok (index, record c { rob = q }))
          × Ring g.rob_size q
          × (q.size ≡ c.rob.size + 1)
          × (rob_at q index ≡ e)
          × (entry_of g.rob_size q c.rob.size ≡ e)
          × ((i : ℕ) → i < c.rob.size → entry_of g.rob_size q i ≡ entry_of g.rob_size c.rob i))

  -- With a ring that lies in its array, mcore_rob_insert fails its assertion exactly when the ring is full;
  -- otherwise it returns the place of the new entry, which stands behind all others, and these keep their
  -- places.
  pub rob_insert-Appended :
      (c : Core T) (inst_num cycle ready_time : ℕ)
      → Ring g.rob_size c.rob
      → Appended c
          (record { birth_time = cycle; ready_time = ready_time; inst_num = inst_num })
          (rob_insert g c inst_num cycle ready_time)
  unfolding rob_insert
  rob_insert-Appended c inst_num cycle ready_time v =
      elim (Bool-cases (ltb c.rob.size g.rob_size)) [
        | inr full ↦ inl (ground (arith, v.fits), rw full)
        | inl room ↦
            let below : c.rob.size < g.rob_size = ground arith in
            let place : add32 c.rob.ptr c.rob.size % g.rob_size
                ≡ (c.rob.ptr + c.rob.size) % g.rob_size =
              ap (λ t. t % g.rob_size) (omega (arith, v.small, v.front)) in
            let inside : (c.rob.ptr + c.rob.size) % g.rob_size < length c.rob.entries =
              (let a = v.some_room in let b = v.inside in grind arith) in
            inr (
              (c.rob.ptr + c.rob.size) % g.rob_size,
              record (put_rob (c.rob) ((c.rob.ptr + c.rob.size) % g.rob_size) e) {
                size = add32 c.rob.size 1;
              },
              rw (room, place, lt→ltb _ _ inside),
              record {
                some_room = v.some_room;
                small = v.small;
                inside = omega (
                  arith,
                  v.inside,
                  length-set c.rob.entries ((c.rob.ptr + c.rob.size) % g.rob_size) e,
                );
                front = v.front;
                fits = omega (arith, v.small);
              },
              omega (arith, v.small),
              get_or-set_self c.rob.entries _ e no_rob_entry inside,
              get_or-set_self c.rob.entries _ e no_rob_entry inside,
              λ i h.
                  get_or-set_ne c.rob.entries _ _ e no_rob_entry
                    (ring_ne c.rob.ptr i c.rob.size g.rob_size v.front h below),
            )
      ]
    where
      e : RobEntry
      e = record { birth_time = cycle; ready_time = ready_time; inst_num = inst_num }
