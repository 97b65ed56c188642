-- ===== src/Core/Rob.antt =====
-- The reorder buffer: mcore_rob_insert, mcore_rob_retire and mcore_rob_wakeup of src/mcore.cpp.
pub mod Ring
pub mod Queue
pub mod Retire
pub mod Lost
use mds.Base.{
  ℕ, zero, suc, ◌%◌, Bool, not, ◌&&◌, ◌||◌, Result, ok, err, ◌>>◌, check, assert_failed, undefined,
  ltb, leb, ◌==◌, if◌then◌else◌, length, get_or, set, add32, sub32, add64, sub64,
}
use mds.Settings.{Settings}
use mds.Core.Types.{RobEntry, Rob, Core, default_mem_delay, no_rob_entry}

-- `c->rob.entries[i]`
abbrev pub rob_at : Rob → ℕ → RobEntry
rob_at q i = get_or q.entries i no_rob_entry

abbrev pub put_rob : Rob → ℕ → RobEntry → Rob
put_rob q i e = record q { entries = set q.entries i e }

-- The ring arithmetic of `mcore_rob_insert` and `mcore_rob_retire`: a remainder by zero is undefined.
module _ {T : Type 0} where
  -- `mcore_rob_insert`; the printing for one core is left out
  unfoldable pub rob_insert : Settings → Core T → ℕ → ℕ → ℕ → Result (ℕ × Core T)
  rob_insert g c inst_num cycle ready_time = do
    check (ltb c.rob.size g.rob_size)
    (let index = add32 c.rob.ptr c.rob.size % g.rob_size in
        let e : RobEntry = record {
          birth_time = cycle;
          ready_time = ready_time;
          inst_num = inst_num;
        } in
        if ltb index (length c.rob.entries)
        then ok (
          index,
          record c { rob = record (put_rob (c.rob) index e) { size = add32 c.rob.size 1 } },
        )
        else err undefined)

  -- the test for a request that the memory never answered; DIEMSG ends in an assertion
  abbrev pub is_lost : Core T → Bool
  is_lost c =
      let e = rob_at c.rob c.rob.ptr in
      leb default_mem_delay (sub64 e.ready_time e.birth_time)
      && not (c.sleep && e.inst_num == c.sleep_inst_num)

  -- the loop of `mcore_rob_retire` with the rounds that are left
  unfoldable pub retire_loop : Settings → ℕ → ℕ → Core T → Result (ℕ × Core T)
  retire_loop g zero done c = ok (done, c)
  retire_loop g (suc n) done c =
      let rest = retire_loop g n (add32 done 1) (record c {
        rob = record (c.rob) { ptr = add32 c.rob.ptr 1 % g.rob_size; size = sub32 c.rob.size 1 };
      }) in
      if not (ltb c.rob.ptr (length c.rob.entries)) || g.rob_size == 0
      then err undefined
      else if leb (rob_at c.rob c.rob.ptr).ready_time c.cycle
      then (check (not (is_lost c)) >> rest)
      else ok (done, c)

  -- `mcore_rob_retire`
  unfoldable pub rob_retire : Settings → Core T → Result (ℕ × Core T)
  rob_retire g c = if c.rob.size == 0 then ok (0, c) else retire_loop g g.core_width 0 c

  -- `mcore_rob_wakeup`
  unfoldable pub rob_wakeup : Core T → ℕ → ℕ → Result (Core T)
  rob_wakeup c robid inst_num =
      let e = rob_at c.rob robid in
      if not (ltb robid (length c.rob.entries))
      then err undefined
      else if e.inst_num == inst_num
      then ok (record c {
        rob = put_rob (c.rob) robid (record e { ready_time = c.cycle });
        num_delay_count = add64 c.num_delay_count 1;
        sum_delay_count = add64 c.sum_delay_count (sub64 c.cycle e.birth_time);
      })
      else err assert_failed
