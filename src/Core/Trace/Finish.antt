-- ===== src/Core/Trace/Finish.antt =====
-- When a core is done: the statistics that mcore_read_trace (src/mcore.cpp) keeps of its first `inst_limit`
-- instructions.
use mds.Base.{
  ◌<◌, ◌≤◌, ◌≡◌, ◌⊎◌, Bool, true, false, if◌then◌else◌, none, some, Result, ok, err, exited, Rand,
  add64,
}
use mds.Settings.{Settings}
use mds.Core.Types.{Core}
use mds.Core.Trace.{Zlib, fread_trace, note_done, rewind_trace}

module _ {T : Type 0} (z : Zlib T) where
  -- the statistics of a core that is done
  pub record SameTotals (c d : Core T) : Type 0 where
    pub done : d.done ≡ c.done
    pub inst : d.done_inst_count ≡ c.done_inst_count
    pub cycle : d.done_cycle_count ≡ c.done_cycle_count
    pub access : d.done_access_count ≡ c.done_access_count
    pub miss : d.done_miss_count ≡ c.done_miss_count
    pub num_delay : d.done_num_delay_count ≡ c.done_num_delay_count
    pub sum_delay : d.done_sum_delay_count ≡ c.done_sum_delay_count
    pub queue_full : d.done_queue_full_count ≡ c.done_queue_full_count
    pub sleep_cycle : d.done_sleep_cycle_count ≡ c.done_sleep_cycle_count

  -- Only the trace was read on.
  abbrev pub ReadOn : Core T → Rand → Result (Core T × Rand) → Type 0
  ReadOn c r res = res ≡ ok (fread_trace z c, r)

  -- The trace starts again, on the first attempt to open it or the second, and the counter of instructions
  -- with it; without either the program ends. `d` has the statistics to be kept.
  abbrev pub Restarted : Core T → Result (Core T × Rand) → Type 0
  Restarted d res =
      ((z.gzopen d.id 0 ≡ none) × (z.gzopen d.id 1 ≡ none) × (res ≡ err exited))
      ⊎ ((t : T) × (c' : Core T) × (r' : Rand) × ((z.gzopen d.id 0 ≡ some t)
            ⊎ ((z.gzopen d.id 0 ≡ none) × (z.gzopen d.id 1 ≡ some t)))
          × (res ≡ ok (c', r'))
          × SameTotals d c'
          × (c'.inst_num ≡ 0)
          × (c'.lifetime_inst_count ≡ add64 d.lifetime_inst_count d.inst_num))

  abbrev pub restart : Core T → T → Core T
  restart d t =
      let c1 = fread_trace z (record d { addr_trace = t }) in
      record c1 { lifetime_inst_count = add64 c1.lifetime_inst_count c1.inst_num; inst_num = 0 }

  -- A core that is not done and reaches the limit of instructions, or the end of its trace, becomes done, with
  -- the statistics of that moment; a core that is done keeps its statistics.
  abbrev pub Ended : Settings → Core T → Rand → Result (Core T × Rand) → Type 0
  Ended g c r res =
      let c1 = fread_trace z c in
      ((z.gzeof c1.addr_trace ≡ false)
        × ((c.done ≡ true) ⊎ (c.inst_num < g.inst_limit))
        × ReadOn c r res)
      ⊎ ((z.gzeof c1.addr_trace ≡ true) × (c.done ≡ true) × Restarted c1 res)
      ⊎ (((z.gzeof c1.addr_trace ≡ true) ⊎ (g.inst_limit ≤ c.inst_num))
          × (c.done ≡ false)
          × Restarted (note_done z c1) res)

  -- the trace of a core that ends, with the statistics as they are or of this moment
  abbrev ending : Bool → Core T → Rand → Result (Core T × Rand)
  ending b c1 r = rewind_trace z (if b then c1 else note_done z c1) r
