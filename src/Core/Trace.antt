-- ===== src/Core/Trace.antt =====
-- The trace of a core: mcore_init_trace, mcore_fread_trace, mcore_read_trace and mcore_new of src/mcore.cpp.
pub mod Reading
pub mod Finish
use mds.Base.{
  ℕ, ◌+◌, ◌*◌, Bool, true, false, not, ◌&&◌, ◌||◌, Option, none, some, List, [], ◌∷◌, Result, ok,
  err, ◌>>=◌, exited, leb, ◌==◌, if◌then◌else◌, replicate, add64, Rand, draw,
}
use mds.Settings.{Settings}
use mds.Core.Types.{Core, max_rob_entries, no_rob_entry}

-- What the core uses of zlib. `gzopen` may fail, and is given the number of the attempt; `gzread` gives at
-- most as many bytes as it is asked for, and fewer at the end of the file.
pub record Zlib (T : Type 0) : Type 0 where
  pub gzopen : ℕ → ℕ → Option T
  pub gzread : T → ℕ → List ℕ × T
  pub gzeof : T → Bool

-- The number whose low bytes are these, as a little-endian machine keeps it.
abbrev pub value_of : List ℕ → ℕ
value_of [] = 0
value_of (b ∷ bs) = b + 256 * value_of bs

module _ {T : Type 0} (z : Zlib T) where
  -- `mcore_init_trace` of core `id`; rand() sets the time before the second attempt
  unfoldable pub init_trace : ℕ → Rand → Result (T × Rand)
  init_trace id r = elim (z.gzopen id 0) [
    | some t ↦ ok (t, r)
    | none ↦ elim (z.gzopen id 1) [ some t ↦ ok (t, (draw r).1) | none ↦ err exited ]
  ]

  -- `mcore_fread_trace`: five bytes, one byte and four bytes
  unfoldable pub fread_trace : Core T → Core T
  fread_trace c =
      let (inst_num, t1) = z.gzread c.addr_trace 5 in
      let (wb, t2) = z.gzread t1 1 in
      let (va, t3) = z.gzread t2 4 in
      record c {
        addr_trace = t3;
        trace_inst_num = value_of inst_num;
        trace_wb = not (value_of wb == 0);
        trace_va = value_of va;
      }

  -- the statistics of a core that is done for the first time
  abbrev pub note_done : Core T → Core T
  note_done c = record c {
    done_inst_count = c.inst_num;
    done_cycle_count = c.cycle;
    done_access_count = c.access_count;
    done_miss_count = c.miss_count;
    done_num_delay_count = c.num_delay_count;
    done_sum_delay_count = c.sum_delay_count;
    done_queue_full_count = c.queue_full_count;
    done_sleep_cycle_count = c.sleep_cycle_count;
    done = true;
  }

  -- the trace from its start; MCORE_STOP_ON_EOF is 0
  unfoldable pub rewind_trace : Core T → Rand → Result (Core T × Rand)
  rewind_trace c r = do
    (t, r') ← init_trace c.id r
    let c1 = fread_trace (record c { addr_trace = t })
    ok (
      record c1 { lifetime_inst_count = add64 c1.lifetime_inst_count c1.inst_num; inst_num = 0 },
      r',
    )

  -- `mcore_read_trace`
  unfoldable pub read_trace : Settings → Core T → Rand → Result (Core T × Rand)
  read_trace g c r =
      let c1 = fread_trace c in
      if z.gzeof c1.addr_trace || (not c1.done && leb g.inst_limit c1.inst_num)
      then rewind_trace (if c1.done then c1 else note_done c1) r
      else ok (c1, r)

  -- the core that `mcore_new` starts from
  abbrev pub blank_core : ℕ → T → Core T
  blank_core id t = record {
    id = id;
    addr_trace = t;
    done = false;
    sleep = false;
    sleep_lineaddr = 0;
    sleep_robid = 0;
    sleep_inst_num = 0;
    rob = record { entries = replicate max_rob_entries no_rob_entry; ptr = 0; size = 0 };
    trace_inst_num = 0;
    trace_va = 0;
    trace_wb = false;
    cycle = 0;
    inst_num = 0;
    access_count = 0;
    miss_count = 0;
    num_delay_count = 0;
    sum_delay_count = 0;
    queue_full_count = 0;
    sleep_cycle_count = 0;
    lifetime_inst_count = 0;
    done_inst_count = 0;
    done_cycle_count = 0;
    done_access_count = 0;
    done_miss_count = 0;
    done_num_delay_count = 0;
    done_sum_delay_count = 0;
    done_queue_full_count = 0;
    done_sleep_cycle_count = 0;
    dropped_writes = 0;
  }

  -- `mcore_new`
  unfoldable pub core_new : Settings → ℕ → Rand → Result (Core T × Rand)
  core_new g id r = do (t, r1) ← init_trace id r; read_trace g (blank_core id t) r1
