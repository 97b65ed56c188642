-- ===== src/Core/Cycle.antt =====
-- A cycle of a core, mcore_cycle and mcore_retry_sleeping_request of src/mcore.cpp.
use mds.Base.{
  ℕ, zero, suc, Bool, true, false, not, ◌&&◌, Result, ok, err, ◌>>=◌, undefined, ltb, leb, ◌==◌,
  if◌then◌else◌, length, add32, add64, to32, Rand,
}
use mds.Settings.{Settings}
use mds.Cache.Defs.{Cache}
use mds.Cache.Lookup.{access, mark_dirty}
use mds.Cache.Install.{install}
use mds.MemSys.{MemSys, memsys_access}
use mds.Os.{Os, v2p_lineaddr}
use mds.Core.Types.{Core, default_mem_delay}
use mds.Core.Rob.{put_rob, rob_insert, rob_retire}
use mds.Core.Trace.{Zlib, read_trace}

-- what the cores share, and the state of rand()
pub record Nest : Type 0 where
  pub memsys : MemSys
  pub l3cache : Cache
  pub os : Os
  pub rand : Rand

-- what the access of an instruction tells: the delay, and whether and what the memory has to do
pub record Demand : Type 0 where
  pub delay : ℕ
  pub mem_access : Bool
  pub wb_lineaddr : ℕ

abbrev pub no_demand : Demand
no_demand = record { delay = 0; mem_access = false; wb_lineaddr = 0 }

module _ {T : Type 0} where
  -- the branch of a write
  unfoldable pub write_line : Nest → Core T → ℕ → Result (Demand × Nest × Core T)
  write_line n c lineaddr = do
    (held, l3) ← mark_dirty n.l3cache lineaddr
    ok (
      no_demand,
      record n { l3cache = l3 },
      if held then c else record c { dropped_writes = add64 c.dropped_writes 1 },
    )

  -- a miss: the line is installed, and a dirty line that it throws out is to be written back
  unfoldable pub miss_line : Settings → Nest → Core T → ℕ → Result (Demand × Nest × Core T)
  miss_line g n c lineaddr = do
    (l3, r) ← install g.lru_wb_tth n.l3cache lineaddr n.rand
    ok (
      record {
        delay = add32 (to32 g.l3_latency) default_mem_delay;
        mem_access = true;
        wb_lineaddr = if l3.evicted_dirty_line then l3.evicted_line_addr else 0;
      },
      record n { l3cache = l3; rand = r },
      record c { miss_count = add64 c.miss_count 1 },
    )

  -- the branch of a read
  unfoldable pub read_line : Settings → Nest → Core T → ℕ → Result (Demand × Nest × Core T)
  read_line g n c lineaddr = do
    let c1 = record c { access_count = add64 c.access_count 1 }
    (hit, l3) ← access n.l3cache lineaddr
    (if not g.l3_perfect && not hit
        then miss_line g (record n { l3cache = l3 }) c1 lineaddr
        else ok (
          record { delay = to32 g.l3_latency; mem_access = false; wb_lineaddr = 0 },
          record n { l3cache = l3 },
          c1,
        ))

  -- the request to the memory; false when the queue is full and the core goes to sleep
  unfoldable pub send : Settings → ℕ → Nest → Core T → ℕ → ℕ → ℕ → Result (Bool × Nest × Core T)
  send g now n c lineaddr robid wb_lineaddr = do
    (sent, m) ←
        memsys_access g now n.memsys lineaddr
          (record { coreid = c.id; robid = robid; inst_num = c.inst_num }) wb_lineaddr
    ok (
      sent,
      record n { memsys = m },
      if sent then c else record c {
        queue_full_count = add64 c.queue_full_count 1;
        sleep_lineaddr = lineaddr;
        sleep_robid = robid;
        sleep_inst_num = c.inst_num;
        sleep = true;
      },
    )

  -- `mcore_retry_sleeping_request`
  unfoldable pub retry_sleeping_request :
      Settings → ℕ → Nest → Core T → Result (Bool × Nest × Core T)
  retry_sleeping_request g now n c = do
    let c1 = record c { sleep_cycle_count = add64 c.sleep_cycle_count 1 }
    (sent, m) ←
        memsys_access g now n.memsys c1.sleep_lineaddr
          (record { coreid = c1.id; robid = c1.sleep_robid; inst_num = c1.sleep_inst_num }) 0
    (if not sent
        then ok (false, record n { memsys = m }, c1)
        else if ltb c1.sleep_robid (length c1.rob.entries)
        then ok (
          true,
          record n { memsys = m },
          record c1 {
            rob = put_rob (c1.rob) c1.sleep_robid (record {
              birth_time = c1.cycle;
              ready_time = add64 c1.cycle default_mem_delay;
              inst_num = c1.sleep_inst_num;
            });
            sleep = false;
          },
        )
        else err undefined)

module _ {T : Type 0} (z : Zlib T) where
  -- the instruction that the trace waits for, if this is it, and the next one of the trace
  unfoldable pub trace_access : Settings → Nest → Core T → ℕ → Result (Demand × Nest × Core T)
  trace_access g n c lineaddr =
      if leb c.trace_inst_num c.inst_num
      then ((if c.trace_wb then write_line n c lineaddr else read_line g n c lineaddr)
          >>= λ (d, n1, c1).
              read_trace z g c1 n1.rand >>= λ (c2, r). ok (d, record n1 { rand = r }, c2))
      else ok (no_demand, n, c)

  -- one instruction; false when the cycle ends with it
  unfoldable pub issue : Settings → ℕ → Nest → Core T → Result (Bool × Nest × Core T)
  issue g now n c = do
    let c1 = record c { inst_num = add64 c.inst_num 1 }
    (c2, r) ←
        (if not c1.done && ltb g.inst_limit c1.inst_num
          then read_trace z g c1 n.rand
          else ok (c1, n.rand))
    (lineaddr, os, r1) ← v2p_lineaddr n.os c2.trace_va c2.id r
    (d, n1, c3) ← trace_access g (record n { os = os; rand = r1 }) c2 lineaddr
    (robid, c4) ← rob_insert g c3 c3.inst_num c3.cycle (add64 c3.cycle d.delay)
    (if d.mem_access then send g now n1 c4 lineaddr robid d.wb_lineaddr else ok (true, n1, c4))

  -- the loop over CORE_WIDTH instructions
  unfoldable pub issue_loop : Settings → ℕ → ℕ → Nest → Core T → Result (Nest × Core T)
  issue_loop g now zero n c = ok (n, c)
  issue_loop g now (suc k) n c =
      if c.rob.size == g.rob_size
      then ok (n, c)
      else (issue g now n c >>= λ (go_on, n1, c1).
          if go_on then issue_loop g now k n1 c1 else ok (n1, c1))

  -- `mcore_cycle`
  unfoldable pub core_cycle : Settings → ℕ → Nest → Core T → Result (Nest × Core T)
  core_cycle g now n c = do
    (retired, c1) ← rob_retire g (record c { cycle = add64 c.cycle 1 })
    (awake, n2, c2) ← (if c1.sleep then retry_sleeping_request g now n c1 else ok (true, n, c1))
    (if awake then issue_loop g now g.core_width n2 c2 else ok (n2, c2))
