-- ===== src/Dramsim.antt =====
-- The alternative memory system of src/memsys_dramsim3.cpp: the table of reads in flight (MSHR) over
-- DRAMsim3, which is a parameter.
pub mod Contract
pub mod Steady
pub mod Access
mod Tests
use mds.Base.{
  ℕ, ◌*◌, ◌/◌, ◌%◌, ◌^◌, Bool, true, false, Result, ok, err, ◌>>=◌, ◌>>◌, check, undefined, ◌==◌,
  if◌then◌else◌, List, [], ◌∷◌, mul64,
}
use mds.Settings.{Settings}
use mds.Core.Types.{Core}
use mds.MemSys.{World, memsys_callback}
use mds.MemSys.Table.{MshrEntry, count}

-- What the memory system uses of `dramsim3::MemorySystem`. An address is in bytes, and the flag says whether
-- the transaction is a write. ClockTick makes its callbacks one after the other; they do not reach into it.
pub record Dramsim (D : Type 0) : Type 0 where
  pub will_accept_transaction : D → ℕ → Bool → Bool
  pub add_transaction : D → ℕ → Bool → D
  pub clock_tick : D → List (Bool × ℕ) × D

pub record DramsimMemSys (D : Type 0) : Type 0 where
  pub mainmem : D
  pub lines_in_mainmem_rbuf : ℕ
  pub mshr : List (ℕ × MshrEntry)

module _ {D : Type 0} where
  -- `memsys_new`, given what GetMemorySystem makes of the configuration file
  unfoldable pub dramsim_new : (List ℕ → D) → Settings → List ℕ → Result (DramsimMemSys D)
  dramsim_new get_memory_system g dramsim3cfg =
      if g.linesize == 0
      then err undefined
      else ok (record {
        mainmem = get_memory_system dramsim3cfg;
        lines_in_mainmem_rbuf = g.mem_pagesize / g.linesize;
        mshr = [];
      })

  -- `memsys_mshr_insert`
  unfoldable pub dramsim_mshr_insert : DramsimMemSys D → ℕ → MshrEntry → Result (DramsimMemSys D)
  dramsim_mshr_insert m lineaddr e = do
    check (count lineaddr m.mshr == 0)
    ok (record m { mshr = (lineaddr, e) ∷ m.mshr })

module _ {D : Type 0} (s : Dramsim D) where
  -- the read of `memsys_access`, and its answer
  unfoldable pub dramsim_read :
      Settings → DramsimMemSys D → ℕ → MshrEntry → Result (Bool × DramsimMemSys D)
  dramsim_read g m lineaddr e =
      let byteaddress = mul64 lineaddr g.linesize in
      if s.will_accept_transaction m.mainmem byteaddress false
      then (dramsim_mshr_insert
            (record m { mainmem = s.add_transaction m.mainmem byteaddress false }) lineaddr e
          >>= λ m1. ok (true, m1))
      else ok (false, m)

  -- the write-back of `memsys_access`, which is dropped when it is not accepted
  unfoldable pub dramsim_write_back : Settings → DramsimMemSys D → ℕ → DramsimMemSys D
  dramsim_write_back g m wb_lineaddr =
      let wb_byteaddress = mul64 wb_lineaddr g.linesize in
      if wb_lineaddr == 0
      then m
      else if s.will_accept_transaction m.mainmem wb_byteaddress true
      then record m { mainmem = s.add_transaction m.mainmem wb_byteaddress true }
      else m

  -- `memsys_access`
  unfoldable pub dramsim_access :
      Settings → DramsimMemSys D → ℕ → MshrEntry → ℕ → Result (Bool × DramsimMemSys D)
  dramsim_access g m lineaddr e wb_lineaddr = dramsim_read g m lineaddr e >>= λ (retval, m1).
      ok (retval, dramsim_write_back g m1 wb_lineaddr)

module _ {T : Type 0} where
  -- `memsys_callback`, whose body is that of src/memsys.cpp but for the address in bytes
  unfoldable pub dramsim_callback : Settings → ℕ → World T → Result (World T)
  dramsim_callback g byteaddress w =
      if g.linesize == 0 then err undefined else memsys_callback (byteaddress / g.linesize) w

  -- the callbacks of a tick; `memsys_callback_write` does nothing
  unfoldable pub answer_all : Settings → List (Bool × ℕ) → World T → Result (World T)
  answer_all g [] w = ok w
  answer_all g ((is_write, byteaddress) ∷ calls) w =
      (if is_write then ok w else dramsim_callback g byteaddress w) >>= answer_all g calls

  -- `memsys_cycle`
  unfoldable pub dramsim_cycle :
      {D : Type 0}
      → Dramsim D
      → Settings
      → DramsimMemSys D
      → List (Core T)
      → Result (DramsimMemSys D × List (Core T))
  dramsim_cycle s g m cs = do
    let (calls, d) = s.clock_tick m.mainmem
    w ← answer_all g calls (record { mshr = m.mshr; mcore = cs })
    ok (record m { mainmem = d; mshr = w.mshr }, w.mcore)
