-- ===== src/MemSys.antt =====
-- The memory system of src/memsys.cpp: the DRAM and the table of the reads in flight (MSHR).
pub mod Table
pub mod Answers
pub mod Steady
pub mod Start
pub mod Keeping
pub mod Access
pub mod Sample
mod Tests
use mds.Base.{
  ℕ, zero, suc, ◌/◌, Bool, true, false, not, Result, ok, err, ◌>>=◌, ◌>>◌, check, undefined, ltb,
  ◌==◌, if◌then◌else◌, List, [], ◌∷◌, length, get_or, set, Option, none, some, Rand,
}
use mds.Settings.{Settings}
use mds.Dram.Types.{Dram}
use mds.Dram.System.{dram_new, dram_insert, dram_cycle}
use mds.Core.Types.{Core}
use mds.Core.Rob.{rob_wakeup}
use mds.MemSys.Table.{MshrEntry, count, lookup, erase}

pub record MemSys : Type 0 where
  pub mainmem : Dram
  pub lines_in_mainmem_rbuf : ℕ
  pub mshr : List (ℕ × MshrEntry)

-- `memsys_new`, with the settings as `dram_new` leaves them
unfoldable pub memsys_new : Settings → Result (Settings × MemSys)
memsys_new g = do
  (g', d) ← dram_new g
  (if g'.linesize == 0
      then err undefined
      else ok (
        g',
        record { mainmem = d; lines_in_mainmem_rbuf = g'.mem_pagesize / g'.linesize; mshr = [] },
      ))

-- `memsys_mshr_insert`
unfoldable pub mshr_insert : MemSys → ℕ → MshrEntry → Result MemSys
mshr_insert m lineaddr e = do
  check (count lineaddr m.mshr == 0)
  ok (record m { mshr = (lineaddr, e) ∷ m.mshr })

-- the write-back at the end of `memsys_access`, whose answer is ignored
unfoldable pub write_back : Settings → ℕ → MemSys → ℕ → Result MemSys
write_back g now m wb_lineaddr =
    if wb_lineaddr == 0
    then ok m
    else (dram_insert g now m.mainmem wb_lineaddr true >>= λ (done, d).
        ok (record m { mainmem = d }))

-- `memsys_access`
unfoldable pub memsys_access : Settings → ℕ → MemSys → ℕ → MshrEntry → ℕ → Result (Bool × MemSys)
memsys_access g now m lineaddr e wb_lineaddr = do
  (retval, d) ← dram_insert g now m.mainmem lineaddr false
  m1 ←
      (if retval
        then mshr_insert (record m { mainmem = d }) lineaddr e
        else ok (record m { mainmem = d }))
  m2 ← write_back g now m1 wb_lineaddr
  ok (retval, m2)

-- what the callback works on: the table and the cores
pub record World (T : Type 0) : Type 0 where
  pub mshr : List (ℕ × MshrEntry)
  pub mcore : List (Core T)

module _ {T : Type 0} where
  -- `mcore[i]`, where there is such a core
  abbrev pub core_at : List (Core T) → ℕ → Option (Core T)
  core_at [] i = none
  core_at (c ∷ cs) zero = some c
  core_at (c ∷ cs) (suc i) = core_at cs i

  -- the answer to the core of an entry; no such core is undefined
  unfoldable pub wakeup_core : List (Core T) → MshrEntry → Result (List (Core T))
  wakeup_core cs e = elim (core_at cs e.coreid) [
    | some c ↦ rob_wakeup c e.robid e.inst_num >>= λ c'. ok (set cs e.coreid c')
    | none ↦ err undefined
  ]

  -- `memsys_callback`
  unfoldable pub memsys_callback : ℕ → World T → Result (World T)
  memsys_callback lineaddr w = do
    check (not (count lineaddr w.mshr == 0))
    elim (lookup lineaddr w.mshr) [
      | some e ↦
          wakeup_core w.mcore e >>= λ cs. ok (record { mshr = erase lineaddr w.mshr; mcore = cs })
      | none ↦ err undefined
    ]

  -- `memsys_cycle`
  unfoldable pub memsys_cycle :
      Settings → ℕ → MemSys → List (Core T) → Rand → Result (MemSys × List (Core T) × Rand)
  memsys_cycle g now m cs r = do
    (d, r', w) ← dram_cycle memsys_callback g now m.mainmem r (record { mshr = m.mshr; mcore = cs })
    ok (record m { mainmem = d; mshr = w.mshr }, w.mcore, r')
