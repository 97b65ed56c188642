-- ===== src/Sim/Cycling.antt =====
-- mcore_cycle of src/mcore.cpp as a whole.
use mds.Base.{ℕ, List, add64}
use mds.Settings.{Settings}
use mds.Core.Types.{Core}
use mds.Core.Trace.{Zlib}
use mds.Core.Cycle.{Nest}
use mds.MemSys.Table.{MshrEntry}
use mds.Sim.Pending.{Pending}
use mds.Sim.Retiring.{Filled}
use mds.Sim.Turn.{Limits, InCycle}
use mds.Sim.Reading.{ReadsBytes}

-- `c->cycle++`
abbrev pub ticked : {T : Type 0} → Core T → Core T
ticked c = record c { cycle = add64 c.cycle 1 }

module _ {T : Type 0} (z : Zlib T) (bytes : ReadsBytes z) (g : Settings) (limits : Limits g)
    (now rows lines i : ℕ) (t0 : List (ℕ × MshrEntry)) where
  -- what a cycle of the core comes to
  abbrev pub CoreCycled : Nest × Core T → Type 0
  CoreCycled out = InCycle g rows lines i t0 out.0 out.1 × Filled g out.1
