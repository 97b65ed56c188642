-- ===== src/Sim/Turn.antt =====
-- The state of a core in the middle of its cycle, with what the cores share (src/mcore.cpp).
use mds.Base.{ℕ, ◌*◌, ◌^◌, ◌<◌, ◌≤◌, ◌≡◌, sym, subst, List, ◌++◌}
use mds.Settings.{Settings}
use mds.Cache.Sound.{CacheOk}
use mds.Os.{Os}
use mds.Os.Layout.{IsFair}
use mds.MemSys.Keeping.{MemKept}
use mds.MemSys.Table.{MshrEntry, Each}
use mds.Core.Types.{Core}
use mds.Core.Cycle.{Nest}
use mds.Sim.Pending.{frame, FrameOk, Own, Apart}

-- what the settings have to be
pub record Limits (g : Settings) : Type 0 where
  pub width : g.core_width < 2 ^ 32
  pub width_fits : g.core_width ≤ g.rob_size
  pub latency : g.l3_latency < 2 ^ 31
  pub mapping : g.dram_map_policy < 4
  pub scheduling : g.dram_sched_policy < 2

-- The page table is well-formed, and its pages lie in the memory.
pub record PagesOk (lines : ℕ) (o : Os) : Type 0 where
  pub fair : IsFair o
  pub fits : o.num_pages * o.lines_in_page ≤ lines

-- nothing is asked of an entry
abbrev pub Any : MshrEntry → Type 0
Any e = Unit

pub record NestOk (g : Settings) (rows lines : ℕ) (n : Nest) : Type 0 where
  pub memory : MemKept g rows lines Any n.memsys
  pub cache : CacheOk lines n.l3cache
  pub pages : PagesOk lines n.os

-- The table has new entries of core `i`, and the old ones.
abbrev pub Grown : ℕ → List (ℕ × MshrEntry) → List (ℕ × MshrEntry) → Type 0
Grown i t0 t = (new : List (ℕ × MshrEntry)) × (t ≡ new ++ t0) × Each (λ e. e.coreid ≡ i) new

-- Core `i` in its cycle, which began with the table `t0`.
pub record InCycle {T : Type 0} (g : Settings) (rows lines i : ℕ) (t0 : List (ℕ × MshrEntry))
    (n : Nest) (c : Core T) : Type 0 where
  pub nest : NestOk g rows lines n
  pub core : FrameOk g lines i (frame c)
  pub own : Each (Own g i (frame c)) n.memsys.mshr
  pub apart : Apart n.memsys.mshr
  pub grown : Grown i t0 n.memsys.mshr
  pub va : c.trace_va < 2 ^ 32

module _ {T : Type 0} (g : Settings) (rows lines i : ℕ) (t0 : List (ℕ × MshrEntry)) where
  -- a step that leaves the table and the frame of the core
  pub InCycle-same :
      (n n' : Nest) (c c' : Core T)
      → InCycle g rows lines i t0 n c
      → NestOk g rows lines n'
      → n'.memsys.mshr ≡ n.memsys.mshr
      → frame c' ≡ frame c
      → c'.trace_va < 2 ^ 32
      → InCycle g rows lines i t0 n' c'
  InCycle-same n n' c c' v ok same_table same_frame va = record {
    nest = ok;
    core = subst (FrameOk g lines i) (sym same_frame) v.core;
    own =
        subst (λ t. Each (Own g i (frame c')) t) (sym same_table)
          (subst (λ f. Each (Own g i f) n.memsys.mshr) (sym same_frame) v.own);
    apart = subst Apart (sym same_table) v.apart;
    grown = subst (Grown i t0) (sym same_table) v.grown;
    va = va;
  }
