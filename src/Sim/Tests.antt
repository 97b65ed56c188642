-- ===== src/Sim/Tests.antt =====
-- The simulator at concrete inputs: two cores, a cache of 8 MB and a memory of 1 MB.
use mds.Base.{
  ℕ, ◌+◌, ◌*◌, Bool, false, not, List, [], ◌∷◌, some, Result, ok, err, ◌==◌, if◌then◌else◌, Rand,
  to32,
}
use mds.Settings.{Settings}
use mds.Sim.{Sim}
use mds.Core.Trace.{Zlib, blank_core}
use mds.Cache.Defs.{new}
use mds.Core.Types.{Core}
use mds.Core.Trace.Reading.{bytes_of}
use mds.Dram.Sample.{tiny}
use mds.MemSys.Start.{new_memsys}
use mds.Os.Start.{new_os}
use mds.Sim.Runs.{Runs}
use mds.Params.Text.{codes}

-- an endless file whose numbers are the position, with reads only
abbrev counting : Zlib ℕ
counting = record {
  gzopen = λ id attempt. some (4096 * id);
  gzread = λ t n. (bytes_of n (if n == 1 then 0 else t), t + n);
  gzeof = λ t. false;
}

abbrev small : Settings
small = record tiny {
  core_width = 1;
  rob_size = 4;
  mem_channels = 1;
  mem_banks = 4;
  l3_size_kb = 1;
  l3_assoc = 2;
}

abbrev dice : Rand
dice n = n * 1103515245 + 12345

abbrev two_names : List (List ℕ)
two_names = codes "gcc.mtf.gz" ∷ codes "mcf.mtf.gz" ∷ []

-- the state before the first round
-- a core whose first instruction reads
abbrev early : ℕ → ℕ → Core ℕ
early id t = record (blank_core counting id t) { trace_inst_num = 1 }

abbrev two_cores : List (Core ℕ)
two_cores = early 0 0 ∷ early 1 4096 ∷ []

abbrev first : Sim ℕ
first = record {
  nest = record {
    memsys = new_memsys small 1024 4;
    l3cache = new 8 (to32 small.l3_assoc) (to32 small.l3_repl);
    os = new_os small 256 2;
    rand = dice;
  };
  mcore = two_cores;
  cycle = 0;
}

-- The first round returns, with cores that are not done.
goes_on : Result (Bool × Sim ℕ) → Bool
goes_on (ok (all_done, s)) = not all_done
goes_on (err e) = false

reached : Result (Bool × Sim ℕ) → Sim ℕ
reached (ok (all_done, s)) = s
reached (err e) = first
