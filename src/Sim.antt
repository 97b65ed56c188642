-- ===== src/Sim.antt =====
-- The main program of src/sim.cpp: the parts are made, and the loop cycles the cores and the memory.
pub mod Pending
pub mod Retiring
pub mod Turn
pub mod Reading
pub mod Touching
pub mod Sending
pub mod Issuing
pub mod Retrying
pub mod Cycling
pub mod Joined
pub mod Rounds
pub mod Runs
pub mod Start
pub mod Defaults
pub mod Main
mod Tests
use mds.Base.{
  ℕ, zero, suc, ◌+◌, ◌/◌, ◌%◌, ◌^◌, Bool, true, not, ◌&&◌, none, some, List, [], ◌∷◌, Result, ok,
  err, ◌>>=◌, ◌>>◌, undefined, exited, hangs, Option, demand, ltb, ◌==◌, if◌then◌else◌, set, add64,
  mul64, sub64, to32, Rand,
}
use mds.Settings.{Settings, max_threads}
use mds.Params.{initial, read_params}
use mds.Cache.Defs.{new}
use mds.MemSys.{memsys_new, memsys_cycle, core_at}
use mds.Os.{os_new}
use mds.Core.Types.{Core}
use mds.Core.Trace.{Zlib, core_new}
use mds.Core.Cycle.{Nest, core_cycle}

-- the global variables that the loop works on
pub record Sim (T : Type 0) : Type 0 where
  pub nest : Nest
  pub mcore : List (Core T)
  pub cycle : ℕ

-- `cycle & b`, where `b` is the outcome of a comparison
abbrev pub and_flag : ℕ → Bool → ℕ
and_flag x b = if b then x % 2 else 0

-- `cycle & 2047 == 0`, in which the comparison binds tighter
abbrev pub starts_epoch : ℕ → Bool
starts_epoch cycle = not (and_flag cycle (2047 == 0) == 0)

abbrev pub reset_epoch : ℕ → Nest → Nest
reset_epoch cycle n =
    if starts_epoch cycle
    then record n { l3cache = record (n.l3cache) { wb_in_2k_epoch = 0 } }
    else n

-- the number of pages for `os_new`; OS_PAGESIZE below 1024 divides by zero
unfoldable pub os_pages : Settings → Result ℕ
os_pages g =
    if g.os_pagesize / 1024 == 0
    then err undefined
    else ok (to32 (mul64 1024 (sub64 g.mem_size_mb g.mem_rsrv_mb) / (g.os_pagesize / 1024)))

-- the number of sets for `mcache_new`
unfoldable pub l3_sets : Settings → Result ℕ
l3_sets g =
    let ways = mul64 g.l3_assoc g.linesize in
    if ways == 0 then err undefined else ok (to32 (mul64 g.l3_size_kb 1024 / ways))

-- the rounds of a loop from 0 to an `int`
abbrev pub int_rounds : ℕ → ℕ
int_rounds n = if ltb n (2 ^ 31) then n else 0

module _ {T : Type 0} (z : Zlib T) where
  -- the loop that makes the cores, for an array of MAX_THREADS
  unfoldable pub cores_new : Settings → ℕ → ℕ → Rand → Result (List (Core T) × Rand)
  cores_new g zero ii r = ok ([], r)
  cores_new g (suc n) ii r = do
    (c, r1) ← core_new z g ii r
    demand undefined (ltb ii max_threads)
    (cs, r2) ← cores_new g n (ii + 1) r1
    ok (c ∷ cs, r2)

  -- `main` up to the loop; `before` is rand() before `srand`, and `seeded` after it
  unfoldable pub sim_new : Settings → ℕ → Rand → Rand → Result (Settings × Sim T)
  sim_new g num_threads before seeded = do
    num_os_pages ← os_pages g
    os ← os_new g num_os_pages num_threads
    l3sets ← l3_sets g
    (g', m) ← memsys_new g
    (cs, r) ← cores_new g' (int_rounds num_threads) 0 before
    ok (
      g',
      record {
        nest = record {
          memsys = m;
          l3cache = new l3sets (to32 g.l3_assoc) (to32 g.l3_repl);
          os = os;
          rand = seeded;
        };
        mcore = cs;
        cycle = 0;
      },
    )

  -- `main` up to the loop, given the arguments after the name of the program; `srand` is what rand() gives
  -- for a seed
  unfoldable pub main_new :
      Option (List ℕ) → List (List ℕ) → Rand → (ℕ → Rand) → Result (Settings × ℕ × Sim T)
  main_new cwd [] before srand = err exited
  main_new cwd (arg ∷ args) before srand = do
    p ← read_params cwd (arg ∷ args) initial
    (g, s) ← sim_new p.globals p.num_threads before (srand p.rand_seed)
    ok (g, p.num_threads, s)

  -- the loop over the cores, which starts at `offset`; the flag is `all_cores_done`
  unfoldable pub cycle_cores :
      Settings
      → ℕ
      → ℕ
      → ℕ
      → ℕ
      → ℕ
      → Nest
      → List (Core T)
      → Bool
      → Result (Nest × List (Core T) × Bool)
  cycle_cores g now num_threads offset zero ii n cs all_done = ok (n, cs, all_done)
  cycle_cores g now num_threads offset (suc k) ii n cs all_done =
      let index = (offset + ii) % num_threads in
      elim (core_at cs index) [
        | none ↦ err undefined
        | some c ↦ core_cycle z g now n c >>= λ (n1, c1).
            cycle_cores g now num_threads offset k (ii + 1) n1 (set cs index c1)
              (all_done && c1.done)
      ]

  -- one round of the loop of `main`, for a number of threads that is not negative
  unfoldable pub sim_cycle : Settings → ℕ → Sim T → Result (Bool × Sim T)
  sim_cycle g num_threads s = do
    (if num_threads == 0 then err undefined else ok tt)
    (n1, cs1, all_done) ←
        cycle_cores g s.cycle num_threads (to32 (s.cycle % num_threads)) num_threads 0
          (reset_epoch s.cycle s.nest) s.mcore true
    (m, cs2, r) ← memsys_cycle g s.cycle n1.memsys cs1 n1.rand
    ok (
      all_done,
      record { nest = record n1 { memsys = m; rand = r }; mcore = cs2; cycle = add64 s.cycle 1 },
    )

  -- the loop of `main`, for at most so many rounds
  unfoldable pub sim_run : ℕ → Settings → ℕ → Sim T → Result (Sim T)
  sim_run zero g num_threads s = err hangs
  sim_run (suc fuel) g num_threads s = sim_cycle g num_threads s >>= λ (all_done, s1).
      if all_done then ok s1 else sim_run fuel g num_threads s1
