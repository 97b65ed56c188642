-- ===== src/Sim/Rounds.antt =====
-- A round of the loop of main, src/sim.cpp: the cores in turn, then the memory system.
use mds.Base.{
  ℕ, zero, suc, ◌+◌, ◌%◌, ◌<◌, ◌≤◌, ◌≡◌, refl, ap, ◌∙◌, Bool, List, [], ◌∷◌, arith, some, ok,
  length, Rand,
}
use mds.Settings.{Settings}
use mds.Core.Types.{Core}
use mds.Core.Cycle.{Nest}
use mds.Dram.Types.{Dram}
use mds.Dram.System.Steady.{dram_cycle-DramCycled}
use mds.MemSys.{MemSys, core_at, memsys_cycle}
use mds.MemSys.Table.{Table, Each}
use mds.MemSys.Steady.{DramOk-cycles}
use mds.MemSys.Keeping.{MemKept}
use mds.Sim.{Sim}
use mds.Sim.Retiring.{NoneSkipped}
use mds.Sim.Turn.{NestOk, Any, InCycle}
use mds.Sim.Cycling.{ticked}
use mds.Sim.Joined.{Joined, joined_answers}

-- the table is kept, whatever is known of its entries
Each-Any : (t : Table) → Each Any t
Each-Any [] = tt
Each-Any ((k, e) ∷ t) = (tt, Each-Any t)

module _ {T : Type 0} where
  pub core_at-exists :
      (cs : List (Core T)) (i : ℕ) → i < length cs → (c : Core T) × (core_at cs i ≡ some c)
  core_at-exists [] i h = absurd (omega arith)
  core_at-exists (c ∷ cs) zero h = (c, refl)
  core_at-exists (c ∷ cs) (suc i) h = core_at-exists cs i (omega arith)

module _ {T : Type 0} (g : Settings) (rows lines : ℕ) where
  abbrev pub Together : Nest → List (Core T) → Type 0
  Together n cs = NestOk g rows lines n × Joined g lines cs n.memsys.mshr

  pub starts :
      (n : Nest) (cs : List (Core T)) (i : ℕ) (c : Core T)
      → Together n cs
      → core_at cs i ≡ some c
      → InCycle g rows lines i n.memsys.mshr n c
  starts n cs i c (ok', v) at =
      let (f, filled, va) = v.core i c at in
      record {
        nest = ok';
        core = f;
        own = v.own i c at;
        apart = v.apart;
        grown = ([], refl, tt);
        va = va;
      }

  -- The cycle of the memory system never fails.
  pub memsys_cycle-Joined :
      (now num : ℕ) (m : MemSys) (cs : List (Core T)) (r : Rand)
      → g.dram_sched_policy < 2
      → MemKept g rows lines Any m
      → Joined g lines cs m.mshr × (length cs ≡ num)
      → (m' : MemSys) × (cs' : List (Core T)) × (r' : Rand) × (memsys_cycle g now m cs r
          ≡ ok (m', cs', r'))
        × MemKept g rows lines Any m'
        × (Joined g lines cs' m'.mshr × (length cs' ≡ num))
  unfolding memsys_cycle
  memsys_cycle-Joined now num m cs r known (v, sized, any, bal) joined =
      let (d', r', w', done, s, only, (good', bal')) =
        dram_cycle-DramCycled (joined_answers g lines num) g now rows m.mainmem r
          (record { mshr = m.mshr; mcore = cs }) known v.groups v.sound (joined, bal) in
      (
        record m { mainmem = d'; mshr = w'.mshr },
        w'.mcore,
        r',
        rw done,
        (
          DramOk-cycles g rows m.mainmem d' v only s,
          ap (λ (t : Dram). t.lines_in_mem) only ∙ sized,
          Each-Any w'.mshr,
          bal',
        ),
        good',
      )

module _ {T : Type 0} (g : Settings) (rows lines num_threads : ℕ) where
  -- The cores from round `ii` on still have their turn, and their buffers give nothing up.
  abbrev pub Waiting : ℕ → ℕ → List (Core T) → Type 0
  Waiting offset ii cs =
      (j : ℕ)
      → ii ≤ j
      → j < num_threads
      → (c : Core T) → core_at cs ((offset + j) % num_threads) ≡ some c
      → NoneSkipped g (ticked c)

  abbrev pub AllCycled : Nest × List (Core T) × Bool → Type 0
  AllCycled out = Together g rows lines out.0 out.1 × (length out.1 ≡ num_threads)

  -- what holds between the rounds
  abbrev pub SimOk : Sim T → Type 0
  SimOk s = Together g rows lines s.nest s.mcore × (length s.mcore ≡ num_threads)

  -- No core gives up an instruction that it sleeps on.
  abbrev pub NoneGivesUp : Sim T → Type 0
  NoneGivesUp s = (i : ℕ) (c : Core T) → core_at s.mcore i ≡ some c → NoneSkipped g (ticked c)
