-- ===== src/Sim/Runs.antt =====
-- The states that the loop of main, src/sim.cpp, goes through.
use mds.Base.{ℕ, ◌≡◌, Bool, ok}
use mds.Settings.{Settings}
use mds.Core.Trace.{Zlib}
use mds.Sim.{Sim, sim_cycle}
use mds.Sim.Rounds.{NoneGivesUp}

-- The loop of main leads from `s` to a state by rounds that return, in each of which no core gives up an
-- instruction that it sleeps on.
pub data Runs {T : Type 0} (z : Zlib T) (g : Settings) (rows lines num_threads : ℕ) (s : Sim T)
    : Sim T → Type 0 where
  start : Runs z g rows lines num_threads s s
  round :
      {t u : Sim T} (all_done : Bool)
      → Runs z g rows lines num_threads s t
      → NoneGivesUp g rows lines num_threads t
      → sim_cycle z g num_threads t ≡ ok (all_done, u)
      → Runs z g rows lines num_threads s u
