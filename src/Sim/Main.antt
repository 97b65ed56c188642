-- ===== src/Sim/Main.antt =====
-- main of src/sim.cpp from the command line to its loop, with the initial settings of src/params.h.
use mds.Base.{ℕ, ◌≡◌}
use mds.Settings.{Settings, defaults}
use mds.Core.Trace.{Zlib}
use mds.Sim.{Sim}
use mds.Sim.Reading.{ReadsBytes}
use mds.Sim.Start.{Started}

module _ {T : Type 0} (z : Zlib T) (bytes : ReadsBytes z) where
  -- the state before the loop, with as many threads as names
  abbrev pub MainStarted : ℕ → Settings × ℕ × Sim T → Type 0
  MainStarted n out =
      (out.1 ≡ n) × Started z bytes defaults 65536 32 128 8192 8388608 n (out.0, out.2)
