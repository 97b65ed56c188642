-- ===== src/MemSys/Steady.antt =====
-- memsys_cycle of src/memsys.cpp: the table agrees with the DRAM.
use mds.Base.{ℕ, ◌<◌, ◌≡◌, sym, subst, List, Result, ok, Rand}
use mds.Settings.{Settings}
use mds.Dram.Types.{Dram}
use mds.Dram.Address.Codec.{Geometry}
use mds.Dram.System.State.{AllSound, in_flight, CyclesOnly}
use mds.Core.Types.{Core}
use mds.MemSys.{MemSys}
use mds.MemSys.Table.{count, Each}
use mds.MemSys.Answers.{Waits}

-- the DRAM is well-formed and its geometry leaves nothing over
pub record DramOk (g : Settings) (rows : ℕ) (d : Dram) : Type 0 where
  pub geometry : Geometry g d rows
  pub sound : AllSound d rows
  pub groups : 0 < d.banks_in_bankgroup

pub DramOk-cycles :
    (g : Settings) (rows : ℕ) (d d' : Dram)
    → DramOk g rows d
    → CyclesOnly d d'
    → AllSound d' rows
    → DramOk g rows d'
DramOk-cycles g rows d d' v only s = record {
  geometry =
      subst (λ t. Geometry g t rows) (sym only)
        (record {
          channels = v.geometry.channels;
          banks = v.geometry.banks;
          pairs = v.geometry.pairs;
          even = v.geometry.even;
          gang = v.geometry.gang;
          gangs = v.geometry.gangs;
          whole = v.geometry.whole;
          total = v.geometry.total;
        });
  sound = s;
  groups = subst (λ (t : Dram). 0 < t.banks_in_bankgroup) (sym only) v.groups;
}

-- The table holds the reads in flight and no others, and every core waits for its own.
abbrev pub MemOk : {T : Type 0} → Settings → ℕ → MemSys → List (Core T) → Type 0
MemOk g rows m cs =
    DramOk g rows m.mainmem
    × Each (Waits cs) m.mshr
    × ((a : ℕ) → in_flight a m.mainmem ≡ count a m.mshr)

module _ {T : Type 0} (g : Settings) (now rows : ℕ) where
  abbrev pub MemCycled : MemSys → Result (MemSys × List (Core T) × Rand) → Type 0
  MemCycled m out =
      (m' : MemSys) × (cs' : List (Core T)) × (r' : Rand) × (out ≡ ok (m', cs', r'))
      × MemOk g rows m' cs'
