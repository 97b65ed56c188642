-- ===== src/MemSys/Start.antt =====
-- memsys_new of src/memsys.cpp.
use mds.Base.{ℕ, ◌/◌, ◌≡◌, sym, ap, subst, false, List, [], arith, ok, ◌==◌}
use mds.Settings.{Settings}
use mds.Core.Types.{Core}
use mds.Dram.Types.{Dram}
use mds.Dram.Address.Codec.{Geometry}
use mds.Dram.System.Start.{Exact, Scales, new_dram, dram_new-Started}
use mds.MemSys.{MemSys, memsys_new}
use mds.MemSys.Steady.{MemOk}

-- settings that `dram_new` scales have the same geometry
Geometry-Scales :
    (g g' : Settings) (d : Dram) (rows : ℕ) → Scales g g' → Geometry g d rows → Geometry g' d rows
Geometry-Scales g g' d rows only v =
    subst (λ t. Geometry t d rows) (sym only)
      (record {
        channels = v.channels;
        banks = v.banks;
        pairs = v.pairs;
        even = v.even;
        gang = v.gang;
        gangs = v.gangs;
        whole = v.whole;
        total = v.total;
      })

-- the memory system with a DRAM in which nothing is in flight
abbrev pub new_memsys : Settings → ℕ → ℕ → MemSys
new_memsys g rows banks = record {
  mainmem = new_dram g rows banks;
  lines_in_mainmem_rbuf = g.mem_pagesize / g.linesize;
  mshr = [];
}

-- With settings in which every size divides the next and the arrays are large enough, memsys_new returns a
-- memory system with an empty table, which agrees with the DRAM and with any cores.
pub memsys_new-MemOk :
    {T : Type 0} (g : Settings) (rows banks lines : ℕ) (cs : List (Core T))
    → Exact g rows banks lines
    → (g' : Settings) × (memsys_new g ≡ ok (g', new_memsys g rows banks))
      × Scales g g'
      × MemOk g' rows (new_memsys g rows banks) cs
unfolding memsys_new
memsys_new-MemOk g rows banks lines cs v =
    let (g', e, only, geo, s, pos, none_yet) = dram_new-Started g rows banks lines v in
    let line : g'.linesize ≡ g.linesize = ap (λ (t : Settings). t.linesize) only in
    let page : g'.mem_pagesize ≡ g.mem_pagesize = ap (λ (t : Settings). t.mem_pagesize) only in
    let some_line : (g.linesize == 0) ≡ false = ground (arith, v.line) in
    (
      g',
      rw (e, line, some_line, page),
      only,
      (
        record { geometry = Geometry-Scales g g' _ rows only geo; sound = s; groups = pos },
        tt,
        none_yet,
      ),
    )
