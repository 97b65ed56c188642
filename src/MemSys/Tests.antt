-- ===== src/MemSys/Tests.antt =====
-- The memory system at concrete inputs: one core with two instructions in its reorder buffer.
use mds.Base.{
  ◌+◌, ◌*◌, ◌<◌, ◌≡◌, refl, sym, ap, subst, ◌⊎◌, Bool, true, false, List, [], ◌∷◌, arith, Result,
  ok, err, assert_failed, Rand,
}
use mds.Settings.{Settings}
use mds.Core.Types.{Core}
use mds.Dram.Types.{Dram}
use mds.Dram.System.{dram_insert}
use mds.Dram.System.Start.{Scales}
use mds.Dram.Sample.{
  tiny, tiny-Exact, tiny-Geometry, tiny-AllSound, tiny_groups, tiny_empty, in_memory,
}
use mds.Dram.System.{new_of}
use mds.Dram.System.Start.{new_dram}
use mds.Dram.Address.{parseaddr, zen, udiv, umod}
use mds.Dram.Channel.{channel_insert, banks_new}
use mds.Dram.Bank.{bank_insert, bank_new}
use mds.MemSys.{write_back, mshr_insert, MemSys, memsys_new, memsys_access}
use mds.MemSys.Sample.{waiting_core}
use mds.MemSys.Table.{MshrEntry, count}
use mds.MemSys.Answers.{Waits}
use mds.MemSys.Steady.{MemOk}
use mds.MemSys.Access.{MemAccessed, memsys_access-MemAccessed, memsys_access-twice}
use mds.MemSys.Start.{new_memsys, memsys_new-MemOk}

abbrev cores : List (Core Unit)
cores = waiting_core ∷ []

abbrev request : MshrEntry
request = record { coreid = 0; robid = 1; inst_num = 2 }

request-Waits : Waits cores request
request-Waits = (waiting_core, refl, omega arith, refl)

abbrev memory : MemSys
memory = new_memsys tiny 512 4

memory-MemOk : MemOk tiny 512 memory cores
memory-MemOk = (
  record { geometry = tiny-Geometry; sound = tiny-AllSound; groups = tiny_groups },
  tt,
  tiny_empty,
)

memory_made :
    (g' : Settings) × (memsys_new tiny ≡ ok (g', memory))
    × Scales tiny g'
    × MemOk g' 512 memory cores
memory_made = memsys_new-MemOk tiny 512 4 4 cores tiny-Exact

memsys_access-MemAccessed_example :
    MemAccessed tiny 5 512 memory cores 13 request (memsys_access tiny 5 memory 13 request 0)
memsys_access-MemAccessed_example =
    memsys_access-MemAccessed tiny 5 512 memory cores 13 request 0 memory-MemOk (omega arith)
      in_memory (omega (arith, in_memory)) request-Waits refl

-- the memory system after that access
from_ok : {A : Type 0} → A → Result A → A
from_ok a (ok b) = b
from_ok a (err e) = a

busy_memory : MemSys
busy_memory = (from_ok (true, memory) (memsys_access tiny 5 memory 13 request 0)).1

busy-MemOk : MemOk tiny 512 busy_memory cores
unfolding busy_memory from_ok
busy-MemOk =
    let (retval, m', e, v, t) =
      memsys_access-MemAccessed tiny 5 512 memory cores 13 request 0 memory-MemOk (omega arith)
        in_memory (omega (arith, in_memory)) request-Waits refl in
    subst (λ t. MemOk tiny 512 t cores)
      (sym (ap (λ r. (from_ok {A = Bool × MemSys} (true, memory) r).1) e)) v

abbrev dice : Rand
dice n = n * 1103515245 + 12345

in_table : 0 < count 13 busy_memory.mshr
unfolding busy_memory from_ok memsys_access write_back mshr_insert new_dram new_of dram_insert
    parseaddr zen udiv umod channel_insert bank_insert banks_new bank_new
in_table = omega arith

busy_lines : 13 < busy_memory.mainmem.lines_in_mem
unfolding busy_memory from_ok memsys_access write_back mshr_insert new_dram new_of dram_insert
    parseaddr zen udiv umod channel_insert bank_insert banks_new bank_new
busy_lines = omega arith

memsys_access-twice_example :
    (done : Bool) × (d' : Dram) × (dram_insert tiny 7 busy_memory.mainmem 13 false ≡ ok (done, d'))
    × (((done ≡ true) × (memsys_access tiny 7 busy_memory 13 request 0 ≡ err assert_failed))
        ⊎ ((done ≡ false)
            × ((m' : MemSys) × (memsys_access tiny 7 busy_memory 13 request 0 ≡ ok (false, m'))
                × MemOk tiny 512 m' cores)))
memsys_access-twice_example =
    memsys_access-twice tiny 7 512 busy_memory cores 13 request 0 busy-MemOk (omega arith)
      busy_lines (omega (arith, busy_lines)) in_table
