-- ===== src/MemSys/Access.antt =====
-- memsys_access of src/memsys.cpp.
use mds.Base.{
  ℕ, ◌<◌, ◌≡◌, refl, ◌⊎◌, inl, inr, Bool, true, false, List, ◌∷◌, Result, ok, err, assert_failed,
  if◌then◌else◌,
}
use mds.Settings.{Settings}
use mds.Dram.Types.{Dram}
use mds.Dram.System.{dram_insert}
use mds.Core.Types.{Core}
use mds.MemSys.{MemSys, memsys_access}
use mds.MemSys.Table.{MshrEntry, count}
use mds.MemSys.Answers.{Waits}
use mds.MemSys.Steady.{MemOk}
use mds.MemSys.Keeping.{memsys_access-MemAccepted, memsys_access-Refused}

module _ {T : Type 0} (g : Settings) (now rows : ℕ) where
  -- what an access comes to
  abbrev pub MemAccessed : MemSys → List (Core T) → ℕ → MshrEntry → Result (Bool × MemSys) → Type 0
  MemAccessed m cs lineaddr e out =
      (retval : Bool) × (m' : MemSys) × (out ≡ ok (retval, m'))
      × MemOk g rows m' cs
      × (m'.mshr ≡ (if retval then (lineaddr, e) ∷ m.mshr else m.mshr))

  -- Let the memory system be as memsys_cycle keeps it, the two lines lie in the memory, the mapping policy
  -- be one of the four, the core hold the instruction at the place it names, and no read of the line be in
  -- flight. Then memsys_access fails no assertion, enters the read in the table exactly when the DRAM
  -- accepts it, and keeps the table in agreement with the DRAM.
  pub memsys_access-MemAccessed :
      (m : MemSys) (cs : List (Core T)) (lineaddr : ℕ) (e : MshrEntry) (wb_lineaddr : ℕ)
      → MemOk g rows m cs
      → g.dram_map_policy < 4
      → lineaddr < m.mainmem.lines_in_mem
      → wb_lineaddr < m.mainmem.lines_in_mem
      → Waits cs e
      → count lineaddr m.mshr ≡ 0
      → MemAccessed m cs lineaddr e (memsys_access g now m lineaddr e wb_lineaddr)
  memsys_access-MemAccessed m cs lineaddr e wb_lineaddr (v, good, bal) known h hw waits absent =
      let (retval, m', done, (v', _, good', bal'), table) =
        memsys_access-MemAccepted g now rows m.mainmem.lines_in_mem (Waits cs) m lineaddr e
          wb_lineaddr (v, refl, good, bal) known h hw waits absent in
      (retval, m', done, (v', good', bal'), table)

  -- Let the memory system be as memsys_cycle keeps it, the two lines lie in the memory and the mapping
  -- policy be one of the four. An access to a line whose read is in flight fails an assertion exactly when
  -- the DRAM accepts the read; if the DRAM refuses it, the access is refused and the table still agrees
  -- with the DRAM.
  pub memsys_access-twice :
      (m : MemSys) (cs : List (Core T)) (lineaddr : ℕ) (e : MshrEntry) (wb_lineaddr : ℕ)
      → MemOk g rows m cs
      → g.dram_map_policy < 4
      → lineaddr < m.mainmem.lines_in_mem
      → wb_lineaddr < m.mainmem.lines_in_mem
      → 0 < count lineaddr m.mshr
      → (done : Bool) × (d' : Dram) × (dram_insert g now m.mainmem lineaddr false ≡ ok (done, d'))
        × (((done ≡ true) × (memsys_access g now m lineaddr e wb_lineaddr ≡ err assert_failed))
            ⊎ ((done ≡ false)
                × ((m' : MemSys) × (memsys_access g now m lineaddr e wb_lineaddr ≡ ok (false, m'))
                    × MemOk g rows m' cs)))
  memsys_access-twice m cs lineaddr e wb_lineaddr (v, good, bal) known h hw there =
      let (done, d', ins, answer) =
        memsys_access-Refused g now rows m.mainmem.lines_in_mem (Waits cs) m lineaddr e wb_lineaddr
          (v, refl, good, bal) known h hw there in
      (
        done,
        d',
        ins,
        elim answer [
          | inl fails ↦ inl fails
          | inr (refused, (m', returned, (v', _, good', bal'), table)) ↦
              inr (refused, (m', returned, (v', good', bal')))
        ],
      )
