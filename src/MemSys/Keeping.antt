-- ===== src/MemSys/Keeping.antt =====
-- memsys_access of src/memsys.cpp, for a table of entries that some predicate is true of.
use mds.Base.{
  ℕ, ◌+◌, ◌<◌, ◌≡◌, refl, sym, ap, ◌∙◌, ◌⊎◌, inl, inr, Bool, Bool-cases, true, false, ◌∷◌, arith,
  Result, ok, err, assert_failed, ◌==◌, if◌then◌else◌, Safe, aborts, returns,
}
use native.Mathlib.Decide.{ℕ_discrete}
use mds.Settings.{Settings}
use mds.Dram.Types.{Dram, rd, wb}
use mds.Dram.System.{dram_insert}
use mds.Dram.System.State.{in_flight}
use mds.Dram.System.Insert.{added, dram_insert-DramInserted}
use mds.MemSys.{MemSys, mshr_insert, write_back, memsys_access}
use mds.MemSys.Table.{MshrEntry, count, Each}
use mds.MemSys.Steady.{DramOk, DramOk-cycles}

module _ (g : Settings) (now rows : ℕ) where
  -- the DRAM's answer to the read
  abbrev pub ReadInserted : MemSys → ℕ → Bool → Dram → Type 0
  ReadInserted m lineaddr done d' =
      DramOk g rows d'
      × (m.mainmem.lines_in_mem ≡ d'.lines_in_mem)
      × ((a : ℕ) → in_flight a d' ≡ in_flight a m.mainmem + added done rd lineaddr a)

  read_inserted :
      (m : MemSys) (lineaddr : ℕ)
      → DramOk g rows m.mainmem
      → g.dram_map_policy < 4
      → lineaddr < m.mainmem.lines_in_mem
      → (done : Bool) × (d' : Dram) × (dram_insert g now m.mainmem lineaddr false ≡ ok (done, d'))
        × ReadInserted m lineaddr done d'
  read_inserted m lineaddr v known h =
      let (place, done, d', parsed, e, s, only, full, w) =
        dram_insert-DramInserted g now rows m.mainmem lineaddr false v.geometry v.sound known h in
      (
        done,
        d',
        e,
        (
          DramOk-cycles g rows m.mainmem d' v only s,
          ap (λ (t : Dram). t.lines_in_mem) (sym only),
          w,
        ),
      )

-- The DRAM of `lines` lines is well-formed, and the table holds the reads in flight, of which `P` is true, and
-- no others.
abbrev pub MemKept : Settings → ℕ → ℕ → (MshrEntry → Type 0) → MemSys → Type 0
MemKept g rows lines P m =
    DramOk g rows m.mainmem
    × (m.mainmem.lines_in_mem ≡ lines)
    × Each P m.mshr
    × ((a : ℕ) → in_flight a m.mainmem ≡ count a m.mshr)

module _ (g : Settings) (now rows lines : ℕ) (P : MshrEntry → Type 0) where
  wrote_back :
      (m : MemSys) (wb_lineaddr : ℕ)
      → g.dram_map_policy < 4
      → wb_lineaddr < lines
      → MemKept g rows lines P m
      → (m' : MemSys) × (write_back g now m wb_lineaddr ≡ ok m')
        × MemKept g rows lines P m'
        × (m'.mshr ≡ m.mshr)
  unfolding write_back
  wrote_back m wb_lineaddr known h (v, sized, good, bal) = elim (Bool-cases (wb_lineaddr == 0)) [
    | inl no_write ↦ (m, rw no_write, (v, sized, good, bal), refl)
    | inr write ↦
        let (place, done, d', parsed, e, s, only, full, w) =
          dram_insert-DramInserted g now rows m.mainmem wb_lineaddr true v.geometry v.sound known
            (omega (arith, sized)) in
        (
          record m { mainmem = d' },
          rw (write, e),
          (
            DramOk-cycles g rows m.mainmem d' v only s,
            ap (λ (t : Dram). t.lines_in_mem) only ∙ sized,
            good,
            λ a. omega (arith, w a, bal a, not_read done wb_lineaddr a),
          ),
          refl,
        )
  ]
    where
      not_read : (done : Bool) (line a : ℕ) → added done wb line a ≡ 0
      not_read true line a = refl
      not_read false line a = refl

  -- what an access comes to
  abbrev pub MemAccepted : MemSys → ℕ → MshrEntry → Result (Bool × MemSys) → Type 0
  MemAccepted m lineaddr e out =
      (retval : Bool) × (m' : MemSys) × (out ≡ ok (retval, m'))
      × MemKept g rows lines P m'
      × (m'.mshr ≡ (if retval then (lineaddr, e) ∷ m.mshr else m.mshr))

  access_answered :
      (m : MemSys) (lineaddr : ℕ) (e : MshrEntry) (wb_lineaddr : ℕ) (done : Bool) (d' : Dram)
      → MemKept g rows lines P m
      → g.dram_map_policy < 4
      → wb_lineaddr < lines
      → P e
      → count lineaddr m.mshr ≡ 0
      → dram_insert g now m.mainmem lineaddr false ≡ ok (done, d')
      → ReadInserted g now rows m lineaddr done d'
      → MemAccepted m lineaddr e (memsys_access g now m lineaddr e wb_lineaddr)
  unfolding memsys_access mshr_insert
  access_answered m lineaddr e wb_lineaddr false d' (v, sized, good, bal) known h waits absent ins
        (v', l, w) =
      let (m2, wrote, ok2, same) =
        wrote_back (record m { mainmem = d' }) wb_lineaddr known h
          (v', sym l ∙ sized, good, λ a. omega (arith, w a, bal a)) in
      (false, m2, rw (ins, wrote), ok2, same)
  access_answered m lineaddr e wb_lineaddr true d' (v, sized, good, bal) known h waits absent ins
        (v', l, w) =
      let (m2, wrote, ok2, same) =
        wrote_back (record m { mainmem = d'; mshr = (lineaddr, e) ∷ m.mshr }) wb_lineaddr known h
          (v', sym l ∙ sized, (waits, good), λ a. omega (arith, w a, bal a)) in
      let none_yet : (count lineaddr m.mshr == 0) ≡ true = ground arith in
      (true, m2, rw (ins, none_yet, wrote), ok2, same)

  -- what an access to a line in flight comes to, when the DRAM accepts the read or not
  abbrev pub Refused : MemSys → ℕ → MshrEntry → ℕ → Bool → Type 0
  Refused m lineaddr e wb_lineaddr done =
      ((done ≡ true) × (memsys_access g now m lineaddr e wb_lineaddr ≡ err assert_failed))
      ⊎ ((done ≡ false)
          × ((m' : MemSys) × (memsys_access g now m lineaddr e wb_lineaddr ≡ ok (false, m'))
              × MemKept g rows lines P m'
              × (m'.mshr ≡ m.mshr)))

  twice_answered :
      (m : MemSys) (lineaddr : ℕ) (e : MshrEntry) (wb_lineaddr : ℕ) (done : Bool) (d' : Dram)
      → MemKept g rows lines P m
      → g.dram_map_policy < 4
      → wb_lineaddr < lines
      → 0 < count lineaddr m.mshr
      → dram_insert g now m.mainmem lineaddr false ≡ ok (done, d')
      → ReadInserted g now rows m lineaddr done d'
      → Refused m lineaddr e wb_lineaddr done
  unfolding memsys_access mshr_insert
  twice_answered m lineaddr e wb_lineaddr false d' (v, sized, good, bal) known h there ins
        (v', l, w) =
      let (m2, wrote, ok2, same) =
        wrote_back (record m { mainmem = d' }) wb_lineaddr known h
          (v', sym l ∙ sized, good, λ a. omega (arith, w a, bal a)) in
      inr (refl, (m2, rw (ins, wrote), ok2, same))
  twice_answered m lineaddr e wb_lineaddr true d' v known h there ins read =
      let taken : (count lineaddr m.mshr == 0) ≡ false = ground arith in inl (refl, rw (ins, taken))

  -- the access as a whole, for a line that is not in flight
  pub memsys_access-MemAccepted :
      (m : MemSys) (lineaddr : ℕ) (e : MshrEntry) (wb_lineaddr : ℕ)
      → MemKept g rows lines P m
      → g.dram_map_policy < 4
      → lineaddr < lines
      → wb_lineaddr < lines
      → P e
      → count lineaddr m.mshr ≡ 0
      → MemAccepted m lineaddr e (memsys_access g now m lineaddr e wb_lineaddr)
  memsys_access-MemAccepted m lineaddr e wb_lineaddr v known h hw waits absent =
      let (done, d', ins, read) =
        read_inserted g now rows m lineaddr v.0 known (omega (arith, v.1)) in
      access_answered m lineaddr e wb_lineaddr done d' v known hw waits absent ins read

  -- the access as a whole, for a line that is
  pub memsys_access-Refused :
      (m : MemSys) (lineaddr : ℕ) (e : MshrEntry) (wb_lineaddr : ℕ)
      → MemKept g rows lines P m
      → g.dram_map_policy < 4
      → lineaddr < lines
      → wb_lineaddr < lines
      → 0 < count lineaddr m.mshr
      → (done : Bool) × (d' : Dram) × (dram_insert g now m.mainmem lineaddr false ≡ ok (done, d'))
        × Refused m lineaddr e wb_lineaddr done
  memsys_access-Refused m lineaddr e wb_lineaddr v known h hw there =
      let (done, d', ins, read) =
        read_inserted g now rows m lineaddr v.0 known (omega (arith, v.1)) in
      (done, d', ins, twice_answered m lineaddr e wb_lineaddr done d' v known hw there ins read)

  -- Whether or not the line is in flight: an assertion fails, or the table is kept.
  pub memsys_access-Safe :
      (m : MemSys) (lineaddr : ℕ) (e : MshrEntry) (wb_lineaddr : ℕ)
      → MemKept g rows lines P m
      → g.dram_map_policy < 4
      → lineaddr < lines
      → wb_lineaddr < lines
      → P e
      → Safe
          (λ out.
            MemKept g rows lines P out.1
            × (out.1.mshr ≡ (if out.0 then (lineaddr, e) ∷ m.mshr else m.mshr)))
          (memsys_access g now m lineaddr e wb_lineaddr)
  memsys_access-Safe m lineaddr e wb_lineaddr v known h hw waits =
      elim (ℕ_discrete (count lineaddr m.mshr) 0) [
        | yes absent ↦
            let (retval, m', done, kept, table) =
              memsys_access-MemAccepted m lineaddr e wb_lineaddr v known h hw waits absent in
            returns (retval, m') done (kept, table)
        | no there ↦
            let (done, d', ins, answer) =
              memsys_access-Refused m lineaddr e wb_lineaddr v known h hw (omega arith) in
            elim answer [
              | inl (_, fails) ↦ aborts fails
              | inr (_, (m', returned, kept, table)) ↦ returns (false, m') returned (kept, table)
            ]
      ]
