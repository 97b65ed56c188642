-- ===== src/Dramsim/Access.antt =====
-- memsys_access of src/memsys_dramsim3.cpp: a read that DRAMsim3 accepts is entered in the table.
use mds.Base.{
  ℕ, ◌*◌, ◌^◌, ◌<◌, ◌≡◌, refl, ◌∙◌, ◌⊎◌, inl, inr, Bool, Bool-cases, true, false, List, ◌∷◌, Result,
  ok, err, assert_failed, ◌==◌, if◌then◌else◌, arith, mul64,
}
use mds.Settings.{Settings}
use mds.Core.Types.{Core}
use mds.MemSys.Table.{MshrEntry, count}
use mds.MemSys.Answers.{Waits}
use mds.Dramsim.{
  Dramsim, DramsimMemSys, dramsim_mshr_insert, dramsim_read, dramsim_write_back, dramsim_access,
}
use mds.Dramsim.Contract.{Contract, asked_more}
use mds.Dramsim.Steady.{DramsimOk}

-- does DRAMsim3 take the read?
abbrev pub takes : {D : Type 0} → Dramsim D → Settings → DramsimMemSys D → ℕ → Bool
takes s g m lineaddr = s.will_accept_transaction m.mainmem (mul64 lineaddr g.linesize) false

module _ {D T : Type 0} (s : Dramsim D) (k : Contract s) (g : Settings) where
  wrote_back :
      (m : DramsimMemSys D) (cs : List (Core T)) (wb_lineaddr : ℕ)
      → DramsimOk s k g m cs
      → DramsimOk s k g (dramsim_write_back s g m wb_lineaddr) cs
        × ((dramsim_write_back s g m wb_lineaddr).mshr ≡ m.mshr)
  unfolding dramsim_write_back
  wrote_back m cs wb_lineaddr (waits, bal) = elim (Bool-cases (wb_lineaddr == 0)) [
    | inl no_write ↦ rw no_write ((waits, bal), refl)
    | inr write ↦
        let a = mul64 wb_lineaddr g.linesize in
        elim (Bool-cases (s.will_accept_transaction m.mainmem a true)) [
          | inl taken ↦
              rw (write, taken) ((waits, λ b. k.write_added m.mainmem a b taken ∙ bal b), refl)
          | inr refused ↦ rw (write, refused) ((waits, bal), refl)
        ]
  ]

  abbrev pub DramsimAccessed :
      DramsimMemSys D → List (Core T) → ℕ → MshrEntry → Result (Bool × DramsimMemSys D) → Type 0
  DramsimAccessed m cs lineaddr e out =
      ((takes s g m lineaddr ≡ true) × (0 < count lineaddr m.mshr) × (out ≡ err assert_failed))
      ⊎ ((m' : DramsimMemSys D) × (out ≡ ok (takes s g m lineaddr, m'))
          × (m'.mshr ≡ (if takes s g m lineaddr then (lineaddr, e) ∷ m.mshr else m.mshr))
          × (takes s g m lineaddr ≡ true → count lineaddr m.mshr ≡ 0)
          × DramsimOk s k g m' cs)

  -- Let DRAMsim3 and the table be as that cycle keeps them, the bytes of the line lie below 2^64, and the
  -- core hold the instruction at the place it names. Then memsys_access of memsys_dramsim3.cpp fails its
  -- assertion, with the line in the table and the read taken by DRAMsim3; or it answers whether DRAMsim3
  -- takes the read, enters the line, which was not there, in the table if it does, and keeps table and
  -- DRAMsim3 in agreement, whether or not the write-back is taken.
  pub dramsim_access-DramsimAccessed :
      (m : DramsimMemSys D) (cs : List (Core T)) (lineaddr : ℕ) (e : MshrEntry) (wb_lineaddr : ℕ)
      → 0 < g.linesize
      → lineaddr * g.linesize < 2 ^ 64
      → Waits cs e
      → DramsimOk s k g m cs
      → DramsimAccessed m cs lineaddr e (dramsim_access s g m lineaddr e wb_lineaddr)
  unfolding dramsim_access dramsim_read dramsim_mshr_insert
  dramsim_access-DramsimAccessed m cs lineaddr e wb_lineaddr pos fits waiting (waits, bal) =
      elim (Bool-cases (takes s g m lineaddr)) [
        | inr refused ↦
            let (kept, same) = wrote_back m cs wb_lineaddr (waits, bal) in
            inr (
              dramsim_write_back s g m wb_lineaddr,
              rw refused refl,
              rw refused same,
              λ taken. absurd (cc),
              kept,
            )
        | inl taken ↦ elim (Bool-cases (count lineaddr m.mshr == 0)) [
          | inr there ↦ inl (taken, ground arith, rw (taken, there) refl)
          | inl absent ↦
              let a = mul64 lineaddr g.linesize in
              let m1 : DramsimMemSys D = record m {
                mainmem = s.add_transaction m.mainmem a false;
                mshr = (lineaddr, e) ∷ m.mshr;
              } in
              let (kept, same) = wrote_back m1 cs wb_lineaddr (
                (waiting, waits),
                λ b. omega (
                  arith,
                  k.read_added m.mainmem a b taken,
                  bal b,
                  asked_more g.linesize lineaddr b e m.mshr pos fits,
                ),
              ) in
              inr (
                dramsim_write_back s g m1 wb_lineaddr,
                rw (taken, absent) refl,
                rw taken same,
                λ _. ground arith,
                kept,
              )
        ]
      ]
