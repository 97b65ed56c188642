-- ===== src/Dramsim/Steady.antt =====
-- memsys_access and memsys_cycle of src/memsys_dramsim3.cpp: the table agrees with DRAMsim3.
use mds.Base.{ℕ, ◌+◌, ◌/◌, ◌<◌, ◌≡◌, refl, ◌∙◌, Bool, true, false, List, [], ◌∷◌, ok, ◌==◌, arith}
use mds.Settings.{Settings}
use mds.Core.Types.{Core}
use mds.MemSys.{World}
use mds.MemSys.Table.{Each}
use mds.MemSys.Answers.{Waits, callback_delivers}
use mds.Dramsim.{Dramsim, DramsimMemSys, dramsim_callback, answer_all, dramsim_cycle}
use mds.Dramsim.Contract.{Contract, answers, asked, asked_less, asked_some}

module _ {D T : Type 0} (s : Dramsim D) (k : Contract s) (g : Settings) where
  -- The table holds the reads that DRAMsim3 has not answered and no others, and the core of every entry waits.
  abbrev pub DramsimOk : DramsimMemSys D → List (Core T) → Type 0
  DramsimOk m cs =
      Each (Waits cs) m.mshr × ((b : ℕ) → k.reads b m.mainmem ≡ asked g.linesize b m.mshr)

  -- What the table has is what the callbacks to come answer and what is left over.
  abbrev Owed : List (Bool × ℕ) → (ℕ → ℕ) → World T → Type 0
  Owed calls left w =
      Each (Waits w.mcore) w.mshr × ((b : ℕ) → left b + answers b calls ≡ asked g.linesize b w.mshr)

  one_answered :
      (calls : List (Bool × ℕ)) (a : ℕ) (left : ℕ → ℕ) (w : World T)
      → 0 < g.linesize
      → Owed ((false, a) ∷ calls) left w
      → (w' : World T) × (dramsim_callback g a w ≡ ok w') × Owed calls left w'
  unfolding dramsim_callback
  one_answered calls a left w pos (waits, owed) =
      let self : (a == a) ≡ true = ground arith in
      let now : left a + (1 + answers a calls) ≡ asked g.linesize a w.mshr = rw self at (owed a) in
      let (start, some) = asked_some g.linesize a w.mshr (omega (arith, now)) in
      let (w', done, waits', less, others) = callback_delivers (a / g.linesize) w waits some in
      let some_size : (g.linesize == 0) ≡ false = ground arith in
      (
        w',
        rw (some_size, done) refl,
        (
          waits',
          λ b.
              omega (arith, owed b, asked_less g.linesize a b w.mshr w'.mshr pos start less others),
        ),
      )

  all_answered :
      (calls : List (Bool × ℕ)) (left : ℕ → ℕ) (w : World T)
      → 0 < g.linesize
      → Owed calls left w
      → (w' : World T) × (answer_all g calls w ≡ ok w') × Owed [] left w'
  unfolding answer_all
  all_answered [] left w pos owed = (w, refl, owed)
  all_answered ((true, a) ∷ calls) left w pos (waits, owed) =
      all_answered calls left w pos (waits, λ b. omega (arith, owed b))
  all_answered ((false, a) ∷ calls) left w pos owed =
      let (w1, done, owed1) = one_answered calls a left w pos owed in
      let (w2, rest, owed2) = all_answered calls left w1 pos owed1 in
      (w2, rw (done, rest) refl, owed2)

  -- Let DRAMsim3 answer every accepted read once and nothing else, the table hold exactly the reads that it
  -- has not answered, and the core of every entry hold the entry's instruction. Then memsys_cycle of
  -- memsys_dramsim3.cpp fails no assertion and reports no zombie wake-up, and afterwards all this holds
  -- again.
  pub dramsim_cycle-DramsimOk :
      (m : DramsimMemSys D) (cs : List (Core T))
      → 0 < g.linesize
      → DramsimOk m cs
      → (m' : DramsimMemSys D) × (cs' : List (Core T)) × (dramsim_cycle s g m cs ≡ ok (m', cs'))
        × DramsimOk m' cs'
  unfolding dramsim_cycle
  dramsim_cycle-DramsimOk m cs pos (waits, bal) =
      let d' = (s.clock_tick m.mainmem).1 in
      let (w', done, (waits', bal')) =
        all_answered ((s.clock_tick m.mainmem).0) (λ b. k.reads b d')
          (record { mshr = m.mshr; mcore = cs }) pos (waits, λ b. k.ticked m.mainmem b ∙ bal b) in
      (
        record m { mainmem = d'; mshr = w'.mshr },
        w'.mcore,
        rw done refl,
        (waits', λ b. omega (arith, bal' b)),
      )
