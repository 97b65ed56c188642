-- ===== src/MemSys/Answers.antt =====
-- memsys_callback of src/memsys.cpp with mcore_rob_wakeup of src/mcore.cpp: what the DRAM asks of the
-- table and the cores.
use mds.Base.{
  ℕ, zero, suc, ◌+◌, ◌<◌, ◌≡◌, ◌≢◌, refl, sym, ap, ◌∙◌, inl, inr, true, false, List, [], ◌∷◌, arith,
  ok, some, length, set, length-set, get_or-set-cases, lt→ltb, ◌==◌, add64, sub64,
}
use native.Mathlib.Decide.{ℕ_discrete}
use mds.Core.Types.{RobEntry, Core, no_rob_entry}
use mds.Core.Rob.{rob_at, put_rob, rob_wakeup}
use mds.Dram.Outbox.{Outbox}
use mds.MemSys.{World, core_at, wakeup_core, memsys_callback}
use mds.MemSys.Table.{
  MshrEntry, count, lookup, erase, count-lookup, count-erase, count-erase_other, Each, lookup-Each,
  erase-Each, Each-map,
}

pub Option_injective : {A : Type 0} {a b : A} → some a ≡ some b → a ≡ b
Option_injective e = cc

module _ {T : Type 0} where
  pub core_at-set_self :
      (cs : List (Core T)) (i : ℕ) (c c' : Core T)
      → core_at cs i ≡ some c
      → core_at (set cs i c') i ≡ some c'
  core_at-set_self [] i c c' e = cc
  core_at-set_self (x ∷ cs) zero c c' e = refl
  core_at-set_self (x ∷ cs) (suc i) c c' e = core_at-set_self cs i c c' e

  pub core_at-set_ne :
      (cs : List (Core T)) (i j : ℕ) (c' : Core T) → i ≢ j → core_at (set cs i c') j ≡ core_at cs j
  core_at-set_ne [] i j c' ne = refl
  core_at-set_ne (x ∷ cs) zero zero c' ne = absurd (ne refl)
  core_at-set_ne (x ∷ cs) zero (suc j) c' ne = refl
  core_at-set_ne (x ∷ cs) (suc i) zero c' ne = refl
  core_at-set_ne (x ∷ cs) (suc i) (suc j) c' ne = core_at-set_ne cs i j c' (λ e. ne (ap suc e))

  -- The core of an entry waits: its reorder buffer holds the entry's instruction at the entry's place.
  abbrev pub Waits : List (Core T) → MshrEntry → Type 0
  Waits cs e =
      (c : Core T) × (core_at cs e.coreid ≡ some c)
      × (e.robid < length c.rob.entries)
      × ((rob_at c.rob e.robid).inst_num ≡ e.inst_num)

  -- the core after the answer
  abbrev pub woken : Core T → ℕ → Core T
  woken c robid = record c {
    rob = put_rob (c.rob) robid (record (rob_at c.rob robid) { ready_time = c.cycle });
    num_delay_count = add64 c.num_delay_count 1;
    sum_delay_count = add64 c.sum_delay_count (sub64 c.cycle (rob_at c.rob robid).birth_time);
  }

  pub rob_wakeup-ok :
      (c : Core T) (robid inst_num : ℕ)
      → robid < length c.rob.entries
      → (rob_at c.rob robid).inst_num ≡ inst_num
      → rob_wakeup c robid inst_num ≡ ok (woken c robid)
  unfolding rob_wakeup
  rob_wakeup-ok c robid inst_num h e =
      let same : ((rob_at c.rob robid).inst_num == inst_num) ≡ true = ground arith in
      rw (lt→ltb _ _ h, same)

  -- an answer takes no instruction out of a reorder buffer
  pub woken-inst_num :
      (c : Core T) (robid j : ℕ)
      → robid < length c.rob.entries
      → (rob_at (woken c robid).rob j).inst_num ≡ (rob_at c.rob j).inst_num
  woken-inst_num c robid j h =
      elim (get_or-set-cases c.rob.entries robid j
        (record (rob_at c.rob robid) { ready_time = c.cycle }) no_rob_entry h) [
          | inl (e, r) ↦
              ap (λ (t : RobEntry). t.inst_num) r ∙ ap (λ t. (rob_at c.rob t).inst_num) (sym e)
          | inr (ne, r) ↦ ap (λ (t : RobEntry). t.inst_num) r
        ]

  woken-Waits :
      (cs : List (Core T)) (i robid : ℕ) (c : Core T)
      → core_at cs i ≡ some c
      → robid < length c.rob.entries
      → (e : MshrEntry) → Waits cs e
      → Waits (set cs i (woken c robid)) e
  woken-Waits cs i robid c at h e (c', at', h', n) = elim (ℕ_discrete i e.coreid) [
    | no ne ↦ (c', core_at-set_ne cs i e.coreid (woken c robid) ne ∙ at', h', n)
    | yes same ↦
        let one : c' ≡ c = Option_injective (sym at' ∙ ap (λ t. core_at cs t) (sym same) ∙ at) in
        (
          woken c robid,
          ap (λ t. core_at (set cs i (woken c robid)) t) (sym same)
              ∙ core_at-set_self cs i c (woken c robid) at,
          omega (
            arith,
            h',
            ap (λ (t : Core T). length t.rob.entries) one,
            length-set c.rob.entries robid (record (rob_at c.rob robid) { ready_time = c.cycle }),
          ),
          woken-inst_num c robid e.robid h
              ∙ ap (λ (t : Core T). (rob_at t.rob e.robid).inst_num) (sym one)
              ∙ n,
        )
  ]

  -- the answer to an entry that is found, and whose core waits for it
  pub memsys_callback-ok :
      (a : ℕ) (w : World T) (e : MshrEntry) (c : Core T)
      → 0 < count a w.mshr
      → lookup a w.mshr ≡ some e
      → core_at w.mcore e.coreid ≡ some c
      → e.robid < length c.rob.entries
      → (rob_at c.rob e.robid).inst_num ≡ e.inst_num
      → memsys_callback a w
        ≡ ok (record { mshr = erase a w.mshr; mcore = set w.mcore e.coreid (woken c e.robid) })
  unfolding memsys_callback wakeup_core
  memsys_callback-ok a w e c h found at l n =
      let some_entry : (count a w.mshr == 0) ≡ false = ground arith in
      rw (some_entry, found, wakeup_core, at, rob_wakeup-ok c e.robid e.inst_num l n)

  -- When every entry of the table has a core that holds its instruction, memsys_callback of a line that is
  -- in the table fails no assertion and reports no zombie; it takes this entry out and no other, and every
  -- entry that is left still has such a core.
  pub callback_delivers :
      (a : ℕ) (w : World T)
      → Each (Waits w.mcore) w.mshr
      → 0 < count a w.mshr
      → (w' : World T) × (memsys_callback a w ≡ ok w')
        × Each (Waits w'.mcore) w'.mshr
        × (count a w'.mshr + 1 ≡ count a w.mshr)
        × ((b : ℕ) → b ≢ a → count b w'.mshr ≡ count b w.mshr)
  callback_delivers a w good h =
      let (e, found) = count-lookup a w.mshr h in
      let (c, at, l, n) = lookup-Each (Waits w.mcore) a w.mshr e good found in
      let cs = set w.mcore e.coreid (woken c e.robid) in
      (
        record { mshr = erase a w.mshr; mcore = cs },
        memsys_callback-ok a w e c h found at l n,
        Each-map (Waits w.mcore) (Waits cs) (erase a w.mshr)
            (woken-Waits w.mcore e.coreid e.robid c at l)
            (erase-Each (Waits w.mcore) a w.mshr good),
        count-erase a w.mshr h,
        λ b ne. count-erase_other a b w.mshr ne,
      )

  abbrev pub answers : Outbox (World T)
  answers = record {
    callback = memsys_callback;
    pending = λ a w. count a w.mshr;
    Good = λ w. Each (Waits w.mcore) w.mshr;
    delivers = callback_delivers;
  }
