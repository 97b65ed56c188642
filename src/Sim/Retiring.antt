-- ===== src/Sim/Retiring.antt =====
-- mcore_rob_retire of src/mcore.cpp takes no instruction that waits for the memory.
use mds.Base.{
  ℕ, ◌+◌, ◌-◌, ◌%◌, ◌^◌, ◌<◌, ◌≤◌, ◌≡◌, sym, ap, ◌∙◌, ◌⊎◌, inl, inr, Bool, true, false, not, ◌&&◌,
  arith, Bool-cases, Safe, Safe-map,
}
use native.Mathlib.Decide.{dec_lt}
use native.Mathlib.Nat.{mod-add-mod}
use mds.Settings.{Settings}
use mds.Core.Types.{Rob, Core}
use mds.Core.Rob.{rob_at, rob_retire}
use mds.Core.Rob.Queue.{Ring, entry_of}
use mds.Core.Rob.Retire.{is_due, lost_entry, Bounded}
use mds.Core.Rob.Lost.{behind_by, behind_by-Ring, Taken, rob_retire-Taken}
use mds.MemSys.Table.{MshrEntry}
use mds.Sim.Pending.{Frame, frame, is_slow, Pending, Sleeper, FrameOk}

-- the entry that is `k` places behind, seen from the new front
shift_place : (p k at n : ℕ) → k ≤ at → (p + at) % n ≡ ((p + k) % n + (at - k)) % n
shift_place p k at n h = ap (λ (t : ℕ). t % n) (omega arith) ∙ sym (mod-add-mod (p + k) n (at - k))

slow_kept :
    (slow asleep same : Bool)
    → slow ≡ true
    → (slow && not (asleep && same)) ≡ false
    → (asleep ≡ true) × (same ≡ true)
slow_kept slow asleep same h e = ground arith

module _ {T : Type 0} (g : Settings) (c : Core T) where
  -- No instruction with the number that the core sleeps on is due: mcore_rob_retire makes no exception.
  abbrev pub NoneSkipped : Type 0
  NoneSkipped =
      c.sleep ≡ true
      → (k : ℕ) → k < c.rob.size
      → (entry_of g.rob_size c.rob k).inst_num ≡ c.sleep_inst_num
      → is_due g c (entry_of g.rob_size c.rob k) ≡ false

  abbrev retired : ℕ → Frame
  retired k = record (frame c) { rob = behind_by g.rob_size k c.rob }

  -- the first `k` entries are due and not lost
  abbrev GoodFront : ℕ → Type 0
  GoodFront k =
      (i : ℕ)
      → i < k
      → (is_due g c (entry_of g.rob_size c.rob i) ≡ true)
        × (lost_entry g c (entry_of g.rob_size c.rob i) ≡ false)

  module _ (k : ℕ) (taken : GoodFront k) (skips : NoneSkipped) where
    retired-Pending :
        (e : MshrEntry) → Ring g.rob_size c.rob → Pending g (frame c) e → Pending g (retired k) e
    retired-Pending e v w = elim (dec_lt w.at k) [
      | yes out ↦
          let (due, kept) = taken w.at out in
          let same : rob_at c.rob e.robid ≡ entry_of g.rob_size c.rob w.at =
            ap (rob_at c.rob) w.place in
          let (asleep, num) =
            slow_kept (is_slow (entry_of g.rob_size c.rob w.at)) c.sleep _
              (ap is_slow (sym same) ∙ w.slow) kept in
          let waits = skips asleep w.at w.inside (ground arith) in absurd cc
      | no stays ↦ record {
        at = w.at - k;
        inside = omega (arith, w.inside, stays);
        place = w.place ∙ shift_place c.rob.ptr k w.at g.rob_size (omega (arith, stays));
        holds = w.holds;
        slow = w.slow;
        other = w.other;
      }
    ]

    retired-Sleeper :
        (lines : ℕ)
        → c.sleep ≡ true
        → Ring g.rob_size c.rob
        → Sleeper g lines (frame c)
        → Sleeper g lines (retired k)
    retired-Sleeper lines asleep v w = elim (dec_lt w.at k) [
      | yes out ↦
          let (due, kept) = taken w.at out in
          let waits =
            skips asleep w.at w.inside
              (ap (λ p. (rob_at c.rob p).inst_num) (sym w.place) ∙ w.holds) in
          absurd cc
      | no stays ↦ record {
        at = w.at - k;
        inside = omega (arith, w.inside, stays);
        place = w.place ∙ shift_place c.rob.ptr k w.at g.rob_size (omega (arith, stays));
        holds = w.holds;
        line = w.line;
      }
    ]

  -- an awake core's buffer is empty or holds a whole cycle's instructions
  abbrev pub Filled : Type 0
  Filled = c.sleep ≡ false → (c.rob.size ≡ 0) ⊎ (g.core_width ≤ c.rob.size)

  -- what the retirement leaves
  abbrev pub StillPending : ℕ → ℕ → ℕ × Core T → Type 0
  StillPending lines i out =
      (q : Rob) × (out.1 ≡ record c { rob = q })
      × FrameOk g lines i (record (frame c) { rob = q })
      × ((e : MshrEntry) → Pending g (frame c) e → Pending g (record (frame c) { rob = q }) e)

  Taken-StillPending :
      (lines i : ℕ)
      → FrameOk g lines i (frame c)
      → NoneSkipped
      → (out : ℕ × Core T) → Taken g 0 c out
      → StillPending lines i out
  Taken-StillPending lines i v skips out (k, e, few, taken) = (
    behind_by g.rob_size k c.rob,
    ap (λ (t : ℕ × Core T). t.1) e,
    record {
      ring = behind_by-Ring g c.rob k v.ring few;
      id = v.id;
      cycle = v.cycle;
      sleeper = λ asleep. retired-Sleeper k taken skips lines asleep v.ring (v.sleeper asleep);
    },
    λ w. retired-Pending k taken skips w v.ring,
  )

  bounded :
      (lines : ℕ)
      → ((c.sleep ≡ true) → Sleeper g lines (frame c))
      → NoneSkipped
      → Filled
      → (c.rob.size ≡ 0) ⊎ Bounded g g.core_width c
  bounded lines sleeper skips filled = elim (Bool-cases c.sleep) [
    | inl asleep ↦
        let w = sleeper asleep in
        inr (
          inr (
            w.at,
            w.inside,
            skips asleep w.at w.inside
                (ap (λ p. (rob_at c.rob p).inst_num) (sym w.place) ∙ w.holds),
          ))
    | inr awake ↦ elim (filled awake) [ inl e ↦ inl e | inr h ↦ inr (inl h) ]
  ]

  pub rob_retire-StillPending :
      (lines i : ℕ)
      → FrameOk g lines i (frame c)
      → NoneSkipped
      → Filled
      → g.core_width < 2 ^ 32
      → Safe (StillPending lines i) (rob_retire g c)
  rob_retire-StillPending lines i v skips filled few =
      Safe-map (Taken g 0 c) (StillPending lines i) (rob_retire g c)
        (Taken-StillPending lines i v skips)
        (rob_retire-Taken g c v.ring (bounded lines v.sleeper skips filled) few)
