-- ===== src/Dram/Channel/SameBank.antt =====
-- Same-bank refresh management, `dram_channel_rfmsb` of src/dramchannel.cpp.
use mds.Base.{
  ℕ, ◌+◌, ◌-◌, ◌*◌, ◌/◌, ◌%◌, ◌^◌, ◌<◌, ◌≤◌, ◌≡◌, refl, ap, ◌∙◌, true, arith, length, ◌==◌,
  find_index-some, find_index-exists, for_range_inv, div-lt, sub32, mul32, add32,
}
use native.Mathlib.Decide.{dec_lt}
use mds.Settings.{Settings}
use mds.Dram.Types.{Bank, Channel}
use mds.Dram.Cycle.{bank_at, put_bank}
use mds.Dram.Bank.{bank_rfmab}
use mds.Dram.Channel.{lowest_bit, latest_sleep, each_bank, channel_rfmsb}
use mds.Dram.Channel.Stopped.{CalmBanks, AllStopped, rfm_stopped}

-- `pos` is the lowest of the 32 bits of `v` that is 1.
pub record IsLowest (v pos : ℕ) : Type 0 where
  pub below : pos < 32
  pub one : v / 2 ^ pos % 2 ≡ 1
  pub zeros : (j : ℕ) → j < pos → v / 2 ^ j % 2 ≡ 0

eq_one : (x : ℕ) → x ≡ 1 → (x == 1) ≡ true
eq_one x h = ground arith

not_both : (x : ℕ) → x ≡ 0 → (x == 1) ≡ true → ⊥
not_both x h e = ground arith

lowest_bit_lem : (v pos : ℕ) → IsLowest v pos → lowest_bit v ≡ pos
unfolding lowest_bit
lowest_bit_lem v pos low =
    let hit = eq_one (v / 2 ^ pos % 2) low.one in
    let (k, found) =
      find_index-exists (λ ii. v / 2 ^ ii % 2 == 1) 32 0 pos (omega arith)
        (omega (arith, low.below)) hit in
    let (a, b, is_set, before) = find_index-some (λ ii. v / 2 ^ ii % 2 == 1) 32 0 k found in
    rw (found, lowest_bit)
      (elim (dec_lt k pos) [
        | yes less ↦ absurd (not_both (v / 2 ^ k % 2) (low.zeros k less) is_set)
        | no least ↦ elim (dec_lt pos k) [
          | yes more ↦ absurd (let miss = before pos (omega arith) more in cc)
          | no most ↦ omega (arith, least, most)
        ]
      ])

each_bank-rfmsb :
    (f : Bank → Bank) (c : Channel) (start n : ℕ) → (each_bank f c start n).rfmsb ≡ c.rfmsb
unfolding each_bank
each_bank-rfmsb f c start n =
    for_range_inv (λ k d. d.rfmsb ≡ c.rfmsb) (λ ii d. put_bank d ii (f (bank_at d ii))) n start
      (start + n) c refl (λ k d a b s. s) refl

-- A set bit can be taken away.
bit-le : (v p : ℕ) → v / p % 2 ≡ 1 → p ≤ v
bit-le v p h = elim (dec_lt v p) [
  | yes small ↦ let few = div-lt v 1 p (omega arith) in omega (arith, few)
  | no large ↦ omega (arith, large)
]

-- Bits fit a word, and are taken off without a borrow.
clear_bit : (v p : ℕ) → p ≤ v → v < 2 ^ 32 → sub32 v p + p ≡ v
clear_bit v p h w = omega arith

-- The first bank of a group that lies in the channel, and the number of rounds over the group.
group_start : (pos size l : ℕ) → pos * size + size ≤ l → l < 2 ^ 32 → mul32 pos size ≡ pos * size
group_start pos size l h w = grind arith

group_rounds : (start size l : ℕ) → start + size ≤ l → l < 2 ^ 32 → add32 start size - start ≡ size
group_rounds start size l h w = omega arith

module _ (g : Settings) (now : ℕ) (c : Channel) (pos : ℕ) where
  -- Let RFMSB be a 32-bit mask whose lowest set bit is bit number pos, let the pos-th group of
  -- banks_in_bankgroup banks lie in the channel, and the times and counters be small enough for 64-bit
  -- sums. Then dram_channel_rfmsb takes that bit off the mask, closes the row of every bank of the group,
  -- lowers its activation counter by RFM_TH but not below 0, and makes it sleep for half of tRFC from the
  -- one moment at which the last of the group is done; all other banks stay as they are.
  pub channel_rfmsb-AllStopped :
      IsLowest c.rfmsb pos
      → c.rfmsb < 2 ^ 32
      → pos * c.banks_in_bankgroup + c.banks_in_bankgroup ≤ length c.bank
      → length c.bank < 2 ^ 32
      → CalmBanks c (pos * c.banks_in_bankgroup) (pos * c.banks_in_bankgroup + c.banks_in_bankgroup)
      → now < 2 ^ 62
      → g.t_rfc < 2 ^ 62
      → ((channel_rfmsb g now c).rfmsb + 2 ^ pos ≡ c.rfmsb)
        × AllStopped now
            (g.t_rfc / 2)
            g.rfm_th
            (pos * c.banks_in_bankgroup)
            (pos * c.banks_in_bankgroup + c.banks_in_bankgroup)
            c
            (channel_rfmsb g now c)
  unfolding channel_rfmsb
  channel_rfmsb-AllStopped low word within few calm small k =
      let start = pos * c.banks_in_bankgroup in
      let c1 = record c { rfmsb = sub32 c.rfmsb (2 ^ pos) } in
      let le = bit-le c.rfmsb (2 ^ pos) low.one in
      let from : mul32 pos c.banks_in_bankgroup ≡ start =
        group_start pos c.banks_in_bankgroup (length c.bank) within few in
      let rounds : add32 start c.banks_in_bankgroup - start ≡ c.banks_in_bankgroup =
        group_rounds start c.banks_in_bankgroup (length c.bank) within few in
      rw (lowest_bit_lem c.rfmsb pos low, from, rounds)
        (
          ap (λ x. x + 2 ^ pos)
                (each_bank-rfmsb
                  (λ b. bank_rfmab g b (latest_sleep c1 now start c.banks_in_bankgroup)) c1 start
                  c.banks_in_bankgroup)
              ∙ clear_bit c.rfmsb (2 ^ pos) le word,
          rfm_stopped g now c1 start c.banks_in_bankgroup within
              (record { time = calm.time; raa = calm.raa }) small k,
        )
