-- ===== src/Dram/Channel/Stopped.antt =====
-- What a refresh (src/dram.cpp) and refresh management (src/dramchannel.cpp) do to the banks that they stop.
use mds.Base.{
  ℕ, ◌+◌, ◌-◌, ◌/◌, ◌^◌, ◌<◌, ◌≤◌, ◌≡◌, refl, sym, subst, ◌⊎◌, inl, inr, false, arith, length,
}
use mds.Settings.{Settings}
use mds.Dram.Types.{busy, Bank, Channel}
use mds.Dram.Bank.{bank_rfmab, bank_refresh, relieve}
use mds.Dram.Cycle.{bank_at}
use mds.Dram.Channel.{latest_sleep, each_bank, channel_rfmab}
use mds.Dram.Channel.Sweep.{each_bank-Swept, Latest, latest_sleep-Latest}
use mds.Dram.System.{refresh_banks}

-- A bank is stopped: its row is closed, its activation counter is lowered, and it sleeps for `cost` cycles from
-- `latest` on. Its queue stays.
pub record Stopped (latest cost relief : ℕ) (b b' : Bank) : Type 0 where
  pub status : b'.status ≡ busy
  pub closed : b'.row_valid ≡ false
  pub sleeps : b'.sleep_cycle ≡ latest + cost
  pub relieved : b'.raa ≡ b.raa - relief
  pub queue : b'.bankq ≡ b.bankq

-- The banks from `start` up to `stop` are stopped together, once the last of them is done with what it does, and
-- the others are left alone.
abbrev pub AllStopped : ℕ → ℕ → ℕ → ℕ → ℕ → Channel → Channel → Type 0
AllStopped now cost relief start stop c d =
    (latest : ℕ) × Latest c now start stop latest
    × (length d.bank ≡ length c.bank)
    × ((j : ℕ) → start ≤ j → j < stop → Stopped latest cost relief (bank_at c j) (bank_at d j))
    × ((j : ℕ) → (j < start) ⊎ (stop ≤ j) → bank_at d j ≡ bank_at c j)

-- the times and counters of the banks are small enough for 64-bit sums
pub record CalmBanks (c : Channel) (start stop : ℕ) : Type 0 where
  pub time : (j : ℕ) → start ≤ j → j < stop → (bank_at c j).sleep_cycle < 2 ^ 62
  pub raa : (j : ℕ) → start ≤ j → j < stop → (bank_at c j).raa < 2 ^ 32

relieve_lem : (relief : ℕ) (b : Bank) → b.raa < 2 ^ 32 → relieve relief b ≡ b.raa - relief
relieve_lem relief b h = ground arith

calm_sleep :
    (c : Channel) (now start stop t : ℕ)
    → now < 2 ^ 62
    → ((j : ℕ) → start ≤ j → j < stop → (bank_at c j).sleep_cycle < 2 ^ 62)
    → Latest c now start stop t
    → t < 2 ^ 62
calm_sleep c now start stop t h small (low, all, inl e) = omega arith
calm_sleep c now start stop t h small (low, all, inr (j, x, y, e)) = omega (arith, small j x y)

bank_refresh-Stopped :
    (g : Settings) (b : Bank) (latest : ℕ)
    → latest < 2 ^ 62
    → g.t_rfc < 2 ^ 62
    → b.raa < 2 ^ 32
    → Stopped latest g.t_rfc g.rfm_refth b (bank_refresh g b latest)
unfolding bank_refresh
bank_refresh-Stopped g b latest h k r = record {
  status = refl;
  closed = refl;
  sleeps = omega arith;
  relieved = relieve_lem g.rfm_refth b r;
  queue = refl;
}

bank_rfmab-Stopped :
    (g : Settings) (b : Bank) (latest : ℕ)
    → latest < 2 ^ 62
    → g.t_rfc < 2 ^ 62
    → b.raa < 2 ^ 32
    → Stopped latest (g.t_rfc / 2) g.rfm_th b (bank_rfmab g b latest)
unfolding bank_rfmab
bank_rfmab-Stopped g b latest h k r = record {
  status = refl;
  closed = refl;
  sleeps = omega arith;
  relieved = relieve_lem g.rfm_th b r;
  queue = refl;
}

module _ (g : Settings) (now : ℕ) (c : Channel) where
  -- Let the banks that a refresh is due for lie in the channel, and the times and counters be small enough
  -- for 64-bit sums. Then the refresh closes the row of each of these banks, lowers its activation counter
  -- by RFM_REFTH but not below 0, and makes it sleep for tRFC cycles from the one moment at which the last
  -- of them is done (now, if all are); the queues and the other banks stay as they are.
  pub refresh_banks-AllStopped :
      (start n : ℕ)
      → start + n ≤ length c.bank
      → CalmBanks c start (start + n)
      → now < 2 ^ 62
      → g.t_rfc < 2 ^ 62
      → AllStopped now g.t_rfc g.rfm_refth start (start + n) c (refresh_banks g now start n c)
  unfolding refresh_banks
  refresh_banks-AllStopped start n h calm small k =
      let latest = latest_sleep c now start n in
      let late = latest_sleep-Latest c now start n in
      let few = calm_sleep c now start (start + n) latest small calm.time late in
      let (l, done, rest) = each_bank-Swept (λ b. bank_refresh g b latest) c start n h in
      (
        latest,
        late,
        l,
        (λ j x y.
            subst (Stopped latest g.t_rfc g.rfm_refth (bank_at c j)) (sym (done j x y))
              (bank_refresh-Stopped g (bank_at c j) latest few k (calm.raa j x y))),
        rest,
      )

  -- The banks that a loop of refresh management goes over are stopped.
  pub rfm_stopped :
      (start n : ℕ)
      → start + n ≤ length c.bank
      → CalmBanks c start (start + n)
      → now < 2 ^ 62
      → g.t_rfc < 2 ^ 62
      → AllStopped now
          (g.t_rfc / 2)
          g.rfm_th
          start
          (start + n)
          c
          (each_bank (λ b. bank_rfmab g b (latest_sleep c now start n)) c start n)
  rfm_stopped start n h calm small k =
      let latest = latest_sleep c now start n in
      let late = latest_sleep-Latest c now start n in
      let few = calm_sleep c now start (start + n) latest small calm.time late in
      let (l, done, rest) = each_bank-Swept (λ b. bank_rfmab g b latest) c start n h in
      (
        latest,
        late,
        l,
        (λ j x y.
            subst (Stopped latest (g.t_rfc / 2) g.rfm_th (bank_at c j)) (sym (done j x y))
              (bank_rfmab-Stopped g (bank_at c j) latest few k (calm.raa j x y))),
        rest,
      )

  -- In a channel that has its number of banks, with times and counters small enough for 64-bit sums,
  -- dram_channel_rfmab closes the row of every bank, lowers its activation counter by RFM_TH but not below
  -- 0, and makes it sleep for half of tRFC from the one moment at which the last of them is done; the
  -- queues stay.
  pub channel_rfmab-AllStopped :
      c.num_banks ≡ length c.bank
      → CalmBanks c 0 (0 + c.num_banks)
      → now < 2 ^ 62
      → g.t_rfc < 2 ^ 62
      → AllStopped now (g.t_rfc / 2) g.rfm_th 0 (0 + c.num_banks) c (channel_rfmab g now c)
  unfolding channel_rfmab
  channel_rfmab-AllStopped h calm small k = rfm_stopped 0 c.num_banks (omega arith) calm small k
