-- ===== src/Dram/Bank/Timing.antt =====
-- The timing of a read or a write in dram_bank_service of src/drambank.cpp.
use mds.Base.{ℕ, ◌+◌, ◌^◌, ◌≤◌, ◌<◌, ◌≡◌, ◌↔◌, true, false, arith}
use mds.Settings.{Settings}
use mds.Dram.Types.{Bank, busy}
use mds.Dram.Bank.{Act, close_early, access_row, read_write}

-- The times are small enough for 64-bit sums: 2^60 cycles are nine years at 4 GHz.
pub record InTime (g : Settings) (now : ℕ) (b : Bank) : Type 0 where
  pub clock : now < 2 ^ 60
  pub act : g.t_act < 2 ^ 60
  pub pre : g.t_pre < 2 ^ 60
  pub ras : g.t_ras < 2 ^ 60
  pub rdrd : g.t_rdrd < 2 ^ 60
  pub topen : g.dram_max_topen < 2 ^ 60
  pub opened : b.rowbufopen_cycle ≤ now
  pub closes : b.rowbufclose_cycle < 2 ^ 62

-- the row is open, and stays open at `now`
abbrev pub StillOpen : ℕ → Bank → Type 0
StillOpen now b = (b.row_valid ≡ true) × (now < b.rowbufclose_cycle)

pub record Timed (g : Settings) (now rowid : ℕ) (b : Bank) (a : Act) : Type 0 where
  pub opens : (a.bank.row_valid ≡ true) × (a.bank.open_row_id ≡ rowid)
  pub sleeps : (a.bank.status ≡ busy) × (a.bank.sleep_cycle ≡ now + a.delay + g.t_rdrd)
  pub bounded : a.delay ≤ g.t_ras + g.t_pre + g.t_act
  pub hit : (a.new_act ≡ false) ↔ (StillOpen now b × (b.open_row_id ≡ rowid))
  pub free_hit : a.new_act ≡ false → a.delay ≡ 0
  pub activates : a.new_act ≡ true → a.bank.rowbufopen_cycle + g.t_act ≡ now + a.delay
  pub closing :
      a.new_act ≡ true → a.bank.rowbufclose_cycle ≡ a.bank.rowbufopen_cycle + g.dram_max_topen
  pub restored :
      a.new_act ≡ true
      → StillOpen now b
      → b.rowbufopen_cycle + g.t_ras + g.t_pre ≤ a.bank.rowbufopen_cycle
  pub precharged :
      a.new_act ≡ true
      → b.row_valid ≡ true
      → b.rowbufclose_cycle ≤ now
      → b.rowbufclose_cycle + g.t_pre ≤ a.bank.rowbufopen_cycle

module _ (g : Settings) (now rowid : ℕ) (b : Bank) (v : InTime g now b) where
  -- With times below 2^60 and a row that was opened no later than now, a read or a write of row `rowid`
  -- leaves the row open and the bank asleep until the data can move; its delay is at most a restore, a
  -- precharge and an activation; it is free exactly when the row is still open; otherwise the row is
  -- activated, no sooner than the restore of the row that was open and the precharge after it allow.
  pub read_write-Timed : Timed g now rowid b (read_write g now rowid b)
  unfolding read_write access_row close_early
  read_write-Timed = record {
    opens = ground arith;
    sleeps = ground (arith, v);
    bounded = ground (arith, v);
    hit = (λ e. ground (arith, v), λ e. ground (arith, v));
    free_hit = λ e. ground (arith, v);
    activates = λ e. ground (arith, v);
    closing = λ e. ground (arith, v);
    restored = λ e o. ground (arith, v);
    precharged = λ e o c. ground (arith, v);
  }
