-- ===== src/Dram/Tests.antt =====
-- The DRAM at concrete inputs.
use mds.Base.{
  ℕ, zero, suc, ◌+◌, ◌-◌, ◌*◌, ◌/◌, ◌%◌, ◌^◌, ◌<◌, ◌≤◌, ◌≡◌, refl, sym, ap, subst, ◌⊎◌, Bool, true,
  false, [], ◌∷◌, arith, Result, ok, err, assert_failed, ◌==◌, if◌then◌else◌, Rand,
}
use mds.Settings.{defaults}
use mds.Dram.Types.{Bank, Channel, Dram, rd}
use mds.Dram.Outbox.{Outbox}
use mds.Dram.Bank.{waiting, bank_new, bank_insert, bank_schedule, read_write}
use mds.Dram.Bank.Timing.{Timed, read_write-Timed}
use mds.Dram.Bank.Schedule.{FirstReady, bank_schedule-FirstReady}
use mds.Dram.Cycle.{bank_cycle, bank_at}
use mds.Dram.Channel.{banks_new, channel_insert, schedule_rdwrq, channel_rfmab, channel_rfmsb}
use mds.Dram.Channel.SameBank.{IsLowest, channel_rfmsb-AllStopped}
use mds.Dram.Channel.Stopped.{
  AllStopped, CalmBanks, refresh_banks-AllStopped, channel_rfmab-AllStopped,
}
use mds.Dram.Channel.Invariant.{IsSound, reads}
use mds.Dram.Channel.Serving.{bank_cycle-Steady}
use mds.Dram.Channel.Granting.{Scheduled, schedule_rdwrq-Scheduled}
use mds.Dram.Address.{Place, parseaddr, zen, udiv, umod}
use mds.Dram.Address.Codec.{InMemory, line_of, parseaddr-line_of}
use mds.Dram.Address.Total.{parseaddr-Placed}
use mds.Dram.System.{channel_at, new_of, dram_insert, refresh_banks}
use mds.Dram.System.State.{AllSound, in_flight}
use mds.Dram.System.Insert.{DramInserted, dram_insert-DramInserted}
use mds.Dram.Sample.{tiny, tiny_dram, tiny-Geometry, tiny-AllSound, in_memory}
use mds.Dram.System.Fresh.{new_channel}
use mds.Dram.System.Start.{new_dram}

dram_insert-DramInserted_example :
    DramInserted tiny 512 13 false tiny_dram (dram_insert tiny 5 tiny_dram 13 false)
dram_insert-DramInserted_example =
    dram_insert-DramInserted tiny 5 512 tiny_dram 13 false tiny-Geometry tiny-AllSound (omega arith)
      in_memory

-- the value of a result that is one
from_ok : {A : Type 0} → A → Result A → A
from_ok a (ok b) = b
from_ok a (err e) = a

-- the DRAM with a read of line 13 in flight, which is in bank 3 of channel 1
busy_dram : Dram
busy_dram = (from_ok (true, tiny_dram) (dram_insert tiny 5 tiny_dram 13 false)).1

busy-AllSound : AllSound busy_dram 512
unfolding busy_dram from_ok
busy-AllSound =
    let (place, done, d', parsed, e, s, only, full, w) =
      dram_insert-DramInserted tiny 5 512 tiny_dram 13 false tiny-Geometry tiny-AllSound
        (omega arith) in_memory in
    subst (λ t. AllSound t 512)
      (sym (ap (λ r. (from_ok {A = Bool × Dram} (true, tiny_dram) r).1) e)) s

busy_one_read : in_flight 13 busy_dram ≡ 1
unfolding new_dram new_of busy_dram from_ok dram_insert in_flight banks_new bank_new parseaddr zen
    udiv umod channel_insert bank_insert reads
busy_one_read = refl

-- an outside that counts the reads that it waits for
ledger : ℕ → (ℕ → ℕ) → Result (ℕ → ℕ)
ledger a w = if w a == 0 then err assert_failed else ok (λ b. if b == a then w b - 1 else w b)

ledger_outbox : Outbox (ℕ → ℕ)
unfolding ledger
ledger_outbox = record {
  callback = ledger;
  pending = λ a w. w a;
  Good = λ w. Unit;
  delivers = λ a w good h.
      (λ b. if b == a then w b - 1 else w b, ground arith, tt, ground arith, λ b ne. ground arith);
}

abbrev dice : Rand
dice n = n * 1103515245 + 12345

-- channel 1 with the read in the queue of bank 3, and after that bank's cycle, with the read on the bus
busy_channel : Channel
busy_channel = channel_at busy_dram 1

two_channels : 1 < busy_dram.num_channels
unfolding busy_dram from_ok new_dram new_of dram_insert parseaddr zen udiv umod channel_insert
    bank_insert banks_new bank_new
two_channels = omega arith

busy-IsSound : IsSound busy_channel
unfolding busy_channel
busy-IsSound = busy-AllSound.sound 1 two_channels

four_banks : busy_channel.num_banks ≡ 4
unfolding busy_channel busy_dram from_ok new_dram new_of dram_insert parseaddr zen udiv umod
    channel_insert bank_insert banks_new bank_new
four_banks = refl

on_bus_channel : Channel
on_bus_channel = (from_ok (busy_channel, dice) (bank_cycle tiny 6 busy_channel 3 dice)).0

on_bus-IsSound : IsSound on_bus_channel
unfolding on_bus_channel from_ok
on_bus-IsSound =
    let (c', r', e, s, n, w) =
      bank_cycle-Steady tiny 6 3 busy_channel dice busy-IsSound (omega (arith, four_banks))
        (omega arith) in
    subst IsSound (sym (ap (λ r. (from_ok {A = Channel × Rand} (busy_channel, dice) r).0) e)) s

schedule_rdwrq-Scheduled_example :
    Scheduled ledger tiny 60 on_bus_channel
      (λ a. 1)
      (schedule_rdwrq ledger tiny 60 on_bus_channel (λ a. 1))
schedule_rdwrq-Scheduled_example =
    schedule_rdwrq-Scheduled ledger tiny 60 on_bus_channel (λ a. 1) on_bus-IsSound

inside : InMemory tiny_dram 512 (record { rowbufid = 7; bankid = 3; channelid = 1 })
unfolding new_dram new_of
inside = record { row = omega arith; bank = omega arith; channel = omega arith }

in_row : 2 < tiny_dram.lines_in_rowbuf
unfolding new_dram new_of
in_row = omega arith

parseaddr-line_of_example :
    parseaddr tiny tiny_dram
      (line_of tiny tiny_dram (record { rowbufid = 7; bankid = 3; channelid = 1 }) 2)
    ≡ ok (record { rowbufid = 7; bankid = 3; channelid = 1 })
parseaddr-line_of_example =
    parseaddr-line_of tiny tiny_dram 512 tiny-Geometry
      (record { rowbufid = 7; bankid = 3; channelid = 1 }) 2 inside in_row (omega arith)

parseaddr-Placed_example :
    (p : Place) × (col : ℕ) × (parseaddr tiny tiny_dram 13 ≡ ok p)
    × InMemory tiny_dram 512 p
    × (col < tiny_dram.lines_in_rowbuf)
    × (line_of tiny tiny_dram p col ≡ 13)
parseaddr-Placed_example =
    parseaddr-Placed tiny tiny_dram 512 tiny-Geometry 13 in_memory (omega arith)

-- a bank whose row 9 has been open since cycle 100, with a request for row 4 and one for row 9
abbrev open_bank : Bank
open_bank = record (bank_new 0 0 512) {
  bankq = waiting rd 4 1 90 ∷ waiting rd 9 2 95 ∷ [];
  row_valid = true;
  open_row_id = 9;
  rowbufopen_cycle = 100;
  rowbufclose_cycle = 19600;
}

read_write-Timed_example : Timed defaults 180 4 open_bank (read_write defaults 180 4 open_bank)
read_write-Timed_example = read_write-Timed defaults 180 4 open_bank (record {
  clock = omega arith;
  act = omega arith;
  pre = omega arith;
  ras = omega arith;
  rdrd = omega arith;
  topen = omega arith;
  opened = omega arith;
  closes = omega arith;
})

bank_schedule-FirstReady_example :
    (k : ℕ) × (bank_schedule defaults open_bank ≡ ok k)
    × (k < 2)
    × (((defaults.dram_sched_policy ≡ 0) × (k ≡ 0))
        ⊎ ((defaults.dram_sched_policy ≡ 1) × FirstReady open_bank k))
bank_schedule-FirstReady_example =
    bank_schedule-FirstReady defaults open_bank (omega arith) (omega arith)

-- a channel of two banks, the first with an open row
abbrev two_banks : Channel
two_banks = record (new_channel defaults 0 2 1024) { bank = open_bank ∷ bank_new 1 0 512 ∷ [] }

two_banks-sleep : (j : ℕ) → 0 ≤ j → j < 2 → (bank_at two_banks j).sleep_cycle < 2 ^ 62
unfolding bank_new
two_banks-sleep zero l h = omega arith
two_banks-sleep (suc zero) l h = omega arith
two_banks-sleep (suc (suc j)) l h = omega arith

two_banks-raa : (j : ℕ) → 0 ≤ j → j < 2 → (bank_at two_banks j).raa < 2 ^ 32
unfolding bank_new
two_banks-raa zero l h = omega arith
two_banks-raa (suc zero) l h = omega arith
two_banks-raa (suc (suc j)) l h = omega arith

calm : CalmBanks two_banks 0 2
calm = record { time = two_banks-sleep; raa = two_banks-raa }

refresh_banks-AllStopped_example :
    AllStopped 180 defaults.t_rfc defaults.rfm_refth 0 2 two_banks
      (refresh_banks defaults 180 0 2 two_banks)
refresh_banks-AllStopped_example =
    refresh_banks-AllStopped defaults 180 two_banks 0 2 (omega arith) calm (omega arith)
      (omega arith)

channel_rfmab-AllStopped_example :
    AllStopped 180
      (defaults.t_rfc / 2)
      defaults.rfm_th
      0
      2
      two_banks
      (channel_rfmab defaults 180 two_banks)
channel_rfmab-AllStopped_example =
    channel_rfmab-AllStopped defaults 180 two_banks refl calm (omega arith) (omega arith)

-- the same, with refresh management due in the groups 1 and 3 of one bank each
abbrev due_channel : Channel
due_channel = record two_banks { rfmsb = 10; banks_in_bankgroup = 1 }

due-IsLowest : IsLowest due_channel.rfmsb 1
due-IsLowest = record { below = omega arith; one = refl; zeros = zeros }
  where
    zeros : (j : ℕ) → j < 1 → 10 / 2 ^ j % 2 ≡ 0
    zeros zero h = omega arith
    zeros (suc j) h = omega arith

channel_rfmsb-AllStopped_example :
    ((channel_rfmsb defaults 180 due_channel).rfmsb + 2 ^ 1 ≡ due_channel.rfmsb)
    × AllStopped 180
        (defaults.t_rfc / 2)
        defaults.rfm_th
        1
        2
        due_channel
        (channel_rfmsb defaults 180 due_channel)
channel_rfmsb-AllStopped_example =
    channel_rfmsb-AllStopped defaults 180 due_channel 1 due-IsLowest (omega arith) (omega arith)
      (omega arith)
      (record {
        time = λ j x y. two_banks-sleep j (omega arith) y;
        raa = λ j x y. two_banks-raa j (omega arith) y;
      })
      (omega arith) (omega arith)
