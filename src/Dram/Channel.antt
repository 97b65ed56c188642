-- ===== src/Dram/Channel.antt =====
-- A channel: creation, insertion, the bus schedule, refresh management and the cycle of src/dramchannel.cpp.
pub mod Invariant
pub mod Service
pub mod Finish
pub mod Serving
pub mod Granting
pub mod Steady
pub mod Sweep
pub mod Stopped
pub mod SameBank
use mds.Base.{
  ◌||◌, ℕ, zero, suc, ◌+◌, ◌-◌, ◌*◌, ◌/◌, ◌%◌, ◌^◌, Bool, false, ◌&&◌, none, some, List, [], ◌∷◌,
  Result, ok, err, ◌>>=◌, ◌>>◌, check, undefined, ltb, leb, ◌==◌, if◌then◌else◌, set, replicate,
  add32, add64, sub32, to32, mul32, find_index, for_range, Rand,
}
use mds.Settings.{Settings}
use mds.Dram.Types.{ReqType, Bank, RdwrToken, Channel, num_busq_entries, no_busq_entry}
use mds.Dram.Bus.{busq_at, get_rdwr_token}
use mds.Dram.Bank.{is_read, bank_new, bank_insert, bank_rfmab}
use mds.Dram.Cycle.{bank_at, put_bank, bank_cycle}

-- `dram_channel_new`: `num_banks` banks of `num_rows / num_banks` rows each; a division by zero, and more
-- than 32 banks, are undefined. tFAW is 12 * 4.
unfoldable pub banks_new : ℕ → ℕ → ℕ → ℕ → List Bank
banks_new id num_rows ii zero = []
banks_new id num_rows ii (suc n) = bank_new ii id num_rows ∷ banks_new id num_rows (ii + 1) n

unfoldable pub channel_new : Settings → ℕ → ℕ → ℕ → Result Channel
channel_new g id num_banks num_rows =
    if g.dram_bankgroups == 0 || (num_banks == 0 || ltb 32 num_banks)
    then err undefined
    else ok (record {
      id = id;
      rfmab = false;
      rfmsb = 0;
      bank = banks_new id (num_rows / num_banks) 0 num_banks;
      dbusq = record { entries = replicate num_busq_entries no_busq_entry; size = 0 };
      tfaw_token = record { tfaw_time = 12 * 4; prev0 = 0; prev1 = 0; prev2 = 0; prev3 = 0 };
      rdwr_token = record { rdwr_time = g.t_rdrd; prev_time = 0 };
      num_banks = num_banks;
      num_rows = num_rows;
      banks_in_bankgroup = num_banks / g.dram_bankgroups;
      s_rfm = 0;
      s_bus_time = 0;
    })

-- the loop for the latest `sleep_cycle`, from `now` on, of the `n` banks from `start`
unfoldable pub latest_sleep : Channel → ℕ → ℕ → ℕ → ℕ
latest_sleep c now start n =
    for_range
      (λ ii latest.
        if ltb latest (bank_at c ii).sleep_cycle then (bank_at c ii).sleep_cycle else latest)
      n start now

-- the loop that applies an operation to the `n` banks from `start`
unfoldable pub each_bank : (Bank → Bank) → Channel → ℕ → ℕ → Channel
each_bank f c start n = for_range (λ ii d. put_bank d ii (f (bank_at d ii))) n start c

-- `dram_channel_rfmab`
unfoldable pub channel_rfmab : Settings → ℕ → Channel → Channel
channel_rfmab g now c =
    let latest = latest_sleep c now 0 c.num_banks in
    each_bank (λ b. bank_rfmab g b latest) c 0 c.num_banks

-- the loop for the lowest bit that is set, and 0 without one
unfoldable pub lowest_bit : ℕ → ℕ
lowest_bit v = elim (find_index (λ ii. v / 2 ^ ii % 2 == 1) 32 0) [ some ii ↦ ii | none ↦ 0 ]

-- `dram_channel_rfmsb`: `start` and `end` are `uns`.
unfoldable pub channel_rfmsb : Settings → ℕ → Channel → Channel
channel_rfmsb g now c =
    let pos = lowest_bit c.rfmsb in
    let c1 = record c { rfmsb = sub32 c.rfmsb (2 ^ pos) } in
    let start = mul32 pos c.banks_in_bankgroup in
    let rounds = add32 start c.banks_in_bankgroup - start in
    let latest = latest_sleep c1 now start rounds in
    each_bank (λ b. bank_rfmab g b latest) c1 start rounds

-- the two requests at the end of `dram_channel_cycle`
unfoldable pub serve_rfm : Settings → ℕ → Channel → Channel
serve_rfm g now c =
    let c1 =
      if c.rfmab
      then channel_rfmab g now (record c { rfmab = false; s_rfm = add64 c.s_rfm 1 })
      else c in
    if c1.rfmsb == 0 then c1 else channel_rfmsb g now (record c1 { s_rfm = add64 c1.s_rfm 1 })

-- the loop over the banks in `dram_channel_cycle`
unfoldable pub cycle_banks : Settings → ℕ → ℕ → ℕ → Channel → Rand → Result (Channel × Rand)
cycle_banks g now zero ii c r = ok (c, r)
cycle_banks g now (suc n) ii c r = do
  (c1, r1) ← bank_cycle g now c ii r
  cycle_banks g now n (ii + 1) c1 r1

-- `dram_channel_insert`
unfoldable pub channel_insert : ℕ → Channel → ℕ → ReqType → ℕ → ℕ → Result (Bool × Channel)
channel_insert now c bankid type rowid lineaddr = do
  check (ltb bankid c.num_banks)
  (done, b) ← bank_insert now (bank_at c bankid) type rowid lineaddr
  ok (done, put_bank c bankid b)

-- the test for an entry that may go on the bus
abbrev pub is_ready : ℕ → Channel → ℕ → Bool
is_ready now c index = (busq_at c index).valid && leb (busq_at c index).ready_time now

-- the entry of round `ii`: the loop starts at `cycle % num_banks` and goes round
abbrev pub index_of : ℕ → Channel → ℕ → ℕ
index_of now c ii = add32 ii (to32 (now % c.num_banks)) % c.num_banks

-- What happens outside the channel when a read's data has come over the bus: `memsys_callback`, on the
-- state `W` of the rest of the simulator.
module _ {W : Type 0} (callback : ℕ → W → Result W) where
  -- the grant of the bus to entry `index` in `dram_channel_schedule_rdwrq`
  unfoldable pub grant_bus : Settings → ℕ → ℕ → RdwrToken → Channel → W → Result (Channel × W)
  grant_bus g now index token c w =
      let e = busq_at c index in
      let c1 = record c {
        rdwr_token = token;
        s_bus_time = add64 c.s_bus_time (add64 g.t_cas g.t_rdrd);
        dbusq = record {
          entries = set c.dbusq.entries index (record e { valid = false });
          size = sub32 c.dbusq.size 1;
        };
        bank = set c.bank index (record (bank_at c index) { sleep_cycle = add64 now g.t_rdrd });
      } in
      (if is_read e.reqtype then callback e.lineaddr w else ok w) >>= λ w1. ok (c1, w1)

  -- an entry that is valid and ready: the token decides
  unfoldable pub try_bus : Settings → ℕ → ℕ → Channel → W → Result (Channel × W)
  try_bus g now index c w =
      let (granted, token) = get_rdwr_token c.rdwr_token now in
      if granted then grant_bus g now index token c w else ok (c, w)

  -- `dram_channel_schedule_rdwrq`
  unfoldable pub schedule_rdwrq : Settings → ℕ → Channel → W → Result (Channel × W)
  schedule_rdwrq g now c w =
      if c.num_banks == 0
      then err undefined
      else elim (find_index (λ ii. is_ready now c (index_of now c ii)) c.num_banks 0) [
        | some ii ↦ try_bus g now (index_of now c ii) c w
        | none ↦ ok (c, w)
      ]

  -- `dram_channel_cycle`
  unfoldable pub channel_cycle : Settings → ℕ → Channel → Rand → W → Result (Channel × Rand × W)
  channel_cycle g now c r w = do
    (c1, w1) ← schedule_rdwrq g now c w
    (c2, r1) ← cycle_banks g now c1.num_banks 0 c1 r
    ok (serve_rfm g now c2, r1, w1)
