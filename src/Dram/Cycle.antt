-- ===== src/Dram/Cycle.antt =====
-- One cycle of a bank, dram_bank_cycle of src/drambank.cpp. The channel of a bank is the one that holds it:
-- `dram_channel_new` gives its banks the channel's own number.
use mds.Base.{
  ℕ, Result, ok, ◌>>=◌, ◌>>◌, check, ltb, ◌==◌, if◌then◌else◌, length, get_or, set, add64, sub64,
  Rand,
}
use mds.Settings.{Settings}
use mds.Dram.Types.{ready, finished, BankqEntry, Bank, Channel}
use mds.Dram.Bus.{busq_at, insert_rdwrq}
use mds.Dram.Bank.{
  is_data, is_busy, is_wait, bank_new, bankq_at, bank_remove, bank_schedule, bank_service,
}

-- what a read of `c->bank` outside the banks is taken to give
abbrev pub no_bank : Bank
unfolding bank_new
no_bank = bank_new 0 0 0

-- `c->bank[i]`
abbrev pub bank_at : Channel → ℕ → Bank
bank_at c i = get_or c.bank i no_bank

abbrev pub put_bank : Channel → ℕ → Bank → Channel
put_bank c i b = record c { bank = set c.bank i b }

-- the fields that `dram_bank_cycle` fills in after the service
abbrev pub served : ℕ → ℕ → BankqEntry → BankqEntry
served now delay e = record e {
  status = finished;
  done_time = add64 now delay;
  service_delay = delay;
  wait_delay = sub64 now e.birth_time;
}

-- the statistics of a read or a write
abbrev pub charge : ℕ → BankqEntry → Bank → Bank
charge delay e b = record b {
  s_service_delay = add64 b.s_service_delay delay;
  s_wait_delay = add64 b.s_wait_delay e.wait_delay;
}

-- The end of `dram_bank_cycle`: the request has been served, goes to the bus queue if it is a read or a
-- write, and leaves the bank's queue.
unfoldable pub finish : ℕ → ℕ → ℕ → ℕ → Channel → Bank → Result Channel
finish now i index delay c b =
    let e = served now delay (bankq_at b index) in
    let b1 = record b { bankq = set b.bankq index e } in
    if is_data e.reqtype
    then (insert_rdwrq c b.id e.reqtype e.lineaddr e.done_time >>= λ c1.
        bank_remove (charge delay e b1) index >>= λ b2. ok (put_bank c1 i b2))
    else (bank_remove b1 index >>= λ b2. ok (put_bank c i b2))

-- A bank with a request and a free place on the bus serves one.
unfoldable pub serve : Settings → ℕ → Channel → ℕ → Bank → Rand → Result (Channel × Rand)
serve g now c i b r = do
  index ← bank_schedule g b
  check (is_wait (bankq_at b index).status)
  (delay, c1, b1, r1) ← bank_service g now c b (bankq_at b index).reqtype (bankq_at b index).rowid r
  c2 ← finish now i index delay c1 b1
  ok (c2, r1)

-- a bank that is awake
unfoldable pub awake_cycle : Settings → ℕ → Channel → ℕ → Bank → Rand → Result (Channel × Rand)
awake_cycle g now c i b r =
    if length b.bankq == 0
    then ok (put_bank c i b, r)
    else if (busq_at c b.id).valid
    then ok (put_bank c i b, r)
    else serve g now c i b r

-- `dram_bank_cycle` of bank `i`
unfoldable pub bank_cycle : Settings → ℕ → Channel → ℕ → Rand → Result (Channel × Rand)
bank_cycle g now c i r =
    let b = bank_at c i in
    if is_busy b.status
    then (if ltb b.sleep_cycle now
        then awake_cycle g now c i (record b { status = ready }) r
        else ok (c, r))
    else awake_cycle g now c i b r
