-- ===== src/Dram/Bus.antt =====
-- The data-bus queue and the two tokens of src/dramchannel.cpp.
use mds.Base.{
  ℕ, Bool, true, false, not, Result, ok, ◌>>◌, check, leb, if◌then◌else◌, get_or, set, add32, sub64,
}
use mds.Dram.Types.{ReqType, BusqEntry, TfawToken, RdwrToken, Channel, no_busq_entry}

-- `c->dbusq.entries[i]`
abbrev pub busq_at : Channel → ℕ → BusqEntry
busq_at c i = get_or c.dbusq.entries i no_busq_entry

-- the waiting transfer of `dram_channel_insert_rdwrq`
abbrev pub transfer : ReqType → ℕ → ℕ → BusqEntry
transfer reqtype lineaddr ready_time = record {
  valid = true;
  reqtype = reqtype;
  lineaddr = lineaddr;
  ready_time = ready_time;
}

-- `dram_channel_insert_rdwrq`
unfoldable pub insert_rdwrq : Channel → ℕ → ReqType → ℕ → ℕ → Result Channel
insert_rdwrq c bankid reqtype lineaddr ready_time = do
  check (not (busq_at c bankid).valid)
  ok (record c {
    dbusq = record {
      entries = set c.dbusq.entries bankid (transfer reqtype lineaddr ready_time);
      size = add32 c.dbusq.size 1;
    };
  })

-- `dram_channel_get_rdwr_token`
unfoldable pub get_rdwr_token : RdwrToken → ℕ → Bool × RdwrToken
get_rdwr_token t in_cycle =
    if leb t.rdwr_time (sub64 in_cycle t.prev_time)
    then (true, record t { prev_time = in_cycle })
    else (false, t)

-- `dram_channel_get_tfaw_token`
unfoldable pub get_tfaw_token : TfawToken → ℕ → Bool × TfawToken
get_tfaw_token t in_cycle =
    if leb t.tfaw_time (sub64 in_cycle t.prev0)
    then (true, record t { prev0 = t.prev1; prev1 = t.prev2; prev2 = t.prev3; prev3 = in_cycle })
    else (false, t)
