-- ===== src/Dram/System.antt =====
-- The whole DRAM of src/dram.cpp: creation, insertion, the cycle with its refreshes, and the totals of
-- dram_print_stats (whose printing of ratios is left out).
pub mod State
pub mod Insert
pub mod Fresh
pub mod Start
pub mod Refresh
pub mod Steady
use mds.Base.{
  ℕ, zero, suc, ◌+◌, ◌-◌, ◌*◌, ◌/◌, ◌%◌, Bool, false, ◌||◌, List, [], ◌∷◌, Result, ok, err, ◌>>=◌,
  ◌>>◌, check, undefined, ltb, ◌==◌, if◌then◌else◌, get_or, set, add64, sub64, mul64, to32,
  for_range, Rand,
}
use mds.Settings.{Settings}
use mds.Dram.Types.{rd, wb, Channel, RefType, ref_none, ref_sb, ref_ab, ref_other, Dram}
use mds.Dram.Bank.{bank_refresh, topen_of}
use mds.Dram.Cycle.{bank_at}
use mds.Dram.Channel.{channel_new, latest_sleep, each_bank, channel_insert, channel_cycle}
use mds.Dram.Address.{parseaddr}

-- the cast `(DRAM_RefType) DRAM_REF_POLICY`
unfoldable pub ref_of_uns : ℕ → RefType
ref_of_uns n =
    if n == 0 then ref_none else if n == 1 then ref_sb else if n == 2 then ref_ab else ref_other

-- the loop over the channels in `dram_new`
unfoldable pub channels_new : Settings → ℕ → ℕ → ℕ → ℕ → Result (List Channel)
channels_new g num_banks num_rows ii zero = ok []
channels_new g num_banks num_rows ii (suc n) = do
  c ← channel_new g ii num_banks num_rows
  cs ← channels_new g num_banks num_rows (ii + 1) n
  ok (c ∷ cs)

-- the size of the memory in bytes, `MEM_SIZE_MB*1024*1024`
abbrev pub memsize_of : Settings → ℕ
memsize_of g = mul64 g.mem_size_mb (1024 * 1024)

-- a zero among the divisors of `dram_new`, or more channels than the array holds
abbrev pub bad_geometry : Settings → Bool
bad_geometry g =
    g.mem_pagesize == 0
    || (g.linesize == 0 || (g.mem_banks == 0 || (g.mem_channels == 0 || ltb 32 g.mem_channels)))

unfoldable pub new_of : Settings → List Channel → Dram
unfolding ref_of_uns
new_of g channels = record {
  id = 0;
  channel = channels;
  refmode = ref_of_uns g.dram_ref_policy;
  memsize = memsize_of g;
  num_banks = g.mem_banks;
  rowbuf_size = g.mem_pagesize;
  num_channels = g.mem_channels;
  num_rowbufs = memsize_of g / g.mem_pagesize;
  lines_in_rowbuf = g.mem_pagesize / g.linesize;
  rowbufs_in_mem = memsize_of g / g.mem_pagesize;
  rowbufs_in_bank = memsize_of g / g.mem_pagesize / g.mem_banks;
  lines_in_mem = memsize_of g / g.linesize;
  banks_in_channel = g.mem_banks / g.mem_channels;
  refsb_ptr = 0;
  banks_in_bankgroup = g.mem_banks / g.mem_channels / g.dram_bankgroups;
  last_trefi_cycle = 0;
  last_trefw_cycle = 0;
  num_trefi = 0;
  num_trefw = 0;
  s_tot_act = 0;
  s_tot_req = 0;
  s_tot_wait_delay = 0;
  s_tot_service_delay = 0;
  s_tot_bus_delay = 0;
  s_tot_rfm = 0;
}

-- the last step of `dram_new`: same-bank refresh comes more often
unfoldable pub scale_trefi : Settings → Dram → Result Settings
scale_trefi g d = elim d.refmode [
  | ref_sb ↦
      if d.banks_in_bankgroup == 0
      then err undefined
      else ok (record g { t_refi = g.t_refi / d.banks_in_bankgroup })
  | _ ↦ ok g
]

-- `dram_new`: the DRAM, and the settings as it leaves them
unfoldable pub dram_new : Settings → Result (Settings × Dram)
dram_new g = do
  (if bad_geometry g then err undefined else ok tt)
  channels ←
      channels_new g (to32 (g.mem_banks / g.mem_channels))
        (to32 (memsize_of g / g.mem_pagesize / g.mem_channels)) 0 g.mem_channels
  g' ← scale_trefi (topen_of g) (new_of g channels)
  ok (g', new_of g channels)

-- what a read of `d->channel` outside the channels is taken to give
abbrev pub no_channel : Channel
no_channel = record {
  id = 0;
  rfmab = false;
  rfmsb = 0;
  bank = [];
  dbusq = record { entries = []; size = 0 };
  tfaw_token = record { tfaw_time = 0; prev0 = 0; prev1 = 0; prev2 = 0; prev3 = 0 };
  rdwr_token = record { rdwr_time = 0; prev_time = 0 };
  num_banks = 0;
  num_rows = 0;
  banks_in_bankgroup = 0;
  s_rfm = 0;
  s_bus_time = 0;
}

-- `d->channel[ii]`
abbrev pub channel_at : Dram → ℕ → Channel
channel_at d ii = get_or d.channel ii no_channel

abbrev pub put_channel : Dram → ℕ → Channel → Dram
put_channel d ii c = record d { channel = set d.channel ii c }

-- `dram_insert`; false when the bank's queue is full
unfoldable pub dram_insert : Settings → ℕ → Dram → ℕ → Bool → Result (Bool × Dram)
dram_insert g now d lineaddr is_wb = do
  check (ltb lineaddr d.lines_in_mem)
  place ← parseaddr g d lineaddr
  (done, c) ←
      channel_insert now (channel_at d place.channelid) (to32 place.bankid)
        (if is_wb then wb else rd) place.rowbufid lineaddr
  ok (done, put_channel d place.channelid c)

-- the refresh of the `n` banks from `start` of one channel, after the last of them is done
unfoldable pub refresh_banks : Settings → ℕ → ℕ → ℕ → Channel → Channel
refresh_banks g now start n c =
    let latest = latest_sleep c now start n in each_bank (λ b. bank_refresh g b latest) c start n

-- the loop of a refresh over the channels
unfoldable pub refresh_channels : Settings → ℕ → ℕ → ℕ → Dram → Dram
refresh_channels g now start n d =
    for_range (λ ii e. put_channel e ii (refresh_banks g now start n (channel_at e ii)))
      d.num_channels 0 d

-- the refresh of the same bank of each bank group; `start` and `end` are `uns`
unfoldable pub refresh_sb : Settings → ℕ → Dram → Result Dram
refresh_sb g now d =
    let start = to32 (mul64 d.refsb_ptr d.banks_in_bankgroup) in
    let stop = to32 (add64 start d.banks_in_bankgroup) in
    let e = refresh_channels g now start (stop - start) d in
    if d.banks_in_bankgroup == 0
    then err undefined
    else ok (record e { refsb_ptr = add64 d.refsb_ptr 1 % d.banks_in_bankgroup })

-- the refresh of all banks
unfoldable pub refresh_ab : Settings → ℕ → Dram → Dram
refresh_ab g now d = refresh_channels g now 0 (d.num_banks / d.num_channels) d

-- the two `if`s on the refresh mode
unfoldable pub refresh : Settings → ℕ → Dram → Result Dram
refresh g now d = elim d.refmode [
  | ref_sb ↦ refresh_sb g now d
  | ref_ab ↦ ok (refresh_ab g now d)
  | _ ↦ ok d
]

-- the part of `dram_cycle` after the channels: the counts of tREFW and tREFI, and the refresh
unfoldable pub tick_refresh : Settings → ℕ → Dram → Result Dram
tick_refresh g now d =
    let d1 =
      if ltb g.t_refw (sub64 now d.last_trefw_cycle)
      then record d { last_trefw_cycle = now; num_trefw = add64 d.num_trefw 1 }
      else d in
    if ltb g.t_refi (sub64 now d1.last_trefi_cycle)
    then refresh g now (record d1 { last_trefi_cycle = now; num_trefi = add64 d1.num_trefi 1 })
    else ok d1

module _ {W : Type 0} (callback : ℕ → W → Result W) where
  -- the loop over the channels in `dram_cycle`
  unfoldable pub cycle_channels : Settings → ℕ → ℕ → ℕ → Dram → Rand → W → Result (Dram × Rand × W)
  cycle_channels g now zero ii d r w = ok (d, r, w)
  cycle_channels g now (suc n) ii d r w = do
    (c, r1, w1) ← channel_cycle callback g now (channel_at d ii) r w
    cycle_channels g now n (ii + 1) (put_channel d ii c) r1 w1

  -- `dram_cycle`
  unfoldable pub dram_cycle : Settings → ℕ → Dram → Rand → W → Result (Dram × Rand × W)
  dram_cycle g now d r w = do
    (d1, r1, w1) ← cycle_channels g now d.num_channels 0 d r w
    d2 ← tick_refresh g now d1
    ok (d2, r1, w1)

-- one bank's part of the totals
abbrev pub add_bank : Channel → ℕ → Dram → Dram
add_bank c jj d =
    let b = bank_at c jj in
    record d {
      s_tot_act = add64 d.s_tot_act b.s_act;
      s_tot_req = add64 d.s_tot_req b.s_req;
      s_tot_service_delay = add64 d.s_tot_service_delay b.s_service_delay;
      s_tot_wait_delay = add64 d.s_tot_wait_delay b.s_wait_delay;
    }

-- one channel's part of the totals
abbrev pub add_channel : ℕ → Dram → Dram
add_channel ii d =
    let c = channel_at d ii in
    for_range (add_bank c) (d.num_banks / d.num_channels) 0 (record d {
      s_tot_rfm = add64 d.s_tot_rfm c.s_rfm;
      s_tot_bus_delay = add64 d.s_tot_bus_delay c.s_bus_time;
    })

-- the totals that `dram_print_stats` computes before it prints
unfoldable pub dram_totals : Dram → Dram
dram_totals d = for_range add_channel d.num_channels 0 d
