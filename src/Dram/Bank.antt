-- ===== src/Dram/Bank.antt =====
-- The functions of src/drambank.cpp that work on one bank: creation, insertion, scheduling, service,
-- refresh and refresh management. `now` is the global `cycle`.
pub mod Timing
pub mod Schedule
use mds.Base.{
  ℕ, ◌+◌, ◌-◌, ◌*◌, ◌/◌, ◌%◌, ◌^◌, Bool, true, false, not, ◌&&◌, none, some, [], ◌∷◌, ◌++◌, Result,
  ok, err, ◌>>=◌, ◌>>◌, check, assert_failed, undefined, ltb, leb, ◌==◌, if◌then◌else◌, length,
  get_or, erase_at, add32, sub32, add64, sub64, mul64, to32, find_index, Rand, draw,
}
use mds.Settings.{Settings}
use mds.Dram.Types.{
  ReqType, rd, wb, BankStatus, busy, ready, EntryStatus, wait, finished, BankqEntry, Bank, Channel,
  num_bank_entries, no_bankq_entry,
}

-- `type == DRAM_REQ_RD || type == DRAM_REQ_WB`
abbrev pub is_data : ReqType → Bool
is_data rd = true
is_data wb = true
is_data _ = false

abbrev pub is_read : ReqType → Bool
is_read rd = true
is_read _ = false

abbrev pub is_busy : BankStatus → Bool
is_busy busy = true
is_busy ready = false

abbrev pub is_wait : EntryStatus → Bool
is_wait wait = true
is_wait _ = false

abbrev pub is_finished : EntryStatus → Bool
is_finished finished = true
is_finished _ = false

-- `dram_bank_new`, the bank; see `topen_of` for its effect on DRAM_MAX_TOPEN.
unfoldable pub bank_new : ℕ → ℕ → ℕ → Bank
bank_new bankid channelid num_rows = record {
  id = bankid;
  channelid = channelid;
  num_rows = num_rows;
  status = ready;
  bankq = [];
  row_valid = false;
  open_row_id = 0;
  sleep_cycle = 0;
  rowbufopen_cycle = 0;
  rowbufclose_cycle = 0;
  raa = 0;
  s_act = 0;
  s_req = 0;
  s_service_delay = 0;
  s_wait_delay = 0;
}

-- `if(MEM_CLOSEPAGE) DRAM_MAX_TOPEN=tRAS;` in `dram_bank_new`
unfoldable pub topen_of : Settings → Settings
topen_of g = record g { dram_max_topen = if g.mem_closepage then g.t_ras else g.dram_max_topen }

-- The entry that `dram_bank_insert` pushes. The source leaves the last three fields unset; nothing reads
-- them before `dram_bank_cycle` sets them.
abbrev pub waiting : ReqType → ℕ → ℕ → ℕ → BankqEntry
waiting type rowid lineaddr now = record {
  status = wait;
  reqtype = type;
  rowid = rowid;
  lineaddr = lineaddr;
  birth_time = now;
  done_time = 0;
  service_delay = 0;
  wait_delay = 0;
}

-- `dram_bank_insert`; false is the 0 of a full queue
unfoldable pub bank_insert : ℕ → Bank → ReqType → ℕ → ℕ → Result (Bool × Bank)
bank_insert now b type rowid lineaddr = do
  check (ltb rowid b.num_rows)
  ok (
      if length b.bankq == num_bank_entries then (false, b) else (
        true,
        record b {
          s_req = if is_data type then add64 b.s_req 1 else b.s_req;
          bankq = b.bankq ++ waiting type rowid lineaddr now ∷ [];
        },
      ))

-- `b->bankq[index]`
abbrev pub bankq_at : Bank → ℕ → BankqEntry
bankq_at b index = get_or b.bankq index no_bankq_entry

-- `dram_bank_remove`
unfoldable pub bank_remove : Bank → ℕ → Result Bank
bank_remove b index = do
  check (ltb 0 (length b.bankq))
  check (is_finished (bankq_at b index).status)
  ok (record b { bankq = erase_at b.bankq index })

-- the test of a row-buffer hit in `dram_bank_schedule`
abbrev pub is_row_hit : Bank → ℕ → Bool
is_row_hit b ii = is_read (bankq_at b ii).reqtype && (bankq_at b ii).rowid == b.open_row_id

-- the search for the first row-buffer hit, and index 0 without one
unfoldable pub first_ready : Bank → ℕ
first_ready b =
    if b.row_valid
    then (elim (find_index (is_row_hit b) (length b.bankq) 0) [ some ii ↦ ii | none ↦ 0 ])
    else 0

-- `dram_bank_schedule`
unfoldable pub bank_schedule : Settings → Bank → Result ℕ
bank_schedule g b = do
  check (ltb 0 (length b.bankq))
  (if g.dram_sched_policy == 0
      then ok 0
      else if g.dram_sched_policy == 1
      then ok (first_ready b)
      else err assert_failed)

-- the bookkeeping of `dram_bank_service`: the delay, whether a row was activated, and the bank
pub record Act : Type 0 where
  pub delay : ℕ
  pub new_act : Bool
  pub bank : Bank

-- the check for early page closure: the precharge time still to wait, and the bank
unfoldable pub close_early : Settings → ℕ → Bank → ℕ × Bank
close_early g now b =
    let delta = sub64 now b.rowbufclose_cycle in
    if b.row_valid && leb b.rowbufclose_cycle now
    then (if ltb delta g.t_pre then g.t_pre - delta else 0, record b { row_valid = false })
    else (0, b)

-- opening a row at `open`, in both branches of the source
abbrev pub open_row : Settings → ℕ → ℕ → Bank → Bank
open_row g open_cycle rowid b = record b {
  rowbufopen_cycle = open_cycle;
  rowbufclose_cycle = add64 open_cycle g.dram_max_topen;
  row_valid = true;
  open_row_id = rowid;
}

-- the rest of the restore time of the open row
abbrev pub ras_delay : Settings → ℕ → Bank → ℕ
ras_delay g now b =
    let delta = sub64 now b.rowbufopen_cycle in if ltb delta g.t_ras then g.t_ras - delta else 0

-- the row buffer is empty, hit or in conflict
unfoldable pub access_row : Settings → ℕ → ℕ → ℕ → Bank → Act
access_row g now rowid closing b =
    if not b.row_valid
    then record {
      delay = add64 closing g.t_act;
      new_act = true;
      bank = open_row g (add64 now closing) rowid b;
    }
    else if b.open_row_id == rowid
    then record { delay = 0; new_act = false; bank = b }
    else record {
      delay = add64 (add64 (ras_delay g now b) g.t_pre) g.t_act;
      new_act = true;
      bank = open_row g (add64 (add64 now (ras_delay g now b)) g.t_pre) rowid b;
    }

-- the branch of a read or a write in `dram_bank_service`
unfoldable pub read_write : Settings → ℕ → ℕ → Bank → Act
read_write g now rowid b =
    let (closing, b1) = close_early g now b in
    let a = access_row g now rowid closing b1 in
    record a {
      bank = record (a.bank) { status = busy; sleep_cycle = add64 (add64 now a.delay) g.t_rdrd };
    }

-- `|= (1 << k)`
unfoldable pub set_bit : ℕ → ℕ → ℕ
set_bit x k = if (x / 2 ^ k) % 2 == 1 then x else x + 2 ^ k

-- `unsigned / unsigned`, and the shift of 1 by at most 31 places
unfoldable pub group_of : Channel → Bank → Result ℕ
group_of c b =
    let group_size = to32 c.banks_in_bankgroup in
    if group_size == 0
    then err undefined
    else if ltb (b.id / group_size) 32
    then ok (b.id / group_size)
    else err undefined

-- the request for refresh management after an activation
unfoldable pub raise_rfm : Settings → Channel → Bank → Result Channel
raise_rfm g c b =
    if ltb 0 g.dram_rfm_policy && leb (mul64 3 g.rfm_th) b.raa
    then if g.dram_rfm_policy == 2
      then ok (record c { rfmab = true })
      else if g.dram_rfm_policy == 1
      then (group_of c b >>= λ k. ok (record c { rfmsb = set_bit c.rfmsb k }))
      else ok c
    else ok c

-- MC-PARA. The comparison of `(rand() % 2^20) / 2^20` with `1 / MCPARA_DRFM_PERIOD` in `double` is that of
-- the products: the quotient by 2^20 is exact, and rounding `1 / P` moves it less than the gap.
unfoldable pub para_drfm : Settings → Bank → Rand → Bank × Rand
para_drfm g b r =
    let (v, r') = draw r in
    if g.mcpara_drfm_period == 0
    then (b, r)
    else if ltb (v % 2 ^ 20 * g.mcpara_drfm_period) (2 ^ 20)
    then (
      record b {
        row_valid = false;
        sleep_cycle = add64 b.sleep_cycle (to32 (add64 g.t_pre g.t_drfm));
      },
      r',
    )
    else (b, r')

-- the end of `dram_bank_service`, where the channel is that of the bank
unfoldable pub after_act : Settings → Channel → Act → Rand → Result (ℕ × Channel × Bank × Rand)
after_act g c a r =
    let b = a.bank in
    let counted = record b { s_act = add64 b.s_act 1; raa = add32 b.raa 1 } in
    let (b', r') = para_drfm g counted r in
    if a.new_act
    then (raise_rfm g c counted >>= λ c'. ok (a.delay, c', b', r'))
    else ok (a.delay, c, b, r)

-- `dram_bank_service`
unfoldable pub bank_service :
    Settings → ℕ → Channel → Bank → ReqType → ℕ → Rand → Result (ℕ × Channel × Bank × Rand)
bank_service g now c b type rowid r = do
  check (not (is_busy b.status))
  (if is_data type then after_act g c (read_write g now rowid b) r else ok (0, c, b, r))

-- lowering the activation counter by `amount`, as refresh and refresh management do
abbrev pub relieve : ℕ → Bank → ℕ
relieve amount b = if ltb amount b.raa then sub32 b.raa (to32 amount) else 0

-- `dram_bank_refresh`
unfoldable pub bank_refresh : Settings → Bank → ℕ → Bank
bank_refresh g b in_cycle = record b {
  status = busy;
  sleep_cycle = add64 in_cycle g.t_rfc;
  row_valid = false;
  raa = relieve g.rfm_refth b;
}

-- `dram_bank_rfmab`, which `dram_bank_rfmsb` calls
unfoldable pub bank_rfmab : Settings → Bank → ℕ → Bank
bank_rfmab g b in_cycle = record b {
  status = busy;
  sleep_cycle = add64 in_cycle (g.t_rfc / 2);
  row_valid = false;
  raa = relieve g.rfm_th b;
}
