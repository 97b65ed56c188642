-- ===== src/Dram/Types.antt =====
-- The data of the DRAM model: src/drambank.h, src/dramchannel.h and src/dram.h.
use mds.Base.{ℕ, Bool, false, List}

pub data ReqType : Type 0 where
  rd wb nrr ref rfm : ReqType

pub data BankStatus : Type 0 where
  busy ready : BankStatus

pub data EntryStatus : Type 0 where
  invalid wait inservice finished : EntryStatus

-- `DRAM_BankQ_Entry`; `finished` above is DRAM_BANKQ_ENTRY_DONE
pub record BankqEntry : Type 0 where
  pub status : EntryStatus
  pub reqtype : ReqType
  pub rowid : ℕ
  pub lineaddr : ℕ
  pub birth_time : ℕ
  pub done_time : ℕ
  pub service_delay : ℕ
  pub wait_delay : ℕ

pub record Bank : Type 0 where
  pub id : ℕ
  pub channelid : ℕ
  pub num_rows : ℕ
  pub status : BankStatus
  pub bankq : List BankqEntry
  pub row_valid : Bool
  pub open_row_id : ℕ
  pub sleep_cycle : ℕ
  pub rowbufopen_cycle : ℕ
  pub rowbufclose_cycle : ℕ
  pub raa : ℕ
  pub s_act : ℕ
  pub s_req : ℕ
  pub s_service_delay : ℕ
  pub s_wait_delay : ℕ

pub record BusqEntry : Type 0 where
  pub valid : Bool
  pub reqtype : ReqType
  pub lineaddr : ℕ
  pub ready_time : ℕ

pub record Busq : Type 0 where
  pub entries : List BusqEntry
  pub size : ℕ

pub record TfawToken : Type 0 where
  pub tfaw_time : ℕ
  pub prev0 : ℕ
  pub prev1 : ℕ
  pub prev2 : ℕ
  pub prev3 : ℕ

pub record RdwrToken : Type 0 where
  pub rdwr_time : ℕ
  pub prev_time : ℕ

-- `RFMSB` is a bit vector, kept as the number that it is.
pub record Channel : Type 0 where
  pub id : ℕ
  pub rfmab : Bool
  pub rfmsb : ℕ
  pub bank : List Bank
  pub dbusq : Busq
  pub tfaw_token : TfawToken
  pub rdwr_token : RdwrToken
  pub num_banks : ℕ
  pub num_rows : ℕ
  pub banks_in_bankgroup : ℕ
  pub s_rfm : ℕ
  pub s_bus_time : ℕ

-- `ref_other` stands for every policy number that has no name.
pub data RefType : Type 0 where
  ref_none ref_sb ref_ab ref_other : RefType

pub record Dram : Type 0 where
  pub id : ℕ
  pub channel : List Channel
  pub refmode : RefType
  pub memsize : ℕ
  pub num_banks : ℕ
  pub rowbuf_size : ℕ
  pub num_channels : ℕ
  pub num_rowbufs : ℕ
  pub lines_in_rowbuf : ℕ
  pub rowbufs_in_mem : ℕ
  pub rowbufs_in_bank : ℕ
  pub lines_in_mem : ℕ
  pub banks_in_channel : ℕ
  pub refsb_ptr : ℕ
  pub banks_in_bankgroup : ℕ
  pub last_trefi_cycle : ℕ
  pub last_trefw_cycle : ℕ
  pub num_trefi : ℕ
  pub num_trefw : ℕ
  pub s_tot_act : ℕ
  pub s_tot_req : ℕ
  pub s_tot_wait_delay : ℕ
  pub s_tot_service_delay : ℕ
  pub s_tot_bus_delay : ℕ
  pub s_tot_rfm : ℕ

-- NUM_DRAM_BANK_ENTRIES and NUM_DRAM_BUSQ_ENTRIES
abbrev pub num_bank_entries : ℕ
num_bank_entries = 16

abbrev pub num_busq_entries : ℕ
num_busq_entries = 128

-- what reads outside an array are taken to give
abbrev pub no_busq_entry : BusqEntry
no_busq_entry = record { valid = false; reqtype = rd; lineaddr = 0; ready_time = 0 }

abbrev pub no_bankq_entry : BankqEntry
no_bankq_entry = record {
  status = invalid;
  reqtype = rd;
  rowid = 0;
  lineaddr = 0;
  birth_time = 0;
  done_time = 0;
  service_delay = 0;
  wait_delay = 0;
}
