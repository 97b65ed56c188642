-- ===== src/Settings.antt =====
-- The global settings of src/params.h, src/externs.h and src/global_types.h that the simulator's components read, and the
-- values that src/params.h gives them. The switches (`L3_PERFECT`, `MEM_CLOSEPAGE`) are flags.
use mds.Base.{ℕ, ◌*◌, Bool, false}

pub record Settings : Type 0 where
  pub core_width : ℕ
  pub rob_size : ℕ
  pub inst_limit : ℕ
  pub linesize : ℕ
  pub os_pagesize : ℕ
  pub l3_size_kb : ℕ
  pub l3_assoc : ℕ
  pub l3_latency : ℕ
  pub l3_repl : ℕ
  pub l3_perfect : Bool
  pub mem_size_mb : ℕ
  pub mem_rsrv_mb : ℕ
  pub mem_channels : ℕ
  pub mem_banks : ℕ
  pub mem_pagesize : ℕ
  pub mem_closepage : Bool
  pub dram_ref_policy : ℕ
  pub dram_map_policy : ℕ
  pub dram_sched_policy : ℕ
  pub dram_mop_gangsize : ℕ
  pub dram_bankgroups : ℕ
  pub dram_max_topen : ℕ
  pub dram_rfm_policy : ℕ
  pub rfm_th : ℕ
  pub rfm_refth : ℕ
  pub mcpara_drfm_period : ℕ
  pub t_rfc : ℕ
  pub t_act : ℕ
  pub t_cas : ℕ
  pub t_pre : ℕ
  pub t_ras : ℕ
  pub t_rdrd : ℕ
  pub t_refi : ℕ
  pub t_refw : ℕ
  pub t_drfm : ℕ
  pub lru_wb_tth : ℕ

-- the cores that the arrays of the simulator have room for
abbrev pub max_threads : ℕ
max_threads = 64

-- the initial values, before any command-line option
abbrev pub defaults : Settings
defaults = record {
  core_width = 4;
  rob_size = 256;
  inst_limit = 1000 * 1000 * 1000;
  linesize = 64;
  os_pagesize = 4096;
  l3_size_kb = 8192;
  l3_assoc = 16;
  l3_latency = 24;
  l3_repl = 0;
  l3_perfect = false;
  mem_size_mb = 32768;
  mem_rsrv_mb = 0;
  mem_channels = 2;
  mem_banks = 64;
  mem_pagesize = 8192;
  mem_closepage = false;
  dram_ref_policy = 2;
  dram_map_policy = 3;
  dram_sched_policy = 1;
  dram_mop_gangsize = 2;
  dram_bankgroups = 8;
  dram_max_topen = 3900 * 5;
  dram_rfm_policy = 0;
  rfm_th = 16;
  rfm_refth = 16;
  mcpara_drfm_period = 0;
  t_rfc = 410 * 4;
  t_act = 12 * 4;
  t_cas = 12 * 4;
  t_pre = 12 * 4;
  t_ras = 36 * 4;
  t_rdrd = 3 * 4;
  t_refi = 3900 * 4;
  t_refw = 32 * 1000 * 1000 * 4;
  t_drfm = 410 * 4;
  lru_wb_tth = 32;
}
