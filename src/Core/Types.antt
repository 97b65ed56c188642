-- ===== src/Core/Types.antt =====
-- The data of a core, src/mcore.h. `T` stands for the `gzFile` of the trace, which zlib gives.
use mds.Base.{ℕ, Bool, List}

pub record RobEntry : Type 0 where
  pub birth_time : ℕ
  pub ready_time : ℕ
  pub inst_num : ℕ

-- `entries` has MAX_ROB_ENTRIES places; the first `rob_size` of them are used, as a ring from `ptr`.
pub record Rob : Type 0 where
  pub entries : List RobEntry
  pub ptr : ℕ
  pub size : ℕ

pub record Core (T : Type 0) : Type 0 where
  pub id : ℕ
  pub addr_trace : T
  pub done : Bool
  pub sleep : Bool
  pub sleep_lineaddr : ℕ
  pub sleep_robid : ℕ
  pub sleep_inst_num : ℕ
  pub rob : Rob
  pub trace_inst_num : ℕ
  pub trace_va : ℕ
  pub trace_wb : Bool
  pub cycle : ℕ
  pub inst_num : ℕ
  pub access_count : ℕ
  pub miss_count : ℕ
  pub num_delay_count : ℕ
  pub sum_delay_count : ℕ
  pub queue_full_count : ℕ
  pub sleep_cycle_count : ℕ
  pub lifetime_inst_count : ℕ
  pub done_inst_count : ℕ
  pub done_cycle_count : ℕ
  pub done_access_count : ℕ
  pub done_miss_count : ℕ
  pub done_num_delay_count : ℕ
  pub done_sum_delay_count : ℕ
  pub done_queue_full_count : ℕ
  pub done_sleep_cycle_count : ℕ
  pub dropped_writes : ℕ

abbrev pub max_rob_entries : ℕ
max_rob_entries = 1024

abbrev pub default_mem_delay : ℕ
default_mem_delay = 5000000

abbrev pub no_rob_entry : RobEntry
no_rob_entry = record { birth_time = 0; ready_time = 0; inst_num = 0 }
