-- ===== src/MemSys/Sample.antt =====
-- A core with two instructions in its reorder buffer, for the answers of src/memsys.cpp.
use mds.Base.{false, [], ◌∷◌}
use mds.Core.Types.{Core}

abbrev pub waiting_core : Core Unit
waiting_core = record {
  id = 0;
  addr_trace = tt;
  done = false;
  sleep = false;
  sleep_lineaddr = 0;
  sleep_robid = 0;
  sleep_inst_num = 0;
  rob = record {
    entries =
        record { birth_time = 4; ready_time = 28; inst_num = 1 }
        ∷ record { birth_time = 4; ready_time = 5000028; inst_num = 2 }
        ∷ [];
    ptr = 0;
    size = 2;
  };
  trace_inst_num = 9;
  trace_va = 0;
  trace_wb = false;
  cycle = 5;
  inst_num = 2;
  access_count = 1;
  miss_count = 1;
  num_delay_count = 0;
  sum_delay_count = 0;
  queue_full_count = 0;
  sleep_cycle_count = 0;
  lifetime_inst_count = 0;
  done_inst_count = 0;
  done_cycle_count = 0;
  done_access_count = 0;
  done_miss_count = 0;
  done_num_delay_count = 0;
  done_sum_delay_count = 0;
  done_queue_full_count = 0;
  done_sleep_cycle_count = 0;
  dropped_writes = 0;
}
