-- ===== src/Core/Tests.antt =====
-- The core at concrete inputs: the bytes of a trace, and a reorder buffer, a ring of four places, two of them taken, across the end.
use mds.Base.{
  ℕ, List, some, true, zero, suc, ◌<◌, ◌≡◌, ◌⊎◌, inl, inr, refl, false, [], ◌∷◌, arith, ok,
}
use mds.Settings.{Settings, defaults}
use mds.Core.Types.{RobEntry, Rob, Core}
use mds.Core.Rob.{rob_insert, rob_retire}
use mds.Core.Trace.{Zlib, fread_trace, blank_core}
use mds.Core.Trace.Reading.{take, drop, ReadsOn, TraceRecord, fread_trace-encode}
use mds.Core.Rob.Queue.{Ring, Appended, rob_insert-Appended}
use mds.Core.Rob.Retire.{NoneLost, Retired, rob_retire-Retired}

abbrev narrow : Settings
narrow = record defaults { rob_size = 4; core_width = 2 }

abbrev instruction : ℕ → ℕ → RobEntry
instruction k ready = record { birth_time = 5; ready_time = ready; inst_num = k }

-- instructions 7, which is due, and 8, which is not
abbrev ring : Rob
ring = record {
  entries = instruction 8 40 ∷ instruction 5 5 ∷ instruction 6 5 ∷ instruction 7 6 ∷ [];
  ptr = 3;
  size = 2;
}

ring-Ring : Ring 4 ring
ring-Ring = record {
  some_room = omega arith;
  small = omega arith;
  inside = omega arith;
  front = omega arith;
  fits = omega arith;
}

abbrev ring_core : Core Unit
ring_core = record {
  id = 0;
  addr_trace = tt;
  done = false;
  sleep = false;
  sleep_lineaddr = 0;
  sleep_robid = 0;
  sleep_inst_num = 0;
  rob = ring;
  trace_inst_num = 0;
  trace_va = 0;
  trace_wb = false;
  cycle = 9;
  inst_num = 8;
  access_count = 0;
  miss_count = 0;
  num_delay_count = 0;
  sum_delay_count = 0;
  queue_full_count = 0;
  sleep_cycle_count = 0;
  lifetime_inst_count = 0;
  done_inst_count = 0;
  done_cycle_count = 0;
  done_access_count = 0;
  done_miss_count = 0;
  done_num_delay_count = 0;
  done_sum_delay_count = 0;
  done_queue_full_count = 0;
  done_sleep_cycle_count = 0;
  dropped_writes = 0;
}

rob_insert-Appended_example :
    Appended narrow ring_core (instruction 9 33) (rob_insert narrow ring_core 9 5 33)
rob_insert-Appended_example = rob_insert-Appended narrow ring_core 9 5 33 ring-Ring

none_lost : NoneLost narrow ring_core
none_lost zero h e = refl
none_lost (suc zero) h e = refl
none_lost (suc (suc i)) h e = absurd (omega arith)

rob_retire-Retired_example :
    ((ring.size ≡ 0) × (rob_retire narrow ring_core ≡ ok (0, ring_core)))
    ⊎ ((0 < ring.size) × Retired narrow 2 0 ring_core (rob_retire narrow ring_core))
rob_retire-Retired_example =
    rob_retire-Retired narrow ring_core ring-Ring none_lost (inr (inl (omega arith))) (omega arith)

-- a file as the list of its bytes
abbrev byte_list : Zlib (List ℕ)
byte_list = record {
  gzopen = λ id attempt. some [];
  gzread = λ t n. (take n t, drop n t);
  gzeof = λ t. elim t [ [] ↦ true | (_ ∷ _) ↦ false ];
}

byte_list-ReadsOn : ReadsOn byte_list (λ t. t)
byte_list-ReadsOn t n = (refl, refl)

-- a read of address 258 at instruction 1000, in front of two more bytes
abbrev some_read : TraceRecord
some_read = record { inst_num = 1000; wb = false; va = 258 }

abbrev reading_core : Core (List ℕ)
reading_core = blank_core byte_list 0 (232 ∷ 3 ∷ 0 ∷ 0 ∷ 0 ∷ 0 ∷ 2 ∷ 1 ∷ 0 ∷ 0 ∷ 7 ∷ 9 ∷ [])

fread_trace-encode_example :
    ((fread_trace byte_list reading_core).trace_inst_num ≡ 1000)
    × ((fread_trace byte_list reading_core).trace_wb ≡ false)
    × ((fread_trace byte_list reading_core).trace_va ≡ 258)
    × ((fread_trace byte_list reading_core).addr_trace ≡ 7 ∷ 9 ∷ [])
fread_trace-encode_example =
    fread_trace-encode byte_list (λ t. t) byte_list-ReadsOn reading_core some_read (7 ∷ 9 ∷ [])
      (record { inst_num = omega arith; va = omega arith }) refl

-- a run that stops at the first instruction
abbrev short_run : Settings
short_run = record defaults { inst_limit = 0 }
