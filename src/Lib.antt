-- ===== src/Lib.antt =====
-- A model of the memory-system simulator of the repository: trace-driven cores share a last-level cache, and
-- its misses go through a memory system to a DRAM of channels and banks, all in steps of one cycle.
--
-- The parts and how they interact. A core looks a line up in the cache (mcache_access); on a miss it installs
-- the line (mcache_install) and asks the memory system for it (memsys_access), with the address of a dirty
-- line that was thrown out. The memory system hands both to the DRAM (dram_insert), and keeps a table of the
-- reads in flight. In every cycle each channel grants the data bus to one transfer, each bank serves one
-- request, and then refresh management and refresh run; a read that gets the bus calls memsys_callback, which
-- makes the entry of the core's reorder buffer ready and takes the read out of the table.
--
--   src/params.h                       Settings, and Params for read_params: Text is strcmp and atoi, Threads, Parsing,
--                                      Copies and Launch say which threads it makes, CommandLine and Decimal that it reads back
--                                      what is written, and Traces is a command line of names alone
--   src/mcache.h, src/mcache.cpp       Cache: Defs (data, mcache_new), Lookup (access, probe, invalidate, mark_dirty),
--                                      Victim (the four replacement policies), Install; Layout is well-formedness, and
--                                      Finding, Contents, Replace, Sound, Start and the modules below Victim hold the proofs
--   src/drambank.h, src/drambank.cpp   Dram.Types, Dram.Bank, and Dram.Cycle for dram_bank_cycle
--   src/dramchannel.h, .cpp            Dram.Bus (the bus queue and the tokens) and Dram.Channel
--                                      (Sweep, Stopped and SameBank below it are on refresh and its management)
--   src/dram.h, src/dram.cpp           Dram.Address (dram_parseaddr) and Dram.System
--   src/memsys.h, src/memsys.cpp       MemSys, with the table in MemSys.Table
--   src/memsys_dramsim3.h, .cpp        Dramsim, over a parameter for DRAMsim3 whose laws Dramsim.Contract states
--   src/mcore.h, src/mcore.cpp         Core: Types, Rob (the reorder buffer; Ring, Queue, Retire and Lost are proofs),
--                                      Trace (below it Reading, the format of the file, and Finish) and Cycle
--   src/sim.cpp                        Sim. Below it stands what joins the parts: Pending (the places of the reads in flight),
--                                      Retiring, Reading, Touching, Sending, Issuing, Retrying and Cycling (the steps of
--                                      mcore_cycle in a Turn), Joined (the cores and the table), Rounds, Runs, Start,
--                                      Defaults (the initial settings) and Main (with the command line)
--   src/os.h, src/os.cpp               Os: the page table, with Layout for well-formedness and Paging, Distinct and Bounds
--
-- Conventions. A struct is a record with the fields of the source, and a function that changes it returns the
-- new state. Numbers are natural; the operations of Base.Words wrap at 32 and 64 bits where the source's do, and
-- a sum that cannot wrap in C++ is written the same way. A failed assertion, an exit, a division by zero or an
-- index outside an array is an error of Result. rand() is a stream of numbers that is passed along. The global
-- cycle is the argument `now`. The banks of a channel and the channels of the DRAM, which the source reaches by
-- the global memsys, are reached by their number. memsys_callback is a parameter of the channel's functions;
-- Dram.Outbox states what the DRAM needs of it, and MemSys.Answers shows that the table and the cores give it.
--
-- Loops. The counted loops are find_index and for_range of Base.Loops, or a recursion on the rounds that are
-- left. The search of SRRIP repeats until a victim is found: its fuel is one more than the counter of the
-- set's first entry, which every round lowers by one, so that it is 0 before the fuel is gone.
--
-- Invariants. Cache.Layout.IsValid: the array has sets * assocs entries, no line is valid twice, and every valid
-- line stands in its set. Dram.Channel.Invariant.IsSound: banks are numbered, their queues hold at most 16
-- waiting requests, and the bus queue counts its transfers. MemSys.Steady.MemOk: the reads in flight in the
-- queues and on the bus are exactly the entries of the table, and every entry has a core that holds its
-- instruction. Sim.Rounds.SimOk joins all of them: moreover no two entries of the table have one place, the place
-- is in the used part of the core's buffer, its instruction has the delay of the memory, and the lines of the
-- cache and the pages lie in the memory. Sim.Retiring.NoneSkipped is what the joint theorems ask of a round:
-- mcore_rob_retire lets an instruction that is due go, without an answer from the memory, when it has the number
-- that the core sleeps on, and no core makes use of that. A core would have to sleep for 5 million cycles.
-- Base.Outcomes.Safe is what these theorems conclude: a call aborts, exits, or returns something good.
-- Dramsim.Steady.DramsimOk is MemOk for the alternative memory system, under the laws of Dramsim.Contract.
--
-- sim_run has as fuel the rounds of the loop of main, which need not end. parse takes an argument off the list,
-- or an option with its value, in every round; Params.Decimal writes a number with its own value as fuel.
--
-- Not modelled: printing of state and statistics, the timer, the clock scaling of main for DRAMsim3 (in floating
-- point), and the copy of DRAMsim3, which is another project. zlib is a parameter, Core.Trace.Zlib.
pub mod Base
pub mod Settings
pub mod Params
pub mod Cache
pub mod Dram
pub mod Core
pub mod MemSys
pub mod Dramsim
pub mod Os
pub mod Sim
