-- ===== src/Sim/Start.antt =====
-- The parts of the simulator as main makes them, before its loop: src/sim.cpp.
use mds.Base.{
  ℕ, ◌+◌, ◌*◌, ◌/◌, ◌^◌, ◌<◌, ◌≤◌, ◌≡◌, ◌≢◌, refl, sym, ap, ◌∙◌, subst, inl, false, List, [], arith,
  some, ok, length, length-replicate, replicate, to32, Rand,
}
use mds.Settings.{Settings}
use mds.Core.Types.{Core, max_rob_entries, no_rob_entry}
use mds.Core.Trace.{Zlib}
use mds.Cache.Defs.{new, repl_of_uns, num_repl_policy}
use mds.Cache.Start.{new-IsValid, new-Narrow}
use mds.Cache.Sound.{CacheOk}
use mds.Dram.System.Start.{Exact, new_dram}
use mds.MemSys.{core_at}
use mds.MemSys.Keeping.{MemKept}
use mds.MemSys.Start.{new_memsys}
use mds.Os.Start.{new_os, os_new-IsFair}
use mds.Sim.{Sim, os_pages, l3_sets}
use mds.Sim.Pending.{Frame, frame, FrameOk}
use mds.Sim.Retiring.{Filled}
use mds.Sim.Turn.{Limits, NestOk, Any}
use mds.Sim.Reading.{ReadsBytes}
use mds.Sim.Joined.{Joined}
use mds.Sim.Rounds.{SimOk}

-- What main asks of the settings: sizes that divide one another, and a memory that holds the pages.
pub record Setup (g : Settings) (rows banks per_row sets num_pages : ℕ) : Type 0 where
  pub memory : Exact g rows banks per_row
  pub limits : Limits g
  pub some_rob : 0 < g.rob_size
  pub rob_fits : g.rob_size ≤ max_rob_entries
  pub pages : os_pages g ≡ ok num_pages
  pub some_pages : 0 < num_pages
  pub few_pages : num_pages < 2 ^ 32
  pub line : 0 < to32 g.linesize
  pub page : to32 g.linesize ≤ to32 g.os_pagesize
  pub pages_fit :
      num_pages * (to32 g.os_pagesize / to32 g.linesize) ≤ (new_dram g rows banks).lines_in_mem
  pub sets_of : l3_sets g ≡ ok sets
  pub some_sets : 0 < sets
  pub some_ways : 0 < to32 g.l3_assoc
  pub small_cache : sets * to32 g.l3_assoc < 2 ^ 31
  pub policy : to32 g.l3_repl < 4

four_policies : (n : ℕ) → n < 4 → repl_of_uns n ≢ num_repl_policy
unfolding repl_of_uns
four_policies n h e = ground arith

-- the frame of a new core
abbrev pub new_frame : ℕ → Frame
new_frame id = record {
  rob = record { entries = replicate max_rob_entries no_rob_entry; ptr = 0; size = 0 };
  asleep = false;
  sleep_robid = 0;
  sleep_inst_num = 0;
  sleep_lineaddr = 0;
  id = id;
  cycle = 0;
}

new_frame-FrameOk :
    (g : Settings) (lines id : ℕ)
    → 0 < g.rob_size
    → g.rob_size ≤ max_rob_entries
    → FrameOk g lines id (new_frame id)
new_frame-FrameOk g lines id some_rob fits = record {
  ring = record {
    some_room = some_rob;
    small = fits;
    inside = omega (arith, length-replicate max_rob_entries no_rob_entry);
    front = some_rob;
    fits = omega arith;
  };
  id = refl;
  cycle = omega arith;
  sleeper = λ asleep. absurd (cc);
}

module _ {T : Type 0} where
  -- a core with an empty buffer
  abbrev pub New : ℕ → Core T → Type 0
  New id c = (frame c ≡ new_frame id) × (c.trace_va < 2 ^ 32)

  abbrev pub AllNew : ℕ → ℕ → List (Core T) → Type 0
  AllNew n ii cs = (length cs ≡ n) × ((j : ℕ) (c : Core T) → core_at cs j ≡ some c → New (ii + j) c)

New-core :
    {T : Type 0} (g : Settings) (lines i : ℕ) (c : Core T)
    → 0 < g.rob_size
    → g.rob_size ≤ max_rob_entries
    → New (0 + i) c
    → FrameOk g lines i (frame c) × Filled g c × (c.trace_va < 2 ^ 32)
New-core g lines i c some_rob fits (same, va) =
    let id : 0 + i ≡ i = omega arith in
    (
      subst (FrameOk g lines i) (sym (same ∙ ap new_frame id))
          (new_frame-FrameOk g lines i some_rob fits),
      (λ awake. inl (ap (λ (f : Frame). f.rob.size) same)),
      va,
    )

pub AllNew-Joined :
    {T : Type 0} (g : Settings) (lines num : ℕ) (cs : List (Core T))
    → 0 < g.rob_size
    → g.rob_size ≤ max_rob_entries
    → AllNew num 0 cs
    → Joined g lines cs []
AllNew-Joined g lines num cs some_rob fits (size, news) = record {
  core = λ i c e. New-core g lines i c some_rob fits (news i c e);
  own = λ i c e. tt;
  apart = tt;
  known = tt;
}

module _ {T : Type 0} (z : Zlib T) (bytes : ReadsBytes z) (g : Settings)
    (rows banks per_row sets num_pages num_threads : ℕ) where
  abbrev pub all_lines : ℕ
  all_lines = (new_dram g rows banks).lines_in_mem

  pub new_nest :
      (g' : Settings) (seeded : Rand)
      → Setup g rows banks per_row sets num_pages
      → MemKept g' rows all_lines Any (new_memsys g rows banks)
      → NestOk g' rows all_lines (record {
        memsys = new_memsys g rows banks;
        l3cache = new sets (to32 g.l3_assoc) (to32 g.l3_repl);
        os = new_os g num_pages num_threads;
        rand = seeded;
      })
  unfolding new
  new_nest g' seeded v kept =
      let fair = os_new-IsFair g num_pages num_threads v.some_pages v.few_pages v.line v.page in
      record { memory = kept; cache = fresh; pages = record { fair = fair.1; fits = v.pages_fit } }
    where
      fresh : CacheOk all_lines (new sets (to32 g.l3_assoc) (to32 g.l3_repl))
      fresh =
          let (layout, nothing) =
            new-IsValid sets (to32 g.l3_assoc) (to32 g.l3_repl) v.some_sets v.some_ways
              v.small_cache in
          record {
            layout = layout;
            narrow = new-Narrow sets (to32 g.l3_assoc) (to32 g.l3_repl);
            known = four_policies (to32 g.l3_repl) v.policy;
            inside = λ a held. absurd (nothing a held);
          }

  -- what main starts its loop with
  abbrev pub Started : Settings × Sim T → Type 0
  Started out = Limits out.0 × SimOk out.0 rows all_lines num_threads out.1
