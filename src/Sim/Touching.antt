-- ===== src/Sim/Touching.antt =====
-- The access of an instruction to the cache, in mcore_cycle of src/mcore.cpp.
use mds.Base.{
  ℕ, ◌^◌, ◌<◌, ◌≤◌, ◌≡◌, refl, ◌∙◌, Bool, true, false, not, ◌&&◌, arith, ok, if◌then◌else◌, leb,
  ◌>>=◌, add32, add64, to32, Safe, Safe-eq, Safe-bind, returns, if_Safe,
}
use mds.Settings.{Settings}
use mds.Cache.Defs.{Cache}
use mds.Cache.Sound.{CacheOk, access-CacheOk, mark_dirty-CacheOk, install-CacheOk}
use mds.Cache.Layout.{Holds}
use mds.Core.Types.{Core, default_mem_delay}
use mds.Core.Trace.{Zlib, read_trace}
use mds.Core.Cycle.{Nest, Demand, no_demand, write_line, miss_line, read_line, trace_access}
use mds.Sim.Pending.{frame}
use mds.Sim.Turn.{Limits, NestOk}
use mds.Sim.Reading.{ReadsBytes, TraceOnly, read_trace-TraceOnly}

-- A request to the memory has its delay, and a line of the memory to be written back.
pub record DemandOk (lines : ℕ) (d : Demand) : Type 0 where
  pub line : d.wb_lineaddr < lines
  pub small : d.delay < 2 ^ 32
  pub slow : d.mem_access ≡ true → default_mem_delay ≤ d.delay

quick :
    (lines delay : ℕ)
    → delay < 2 ^ 32
    → 0 < lines
    → DemandOk lines (record { delay = delay; mem_access = false; wb_lineaddr = 0 })
quick lines delay h pos = record { line = pos; small = h; slow = λ e. cc }

no_hit : (perfect hit : Bool) → (not perfect && not hit) ≡ true → hit ≡ false
no_hit perfect hit h = ground arith

module _ (g : Settings) (rows lines : ℕ) where
  cached :
      (n : Nest) (l3 : Cache)
      → NestOk g rows lines n
      → CacheOk lines l3
      → NestOk g rows lines (record n { l3cache = l3 })
  cached n l3 v w = record { memory = v.memory; cache = w; pages = v.pages }

module _ {T : Type 0} (g : Settings) (limits : Limits g) (rows lines : ℕ) where
  -- what an access to the cache comes to
  abbrev pub Touched : Nest → Core T → Demand × Nest × Core T → Type 0
  Touched n c out =
      DemandOk lines out.0
      × NestOk g rows lines out.1
      × (out.1.memsys ≡ n.memsys)
      × (frame out.2 ≡ frame c)
      × (out.2.trace_va ≡ c.trace_va)

  -- the same, after the next record of the trace was read
  abbrev pub Accessed : Nest → Core T → Demand × Nest × Core T → Type 0
  Accessed n c out =
      DemandOk lines out.0
      × NestOk g rows lines out.1
      × (out.1.memsys ≡ n.memsys)
      × (frame out.2 ≡ frame c)
      × (out.2.trace_va < 2 ^ 32)

  then_read :
      (z : Zlib T) (bytes : ReadsBytes z) (n : Nest) (c : Core T) (out : Demand × Nest × Core T)
      → Touched n c out
      → Safe (Accessed n c) (
          read_trace z g out.2 out.1.rand >>= λ (c2, r).
          ok (out.0, record (out.1) { rand = r }, c2))
  then_read z bytes n c (d, n1, c1) (demand, v, same_memory, same_frame, va) =
      Safe-bind (TraceOnly z bytes c1) (Accessed n c) (read_trace z g c1 n1.rand)
        (λ (c2, r). ok (d, record n1 { rand = r }, c2)) (read_trace-TraceOnly z bytes g c1 n1.rand)
        (λ (c2, r) (same, small).
          returns (d, record n1 { rand = r }, c2) refl
            (
              demand,
              record { memory = v.memory; cache = v.cache; pages = v.pages },
              same_memory,
              same ∙ same_frame,
              small,
            ))

  dropped-frame :
      (held : Bool) (c : Core T) (count : ℕ)
      → (frame (if held then c else record c { dropped_writes = count }) ≡ frame c)
        × ((if held then c else record c { dropped_writes = count }).trace_va ≡ c.trace_va)
  dropped-frame true c count = (refl, refl)
  dropped-frame false c count = (refl, refl)

  write_line-Touched :
      (n : Nest) (c : Core T) (addr : ℕ)
      → NestOk g rows lines n
      → addr < lines
      → Safe (Touched n c) (write_line n c addr)
  unfolding write_line
  write_line-Touched n c addr v h =
      let (held, l3, e, w) = mark_dirty-CacheOk lines n.l3cache addr v.cache in
      let (same, va) = dropped-frame held c (add64 c.dropped_writes 1) in
      returns
        (
          no_demand,
          record n { l3cache = l3 },
          if held then c else record c { dropped_writes = add64 c.dropped_writes 1 },
        )
        (rw e refl)
        (quick lines 0 (omega arith) (omega arith), cached g rows lines n l3 v w, refl, same, va)

  miss_line-Touched :
      (n : Nest) (c : Core T) (addr : ℕ)
      → NestOk g rows lines n
      → addr < lines
      → (¬ Holds n.l3cache addr)
      → Safe (Touched n c) (miss_line g n c addr)
  unfolding miss_line
  miss_line-Touched n c addr v h absent =
      let (l3, r, e, w, line) =
        install-CacheOk lines g.lru_wb_tth n.l3cache addr n.rand v.cache h absent in
      returns
        (
          record {
            delay = add32 (to32 g.l3_latency) default_mem_delay;
            mem_access = true;
            wb_lineaddr = if l3.evicted_dirty_line then l3.evicted_line_addr else 0;
          },
          record n { l3cache = l3; rand = r },
          record c { miss_count = add64 c.miss_count 1 },
        )
        (rw e refl)
        (
          record { line = line; small = omega arith; slow = λ _. omega (arith, limits.latency) },
          record { memory = v.memory; cache = w; pages = v.pages },
          refl,
          refl,
          refl,
        )

  read_line-Touched :
      (n : Nest) (c : Core T) (addr : ℕ)
      → NestOk g rows lines n
      → addr < lines
      → Safe (Touched n c) (read_line g n c addr)
  unfolding read_line
  read_line-Touched n c addr v h =
      let (hit, l3, e, w, missed) = access-CacheOk lines n.l3cache addr v.cache in
      let n1 = record n { l3cache = l3 } in
      let c1 = record c { access_count = add64 c.access_count 1 } in
      let hit_demand : Demand = record {
        delay = to32 g.l3_latency;
        mem_access = false;
        wb_lineaddr = 0;
      } in
      Safe-eq
        (if not g.l3_perfect && not hit then miss_line g n1 c1 addr else ok (hit_demand, n1, c1))
        (read_line g n c addr) (rw e refl)
        (if_Safe (Touched n c) (not g.l3_perfect && not hit) (miss_line g n1 c1 addr)
          (ok (hit_demand, n1, c1))
          (λ miss.
            miss_line-Touched n1 c1 addr (cached g rows lines n l3 v w) h
              (missed (no_hit g.l3_perfect hit miss)))
          (λ _.
            returns (hit_demand, n1, c1) refl
              (
                quick lines (to32 g.l3_latency) (omega arith) (omega arith),
                cached g rows lines n l3 v w,
                refl,
                refl,
                refl,
              )))

  -- The instruction that the trace waits for is done, and the next one is read.
  pub trace_access-Touched :
      (z : Zlib T) (bytes : ReadsBytes z) (n : Nest) (c : Core T) (addr : ℕ)
      → NestOk g rows lines n
      → c.trace_va < 2 ^ 32
      → addr < lines
      → Safe (Accessed n c) (trace_access z g n c addr)
  unfolding trace_access
  trace_access-Touched z bytes n c addr v va h =
      if_Safe (Accessed n c) (leb c.trace_inst_num c.inst_num)
        ((if c.trace_wb then write_line n c addr else read_line g n c addr) >>= λ (d, n1, c1).
          read_trace z g c1 n1.rand >>= λ (c2, r). ok (d, record n1 { rand = r }, c2))
        (ok (no_demand, n, c))
        (λ _.
          Safe-bind (Touched n c) (Accessed n c)
            (if c.trace_wb then write_line n c addr else read_line g n c addr)
            (λ (d, n1, c1).
              read_trace z g c1 n1.rand >>= λ (c2, r). ok (d, record n1 { rand = r }, c2))
            (if_Safe (Touched n c) c.trace_wb (write_line n c addr) (read_line g n c addr)
              (λ _. write_line-Touched n c addr v h) (λ _. read_line-Touched n c addr v h))
            (λ out w. then_read z bytes n c out w))
        (λ _.
          returns (no_demand, n, c) refl
            (quick lines 0 (omega arith) (omega arith), v, refl, refl, va))
