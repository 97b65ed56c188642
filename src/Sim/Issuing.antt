-- ===== src/Sim/Issuing.antt =====
-- One instruction, and the loop over CORE_WIDTH of them, in mcore_cycle of src/mcore.cpp.
use mds.Base.{
  ℕ, zero, suc, ◌+◌, ◌/◌, ◌^◌, ◌<◌, ◌≤◌, ◌≡◌, refl, ap, ◌∙◌, ◌⊎◌, inl, inr, Bool, true, false, not,
  ◌&&◌, List, arith, ok, ◌>>=◌, ltb, ◌==◌, div-lt, Bool-cases, if◌then◌else◌, add64, Rand, Safe,
  Safe-eq, Safe-map, Safe-bind, aborts, returns, if_Safe,
}
use mds.Settings.{Settings}
use mds.Core.Types.{Core}
use mds.Core.Trace.{Zlib, read_trace}
use mds.Core.Rob.{rob_insert}
use mds.Core.Cycle.{Nest, Demand, trace_access, send, issue, issue_loop}
use mds.Os.{Os, v2p_lineaddr}
use mds.Os.Bounds.{v2p_lineaddr-InPages}
use mds.MemSys.Table.{MshrEntry}
use mds.MemSys.{MemSys}
use mds.Sim.Pending.{Frame, frame}
use mds.Sim.Turn.{Limits, NestOk, PagesOk, InCycle, InCycle-same}
use mds.Sim.Reading.{ReadsBytes, TraceOnly, read_trace-TraceOnly}
use mds.Sim.Touching.{DemandOk, Accessed, trace_access-Touched}
use mds.Sim.Sending.{
  with_entry, next_place, rob_insert-inserted, inserted-InCycle, Issued, send-Issued,
}

-- a translation: an assertion fails, or the line lies in the memory
abbrev pub Translated : ℕ → ℕ × Os × Rand → Type 0
Translated lines out = (out.0 < lines) × PagesOk lines out.1

v2p_lineaddr-Safe :
    (lines : ℕ) (o : Os) (va tid : ℕ) (r : Rand)
    → PagesOk lines o
    → va < 2 ^ 32
    → Safe (Translated lines) (v2p_lineaddr o va tid r)
v2p_lineaddr-Safe lines o va tid r v h =
    let low : va / o.lines_in_page < 2 ^ 36 =
      div-lt va (2 ^ 36) o.lines_in_page (let pos = v.fair.some_lines in grind arith) in
    elim (v2p_lineaddr-InPages o va tid r v.fair low) [
      | inl fails ↦ aborts fails
      | inr (a, o', r', e, inside, fair, pages, per_page) ↦
          returns (a, o', r') e
            (omega (arith, v.fits), record { fair = fair; fits = rw (pages, per_page) v.fits })
    ]

module _ {T : Type 0} (z : Zlib T) (bytes : ReadsBytes z) (g : Settings) (limits : Limits g)
    (now rows lines i : ℕ) (t0 : List (ℕ × MshrEntry)) where
  -- the end of an instruction, once its line was accessed
  finish :
      (n : Nest) (c : Core T) (d : Demand) (lineaddr : ℕ)
      → InCycle g rows lines i t0 n c
      → c.sleep ≡ false
      → c.rob.size < g.rob_size
      → lineaddr < lines
      → DemandOk lines d
      → Safe (Issued g limits now rows lines i t0 c) (
          rob_insert g c c.inst_num c.cycle (add64 c.cycle d.delay) >>= λ (robid, c4).
          if d.mem_access then send g now n c4 lineaddr robid d.wb_lineaddr else ok (true, n, c4))
  finish n c d lineaddr v awake room h demand =
      Safe-eq
        (if d.mem_access
          then send g now n c4 lineaddr (next_place g c) d.wb_lineaddr
          else ok (true, n, c4))
        _
        (ap
          (λ t. t >>= λ (robid, c5).
            if d.mem_access then send g now n c5 lineaddr robid d.wb_lineaddr else ok (true, n, c5))
          (rob_insert-inserted g c d.delay v.core.ring room))
        (if_Safe (Issued g limits now rows lines i t0 c) d.mem_access
          (send g now n c4 lineaddr (next_place g c) d.wb_lineaddr) (ok (true, n, c4))
          (λ asks.
            send-Issued g limits now rows lines i t0 n c d.delay lineaddr d.wb_lineaddr v awake room
              h demand.line (demand.slow asks) demand.small)
          (λ _.
            returns (true, n, c4) refl
              (
                inserted-InCycle g limits now rows lines i t0 n c d.delay v awake room,
                refl,
                awake,
              )))
    where
      c4 : Core T
      c4 = with_entry g c d.delay

  -- a step before the insertion: the core has its frame, and the table is as it was
  abbrev Prepared : Nest → Core T → Nest → Core T → Type 0
  Prepared n c n' c' =
      NestOk g rows lines n'
      × (n'.memsys ≡ n.memsys)
      × (frame c' ≡ frame c)
      × (c'.trace_va < 2 ^ 32)

  -- the insertion after the access
  accessed_then :
      (n : Nest) (c : Core T) (d : Demand) (n' : Nest) (c' : Core T) (lineaddr : ℕ)
      → InCycle g rows lines i t0 n c
      → c.sleep ≡ false
      → c.rob.size < g.rob_size
      → lineaddr < lines
      → DemandOk lines d
      → Prepared n c n' c'
      → Safe (Issued g limits now rows lines i t0 c) (
          rob_insert g c' c'.inst_num c'.cycle (add64 c'.cycle d.delay) >>= λ (robid, c4).
          if d.mem_access then send g now n' c4 lineaddr robid d.wb_lineaddr else ok (true, n', c4))
  accessed_then n c d n' c' lineaddr v awake room h demand (ok', same_memory, same, va) =
      let w =
        InCycle-same g rows lines i t0 n n' c c' v ok' (ap (λ (m : MemSys). m.mshr) same_memory)
          same va in
      let size : c'.rob.size ≡ c.rob.size = ap (λ (f : Frame). f.rob.size) same in
      Safe-map (Issued g limits now rows lines i t0 c') (Issued g limits now rows lines i t0 c) _
        (λ out (x, y, s). (x, y ∙ ap (λ (t : ℕ). t + 1) size, s))
        (finish n' c' d lineaddr w (ap (λ (f : Frame). f.asleep) same ∙ awake) (omega (arith, size))
          h demand)

  -- the translation and the access
  translated_then :
      (n : Nest) (c c2 : Core T) (out : ℕ × Os × Rand)
      → InCycle g rows lines i t0 n c
      → c.sleep ≡ false
      → c.rob.size < g.rob_size
      → frame c2 ≡ frame c
      → c2.trace_va < 2 ^ 32
      → Translated lines out
      → Safe (Issued g limits now rows lines i t0 c) (
          trace_access z g (record n { os = out.1; rand = out.2 }) c2 out.0 >>= λ (d, n1, c3).
          rob_insert g c3 c3.inst_num c3.cycle (add64 c3.cycle d.delay) >>= λ (robid, c4).
          if d.mem_access then send g now n1 c4 out.0 robid d.wb_lineaddr else ok (true, n1, c4))
  translated_then n c c2 (lineaddr, os, r1) v awake room same va (h, pages) =
      let n1 = record n { os = os; rand = r1 } in
      Safe-bind (Accessed g limits rows lines n1 c2) (Issued g limits now rows lines i t0 c)
        (trace_access z g n1 c2 lineaddr) _
        (trace_access-Touched g limits rows lines z bytes n1 c2 lineaddr
          (record { memory = v.nest.memory; cache = v.nest.cache; pages = pages }) va h)
        (λ (d, n2, c3) (demand, ok', same_memory, same', va').
          accessed_then n c d n2 c3 lineaddr v awake room h demand
            (ok', same_memory, same' ∙ same, va'))

  -- one instruction of an awake core whose buffer has room
  issue-Issued :
      (n : Nest) (c : Core T)
      → InCycle g rows lines i t0 n c
      → c.sleep ≡ false
      → c.rob.size < g.rob_size
      → Safe (Issued g limits now rows lines i t0 c) (issue z g now n c)
  unfolding issue
  issue-Issued n c v awake room =
      let c1 = record c { inst_num = add64 c.inst_num 1 } in
      Safe-bind (TraceOnly z bytes c1) (Issued g limits now rows lines i t0 c)
        (if not c1.done && ltb g.inst_limit c1.inst_num
          then read_trace z g c1 n.rand
          else ok (c1, n.rand))
        _
        (if_Safe (TraceOnly z bytes c1) (not c1.done && ltb g.inst_limit c1.inst_num)
          (read_trace z g c1 n.rand) (ok (c1, n.rand))
          (λ _. read_trace-TraceOnly z bytes g c1 n.rand)
          (λ _. returns (c1, n.rand) refl (refl, v.va)))
        (λ (c2, r) (same, va).
          Safe-bind (Translated lines) (Issued g limits now rows lines i t0 c)
            (v2p_lineaddr n.os c2.trace_va c2.id r) _
            (v2p_lineaddr-Safe lines n.os c2.trace_va c2.id r v.nest.pages va)
            (λ out w. translated_then n c c2 out v awake room same va w))

  -- what the loop comes to: an awake core has as many instructions as the rounds gave, or a full buffer
  abbrev pub Looped : ℕ → Core T → Nest × Core T → Type 0
  Looped k c out =
      InCycle g rows lines i t0 out.0 out.1
      × (out.1.sleep ≡ false → (c.rob.size + k ≤ out.1.rob.size) ⊎ (out.1.rob.size ≡ g.rob_size))

  pub issue_loop-Looped :
      (k : ℕ) (n : Nest) (c : Core T)
      → InCycle g rows lines i t0 n c
      → c.sleep ≡ false
      → Safe (Looped k c) (issue_loop z g now k n c)
  unfolding issue_loop
  issue_loop-Looped zero n c v awake = returns (n, c) refl (v, λ _. inl (omega arith))
  issue_loop-Looped (suc k) n c v awake = elim (Bool-cases (c.rob.size == g.rob_size)) [
    | inl full ↦ returns (n, c) (rw (full, issue_loop) refl) (v, λ _. inr (ground arith))
    | inr more ↦
        Safe-eq
          (issue z g now n c >>= λ (go_on, n1, c1).
            if go_on then issue_loop z g now k n1 c1 else ok (n1, c1))
          (issue_loop z g now (suc k) n c) (rw (more, issue_loop) refl)
          (Safe-bind (Issued g limits now rows lines i t0 c) (Looped (suc k) c) (issue z g now n c)
            (λ (go_on, n1, c1). if go_on then issue_loop z g now k n1 c1 else ok (n1, c1))
            (issue-Issued n c v awake (let fits = v.core.ring.fits in ground arith))
            (λ out w. next k c out w (issue_loop-Looped k out.1 out.2 w.0)))
  ]
    where
      next :
          (k : ℕ) (c : Core T) (out : Bool × Nest × Core T)
          → Issued g limits now rows lines i t0 c out
          → (out.2.sleep ≡ false → Safe (Looped k out.2) (issue_loop z g now k out.1 out.2))
          → Safe
              (Looped (suc k) c)
              (if out.0 then issue_loop z g now k out.1 out.2 else ok (out.1, out.2))
      next k c (true, n1, c1) (x, size, awake1) rest =
          Safe-map (Looped k c1) (Looped (suc k) c) (issue_loop z g now k n1 c1)
            (λ out (y, filled).
              (y, λ s. elim (filled s) [ inl h ↦ inl (omega (arith, size)) | inr h ↦ inr h ]))
            (rest awake1)
      next k c (false, n1, c1) (x, size, asleep) rest = returns (n1, c1) refl (x, λ s. absurd (cc))
