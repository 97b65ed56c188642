-- ===== src/Sim/Reading.antt =====
-- Reading the trace (mcore_read_trace of src/mcore.cpp) leaves the part of a core that the memory depends on.
use mds.Base.{
  ℕ, ◌^◌, ◌<◌, ◌≡◌, refl, ◌∙◌, Bool, true, false, not, ◌&&◌, ◌||◌, leb, subst, ok, arith, inl, inr,
  Option-cases, if◌then◌else◌, Rand, draw, Safe, exits, returns, if_Safe,
}
use mds.Settings.{Settings}
use mds.Core.Types.{Core}
use mds.Core.Trace.{Zlib, value_of, init_trace, fread_trace, note_done, rewind_trace, read_trace}
use mds.Core.Trace.Finish.{restart}
use mds.Sim.Pending.{frame}

-- What zlib documents: gzread gives no more bytes than it is asked for.
abbrev pub ReadsBytes : {T : Type 0} → Zlib T → Type 0
ReadsBytes {T} z = (t : T) (n : ℕ) → value_of (z.gzread t n).0 < 256 ^ n

module _ {T : Type 0} (z : Zlib T) (bytes : ReadsBytes z) where
  abbrev pub TraceOnly : Core T → Core T × Rand → Type 0
  TraceOnly c out = (frame out.0 ≡ frame c) × (out.0.trace_va < 2 ^ 32)

  fread_trace-TraceOnly : (c : Core T) (r : Rand) → TraceOnly c (fread_trace z c, r)
  unfolding fread_trace
  fread_trace-TraceOnly c r =
      (refl, omega (arith, bytes (z.gzread (z.gzread c.addr_trace 5).1 1).1 4))

  note_done-frame : (done : Bool) (c : Core T) → frame (if done then c else note_done z c) ≡ frame c
  note_done-frame true c = refl
  note_done-frame false c = refl

  rewind_trace-TraceOnly : (c : Core T) (r : Rand) → Safe (TraceOnly c) (rewind_trace z c r)
  unfolding rewind_trace init_trace
  rewind_trace-TraceOnly c r = elim (Option-cases (z.gzopen c.id 0)) [
    | inr (t, e) ↦ returns (restart z c t, r) (rw (e, rewind_trace, init_trace) refl) (again t r)
    | inl e ↦ elim (Option-cases (z.gzopen c.id 1)) [
      | inr (t, f) ↦
          returns (restart z c t, (draw r).1) (rw (e, f, rewind_trace, init_trace) refl)
            (again t (draw r).1)
      | inl f ↦ exits (rw (e, f, rewind_trace, init_trace) refl)
    ]
  ]
    where
      again : (t : T) (r' : Rand) → TraceOnly c (restart z c t, r')
      again t r' = fread_trace-TraceOnly (record c { addr_trace = t }) r'

  pub read_trace-TraceOnly :
      (g : Settings) (c : Core T) (r : Rand) → Safe (TraceOnly c) (read_trace z g c r)
  unfolding read_trace
  read_trace-TraceOnly g c r =
      if_Safe (TraceOnly c) (z.gzeof c1.addr_trace || (not c1.done && leb g.inst_limit c1.inst_num))
        (rewind_trace z (if c1.done then c1 else note_done z c1) r) (ok (c1, r))
        (λ _.
          subst
            (λ f.
              Safe (λ out. (frame out.0 ≡ f) × (out.0.trace_va < 2 ^ 32))
                (rewind_trace z (if c1.done then c1 else note_done z c1) r))
            (note_done-frame c1.done c1 ∙ (fread_trace-TraceOnly c r).0)
            (rewind_trace-TraceOnly (if c1.done then c1 else note_done z c1) r))
        (λ _. returns (c1, r) refl (fread_trace-TraceOnly c r))
    where
      c1 : Core T
      c1 = fread_trace z c
