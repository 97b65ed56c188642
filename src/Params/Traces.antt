-- ===== src/Params/Traces.antt =====
-- A command line that is nothing but names of traces, for read_params of src/params.h.
use mds.Base.{
  ℕ, ◌+◌, ◌<◌, ◌≤◌, ◌≡◌, refl, false, Option, List, [], ◌∷◌, arith, ok, ◌==◌, lt→ltb, length, set,
}
use mds.Settings.{max_threads}
use mds.Params.Text.{dashed}
use mds.Params.{
  Params, initial, trace_rows, trace_bytes, take_trace, copy_name, parse, finish_params, rate_mode,
  read_params,
}

-- names without a dash that fit in a row
abbrev pub AllNames : List (List ℕ) → Type 0
AllNames [] = Unit {0}
AllNames (name ∷ names) = ((dashed name ≡ false) × (length name < trace_bytes)) × AllNames names

-- one more thread
abbrev pub with_trace : List ℕ → Params → Params
with_trace name p = record p {
  rows = set p.rows p.num_threads name;
  num_threads = p.num_threads + 1;
  all_threads = p.num_threads + 1;
}

unfoldable pub with_traces : List (List ℕ) → Params → Params
with_traces [] p = p
with_traces (name ∷ names) p = with_traces names (with_trace name p)

take_one :
    (name : List ℕ) (p : Params)
    → p.num_threads < max_threads
    → length name < trace_bytes
    → take_trace name p ≡ ok (with_trace name p)
unfolding take_trace copy_name
take_one name p room short =
    rw
      (
        lt→ltb p.num_threads max_threads room,
        lt→ltb p.num_threads trace_rows (omega (arith, room)),
        lt→ltb (length name) trace_bytes short,
      )
      refl

module _ (cwd : Option (List ℕ)) where
  parse-with_traces :
      (names : List (List ℕ)) (p : Params)
      → AllNames names
      → p.num_threads + length names ≤ max_threads
      → parse cwd names p ≡ ok (with_traces names p)
  unfolding parse with_traces
  parse-with_traces [] p all room = refl
  parse-with_traces (name ∷ []) p ((plain, short), all) room =
      rw plain (take_one name p (omega (arith, room)) short)
  parse-with_traces (name ∷ next ∷ names) p ((plain, short), all) room =
      rw (plain, take_one name p (omega (arith, room)) short)
        (parse-with_traces (next ∷ names) (with_trace name p) all (omega (arith, room)))

-- names change no setting
pub with_traces-globals :
    (names : List (List ℕ)) (p : Params)
    → ((with_traces names p).globals ≡ p.globals)
      × ((with_traces names p).rate_mode_threads ≡ p.rate_mode_threads)
      × ((with_traces names p).rand_seed ≡ p.rand_seed)
      × ((with_traces names p).num_threads ≡ p.num_threads + length names)
unfolding with_traces
with_traces-globals [] p = (refl, refl, refl, omega arith)
with_traces-globals (name ∷ names) p =
    let (g, r, s, n) = with_traces-globals names (with_trace name p) in (g, r, s, omega (arith, n))

pub read_params-with_traces :
    (cwd : Option (List ℕ)) (names : List (List ℕ))
    → AllNames names
    → 0 < length names
    → length names ≤ max_threads
    → read_params cwd names initial ≡ ok (with_traces names initial)
unfolding read_params finish_params rate_mode
read_params-with_traces cwd names all some_name room =
    let (g, r, s, n) = with_traces-globals names initial in
    let named : ((with_traces names initial).num_threads == 0) ≡ false = ground (arith, n) in
    rw (parse-with_traces cwd names initial all (omega (arith, room)), named, r) refl
