-- ===== src/Params/Launch.antt =====
-- read_params of src/params.h as a whole: the rate mode after the loop over the arguments.
use mds.Base.{
  ℕ, ◌+◌, ◌-◌, ◌%◌, ◌^◌, ◌≤◌, ◌<◌, ◌≡◌, refl, sym, ap, ◌∙◌, subst, inl, inr, false, Option, List,
  [], Bool-cases, arith, Result, ok, err, undefined, exited, ltb, ◌==◌, lt→ltb, length, get_or,
}
use native.Mathlib.Decide.{ℕ_discrete, dec_lt}
use mds.Params.Ends.{leaves, yields}
use mds.Params.Text.{dashed}
use mds.Settings.{max_threads}
use mds.Params.{
  Params, parse, trace_rows, initial, copy_rows, copy_threads, finish_params, rate_mode,
  read_params,
}
use mds.Params.Threads.{AllSane, Given, Rows, Named}
use mds.Params.Copies.{copy_rows-Copied, copy_rows_overruns}
use mds.Params.Parsing.{parse-Named}

-- What read_params comes to. The program leaves; or every thread has a row that is one of the arguments, and
-- all the same row if the rate mode made more threads than names are taken; or the rate mode asks for a
-- negative number of threads; or for more than there are rows, and a write goes past the array.
pub data Launch (args : List (List ℕ)) (cwd : Option (List ℕ)) (out : Result Params) : Type 0 where
  gives_up : out ≡ err exited → Launch args cwd out
  runs :
      (p : Params)
      → out ≡ ok p
      → Rows args p.rows p.num_threads
      → 0 < p.num_threads
      → p.num_threads ≤ trace_rows
      → p.all_threads ≡ p.num_threads
      → (max_threads < p.num_threads
          → (i : ℕ) → i < p.num_threads
          → get_or p.rows i [] ≡ get_or p.rows 0 [])
      → Launch args cwd out
  runs_none : (p : Params) → out ≡ ok p → 2 ^ 31 ≤ p.num_threads → Launch args cwd out
  overruns :
      (p : Params)
      → out ≡ err undefined
      → parse cwd args initial ≡ ok p
      → trace_rows < p.rate_mode_threads
      → p.rate_mode_threads < 2 ^ 31
      → Launch args cwd out

module _ (args : List (List ℕ)) (cwd : Option (List ℕ)) where
  -- the rate mode with a number of threads that is positive
  copies :
      (p : Params)
      → parse cwd args initial ≡ ok p
      → Named args p
      → 0 < p.num_threads
      → 0 < p.rate_mode_threads
      → p.rate_mode_threads < 2 ^ 31
      → Launch args cwd (copy_threads p.rate_mode_threads p)
  unfolding copy_threads
  copies p e (rows, few, same, int) some_thread some_rate small =
      let n = p.rate_mode_threads in
      elim (dec_lt trace_rows n) [
        | yes many ↦
            overruns p
              (rw
                (
                  lt→ltb n (2 ^ 31) small,
                  copy_rows_overruns (n - 1) 1 p.rows (omega arith) (omega arith) (omega arith)
                      rows.size (rows.short 0 some_thread),
                )
                refl)
              e many small
        | no fits ↦
            let (rows', made, (len, first, copies)) =
              copy_rows-Copied (n - 1) 1 p.rows (omega arith) (omega arith) rows.size
                (rows.short 0 some_thread) in
            let row : (i : ℕ) → i < n → get_or rows' i [] ≡ get_or p.rows 0 [] = λ i b.
              elim (ℕ_discrete i 0) [
                | yes zeroth ↦ rw zeroth (first 0 (omega arith))
                | no later ↦ copies i (omega arith) (omega arith)
              ] in
            runs (record p { rows = rows'; num_threads = n; all_threads = n })
              (rw (lt→ltb n (2 ^ 31) small, made) refl)
              (record {
                size = len ∙ rows.size;
                named = λ i b. subst (Given args) (sym (row i b)) (rows.named 0 some_thread);
                plain = λ i b. ap dashed (row i b) ∙ rows.plain 0 some_thread;
                short =
                    λ i b. subst (λ t. length t ≤ 240) (sym (row i b)) (rows.short 0 some_thread);
              })
              some_rate (omega arith) refl (λ many i b. row i b ∙ sym (row 0 some_rate))
      ]

  copies_made :
      (p : Params)
      → parse cwd args initial ≡ ok p
      → Named args p
      → 0 < p.num_threads
      → 0 < p.rate_mode_threads
      → p.rate_mode_threads < 2 ^ 31
      → Launch args cwd (rate_mode p)
  unfolding rate_mode
  copies_made p e w some_thread some_rate small =
      let on : (p.rate_mode_threads == 0) ≡ false = ground arith in
      let low : p.rate_mode_threads % 2 ^ 32 ≡ p.rate_mode_threads = omega arith in
      rw (on, low) (copies p e w some_thread some_rate small)

  -- the rate mode with a negative number
  none_made :
      (p : Params)
      → 2 ^ 64 ≤ p.rate_mode_threads + 2 ^ 31
      → p.rate_mode_threads < 2 ^ 64
      → Launch args cwd (rate_mode p)
  unfolding rate_mode copy_rows copy_threads
  none_made p low high =
      let n = p.rate_mode_threads in
      let on : (n == 0) ≡ false = ground arith in
      let negative_int : ltb (n % 2 ^ 32) (2 ^ 31) ≡ false = ground arith in
      runs_none (record p { num_threads = n % 2 ^ 32; all_threads = n })
        (rw (on, negative_int) refl) (omega arith)

  finished :
      (p : Params)
      → parse cwd args initial ≡ ok p
      → Named args p
      → Launch args cwd (finish_params p)
  unfolding finish_params rate_mode
  finished p e (rows, few, same, int) = elim (Bool-cases (p.num_threads == 0)) [
    | inl none_named ↦ gives_up (rw none_named refl)
    | inr named ↦ elim (Bool-cases (p.rate_mode_threads == 0)) [
      | inl off ↦
          runs p (rw (named, off) refl) rows (ground arith) (omega arith) same
            (λ many. absurd (omega arith))
      | inr on ↦ rw named (elim int [
        | inl small ↦
            copies_made p e (rows, few, same, inl small) (ground arith) (ground arith) small
        | inr (low, high) ↦ none_made p low high
      ])
    ]
  ]

  -- Let every argument have at most 240 bytes and be read by atoi as an int whose 1024-fold is an int too.
  -- Then read_params exits; or it returns with 1 to 256 threads, each with a row that is one of the
  -- arguments and has no dash, and all with the same row if they are more than MAX_THREADS; or it returns
  -- with a negative number of threads; or the rate mode asks for more than 256 threads, and a copy is
  -- written past the end of the array.
  pub read_params-Launch : AllSane args → Launch args cwd (read_params cwd args initial)
  unfolding read_params
  read_params-Launch sane = elim (parse-Named args cwd args initial sane (λ t g. g) nothing_named) [
    | leaves e ↦ gives_up (rw e refl)
    | yields p e w ↦ rw e (finished p e w)
  ]
    where
      nothing_named : Named args initial
      nothing_named = (
        record {
          size = refl;
          named = λ i b. absurd (omega arith);
          plain = λ i b. absurd (omega arith);
          short = λ i b. absurd (omega arith);
        },
        omega arith,
        refl,
        inl (omega arith),
      )
