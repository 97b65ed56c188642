-- ===== src/Params.antt =====
-- The command line of src/params.h: the options, and read_params, which sets the globals by them.
pub mod Text
pub mod Decimal
pub mod CommandLine
pub mod Ends
pub mod Threads
pub mod Copies
pub mod Parsing
pub mod Launch
pub mod Traces
mod Tests
use mds.Base.{
  ℕ, zero, suc, ◌+◌, ◌-◌, ◌*◌, ◌%◌, ◌^◌, Bool, true, false, ◌||◌, ◌++◌, Option, none, some, List,
  [], ◌∷◌, Result, ok, err, ◌>>=◌, ◌>>◌, undefined, exited, ltb, leb, ◌==◌, if◌then◌else◌, length,
  get_or, set, replicate,
}
use mds.Settings.{Settings, defaults, max_threads}
use mds.Params.Text.{codes, same_text, dashed, atoi}

-- The globals that the command line sets: those that the parts of the simulator read, and the others.
-- `rows` is `addr_trace_filename`.
pub record Params : Type 0 where
  pub globals : Settings
  pub trace_limit : ℕ
  pub rate_mode_threads : ℕ
  pub t_rc : ℕ
  pub t_rfm : ℕ
  pub rfm_raammt : ℕ
  pub rand_seed : ℕ
  pub num_threads : ℕ
  pub all_threads : ℕ
  pub rows : List (List ℕ)
  pub dramsim3cfg : List ℕ

abbrev pub trace_rows : ℕ
trace_rows = 256

abbrev pub trace_bytes : ℕ
trace_bytes = 1024

-- the values before the command line
abbrev pub initial : Params
initial = record {
  globals = defaults;
  trace_limit = 2 * 1000 * 1000 * 1000;
  rate_mode_threads = 0;
  t_rc = 48 * 4;
  t_rfm = 205 * 4;
  rfm_raammt = 6 * 16;
  rand_seed = 1234;
  num_threads = 0;
  all_threads = 0;
  rows = replicate trace_rows [];
  dramsim3cfg = codes "../config_dramsim3/DDR5_32Gb_x4_4800_norfm.ini";
}

-- the options that take a number, in the order of the tests
pub data Number : Type 0 where
  inst_limit robsize os_pagesize l3repl l3sizekb l3sizemb l3assoc l3latency drammaxtopen : Number
  seed mtapp ratemode dramrefpolicy drammappolicy dramschedpolicy drammop limit : Number
  trc trfc tact tcas tpre tras trdrd trefi trefw trfm : Number
  mcpara dramrfmpolicy rfmth rfmrefth rfmraammt : Number

-- the options that stand alone
pub data Switch : Type 0 where
  l3perfect memclosepage enablerfm : Switch

pub data Meaning : Type 0 where
  help config unknown : Meaning
  number : Number → Meaning
  switch : Switch → Meaning

-- the tests of read_params: what to compare an argument with, and what follows
abbrev pub tests : List (List ℕ × Meaning)
tests =
    (codes "-h", help)
    ∷ (codes "-help", help)
    ∷ (codes "-inst_limit", number inst_limit)
    ∷ (codes "-robsize", number robsize)
    ∷ (codes "-os_pagesize", number os_pagesize)
    ∷ (codes "-l3perfect", switch l3perfect)
    ∷ (codes "-l3repl", number l3repl)
    ∷ (codes "-l3sizekb", number l3sizekb)
    ∷ (codes "-l3sizemb", number l3sizemb)
    ∷ (codes "-l3assoc", number l3assoc)
    ∷ (codes "-l3latency", number l3latency)
    ∷ (codes "-memclosepage", switch memclosepage)
    ∷ (codes "-drammaxtopen", number drammaxtopen)
    ∷ (codes "-rand_seed", number seed)
    ∷ (codes "-mtapp", number mtapp)
    ∷ (codes "-ratemode", number ratemode)
    ∷ (codes "-dramrefpolicy", number dramrefpolicy)
    ∷ (codes "-drammappolicy", number drammappolicy)
    ∷ (codes "-dramschedpolicy", number dramschedpolicy)
    ∷ (codes "-drammop", number drammop)
    ∷ (codes "-limit", number limit)
    ∷ (codes "-tRC", number trc)
    ∷ (codes "-tRFC", number trfc)
    ∷ (codes "-tACT", number tact)
    ∷ (codes "-tCAS", number tcas)
    ∷ (codes "-tPRE", number tpre)
    ∷ (codes "-tRAS", number tras)
    ∷ (codes "-tRDRD", number trdrd)
    ∷ (codes "-tREFI", number trefi)
    ∷ (codes "-tREFW", number trefw)
    ∷ (codes "-tRFM", number trfm)
    ∷ (codes "-mcpara", number mcpara)
    ∷ (codes "-enablerfm", switch enablerfm)
    ∷ (codes "-dramrfmpolicy", number dramrfmpolicy)
    ∷ (codes "-rfmth", number rfmth)
    ∷ (codes "-rfmrefth", number rfmrefth)
    ∷ (codes "-rfmraammt", number rfmraammt)
    ∷ (codes "-dramsim3cfg", config)
    ∷ []

unfoldable pub choose : List ℕ → List (List ℕ × Meaning) → Meaning
choose arg [] = unknown
choose arg ((name, choice) ∷ more) = if same_text arg name then choice else choose arg more

-- `1024*atoi(argv[ii+1])`, a product of two `int`s: outside their range it is undefined
unfoldable pub kilo : ℕ → Result ℕ
kilo v =
    if ltb v (2 ^ 21) || leb (2 ^ 64 - 2 ^ 21) v then ok ((1024 * v) % 2 ^ 64) else err undefined

-- the globals that the parts of the simulator read
unfoldable pub store : Number → ℕ → Params → Result Params
store inst_limit v p = ok (record p { globals = record (p.globals) { inst_limit = v } })
store robsize v p = ok (record p { globals = record (p.globals) { rob_size = v } })
store os_pagesize v p = ok (record p { globals = record (p.globals) { os_pagesize = v } })
store l3repl v p = ok (record p { globals = record (p.globals) { l3_repl = v } })
store l3sizekb v p = ok (record p { globals = record (p.globals) { l3_size_kb = v } })
store l3sizemb v p =
    kilo v >>= λ kb. ok (record p { globals = record (p.globals) { l3_size_kb = kb } })
store l3assoc v p = ok (record p { globals = record (p.globals) { l3_assoc = v } })
store l3latency v p = ok (record p { globals = record (p.globals) { l3_latency = v } })
store drammaxtopen v p = ok (record p { globals = record (p.globals) { dram_max_topen = v } })
store seed v p = ok (record p { rand_seed = v })
store mtapp v p = ok (record p { rate_mode_threads = v })
store ratemode v p = ok (record p { rate_mode_threads = v })
store dramrefpolicy v p = ok (record p { globals = record (p.globals) { dram_ref_policy = v } })
store drammappolicy v p = ok (record p { globals = record (p.globals) { dram_map_policy = v } })
store dramschedpolicy v p = ok (record p { globals = record (p.globals) { dram_sched_policy = v } })
store drammop v p = ok (record p { globals = record (p.globals) { dram_mop_gangsize = v } })
store limit v p = ok (record p { trace_limit = v })
store trc v p = ok (record p { t_rc = v })
store trfc v p = ok (record p { globals = record (p.globals) { t_rfc = v } })
store tact v p = ok (record p { globals = record (p.globals) { t_act = v } })
store tcas v p = ok (record p { globals = record (p.globals) { t_cas = v } })
store tpre v p = ok (record p { globals = record (p.globals) { t_pre = v } })
store tras v p = ok (record p { globals = record (p.globals) { t_ras = v } })
store trdrd v p = ok (record p { globals = record (p.globals) { t_rdrd = v } })
store trefi v p = ok (record p { globals = record (p.globals) { t_refi = v } })
store trefw v p = ok (record p { globals = record (p.globals) { t_refw = v } })
store trfm v p = ok (record p { t_rfm = v })
store mcpara v p = ok (record p { globals = record (p.globals) { mcpara_drfm_period = v } })
store dramrfmpolicy v p = ok (record p { globals = record (p.globals) { dram_rfm_policy = v } })
store rfmth v p = ok (record p { globals = record (p.globals) { rfm_th = v } })
store rfmrefth v p = ok (record p { globals = record (p.globals) { rfm_refth = v } })
store rfmraammt v p = ok (record p { rfm_raammt = v })

unfoldable pub turn_on : Switch → Params → Params
turn_on l3perfect p = record p { globals = record (p.globals) { l3_perfect = true } }
turn_on memclosepage p = record p { globals = record (p.globals) { mem_closepage = true } }
turn_on enablerfm p = record p { globals = record (p.globals) { dram_rfm_policy = 2 } }

-- `sprintf(msg, "Invalid option %s", ...)` into 256 bytes, and `die_message`
unfoldable pub die_invalid {ℓ} : {R : Type ℓ} → List ℕ → Result R
die_invalid arg =
    if ltb (length (codes "Invalid option ") + length arg) 256 then err exited else err undefined

-- `strcpy(addr_trace_filename[i], name)`
unfoldable pub copy_name : ℕ → List ℕ → List (List ℕ) → Result (List (List ℕ))
copy_name i name rows =
    if ltb i trace_rows
    then (if ltb (length name) trace_bytes then ok (set rows i name) else err undefined)
    else err undefined

-- an argument without a dash
unfoldable pub take_trace : List ℕ → Params → Result Params
take_trace name p =
    if ltb p.num_threads max_threads
    then (copy_name p.num_threads name p.rows >>= λ rows. ok (record p {
      rows = rows;
      num_threads = p.num_threads + 1;
      all_threads = p.num_threads + 1;
    }))
    else die_invalid name

-- `DRAMSIM3CFG`, below what getcwd gives into 1024 bytes; if it fails the old value stays
abbrev pub set_config : Option (List ℕ) → List ℕ → Params → Params
set_config none name p = p
set_config (some cwd) name p = record p { dramsim3cfg = cwd ++ codes "/" ++ name }

-- the copies of the first row, for the rows from `ii` on
unfoldable pub copy_rows : ℕ → ℕ → List (List ℕ) → Result (List (List ℕ))
copy_rows zero ii rows = ok rows
copy_rows (suc n) ii rows =
    copy_name ii (get_or rows 0 []) rows >>= λ rows1. copy_rows n (ii + 1) rows1

-- the number of rounds of a loop from 1 to an `int`
abbrev pub rounds_from_one : ℕ → ℕ
rounds_from_one n = if ltb n (2 ^ 31) then n - 1 else 0

-- the threads of the rate mode, `n` as an `int`
unfoldable pub copy_threads : ℕ → Params → Result Params
copy_threads n p = copy_rows (rounds_from_one n) 1 p.rows >>= λ rows.
    ok (record p { rows = rows; num_threads = n; all_threads = p.rate_mode_threads })

-- the rate mode, at the end of `read_params`
unfoldable pub rate_mode : Params → Result Params
rate_mode p =
    if p.rate_mode_threads == 0 then ok p else copy_threads (p.rate_mode_threads % 2 ^ 32) p

-- what `read_params` does after the loop
unfoldable pub finish_params : Params → Result Params
finish_params p = if p.num_threads == 0 then err exited else rate_mode p

module _ (cwd : Option (List ℕ)) where
  -- the loop over the arguments; an option whose value is missing does nothing
  unfoldable pub parse : List (List ℕ) → Params → Result Params
  parse [] p = ok p
  parse (arg ∷ []) p =
      if dashed arg
      then (elim (choose arg tests) [
        | help ↦ err exited
        | config ↦ ok p
        | unknown ↦ die_invalid arg
        | number n ↦ ok p
        | switch s ↦ ok (turn_on s p)
      ])
      else take_trace arg p
  parse (arg ∷ value ∷ more) p =
      if dashed arg
      then (elim (choose arg tests) [
        | help ↦ err exited
        | config ↦ parse more (set_config cwd value p)
        | unknown ↦ die_invalid arg
        | number n ↦ atoi value >>= λ v. store n v p >>= λ p1. parse more p1
        | switch s ↦ parse (value ∷ more) (turn_on s p)
      ])
      else (take_trace arg p >>= λ p1. parse (value ∷ more) p1)

  -- `read_params`, given the arguments after the name of the program
  unfoldable pub read_params : List (List ℕ) → Params → Result Params
  read_params argv p = parse argv p >>= finish_params
