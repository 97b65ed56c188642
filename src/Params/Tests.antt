-- ===== src/Params/Tests.antt =====
-- Command lines for src/params.h, and runs of read_params on them.
use mds.Base.{ℕ, ◌≡◌, refl, arith, none, some, List, [], ◌∷◌, ok, err, exited, undefined, ◌>>=◌}
use mds.Params.Text.{codes, atoi, signed, skip_space, read_digits, dashed, same_text}
use mds.Params.Decimal.{decimal}
use mds.Params.{
  Params, initial, l3sizemb, ratemode, tcas, memclosepage, read_params, parse, choose, store, kilo,
  turn_on, take_trace, copy_name, copy_rows, copy_threads, rate_mode, finish_params, die_invalid,
}
use mds.Params.CommandLine.{
  Item, setting, flag, config_file, name_of_trace, plus, minus, spelling, switch_spelling,
  command_line, AllWritable, obey_all, read_params-command_line,
}
use mds.Params.Threads.{AllSane}
use mds.Params.Launch.{Launch, read_params-Launch}

abbrev trace : List ℕ
trace = codes "gcc.mtf.gz"

abbrev items : List Item
items =
    setting l3sizemb (plus 16)
    ∷ flag memclosepage
    ∷ name_of_trace trace
    ∷ setting tcas (minus 5)
    ∷ config_file (codes "ddr5.ini")
    ∷ setting ratemode (plus 4)
    ∷ []

items-AllWritable : AllWritable items
unfolding dashed
items-AllWritable = (omega arith, (tt, (refl, (omega arith, (tt, (omega arith, tt))))))

items_written :
    command_line items
    ≡ codes "-l3sizemb"
      ∷ codes "16"
      ∷ codes "-memclosepage"
      ∷ trace
      ∷ codes "-tCAS"
      ∷ codes "-5"
      ∷ codes "-dramsim3cfg"
      ∷ codes "ddr5.ini"
      ∷ codes "-ratemode"
      ∷ codes "4"
      ∷ []
unfolding decimal spelling switch_spelling
items_written = refl

-- what a run leaves in some of the globals
abbrev seen : Params → ℕ × ℕ × ℕ × List ℕ
seen p = (p.globals.l3_size_kb, p.globals.t_cas, p.num_threads, p.dramsim3cfg)

items_read :
    (read_params (some (codes "/home")) (command_line items) initial >>= λ p. ok (seen p))
    ≡ ok (16384, 18446744073709551611, 4, codes "/home/ddr5.ini")
unfolding decimal spelling switch_spelling read_params parse choose store kilo turn_on take_trace
    copy_name copy_rows copy_threads rate_mode finish_params atoi signed skip_space read_digits
    dashed same_text
items_read = refl

read_params-command_line_example :
    read_params (some (codes "/home")) (command_line items) initial
    ≡ (obey_all (some (codes "/home")) items initial >>= finish_params)
read_params-command_line_example =
    read_params-command_line (some (codes "/home")) items initial items-AllWritable

abbrev args : List (List ℕ)
args = codes "-ratemode" ∷ codes "100" ∷ trace ∷ []

args-AllSane : AllSane args
unfolding atoi signed skip_space read_digits kilo
args-AllSane = (
  record { short = omega arith; value = 0; reads = refl; kb = 0; scaled = refl },
  (
    record { short = omega arith; value = 100; reads = refl; kb = 102400; scaled = refl },
    (record { short = omega arith; value = 0; reads = refl; kb = 0; scaled = refl }, tt),
  ),
)

-- more threads than main has room for
read_params-Launch_example : Launch args none (read_params none args initial)
read_params-Launch_example = read_params-Launch args none args-AllSane

-- An option without its value is passed over, and a switch of no meaning ends the program.
no_value :
    (read_params none (trace ∷ codes "-tCAS" ∷ []) initial >>= λ p. ok (seen p))
    ≡ ok (8192, 48, 1, codes "../config_dramsim3/DDR5_32Gb_x4_4800_norfm.ini")
unfolding read_params parse choose take_trace copy_name rate_mode finish_params dashed same_text
no_value = refl

no_option : (read_params none (codes "-tXYZ" ∷ codes "4" ∷ []) initial) ≡ err exited
unfolding read_params parse choose die_invalid dashed same_text
no_option = refl

too_many : (read_params none (codes "-ratemode" ∷ codes "257" ∷ trace ∷ []) initial) ≡ err undefined
unfolding read_params parse choose store take_trace copy_name copy_rows copy_threads rate_mode
    finish_params atoi signed skip_space read_digits dashed same_text
too_many = refl
