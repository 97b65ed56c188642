-- ===== src/Params/CommandLine.antt =====
-- The command line that says what to set, and read_params of src/params.h, which reads it back.
use mds.Base.{
  ℕ, ◌-◌, ◌%◌, ◌^◌, ◌≤◌, ◌<◌, ◌≡◌, refl, ◌∙◌, true, false, Option, List, [], ◌∷◌, Result, ok, ◌>>=◌,
  bind_ok, bind_cong,
}
use mds.Params.Text.{codes, same_text, dashed, atoi}
use mds.Params.Decimal.{decimal, atoi-decimal, atoi-minus}
use mds.Params.{
  Params, Number, Switch, config, number, switch, inst_limit, robsize, os_pagesize, l3repl,
  l3sizekb, l3sizemb, l3assoc, l3latency, drammaxtopen, seed, mtapp, ratemode, dramrefpolicy,
  drammappolicy, dramschedpolicy, drammop, limit, trc, trfc, tact, tcas, tpre, tras, trdrd, trefi,
  trefw, trfm, mcpara, dramrfmpolicy, rfmth, rfmrefth, rfmraammt, l3perfect, memclosepage,
  enablerfm, tests, choose, store, turn_on, take_trace, set_config, parse, finish_params,
  read_params,
}

-- how each option is spelled
unfoldable pub spelling : Number → List ℕ
spelling inst_limit = codes "-inst_limit"
spelling robsize = codes "-robsize"
spelling os_pagesize = codes "-os_pagesize"
spelling l3repl = codes "-l3repl"
spelling l3sizekb = codes "-l3sizekb"
spelling l3sizemb = codes "-l3sizemb"
spelling l3assoc = codes "-l3assoc"
spelling l3latency = codes "-l3latency"
spelling drammaxtopen = codes "-drammaxtopen"
spelling seed = codes "-rand_seed"
spelling mtapp = codes "-mtapp"
spelling ratemode = codes "-ratemode"
spelling dramrefpolicy = codes "-dramrefpolicy"
spelling drammappolicy = codes "-drammappolicy"
spelling dramschedpolicy = codes "-dramschedpolicy"
spelling drammop = codes "-drammop"
spelling limit = codes "-limit"
spelling trc = codes "-tRC"
spelling trfc = codes "-tRFC"
spelling tact = codes "-tACT"
spelling tcas = codes "-tCAS"
spelling tpre = codes "-tPRE"
spelling tras = codes "-tRAS"
spelling trdrd = codes "-tRDRD"
spelling trefi = codes "-tREFI"
spelling trefw = codes "-tREFW"
spelling trfm = codes "-tRFM"
spelling mcpara = codes "-mcpara"
spelling dramrfmpolicy = codes "-dramrfmpolicy"
spelling rfmth = codes "-rfmth"
spelling rfmrefth = codes "-rfmrefth"
spelling rfmraammt = codes "-rfmraammt"

unfoldable pub switch_spelling : Switch → List ℕ
switch_spelling l3perfect = codes "-l3perfect"
switch_spelling memclosepage = codes "-memclosepage"
switch_spelling enablerfm = codes "-enablerfm"

-- an `int` that stands for a setting, and how it is written
pub data Value : Type 0 where
  plus minus : ℕ → Value

abbrev pub InRange : Value → Type 0
InRange (plus n) = n < 2 ^ 31
InRange (minus n) = n ≤ 2 ^ 31

abbrev pub word : Value → ℕ
word (plus n) = n
word (minus n) = (2 ^ 64 - n) % 2 ^ 64

abbrev pub written : Value → List ℕ
written (plus n) = decimal n
written (minus n) = b'-' ∷ decimal n

-- one thing that a command line says
pub data Item : Type 0 where
  setting : Number → Value → Item
  flag : Switch → Item
  config_file name_of_trace : List ℕ → Item

abbrev pub Writable : Item → Type 0
Writable (setting n v) = InRange v
Writable (flag s) = Unit {0}
Writable (config_file name) = Unit {0}
Writable (name_of_trace name) = dashed name ≡ false

abbrev pub AllWritable : List Item → Type 0
AllWritable [] = Unit {0}
AllWritable (item ∷ items) = Writable item × AllWritable items

-- the arguments for an item, before those that follow
abbrev pub with_item : Item → List (List ℕ) → List (List ℕ)
with_item (setting n v) rest = spelling n ∷ written v ∷ rest
with_item (flag s) rest = switch_spelling s ∷ rest
with_item (config_file name) rest = codes "-dramsim3cfg" ∷ name ∷ rest
with_item (name_of_trace name) rest = name ∷ rest

abbrev pub command_line : List Item → List (List ℕ)
command_line [] = []
command_line (item ∷ items) = with_item item (command_line items)

module _ (cwd : Option (List ℕ)) where
  -- what an item asks for
  abbrev pub obey : Item → Params → Result Params
  obey (setting n v) p = store n (word v) p
  obey (flag s) p = ok (turn_on s p)
  obey (config_file name) p = ok (set_config cwd name p)
  obey (name_of_trace name) p = take_trace name p

  abbrev pub obey_all : List Item → Params → Result Params
  obey_all [] p = ok p
  obey_all (item ∷ items) p = obey item p >>= obey_all items

spelling_lem : (n : Number) → (dashed (spelling n) ≡ true) × (choose (spelling n) tests ≡ number n)
unfolding spelling dashed choose same_text
spelling_lem inst_limit = (refl, refl)
spelling_lem robsize = (refl, refl)
spelling_lem os_pagesize = (refl, refl)
spelling_lem l3repl = (refl, refl)
spelling_lem l3sizekb = (refl, refl)
spelling_lem l3sizemb = (refl, refl)
spelling_lem l3assoc = (refl, refl)
spelling_lem l3latency = (refl, refl)
spelling_lem drammaxtopen = (refl, refl)
spelling_lem seed = (refl, refl)
spelling_lem mtapp = (refl, refl)
spelling_lem ratemode = (refl, refl)
spelling_lem dramrefpolicy = (refl, refl)
spelling_lem drammappolicy = (refl, refl)
spelling_lem dramschedpolicy = (refl, refl)
spelling_lem drammop = (refl, refl)
spelling_lem limit = (refl, refl)
spelling_lem trc = (refl, refl)
spelling_lem trfc = (refl, refl)
spelling_lem tact = (refl, refl)
spelling_lem tcas = (refl, refl)
spelling_lem tpre = (refl, refl)
spelling_lem tras = (refl, refl)
spelling_lem trdrd = (refl, refl)
spelling_lem trefi = (refl, refl)
spelling_lem trefw = (refl, refl)
spelling_lem trfm = (refl, refl)
spelling_lem mcpara = (refl, refl)
spelling_lem dramrfmpolicy = (refl, refl)
spelling_lem rfmth = (refl, refl)
spelling_lem rfmrefth = (refl, refl)
spelling_lem rfmraammt = (refl, refl)

switch_spelling_lem :
    (s : Switch)
    → (dashed (switch_spelling s) ≡ true) × (choose (switch_spelling s) tests ≡ switch s)
unfolding switch_spelling dashed choose same_text
switch_spelling_lem l3perfect = (refl, refl)
switch_spelling_lem memclosepage = (refl, refl)
switch_spelling_lem enablerfm = (refl, refl)

config_lem : (dashed (codes "-dramsim3cfg") ≡ true) × (choose (codes "-dramsim3cfg") tests ≡ config)
unfolding dashed choose same_text
config_lem = (refl, refl)

atoi-written : (v : Value) → InRange v → atoi (written v) ≡ ok (word v)
atoi-written (plus n) h = atoi-decimal n h
atoi-written (minus n) h = atoi-minus n h

module _ (cwd : Option (List ℕ)) where
  parse-with_item :
      (item : Item) (rest : List (List ℕ)) (p : Params)
      → Writable item
      → parse cwd (with_item item rest) p ≡ (obey cwd item p >>= λ p1. parse cwd rest p1)
  unfolding parse
  parse-with_item (setting n v) rest p h =
      let (dash, chosen) = spelling_lem n in rw (dash, chosen, atoi-written v h) refl
  parse-with_item (flag s) [] p h =
      let (dash, chosen) = switch_spelling_lem s in rw (dash, chosen) refl
  parse-with_item (flag s) (value ∷ rest) p h =
      let (dash, chosen) = switch_spelling_lem s in rw (dash, chosen) refl
  parse-with_item (config_file name) rest p h =
      let (dash, chosen) = config_lem in rw (dash, chosen) refl
  parse-with_item (name_of_trace name) [] p h = rw h (bind_ok (take_trace name p))
  parse-with_item (name_of_trace name) (value ∷ rest) p h = rw h refl

  parse-command_line :
      (items : List Item) (p : Params)
      → AllWritable items
      → parse cwd (command_line items) p ≡ obey_all cwd items p
  unfolding parse
  parse-command_line [] p h = refl
  parse-command_line (item ∷ items) p (h, hs) =
      parse-with_item item (command_line items) p h
      ∙ bind_cong (obey cwd item p) _ _ (λ p1. parse-command_line items p1 hs)

  -- Settings with values that an int holds, switches, a configuration file and names of traces without a
  -- dash can be written as arguments in any order, each option with its value after it in decimal. Then
  -- read_params does what they say one after the other, ending as they do if one fails, and afterwards
  -- exits if they name no trace and else does the rate mode.
  pub read_params-command_line :
      (items : List Item) (p : Params)
      → AllWritable items
      → read_params cwd (command_line items) p ≡ (obey_all cwd items p >>= finish_params)
  unfolding read_params
  read_params-command_line items p h = rw (parse-command_line items p h) refl
