-- ===== src/Params/Threads.antt =====
-- How many threads read_params of src/params.h gives the simulator, and which trace each of them gets.
use mds.Base.{
  ℕ, ◌+◌, ◌^◌, ◌≤◌, ◌<◌, ◌≡◌, refl, sym, ◌∙◌, subst, ◌⊎◌, inl, inr, true, false, Option, none, some,
  List, [], ◌∷◌, Bool-cases, arith, ok, ltb, ◌==◌, lt→ltb, length, length-set, get_or,
  get_or-set-cases, set,
}
use mds.Params.Ends.{Ends, leaves, yields, Ends-eq}
use mds.Params.Text.{dashed, positive, negative, atoi, signed, skip_space, read_digits}
use mds.Settings.{max_threads}
use mds.Params.{
  Params, Number, Switch, inst_limit, robsize, os_pagesize, l3repl, l3sizekb, l3sizemb, l3assoc,
  l3latency, drammaxtopen, seed, mtapp, ratemode, dramrefpolicy, drammappolicy, dramschedpolicy,
  drammop, limit, trc, trfc, tact, tcas, tpre, tras, trdrd, trefi, trefw, trfm, mcpara,
  dramrfmpolicy, rfmth, rfmrefth, rfmraammt, l3perfect, memclosepage, enablerfm, kilo, store,
  turn_on, die_invalid, copy_name, take_trace, set_config, trace_rows, trace_bytes,
}

-- An argument that fits in the message about it, and that atoi can read, also times 1024.
pub record Sane (arg : List ℕ) : Type 0 where
  pub short : length arg ≤ 240
  pub value : ℕ
  pub reads : atoi arg ≡ ok value
  pub kb : ℕ
  pub scaled : kilo value ≡ ok kb

abbrev pub AllSane : List (List ℕ) → Type 0
AllSane [] = Unit {0}
AllSane (arg ∷ args) = Sane arg × AllSane args

-- one of the arguments
abbrev pub Given : List (List ℕ) → List ℕ → Type 0
Given [] name = ⊥
Given (arg ∷ args) name = (arg ≡ name) ⊎ Given args name

-- The rows of the threads are arguments without a dash.
pub record Rows (args rows : List (List ℕ)) (threads : ℕ) : Type 0 where
  pub size : length rows ≡ trace_rows
  pub named : (i : ℕ) → i < threads → Given args (get_or rows i [])
  pub plain : (i : ℕ) → i < threads → dashed (get_or rows i []) ≡ false
  pub short : (i : ℕ) → i < threads → length (get_or rows i []) ≤ 240

-- what an `int` gives as a `uns64`
abbrev pub IsInt : ℕ → Type 0
IsInt v = (v < 2 ^ 31) ⊎ ((2 ^ 64 ≤ v + 2 ^ 31) × (v < 2 ^ 64))

abbrev pub Named : List (List ℕ) → Params → Type 0
Named args p =
    Rows args p.rows p.num_threads
    × (p.num_threads ≤ max_threads)
    × (p.all_threads ≡ p.num_threads)
    × IsInt p.rate_mode_threads

positive-IsInt : (n v : ℕ) → positive n ≡ ok v → IsInt v
positive-IsInt n v e = ground arith

negative-IsInt : (n v : ℕ) → negative n ≡ ok v → IsInt v
negative-IsInt n v e = ground arith

signed-IsInt : (s : List ℕ) (v : ℕ) → signed s ≡ ok v → IsInt v
unfolding signed
signed-IsInt [] v e = let none_read : 0 ≡ v = cc in inl (omega arith)
signed-IsInt (c ∷ s) v e = elim (Bool-cases (c == b'-')) [
  | inl minus ↦ negative-IsInt (read_digits s 0) v (rw minus at e)
  | inr no_minus ↦ elim (Bool-cases (c == b'+')) [
    | inl plus ↦ positive-IsInt (read_digits s 0) v (rw (no_minus, plus) at e)
    | inr no_plus ↦ positive-IsInt (read_digits (c ∷ s) 0) v (rw (no_minus, no_plus) at e)
  ]
]

pub atoi-IsInt : (s : List ℕ) (v : ℕ) → atoi s ≡ ok v → IsInt v
unfolding atoi
atoi-IsInt s v e = signed-IsInt (skip_space s) v e

module _ (args : List (List ℕ)) where
  pub store-Named :
      (n : Number) (v kb : ℕ) (p : Params)
      → IsInt v
      → kilo v ≡ ok kb
      → Named args p
      → Ends (Named args) (store n v p)
  unfolding store
  store-Named inst_limit v kb p int scaled w = yields _ refl w
  store-Named robsize v kb p int scaled w = yields _ refl w
  store-Named os_pagesize v kb p int scaled w = yields _ refl w
  store-Named l3repl v kb p int scaled w = yields _ refl w
  store-Named l3sizekb v kb p int scaled w = yields _ refl w
  store-Named l3sizemb v kb p int scaled w =
      yields (record p { globals = record (p.globals) { l3_size_kb = kb } }) (rw scaled refl) w
  store-Named l3assoc v kb p int scaled w = yields _ refl w
  store-Named l3latency v kb p int scaled w = yields _ refl w
  store-Named drammaxtopen v kb p int scaled w = yields _ refl w
  store-Named seed v kb p int scaled w = yields _ refl w
  store-Named mtapp v kb p int scaled (rows, few, same, _) = yields _ refl (rows, few, same, int)
  store-Named ratemode v kb p int scaled (rows, few, same, _) = yields _ refl (rows, few, same, int)
  store-Named dramrefpolicy v kb p int scaled w = yields _ refl w
  store-Named drammappolicy v kb p int scaled w = yields _ refl w
  store-Named dramschedpolicy v kb p int scaled w = yields _ refl w
  store-Named drammop v kb p int scaled w = yields _ refl w
  store-Named limit v kb p int scaled w = yields _ refl w
  store-Named trc v kb p int scaled w = yields _ refl w
  store-Named trfc v kb p int scaled w = yields _ refl w
  store-Named tact v kb p int scaled w = yields _ refl w
  store-Named tcas v kb p int scaled w = yields _ refl w
  store-Named tpre v kb p int scaled w = yields _ refl w
  store-Named tras v kb p int scaled w = yields _ refl w
  store-Named trdrd v kb p int scaled w = yields _ refl w
  store-Named trefi v kb p int scaled w = yields _ refl w
  store-Named trefw v kb p int scaled w = yields _ refl w
  store-Named trfm v kb p int scaled w = yields _ refl w
  store-Named mcpara v kb p int scaled w = yields _ refl w
  store-Named dramrfmpolicy v kb p int scaled w = yields _ refl w
  store-Named rfmth v kb p int scaled w = yields _ refl w
  store-Named rfmrefth v kb p int scaled w = yields _ refl w
  store-Named rfmraammt v kb p int scaled w = yields _ refl w

  pub turn_on-Named : (s : Switch) (p : Params) → Named args p → Named args (turn_on s p)
  unfolding turn_on
  turn_on-Named l3perfect p w = w
  turn_on-Named memclosepage p w = w
  turn_on-Named enablerfm p w = w

  pub set_config-Named :
      (cwd : Option (List ℕ)) (name : List ℕ) (p : Params)
      → Named args p
      → Named args (set_config cwd name p)
  set_config-Named none name p w = w
  set_config-Named (some dir) name p w = w

  pub die_invalid-Ends :
      {R : Type 0} (P : R → Type 0) (arg : List ℕ) → length arg ≤ 240 → Ends P (die_invalid arg)
  unfolding die_invalid
  die_invalid-Ends P arg h = leaves (rw (lt→ltb (15 + length arg) 256 (omega arith)) refl)

  one_more :
      (rows : List (List ℕ)) (threads : ℕ) (name : List ℕ)
      → Rows args rows threads
      → threads < max_threads
      → length name ≤ 240
      → dashed name ≡ false
      → Given args name
      → Rows args (set rows threads name) (threads + 1)
  one_more rows threads name w h short plain given = record {
    size = length-set rows threads name ∙ w.size;
    named = holds (Given args) given w.named;
    plain = holds (λ t. dashed t ≡ false) plain w.plain;
    short = holds (λ t. length t ≤ 240) short w.short;
  }
    where
      holds :
          (P : List ℕ → Type 0)
          → P name
          → ((i : ℕ) → i < threads → P (get_or rows i []))
          → (i : ℕ) → i < threads + 1
          → P (get_or (set rows threads name) i [])
      holds P new old i b = elim (get_or-set-cases rows threads i name [] (omega (arith, w.size))) [
        | inl (e, same) ↦ subst P (sym same) new
        | inr (ne, same) ↦ subst P (sym same) (old i (omega arith))
      ]

  pub take_trace-Named :
      (name : List ℕ) (p : Params)
      → length name ≤ 240
      → dashed name ≡ false
      → Given args name
      → Named args p
      → Ends (Named args) (take_trace name p)
  unfolding take_trace copy_name
  take_trace-Named name p short plain given (rows, few, same, int) =
      elim (Bool-cases (ltb p.num_threads max_threads)) [
        | inl room ↦
            let small : ltb p.num_threads trace_rows ≡ true = ground arith in
            yields
              (record p {
                rows = set p.rows p.num_threads name;
                num_threads = p.num_threads + 1;
                all_threads = p.num_threads + 1;
              })
              (rw (room, small, lt→ltb (length name) trace_bytes (omega arith)) refl)
              (
                one_more p.rows p.num_threads name rows (ground arith) short plain given,
                ground arith,
                refl,
                int,
              )
        | inr full ↦
            Ends-eq (die_invalid name) _ (rw full refl) (die_invalid-Ends (Named args) name short)
      ]
