-- ===== src/Params/Parsing.antt =====
-- The loop of read_params in src/params.h over the arguments.
use mds.Base.{ℕ, refl, inl, inr, Option, List, [], ◌∷◌, Result, ok, err, ◌>>=◌, exited}
use mds.Params.Ends.{Ends, leaves, yields, Ends-bind, if_Ends}
use mds.Params.Text.{dashed, atoi}
use mds.Params.{
  Params, Meaning, help, config, unknown, number, switch, tests, choose, store, turn_on,
  die_invalid, take_trace, set_config, parse,
}
use mds.Params.Threads.{
  Sane, AllSane, Given, Named, atoi-IsInt, store-Named, turn_on-Named, set_config-Named,
  die_invalid-Ends, take_trace-Named,
}

module _ (args : List (List ℕ)) (cwd : Option (List ℕ)) where
  abbrev pub AllGiven : List (List ℕ) → Type 0
  AllGiven some_args = (t : List ℕ) → Given some_args t → Given args t

  -- the last argument
  last_chosen :
      (choice : Meaning) (arg : List ℕ) (p : Params)
      → Sane arg
      → Named args p
      → Ends (Named args) (elim choice [
        | help ↦ err exited
        | config ↦ ok p
        | unknown ↦ die_invalid arg
        | number n ↦ ok p
        | switch s ↦ ok (turn_on s p)
      ])
  last_chosen help arg p sane w = leaves refl
  last_chosen config arg p sane w = yields p refl w
  last_chosen unknown arg p sane w = die_invalid-Ends args (Named args) arg sane.short
  last_chosen (number n) arg p sane w = yields p refl w
  last_chosen (switch s) arg p sane w = yields (turn_on s p) refl (turn_on-Named args s p w)

  -- an argument with another after it; the value of an option is skipped
  chosen :
      (choice : Meaning) (arg value : List ℕ) (p : Params) (tail skip : Params → Result Params)
      → Sane arg
      → Sane value
      → ((p1 : Params) → Named args p1 → Ends (Named args) (tail p1))
      → ((p1 : Params) → Named args p1 → Ends (Named args) (skip p1))
      → Named args p
      → Ends (Named args) (elim choice [
        | help ↦ err exited
        | config ↦ skip (set_config cwd value p)
        | unknown ↦ die_invalid arg
        | number n ↦ atoi value >>= λ v. store n v p >>= skip
        | switch s ↦ tail (turn_on s p)
      ])
  chosen help arg value p tail skip sane sane_value t k w = leaves refl
  chosen config arg value p tail skip sane sane_value t k w =
      k (set_config cwd value p) (set_config-Named args cwd value p w)
  chosen unknown arg value p tail skip sane sane_value t k w =
      die_invalid-Ends args (Named args) arg sane.short
  chosen (number n) arg value p tail skip sane sane_value t k w =
      let v = sane_value.value in
      rw sane_value.reads (
        Ends-bind (Named args) (Named args) (store n v p) skip
          (store-Named args n v sane_value.kb p (atoi-IsInt value v sane_value.reads)
            sane_value.scaled w)
          k)
  chosen (switch s) arg value p tail skip sane sane_value t k w =
      t (turn_on s p) (turn_on-Named args s p w)

  pub parse-Named :
      (rest : List (List ℕ)) (p : Params)
      → AllSane rest
      → AllGiven rest
      → Named args p
      → Ends (Named args) (parse cwd rest p)
  unfolding parse
  parse-Named [] p sane given w = yields p refl w
  parse-Named (arg ∷ []) p sane given w =
      if_Ends (Named args) (dashed arg) _ (take_trace arg p)
        (λ dash. last_chosen (choose arg tests) arg p sane.0 w)
        (λ plain. take_trace-Named args arg p sane.0.short plain (given arg (inl refl)) w)
  parse-Named (arg ∷ value ∷ more) p (sane, (sane_value, sane_more)) given w =
      let tail : (p1 : Params) → Named args p1 → Ends (Named args) (parse cwd (value ∷ more) p1) =
        λ p1 w1.
          parse-Named (value ∷ more) p1 (sane_value, sane_more) (λ t g. given t (inr g)) w1 in
      if_Ends (Named args) (dashed arg) _ (take_trace arg p >>= parse cwd (value ∷ more))
        (λ dash.
          chosen (choose arg tests) arg value p (parse cwd (value ∷ more)) (parse cwd more) sane
            sane_value tail
            (λ p1 w1. parse-Named more p1 sane_more (λ t g. given t (inr (inr g))) w1) w)
        (λ plain.
          Ends-bind (Named args) (Named args) (take_trace arg p) (parse cwd (value ∷ more))
            (take_trace-Named args arg p sane.short plain (given arg (inl refl)) w) tail)
