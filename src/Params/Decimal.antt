-- ===== src/Params/Decimal.antt =====
-- Decimal numerals, as one writes them on the command line, and what atoi of src/params.h reads in them.
use mds.Base.{
  ℕ, zero, suc, ◌+◌, ◌-◌, ◌*◌, ◌/◌, ◌%◌, ◌^◌, ◌≤◌, ◌<◌, ◌≡◌, refl, sym, ap, ◌∙◌, inl, inr, false,
  List, [], ◌∷◌, Bool-cases, arith, ok, ltb, ◌==◌, if◌then◌else◌, lt→ltb, le→leb,
}
use mds.Params.Text.{is_space, skip_space, read_digits, signed, atoi}

-- the digits of a number before `rest`, at most `fuel` + 1 of them
unfoldable numeral : ℕ → ℕ → List ℕ → List ℕ
numeral zero n rest = (b'0' + n % 10) ∷ rest
numeral (suc fuel) n rest =
    let one = (b'0' + n % 10) ∷ rest in
    let more = numeral fuel (n / 10) one in if ltb n 10 then one else more

unfoldable pub decimal : ℕ → List ℕ
unfolding numeral
decimal n = numeral n n []

-- A numeral begins with a digit.
numeral_starts :
    (fuel n : ℕ) (rest : List ℕ)
    → (c : ℕ) × (s : List ℕ) × (numeral fuel n rest ≡ c ∷ s) × (48 ≤ c) × (c ≤ 57)
unfolding numeral
numeral_starts zero n rest = (48 + n % 10, rest, refl, omega arith, omega arith)
numeral_starts (suc fuel) n rest = elim (Bool-cases (ltb n 10)) [
  | inl small ↦ (48 + n % 10, rest, rw small, omega arith, omega arith)
  | inr large ↦
      let (c, s, e, low, high) = numeral_starts fuel (n / 10) ((48 + n % 10) ∷ rest) in
      (c, s, rw (large, e), low, high)
]

-- one digit
read_one :
    (c acc : ℕ) (s : List ℕ)
    → 48 ≤ c
    → c ≤ 57
    → read_digits (c ∷ s) acc ≡ read_digits s (acc * 10 + (c - 48))
unfolding read_digits
read_one c acc s low high = ground arith

read_numeral :
    (fuel n : ℕ) (rest : List ℕ)
    → n ≤ fuel
    → read_digits (numeral fuel n rest) 0 ≡ read_digits rest n
unfolding numeral
read_numeral zero n rest h =
    read_one (48 + n % 10) 0 rest (omega arith) (omega arith) ∙ ap (read_digits rest) (omega arith)
read_numeral (suc fuel) n rest h = elim (Bool-cases (ltb n 10)) [
  | inl small ↦ rw small (
      read_one (48 + n % 10) 0 rest (omega arith) (omega arith)
      ∙ ap (read_digits rest) (ground arith))
  | inr large ↦ rw large (
      read_numeral fuel (n / 10) ((48 + n % 10) ∷ rest) (ground arith)
      ∙ read_one (48 + n % 10) (n / 10) rest (omega arith) (omega arith)
      ∙ ap (read_digits rest) (omega arith))
]

-- a number without a sign
signed_digit :
    (c n : ℕ) (s : List ℕ)
    → 48 ≤ c
    → c ≤ 57
    → n < 2 ^ 31
    → read_digits (c ∷ s) 0 ≡ n
    → signed (skip_space (c ∷ s)) ≡ ok n
unfolding signed skip_space
signed_digit c n s low high h e =
    let dark : is_space c ≡ false = ground arith in
    let no_minus : (c == b'-') ≡ false = ground arith in
    let no_plus : (c == b'+') ≡ false = ground arith in
    rw (dark, no_minus, no_plus, e, lt→ltb n (2 ^ 31) h) refl

pub atoi-decimal : (n : ℕ) → n < 2 ^ 31 → atoi (decimal n) ≡ ok n
unfolding atoi decimal read_digits
atoi-decimal n h =
    let (c, s, e, low, high) = numeral_starts n n [] in
    rw e (
      signed_digit c n s low high h
        (ap (λ t. read_digits t 0) (sym e) ∙ read_numeral n n [] (omega arith)))

pub atoi-minus : (n : ℕ) → n ≤ 2 ^ 31 → atoi (b'-' ∷ decimal n) ≡ ok ((2 ^ 64 - n) % 2 ^ 64)
unfolding atoi decimal signed skip_space read_digits
atoi-minus n h = rw (read_numeral n n [] (omega arith), le→leb n (2 ^ 31) h) refl
