-- ===== src/Dramsim/Contract.antt =====
-- What src/memsys_dramsim3.cpp relies on in DRAMsim3: a read that is accepted is answered by one callback
-- with its address, and nothing else is.
use mds.Base.{
  ℕ, ◌+◌, ◌*◌, ◌/◌, ◌%◌, ◌^◌, ◌<◌, ◌≡◌, ◌≢◌, subst, ap, inl, inr, Bool, Bool-cases, true, false,
  List, ◌∷◌, ◌==◌, ==_iff, if◌then◌else◌, tally, arith, mul64, split_by, div-mul, mod-mul-add,
}
use mds.Dramsim.{Dramsim}
use mds.MemSys.Table.{Table, MshrEntry, count}

-- how many callbacks answer a read of these bytes
abbrev pub answers : ℕ → List (Bool × ℕ) → ℕ
answers b = tally (λ call. if call.0 then 0 else if call.1 == b then 1 else 0)

pub record Contract {D : Type 0} (s : Dramsim D) : Type 0 where
  -- the reads of an address that are accepted and not answered
  pub reads : ℕ → D → ℕ
  pub read_added :
      (d : D) (a b : ℕ)
      → s.will_accept_transaction d a false ≡ true
      → reads b (s.add_transaction d a false) ≡ reads b d + (if a == b then 1 else 0)
  pub write_added :
      (d : D) (a b : ℕ)
      → s.will_accept_transaction d a true ≡ true
      → reads b (s.add_transaction d a true) ≡ reads b d
  pub ticked :
      (d : D) (b : ℕ) → reads b ((s.clock_tick d).1) + answers b ((s.clock_tick d).0) ≡ reads b d

-- what the table has for the line that begins at a byte
abbrev pub asked : ℕ → ℕ → Table → ℕ
asked linesize b t = if b % linesize == 0 then count (b / linesize) t else 0

pub line_start :
    (linesize line : ℕ)
    → 0 < linesize
    → line * linesize < 2 ^ 64
    → (mul64 line linesize % linesize ≡ 0) × (mul64 line linesize / linesize ≡ line)
line_start linesize line pos fits =
    let whole : mul64 line linesize ≡ line * linesize = omega arith in
    rw whole (
      subst (λ t. t % linesize ≡ 0) {x = line * linesize + 0} {y = line * linesize} (omega arith)
          (mod-mul-add line linesize 0 pos),
      div-mul line linesize pos,
    )

-- one more line in the table
pub asked_more :
    (linesize line b : ℕ) (e : MshrEntry) (t : Table)
    → 0 < linesize
    → line * linesize < 2 ^ 64
    → asked linesize b ((line, e) ∷ t)
      ≡ asked linesize b t + (if mul64 line linesize == b then 1 else 0)
asked_more linesize line b e t pos fits = elim (Bool-cases (mul64 line linesize == b)) [
  | inl here ↦
      let same : mul64 line linesize ≡ b = ground arith in
      let (start, at) = line_start linesize line pos fits in
      let zeroth : (b % linesize == 0) ≡ true = ground (arith, start, same) in
      let found : (line == b / linesize) ≡ true = ground (arith, at, same) in
      rw (here, zeroth, found) (omega arith)
  | inr elsewhere ↦ elim (Bool-cases (b % linesize == 0)) [
    | inr inside ↦ rw (elsewhere, inside) (omega arith)
    | inl zeroth ↦
        let other : (line == b / linesize) ≡ false = elim (Bool-cases (line == b / linesize)) [
          | inr differs ↦ differs
          | inl agrees ↦
              let prod : line * linesize ≡ b / linesize * linesize =
                ap (λ t. t * linesize) ((==_iff line (b / linesize)).0 agrees) in
              let same : mul64 line linesize ≡ b = omega (
                arith,
                (split_by b linesize pos).0,
                prod,
                fits,
                (==_iff (b % linesize) 0).0 zeroth,
              ) in
              absurd (ground (arith, same))
        ] in
        rw (elsewhere, zeroth, other) (omega arith)
  ]
]

-- one line less in the table
pub asked_less :
    (linesize a b : ℕ) (t t' : Table)
    → 0 < linesize
    → a % linesize ≡ 0
    → count (a / linesize) t' + 1 ≡ count (a / linesize) t
    → ((c : ℕ) → c ≢ a / linesize → count c t' ≡ count c t)
    → asked linesize b t' + (if a == b then 1 else 0) ≡ asked linesize b t
asked_less linesize a b t t' pos start less others = elim (Bool-cases (a == b)) [
  | inl here ↦
      let same : a ≡ b = (==_iff a b).0 here in
      let zeroth : (b % linesize == 0) ≡ true = ground (arith, start, same) in
      rw (here, zeroth)
        (subst (λ c. count (c / linesize) t' + 1 ≡ count (c / linesize) t) same less)
  | inr elsewhere ↦ elim (Bool-cases (b % linesize == 0)) [
    | inr inside ↦ rw (elsewhere, inside) (omega arith)
    | inl zeroth ↦
        let ne : b / linesize ≢ a / linesize = λ e.
          let prod : b / linesize * linesize ≡ a / linesize * linesize = ap (λ c. c * linesize) e in
          let same : a ≡ b = omega (
            arith,
            (split_by a linesize pos).0,
            (split_by b linesize pos).0,
            prod,
            start,
            (==_iff (b % linesize) 0).0 zeroth,
          ) in
          absurd (ground (arith, same)) in
        rw (elsewhere, zeroth) (omega (arith, others (b / linesize) ne))
  ]
]

-- what is answered is asked for
pub asked_some :
    (linesize a : ℕ) (t : Table)
    → 0 < asked linesize a t
    → (a % linesize ≡ 0) × (0 < count (a / linesize) t)
asked_some linesize a t h = elim (Bool-cases (a % linesize == 0)) [
  | inl zeroth ↦ ((==_iff (a % linesize) 0).0 zeroth, rw zeroth at h)
  | inr inside ↦ let never : 0 < 0 = rw inside at h in absurd (omega (arith, never))
]
