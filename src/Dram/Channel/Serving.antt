-- ===== src/Dram/Channel/Serving.antt =====
-- dram_bank_cycle of src/drambank.cpp, seen from the channel.
use mds.Dram.Channel.Invariant.{kind, kind_at, shape}
use mds.Base.{
  ℕ, ◌<◌, ◌≡◌, refl, sym, ap, ◌∙◌, subst, inl, inr, true, false, List, arith, Result, ok, ltb, ◌==◌,
  length, get_or, Bool-cases, tally, Rand,
}
use mds.Settings.{Settings}
use mds.Dram.Types.{BankqEntry, Bank, ready, Channel, no_bankq_entry}
use mds.Dram.Bus.{busq_at}
use mds.Dram.Bank.{is_busy, is_wait, bankq_at}
use mds.Dram.Bank.Schedule.{bank_schedule-FirstReady}
use mds.Dram.Cycle.{bank_at, put_bank, finish, serve, awake_cycle, bank_cycle}
use mds.Dram.Channel.Invariant.{
  BankOk, IsSound, read_weight, reads, put_bank-IsSound, reads-put_bank,
}
use mds.Dram.Channel.Service.{RaisesOnly, bank_service-Served}
use mds.Dram.Channel.Finish.{Kept, finish-Kept}

-- What a cycle of a bank keeps of the channel: it is well-formed, and has the same reads in flight.
abbrev pub Steady : Channel → Result (Channel × Rand) → Type 0
Steady c out =
    (c' : Channel) × (r' : Rand) × (out ≡ ok (c', r'))
    × IsSound c'
    × (shape c' ≡ shape c)
    × ((a : ℕ) → reads a c' ≡ reads a c)

pub bankq-BankOk : (b b1 : Bank) → b1.bankq ≡ b.bankq → BankOk b → BankOk b1
bankq-BankOk b b1 q k = record {
  short = omega (arith, k.short, ap length q);
  waiting = subst Waiting (sym q) k.waiting;
}
  where
    Waiting : List BankqEntry → Type 0
    Waiting t = (j : ℕ) → j < length t → is_wait (get_or t j no_bankq_entry).status ≡ true

-- requests for refresh management do not matter to the end of the cycle
raised-Kept :
    (now i index delay : ℕ) (c c1 : Channel) (b : Bank)
    → IsSound c
    → i < c.num_banks
    → kind b ≡ kind_at c i
    → BankOk b
    → index < length b.bankq
    → (busq_at c i).valid ≡ false
    → RaisesOnly c c1
    → Kept c i b (finish now i index delay c1 b)
unfolding reads
raised-Kept now i index delay c c1 b v h e k l free only =
    subst (λ t. Kept c i b (finish now i index delay t b)) (sym only)
      (finish-Kept now i index delay (record c { rfmab = c1.rfmab; rfmsb = c1.rfmsb }) b v h e k l
        free)

module _ (g : Settings) (now i : ℕ) (c : Channel) (r : Rand) (v : IsSound c) (h : i < c.num_banks)
    (known : g.dram_sched_policy < 2) where
  serve-Steady :
      (b : Bank)
      → kind b ≡ kind_at c i
      → BankOk b
      → b.bankq ≡ (bank_at c i).bankq
      → is_busy b.status ≡ false
      → 0 < length b.bankq
      → (busq_at c i).valid ≡ false
      → Steady c (serve g now c i b r)
  unfolding serve
  serve-Steady b e k q awake some_request free =
      let (index, scheduled, l, first) = bank_schedule-FirstReady g b some_request known in
      let (delay, c1, b1, r1, done, only, q1, e1) =
        bank_service-Served g now c b (bankq_at b index).reqtype (bankq_at b index).rowid r v.groups
          (omega (arith, v.limit, ap (λ (t : ℕ × ℕ). t.0) e)) awake in
      let (c2, finished_, s, n, w) =
        raised-Kept now i index delay c c1 b1 v h (e1 ∙ e) (bankq-BankOk b b1 q1 k)
          (omega (arith, l, ap length q1)) free only in
      (
        c2,
        r1,
        rw (scheduled, k.waiting index l, done, finished_),
        s,
        n,
        λ a. omega (arith, w a, ap (tally (read_weight a)) (q1 ∙ q)),
      )

  untouched :
      (b : Bank)
      → kind b ≡ kind_at c i
      → BankOk b
      → b.bankq ≡ (bank_at c i).bankq
      → Steady c (ok (put_bank c i b, r))
  untouched b e k q = (
    put_bank c i b,
    r,
    refl,
    put_bank-IsSound c i b v h e k,
    refl,
    λ a.
        omega
          (arith, reads-put_bank a c i b (omega (arith, v.banks, h)), ap (tally (read_weight a)) q),
  )

  awake_cycle-Steady :
      (b : Bank)
      → kind b ≡ kind_at c i
      → BankOk b
      → b.bankq ≡ (bank_at c i).bankq
      → is_busy b.status ≡ false
      → Steady c (awake_cycle g now c i b r)
  unfolding awake_cycle
  awake_cycle-Steady b e k q awake = elim (Bool-cases (length b.bankq == 0)) [
    | inl no_request ↦ rw no_request (untouched b e k q)
    | inr some_request ↦ elim (Bool-cases (busq_at c b.id).valid) [
      | inl taken ↦ rw (some_request, taken) (untouched b e k q)
      | inr free ↦
          rw (some_request, free)
            (serve-Steady b e k q awake (ground arith)
              (ap (λ t. (busq_at c t).valid) (sym (ap (λ (t : ℕ × ℕ). t.0) e)) ∙ free))
    ]
  ]

  -- On a well-formed channel with one of the two scheduling policies, dram_bank_cycle of a bank of the
  -- channel never fails an assertion, keeps the channel well-formed, and neither loses nor adds a read in
  -- flight.
  pub bank_cycle-Steady : Steady c (bank_cycle g now c i r)
  unfolding bank_cycle
  bank_cycle-Steady =
      let b = bank_at c i in
      let k = v.bank_ok i h in
      elim (Bool-cases (is_busy b.status)) [
        | inr awake ↦ rw awake (awake_cycle-Steady b (v.ids i h) k refl awake)
        | inl asleep ↦ elim (Bool-cases (ltb b.sleep_cycle now)) [
          | inl wakes ↦
              rw (asleep, wakes)
                (awake_cycle-Steady (record b { status = ready }) (v.ids i h)
                  (bankq-BankOk b (record b { status = ready }) refl k) refl refl)
          | inr sleeps ↦ rw (asleep, sleeps) (c, r, refl, v, refl, λ a. refl)
        ]
      ]
