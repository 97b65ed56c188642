-- ===== src/Dram/Channel/Steady.antt =====
-- dram_channel_cycle of src/dramchannel.cpp as a whole.
use mds.Dram.Channel.Invariant.{kind, shape}
use mds.Base.{
  ◌^◌, sub32, add64, ℕ, zero, suc, ◌+◌, ◌≤◌, ◌<◌, ◌≡◌, refl, sym, ap, ◌∙◌, subst, inl, inr, Bool,
  true, false, arith, Result, ok, ◌>>=◌, ◌==◌, if◌then◌else◌, set, set_beyond, for_range_inv,
  Bool-cases, tally, Rand,
}
use native.Mathlib.Decide.{dec_lt, ℕ_discrete}
use mds.Settings.{Settings}
use mds.Dram.Types.{Bank, Channel}
use mds.Dram.Outbox.{Outbox}
use mds.Dram.Bus.{busq_at}
use mds.Dram.Bank.{is_read, bank_rfmab}
use mds.Dram.Cycle.{bank_at, put_bank}
use mds.Dram.Channel.{
  lowest_bit, each_bank, channel_rfmab, channel_rfmsb, serve_rfm, cycle_banks, schedule_rdwrq,
  channel_cycle,
}
use mds.Dram.Channel.Invariant.{
  IsSound, read_weight, bus_weight, reads, put_bank-IsSound, reads-put_bank,
}
use mds.Dram.Channel.Serving.{Steady, bank_cycle-Steady, bankq-BankOk}
use mds.Dram.Channel.Granting.{
  granted, granted-IsSound, reads-granted, deliver, schedule_rdwrq-Scheduled,
}

-- the channel is well-formed and has the reads in flight that `c` has
abbrev pub Same : Channel → Channel → Type 0
Same c d = IsSound d × (shape d ≡ shape c) × ((a : ℕ) → reads a d ≡ reads a c)

-- `f` changes neither the number nor the requests of a bank
abbrev pub KeepsQueue : (Bank → Bank) → Type 0
KeepsQueue f = (b : Bank) → (kind (f b) ≡ kind b) × ((f b).bankq ≡ b.bankq)

put_bank-Same :
    (f : Bank → Bank) (c d : Channel) (i : ℕ)
    → KeepsQueue f
    → Same c d
    → Same c (put_bank d i (f (bank_at d i)))
put_bank-Same f c d i k (v, n, w) = elim (dec_lt i d.num_banks) [
  | yes h ↦
      let b = bank_at d i in
      (
        put_bank-IsSound d i (f b) v h ((k b).0 ∙ v.ids i h)
            (bankq-BankOk b (f b) (k b).1 (v.bank_ok i h)),
        n,
        λ a. omega (
          arith,
          reads-put_bank a d i (f b) (omega (arith, v.banks, h)),
          ap (tally (read_weight a)) (k b).1,
          w a,
        ),
      )
  | no h ↦
      let e : set d.bank i (f (bank_at d i)) ≡ d.bank =
        set_beyond d.bank i (f (bank_at d i)) (omega (arith, v.banks)) in
      subst (Same c) (ap (λ t. record d { bank = t }) (sym e)) (v, n, w)
]

pub each_bank-Same :
    (f : Bank → Bank) (c : Channel) (start n : ℕ)
    → KeepsQueue f
    → IsSound c
    → Same c (each_bank f c start n)
unfolding each_bank
each_bank-Same f c start n k v =
    for_range_inv (λ _ d. Same c d) (λ ii d. put_bank d ii (f (bank_at d ii))) n start (start + n) c
      refl (λ ii d a b s. put_bank-Same f c d ii k s) (v, refl, λ a. refl)

Same-trans : (c d e : Channel) → Same c d → Same d e → Same c e
Same-trans c d e (v, n, w) (v', n', w') = (v', n' ∙ n, λ a. w' a ∙ w a)

bank_rfmab-KeepsQueue : (g : Settings) (latest : ℕ) → KeepsQueue (λ b. bank_rfmab g b latest)
unfolding bank_rfmab
bank_rfmab-KeepsQueue g latest b = (refl, refl)

channel_rfmab-Same :
    (g : Settings) (now : ℕ) (c : Channel) → IsSound c → Same c (channel_rfmab g now c)
unfolding channel_rfmab
channel_rfmab-Same g now c v = each_bank-Same _ c 0 c.num_banks (bank_rfmab-KeepsQueue g _) v

channel_rfmsb-Same :
    (g : Settings) (now : ℕ) (c : Channel) → IsSound c → Same c (channel_rfmsb g now c)
unfolding channel_rfmsb reads
channel_rfmsb-Same g now c v =
    each_bank-Same _ (record c { rfmsb = sub32 c.rfmsb (2 ^ lowest_bit c.rfmsb) }) _ _
      (bank_rfmab-KeepsQueue g _) v

raised_rfmab-Same :
    (g : Settings) (now : ℕ) (c : Channel)
    → IsSound c
    → Same c (channel_rfmab g now (record c { rfmab = false; s_rfm = add64 c.s_rfm 1 }))
unfolding reads
raised_rfmab-Same g now c v =
    channel_rfmab-Same g now (record c { rfmab = false; s_rfm = add64 c.s_rfm 1 }) v

raised_rfmsb-Same :
    (g : Settings) (now : ℕ) (c : Channel)
    → IsSound c
    → Same c (channel_rfmsb g now (record c { s_rfm = add64 c.s_rfm 1 }))
unfolding reads
raised_rfmsb-Same g now c v = channel_rfmsb-Same g now (record c { s_rfm = add64 c.s_rfm 1 }) v

ab_rfm-Same :
    (g : Settings) (now : ℕ) (c : Channel)
    → IsSound c
    → Same c (
        if c.rfmab
        then channel_rfmab g now (record c { rfmab = false; s_rfm = add64 c.s_rfm 1 })
        else c)
ab_rfm-Same g now c v = elim (Bool-cases c.rfmab) [
  | inl raised ↦ subst decided (sym raised) (raised_rfmab-Same g now c v)
  | inr calm ↦ subst decided (sym calm) (v, refl, λ a. refl)
]
  where
    decided : Bool → Type 0
    decided t =
        Same c (
          if t
          then channel_rfmab g now (record c { rfmab = false; s_rfm = add64 c.s_rfm 1 })
          else c)

sb_rfm-Same :
    (g : Settings) (now : ℕ) (c : Channel)
    → IsSound c
    → Same c
        (if c.rfmsb == 0 then c else channel_rfmsb g now (record c { s_rfm = add64 c.s_rfm 1 }))
sb_rfm-Same g now c v = elim (Bool-cases (c.rfmsb == 0)) [
  | inl calm ↦ rw calm (v, refl, λ a. refl)
  | inr raised ↦ rw raised (raised_rfmsb-Same g now c v)
]

pub serve_rfm-Same : (g : Settings) (now : ℕ) (c : Channel) → IsSound c → Same c (serve_rfm g now c)
unfolding serve_rfm
serve_rfm-Same g now c v =
    let s = ab_rfm-Same g now c v in Same-trans c _ _ s (sb_rfm-Same g now _ s.0)

pub cycle_banks-Steady :
    (g : Settings) (now n ii : ℕ) (c : Channel) (r : Rand)
    → g.dram_sched_policy < 2
    → IsSound c
    → ii + n ≤ c.num_banks
    → Steady c (cycle_banks g now n ii c r)
unfolding cycle_banks
cycle_banks-Steady g now zero ii c r known v h = (c, r, refl, v, refl, λ a. refl)
cycle_banks-Steady g now (suc n) ii c r known v h =
    let (c1, r1, e1, v1, n1, w1) = bank_cycle-Steady g now ii c r v (omega arith) known in
    let (c2, r2, e2, v2, n2, w2) =
      cycle_banks-Steady g now n (ii + 1) c1 r1 known v1
        (omega (arith, ap (λ (t : ℕ × ℕ). t.0) n1)) in
    (c2, r2, rw (e1, e2), v2, n2 ∙ n1, λ a. w2 a ∙ w1 a)

module _ {W : Type 0} (o : Outbox W) (g : Settings) (now : ℕ) (other : ℕ → ℕ) where
  -- The outside waits for the reads in flight in the channel and for those that are elsewhere.
  abbrev pub Balanced : Channel → W → Type 0
  Balanced c w = o.Good w × ((a : ℕ) → reads a c + other a ≡ o.pending a w)

  abbrev Delivered : Channel → Result (Channel × W) → Type 0
  Delivered c out =
      (c' : Channel) × (w' : W) × (out ≡ ok (c', w'))
      × IsSound c'
      × (shape c' ≡ shape c)
      × Balanced c' w'

  delivered :
      (index : ℕ) (c : Channel) (w : W)
      → IsSound c
      → index < c.num_banks
      → (busq_at c index).valid ≡ true
      → Balanced c w
      → Delivered c (
          deliver o.callback (busq_at c index) w >>= λ w1.
          ok (granted g now index (record (c.rdwr_token) { prev_time = now }) c, w1))
  delivered index c w v h taken (good, bal) =
      let e = busq_at c index in
      let c' = granted g now index (record (c.rdwr_token) { prev_time = now }) c in
      let v' =
        granted-IsSound g now index (record (c.rdwr_token) { prev_time = now }) c v h taken in
      let lost =
        reads-granted g now index (record (c.rdwr_token) { prev_time = now }) c v h taken in
      elim (Bool-cases (is_read e.reqtype)) [
        | inr write ↦ (
          c',
          w,
          rw write,
          v',
          refl,
          (
            good,
            λ a.
                let none_lost : bus_weight a e ≡ 0 = rw (taken, write) in
                omega (arith, lost a, bal a, none_lost),
          ),
        )
        | inl read ↦
            let one : bus_weight e.lineaddr e ≡ 1 = ground arith in
            let (w', sent, good', fewer, rest) =
              o.delivers e.lineaddr w good (omega (arith, lost e.lineaddr, bal e.lineaddr, one)) in
            (
              c',
              w',
              rw (read, sent),
              v',
              refl,
              (
                good',
                λ a. elim (ℕ_discrete a e.lineaddr) [
                  | yes same ↦
                      subst (λ t. reads t c' + other t ≡ o.pending t w') (sym same)
                        (omega (arith, lost e.lineaddr, bal e.lineaddr, one, fewer))
                  | no differs ↦
                      let none_lost : bus_weight a e ≡ 0 = ground arith in
                      omega (arith, lost a, bal a, none_lost, rest a differs)
                ],
              ),
            )
      ]

  schedule_rdwrq-Delivered :
      (c : Channel) (w : W)
      → IsSound c
      → Balanced c w
      → Delivered c (schedule_rdwrq o.callback g now c w)
  schedule_rdwrq-Delivered c w v bal = elim (schedule_rdwrq-Scheduled o.callback g now c w v) [
    | inl (e, why) ↦ (c, w, e, v, refl, bal)
    | inr (index, h, (ii, l, e', ready_now, before), free, e) ↦
        subst (Delivered c) (sym e) (delivered index c w v h (ground arith) bal)
  ]

  -- what a cycle of a channel comes to
  abbrev pub Cycled : Channel → Result (Channel × Rand × W) → Type 0
  Cycled c out =
      (c' : Channel) × (r' : Rand) × (w' : W) × (out ≡ ok (c', r', w'))
      × IsSound c'
      × (shape c' ≡ shape c)
      × Balanced c' w'

  pub channel_cycle-Cycled :
      (c : Channel) (r : Rand) (w : W)
      → g.dram_sched_policy < 2
      → IsSound c
      → Balanced c w
      → Cycled c (channel_cycle o.callback g now c r w)
  unfolding channel_cycle
  channel_cycle-Cycled c r w known v bal =
      let (c1, w1, e1, v1, n1, bal1) = schedule_rdwrq-Delivered c w v bal in
      let (c2, r2, e2, v2, n2, same2) =
        cycle_banks-Steady g now c1.num_banks 0 c1 r known v1 (omega arith) in
      let (v3, n3, same3) = serve_rfm-Same g now c2 v2 in
      (
        serve_rfm g now c2,
        r2,
        w1,
        rw (e1, e2),
        v3,
        n3 ∙ n2 ∙ n1,
        (bal1.0, λ a. omega (arith, bal1.1 a, same2 a, same3 a)),
      )
