-- ===== src/Dram/Channel/Service.antt =====
-- dram_bank_service of src/drambank.cpp, seen from the channel.
use mds.Base.{
  ap, ℕ, leb, mul64, add64, ◌/◌, ◌<◌, ◌≡◌, refl, ◌∙◌, inl, inr, true, false, ◌&&◌, arith, Result,
  ok, lt→ltb, ltb, ◌==◌, Bool-cases, to32, add32, Rand,
}
use mds.Dram.Channel.Invariant.{kind}
use mds.Settings.{Settings}
use mds.Dram.Types.{ReqType, Bank, Channel}
use mds.Dram.Bank.{
  is_data, is_busy, Act, read_write, close_early, access_row, group_of, set_bit, raise_rfm,
  para_drfm, after_act, bank_service,
}

-- service may only raise requests for refresh management
abbrev pub RaisesOnly : Channel → Channel → Type 0
RaisesOnly c c1 = c1 ≡ record c { rfmab = c1.rfmab; rfmsb = c1.rfmsb }

group_of-ok :
    (c : Channel) (b : Bank)
    → 0 < to32 c.banks_in_bankgroup
    → b.id < 32
    → group_of c b ≡ ok (b.id / to32 c.banks_in_bankgroup)
unfolding group_of
group_of-ok c b pos small =
    let ne : (to32 c.banks_in_bankgroup == 0) ≡ false = ground arith in
    let lt : b.id / to32 c.banks_in_bankgroup < 32 = grind arith in rw (ne, lt→ltb _ _ lt)

raise_rfm-ok :
    (g : Settings) (c : Channel) (b : Bank)
    → 0 < to32 c.banks_in_bankgroup
    → b.id < 32
    → (c1 : Channel) × (raise_rfm g c b ≡ ok c1) × RaisesOnly c c1
unfolding raise_rfm
raise_rfm-ok g c b pos small =
    elim (Bool-cases (ltb 0 g.dram_rfm_policy && leb (mul64 3 g.rfm_th) b.raa)) [
      | inr off ↦ (c, rw off, refl)
      | inl on ↦ elim (Bool-cases (g.dram_rfm_policy == 2)) [
        | inl ab ↦ (record c { rfmab = true }, rw (on, ab), refl)
        | inr not_ab ↦ elim (Bool-cases (g.dram_rfm_policy == 1)) [
          | inl sb ↦ (
            record c { rfmsb = set_bit c.rfmsb (b.id / to32 c.banks_in_bankgroup) },
            rw (on, not_ab, sb, group_of-ok c b pos small),
            refl,
          )
          | inr other ↦ (c, rw (on, not_ab, other), refl)
        ]
      ]
    ]

para_drfm-keeps :
    (g : Settings) (b : Bank) (r : Rand)
    → ((para_drfm g b r).0.bankq ≡ b.bankq) × (kind (para_drfm g b r).0 ≡ kind b)
unfolding para_drfm
para_drfm-keeps g b r =
    let i : (para_drfm g b r).0.id ≡ b.id = ground arith in
    let n : (para_drfm g b r).0.num_rows ≡ b.num_rows = ground arith in (ground arith, cc)

read_write-keeps :
    (g : Settings) (now rowid : ℕ) (b : Bank)
    → ((read_write g now rowid b).bank.bankq ≡ b.bankq)
      × (kind (read_write g now rowid b).bank ≡ kind b)
unfolding read_write close_early access_row
read_write-keeps g now rowid b =
    let i : (read_write g now rowid b).bank.id ≡ b.id = ground arith in
    let n : (read_write g now rowid b).bank.num_rows ≡ b.num_rows = ground arith in
    (ground arith, cc)

-- What `dram_bank_service` leaves alone.
abbrev pub Served : Channel → Bank → Result (ℕ × Channel × Bank × Rand) → Type 0
Served c b out =
    (delay : ℕ) × (c1 : Channel) × (b1 : Bank) × (r1 : Rand) × (out ≡ ok (delay, c1, b1, r1))
    × RaisesOnly c c1
    × (b1.bankq ≡ b.bankq)
    × (kind b1 ≡ kind b)

after_act-Served :
    (g : Settings) (c : Channel) (b : Bank) (a : Act) (r : Rand)
    → 0 < to32 c.banks_in_bankgroup
    → b.id < 32
    → a.bank.bankq ≡ b.bankq
    → kind a.bank ≡ kind b
    → Served c b (after_act g c a r)
unfolding after_act
after_act-Served g c b a r pos small q e = elim (Bool-cases a.new_act) [
  | inr hit ↦ (a.delay, c, a.bank, r, rw hit, refl, q, e)
  | inl act ↦
      let (c1, raised, only) =
        raise_rfm-ok g c counted pos (omega (arith, ap (λ (t : ℕ × ℕ). t.0) e)) in
      let k = para_drfm-keeps g counted r in
      (
        a.delay,
        c1,
        (para_drfm g counted r).0,
        (para_drfm g counted r).1,
        rw (act, raised),
        only,
        k.0 ∙ q,
        k.1 ∙ e,
      )
]
  where
    counted : Bank
    counted = record (a.bank) { s_act = add64 a.bank.s_act 1; raa = add32 a.bank.raa 1 }

pub bank_service-Served :
    (g : Settings) (now : ℕ) (c : Channel) (b : Bank) (type : ReqType) (rowid : ℕ) (r : Rand)
    → 0 < to32 c.banks_in_bankgroup
    → b.id < 32
    → is_busy b.status ≡ false
    → Served c b (bank_service g now c b type rowid r)
unfolding bank_service
bank_service-Served g now c b type rowid r pos small awake = elim (Bool-cases (is_data type)) [
  | inr other ↦ (0, c, b, r, rw (awake, other), refl, refl, refl)
  | inl data_request ↦
      let k = read_write-keeps g now rowid b in
      rw (awake, data_request)
        (after_act-Served g c b (read_write g now rowid b) r pos small k.0 k.1)
]
