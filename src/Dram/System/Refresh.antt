-- ===== src/Dram/System/Refresh.antt =====
-- The refreshes of dram_cycle of src/dram.cpp leave the requests alone.
use mds.Base.{
  false, true, ℕ, ◌-◌, ◌<◌, ◌≡◌, refl, ap, ◌∙◌, arith, Result, ok, Bool-cases, inl, inr,
  if◌then◌else◌, Bool, ltb, sub64, add64, mul64, to32, for_range_inv, ◌==◌, ◌/◌, ◌%◌,
}
use mds.Settings.{Settings}
use mds.Dram.Types.{RefType, Channel, Dram, ref_none, ref_sb, ref_ab, ref_other}
use mds.Dram.Bank.{bank_refresh}
use mds.Dram.Channel.Invariant.{IsSound}
use mds.Dram.Channel.Steady.{Same, KeepsQueue, each_bank-Same}
use mds.Dram.System.{
  channel_at, put_channel, refresh_banks, refresh_channels, refresh_sb, refresh_ab, refresh,
  tick_refresh,
}
use mds.Dram.System.State.{
  CyclesOnly, CyclesOnly-trans, AllSound, in_flight, put_channel-AllSound, in_flight-put_channel,
}

-- the DRAM is well-formed and has the reads in flight that `d` has; only what a cycle may change has
-- changed
abbrev pub SameDram : ℕ → Dram → Dram → Type 0
SameDram rows d e = AllSound e rows × CyclesOnly d e × ((a : ℕ) → in_flight a e ≡ in_flight a d)

bank_refresh-KeepsQueue : (g : Settings) (latest : ℕ) → KeepsQueue (λ b. bank_refresh g b latest)
unfolding bank_refresh
bank_refresh-KeepsQueue g latest b = (refl, refl)

refresh_banks-Same :
    (g : Settings) (now start n : ℕ) (c : Channel)
    → IsSound c
    → Same c (refresh_banks g now start n c)
unfolding refresh_banks
refresh_banks-Same g now start n c v = each_bank-Same _ c start n (bank_refresh-KeepsQueue g _) v

-- a channel that kept its requests may be written back
put_channel-SameDram :
    (d e : Dram) (i rows : ℕ) (c : Channel)
    → i < d.num_channels
    → SameDram rows d e
    → (IsSound (channel_at e i) → Same (channel_at e i) c)
    → SameDram rows d (put_channel e i c)
put_channel-SameDram d e i rows c h (v, only, w) same =
    let n : e.num_channels ≡ d.num_channels = ap (λ (t : Dram). t.num_channels) only in
    let (s, shaped, k) = same (v.sound i (omega (arith, n))) in
    (
      put_channel-AllSound e rows i c v (omega (arith, n)) s shaped,
      CyclesOnly-trans d e (put_channel e i c) only refl,
      λ a. omega (arith, in_flight-put_channel a e i c (omega (arith, v.count, n)), k a, w a),
    )

refresh_channels-Same :
    (g : Settings) (now start n rows : ℕ) (d : Dram)
    → AllSound d rows
    → SameDram rows d (refresh_channels g now start n d)
unfolding refresh_channels
refresh_channels-Same g now start n rows d v =
    for_range_inv (λ _ e. SameDram rows d e)
      (λ ii e. put_channel e ii (refresh_banks g now start n (channel_at e ii))) d.num_channels 0
      d.num_channels d (omega arith)
      (λ ii e a b s.
        put_channel-SameDram d e ii rows _ b s (refresh_banks-Same g now start n (channel_at e ii)))
      (v, refl, λ a. refl)

-- what a refresh comes to
abbrev pub Refreshed : ℕ → Dram → Result Dram → Type 0
Refreshed rows d out = (d' : Dram) × (out ≡ ok d') × SameDram rows d d'

refresh_sb-Refreshed :
    (g : Settings) (now rows : ℕ) (d : Dram)
    → AllSound d rows
    → 0 < d.banks_in_bankgroup
    → Refreshed rows d (refresh_sb g now d)
unfolding refresh_sb in_flight
refresh_sb-Refreshed g now rows d v pos =
    let start = to32 (mul64 d.refsb_ptr d.banks_in_bankgroup) in
    let e = refresh_channels g now start (to32 (add64 start d.banks_in_bankgroup) - start) d in
    let (s, only, w) =
      refresh_channels-Same g now start (to32 (add64 start d.banks_in_bankgroup) - start) rows d
        v in
    let ne : (d.banks_in_bankgroup == 0) ≡ false = ground arith in
    let e' = record e { refsb_ptr = add64 d.refsb_ptr 1 % d.banks_in_bankgroup } in
    (e', rw ne, (s, CyclesOnly-trans d e e' only refl, w))

by_mode : Settings → ℕ → Dram → RefType → Result Dram
by_mode g now d m = elim m [
  | ref_sb ↦ refresh_sb g now d
  | ref_ab ↦ ok (refresh_ab g now d)
  | _ ↦ ok d
]

by_mode-Refreshed :
    (g : Settings) (now rows : ℕ) (d : Dram) (mode : RefType)
    → AllSound d rows
    → 0 < d.banks_in_bankgroup
    → Refreshed rows d (by_mode g now d mode)
unfolding by_mode refresh_ab
by_mode-Refreshed g now rows d ref_sb v pos = refresh_sb-Refreshed g now rows d v pos
by_mode-Refreshed g now rows d ref_ab v pos = (
  refresh_channels g now 0 (d.num_banks / d.num_channels) d,
  refl,
  refresh_channels-Same g now 0 (d.num_banks / d.num_channels) rows d v,
)
by_mode-Refreshed g now rows d ref_none v pos = (d, refl, (v, refl, λ a. refl))
by_mode-Refreshed g now rows d ref_other v pos = (d, refl, (v, refl, λ a. refl))

refresh-Refreshed :
    (g : Settings) (now rows : ℕ) (d : Dram)
    → AllSound d rows
    → 0 < d.banks_in_bankgroup
    → Refreshed rows d (refresh g now d)
unfolding refresh by_mode
refresh-Refreshed g now rows d v pos = by_mode-Refreshed g now rows d d.refmode v pos

-- the count of tREFW
abbrev count_trefw : ℕ → Dram → Bool → Dram
count_trefw now d due =
    if due then record d { last_trefw_cycle = now; num_trefw = add64 d.num_trefw 1 } else d

count_trefw-Same :
    (now rows : ℕ) (d : Dram) (due : Bool)
    → AllSound d rows
    → SameDram rows d (count_trefw now d due)
unfolding in_flight
count_trefw-Same now rows d true v = (v, refl, λ a. refl)
count_trefw-Same now rows d false v = (v, refl, λ a. refl)

counted_refresh-Refreshed :
    (g : Settings) (now rows : ℕ) (d : Dram)
    → AllSound d rows
    → 0 < d.banks_in_bankgroup
    → Refreshed rows d
        (refresh g now (record d { last_trefi_cycle = now; num_trefi = add64 d.num_trefi 1 }))
unfolding in_flight
counted_refresh-Refreshed g now rows d v pos =
    let e = record d { last_trefi_cycle = now; num_trefi = add64 d.num_trefi 1 } in
    let (d', done, (s, only, w)) = refresh-Refreshed g now rows e v pos in
    (d', done, (s, CyclesOnly-trans d e d' refl only, w))

pub tick_refresh-Refreshed :
    (g : Settings) (now rows : ℕ) (d : Dram)
    → AllSound d rows
    → 0 < d.banks_in_bankgroup
    → Refreshed rows d (tick_refresh g now d)
unfolding tick_refresh
tick_refresh-Refreshed g now rows d v pos =
    let d1 = count_trefw now d (ltb g.t_refw (sub64 now d.last_trefw_cycle)) in
    let (v1, only1, w1) =
      count_trefw-Same now rows d (ltb g.t_refw (sub64 now d.last_trefw_cycle)) v in
    let pos1 : 0 < d1.banks_in_bankgroup =
      omega (arith, ap (λ (t : Dram). t.banks_in_bankgroup) only1) in
    elim (Bool-cases (ltb g.t_refi (sub64 now d1.last_trefi_cycle))) [
      | inr early ↦ (d1, rw early, (v1, only1, w1))
      | inl due ↦
          let (d2, done, (v2, only2, w2)) = counted_refresh-Refreshed g now rows d1 v1 pos1 in
          (d2, rw (due, done), (v2, CyclesOnly-trans d d1 d2 only1 only2, λ a. w2 a ∙ w1 a))
    ]
