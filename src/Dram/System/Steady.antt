-- ===== src/Dram/System/Steady.antt =====
-- dram_cycle of src/dram.cpp as a whole.
use mds.Base.{
  ℕ, zero, suc, ◌+◌, ◌-◌, ◌<◌, ◌≤◌, ◌≡◌, refl, ap, ◌∙◌, arith, Result, ok, get_or-le-tally, Rand,
}
use mds.Settings.{Settings}
use mds.Dram.Types.{Dram}
use mds.Dram.Outbox.{Outbox}
use mds.Dram.Channel.Invariant.{reads}
use mds.Dram.Channel.Steady.{channel_cycle-Cycled}
use mds.Dram.System.{no_channel, channel_at, put_channel, cycle_channels, dram_cycle}
use mds.Dram.System.State.{
  CyclesOnly, CyclesOnly-trans, AllSound, in_flight, put_channel-AllSound, in_flight-put_channel,
}
use mds.Dram.System.Refresh.{tick_refresh-Refreshed}

in_flight-covers :
    (a : ℕ) (d : Dram) (rows i : ℕ)
    → AllSound d rows
    → i < d.num_channels
    → reads a (channel_at d i) ≤ in_flight a d
unfolding in_flight
in_flight-covers a d rows i v h =
    get_or-le-tally (reads a) d.channel i no_channel (omega (arith, v.count))

module _ {W : Type 0} (o : Outbox W) (g : Settings) (now : ℕ) where
  -- The outside waits exactly for the reads in flight.
  abbrev pub AllBalanced : Dram → W → Type 0
  AllBalanced d w = o.Good w × ((a : ℕ) → in_flight a d ≡ o.pending a w)

  -- what a cycle of the DRAM comes to
  abbrev pub DramCycled : ℕ → Dram → Result (Dram × Rand × W) → Type 0
  DramCycled rows d out =
      (d' : Dram) × (r' : Rand) × (w' : W) × (out ≡ ok (d', r', w'))
      × AllSound d' rows
      × CyclesOnly d d'
      × AllBalanced d' w'

  cycle_channels-DramCycled :
      (n ii rows : ℕ) (d : Dram) (r : Rand) (w : W)
      → g.dram_sched_policy < 2
      → ii + n ≤ d.num_channels
      → AllSound d rows
      → AllBalanced d w
      → DramCycled rows d (cycle_channels o.callback g now n ii d r w)
  unfolding cycle_channels
  cycle_channels-DramCycled zero ii rows d r w known h v bal = (d, r, w, refl, v, refl, bal)
  cycle_channels-DramCycled (suc n) ii rows d r w known h v (good, bal) =
      let c = channel_at d ii in
      let i : ii < d.num_channels = omega arith in
      let other = λ (a : ℕ). in_flight a d - reads a c in
      let (c', r', w', done, s, shaped, (good', bal')) =
        channel_cycle-Cycled o g now other c r w known (v.sound ii i)
          (good, λ a. omega (arith, bal a, in_flight-covers a d rows ii v i)) in
      let d' = put_channel d ii c' in
      let all : (a : ℕ) → in_flight a d' ≡ o.pending a w' = λ a. omega (
        arith,
        bal' a,
        in_flight-covers a d rows ii v i,
        in_flight-put_channel a d ii c' (omega (arith, v.count)),
      ) in
      let (e, r'', w'', rest, v'', only, bal'') =
        cycle_channels-DramCycled n (ii + 1) rows d' r' w' known (omega arith)
          (put_channel-AllSound d rows ii c' v i s shaped) (good', all) in
      (e, r'', w'', rw (done, rest), v'', CyclesOnly-trans d d' e refl only, bal'')

  pub dram_cycle-DramCycled :
      (rows : ℕ) (d : Dram) (r : Rand) (w : W)
      → g.dram_sched_policy < 2
      → 0 < d.banks_in_bankgroup
      → AllSound d rows
      → AllBalanced d w
      → DramCycled rows d (dram_cycle o.callback g now d r w)
  unfolding dram_cycle
  dram_cycle-DramCycled rows d r w known pos v bal =
      let (d1, r1, w1, e1, v1, only1, (good1, bal1)) =
        cycle_channels-DramCycled d.num_channels 0 rows d r w known (omega arith) v bal in
      let (d2, e2, (v2, only2, w2)) =
        tick_refresh-Refreshed g now rows d1 v1
          (omega (arith, ap (λ (t : Dram). t.banks_in_bankgroup) only1)) in
      (
        d2,
        r1,
        w1,
        rw (e1, e2),
        v2,
        CyclesOnly-trans d d1 d2 only1 only2,
        (good1, λ a. w2 a ∙ bal1 a),
      )
