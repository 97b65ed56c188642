-- ===== src/Dram/Address/Total.antt =====
-- dram_parseaddr of src/dram.cpp is total: every line of the memory has a place, and only one column.
use mds.Base.{
  ℕ, ◌+◌, ◌*◌, ◌/◌, ◌%◌, ◌<◌, ◌≡◌, sym, ap, ◌∙◌, subst, arith, ok, div-mul-add, mod-mul-add,
  split_by, div-lt, mul-add-lt,
}
use native.Mathlib.Decide.{ℕ_discrete}
use mds.Settings.{Settings}
use mds.Dram.Types.{Dram}
use mds.Dram.Address.{Place, parseaddr}
use mds.Dram.Address.Codec.{Geometry, InMemory, line_of, parseaddr-line_of}

-- A number below `m * k` is a digit below `m` and one below `k`.
pub record Digits (n m k : ℕ) : Type 0 where
  pub high : ℕ
  pub low : ℕ
  pub high-lt : high < m
  pub low-lt : low < k
  pub value : n ≡ high * k + low

Digits-of : (n m k : ℕ) → 0 < k → n < m * k → Digits n m k
Digits-of n m k h l = record {
  high = n / k;
  low = n % k;
  high-lt = div-lt n m k l;
  low-lt = (split_by n k h).1;
  value = (split_by n k h).0;
}

-- where a line stands
abbrev pub Placed : Settings → Dram → ℕ → ℕ → Type 0
Placed g d rows x =
    (p : Place) × (col : ℕ) × InMemory d rows p
    × (col < d.lines_in_rowbuf)
    × (line_of g d p col ≡ x)

module _ (g : Settings) (d : Dram) (rows : ℕ) (v : Geometry g d rows) (x : ℕ)
    (h : x < d.lines_in_mem) where
  coffeelake_build :
      g.dram_map_policy ≡ 0
      → (a : Digits x (rows * d.banks_in_channel * d.num_channels) d.lines_in_rowbuf)
      → (b : Digits a.high (rows * d.banks_in_channel) d.num_channels)
      → (c : Digits b.high rows d.banks_in_channel) → Placed g d rows x
  unfolding line_of
  coffeelake_build e a b c = (
    record { rowbufid = c.high; bankid = c.low; channelid = b.low },
    a.low,
    record { row = c.high-lt; bank = c.low-lt; channel = b.low-lt },
    a.low-lt,
    rw (e, ← c.value, ← b.value, ← a.value),
  )

  coffeelake-Placed : g.dram_map_policy ≡ 0 → Placed g d rows x
  coffeelake-Placed e =
      let a =
        Digits-of x (rows * d.banks_in_channel * d.num_channels) d.lines_in_rowbuf
          (omega (arith, v.pairs, v.even)) (omega (arith, v.total)) in
      let b = Digits-of a.high (rows * d.banks_in_channel) d.num_channels v.channels a.high-lt in
      let c = Digits-of b.high rows d.banks_in_channel v.banks b.high-lt in coffeelake_build e a b c

  skylake_build :
      g.dram_map_policy ≡ 1
      → (a : Digits x (rows * d.banks_in_channel * (d.lines_in_rowbuf / 2) * d.num_channels) 2)
      → (b : Digits a.high (rows * d.banks_in_channel * (d.lines_in_rowbuf / 2)) d.num_channels)
      → (c : Digits b.high (rows * d.banks_in_channel) (d.lines_in_rowbuf / 2))
      → (r : Digits c.high rows d.banks_in_channel) → Placed g d rows x
  unfolding line_of
  skylake_build e a b c r =
      let hi : (c.low * 2 + a.low) / 2 ≡ c.low = omega (arith, a.low-lt) in
      let lo : (c.low * 2 + a.low) % 2 ≡ a.low = omega (arith, a.low-lt) in
      (
        record { rowbufid = r.high; bankid = r.low; channelid = b.low },
        c.low * 2 + a.low,
        record { row = r.high-lt; bank = r.low-lt; channel = b.low-lt },
        omega (arith, c.low-lt, a.low-lt, v.even),
        rw (e, hi, lo, ← r.value, ← c.value, ← b.value, ← a.value),
      )

  skylake-Placed : g.dram_map_policy ≡ 1 → Placed g d rows x
  skylake-Placed e =
      let a =
        Digits-of x (rows * d.banks_in_channel * (d.lines_in_rowbuf / 2) * d.num_channels) 2
          (omega arith) (omega (arith, pairs_out)) in
      let b =
        Digits-of a.high (rows * d.banks_in_channel * (d.lines_in_rowbuf / 2)) d.num_channels
          v.channels a.high-lt in
      let c =
        Digits-of b.high (rows * d.banks_in_channel) (d.lines_in_rowbuf / 2) v.pairs b.high-lt in
      let r = Digits-of c.high rows d.banks_in_channel v.banks c.high-lt in skylake_build e a b c r
    where
      pairs_out :
          d.lines_in_mem ≡ rows * d.banks_in_channel * (d.lines_in_rowbuf / 2) * d.num_channels * 2
      pairs_out =
          v.total ∙ ap (λ t. rows * d.banks_in_channel * d.num_channels * t) v.even ∙ omega arith

  mop_build :
      g.dram_map_policy ≡ 2
      → (a : Digits x
          (rows * (d.lines_in_rowbuf / g.dram_mop_gangsize) * d.banks_in_channel * d.num_channels)
          g.dram_mop_gangsize)
      → (b : Digits a.high
          (rows * (d.lines_in_rowbuf / g.dram_mop_gangsize) * d.banks_in_channel)
          d.num_channels)
      → (c : Digits b.high (rows * (d.lines_in_rowbuf / g.dram_mop_gangsize)) d.banks_in_channel)
      → (r : Digits c.high rows (d.lines_in_rowbuf / g.dram_mop_gangsize)) → Placed g d rows x
  unfolding line_of
  mop_build e a b c r =
      let hi = div-mul-add r.low g.dram_mop_gangsize a.low a.low-lt in
      let lo = mod-mul-add r.low g.dram_mop_gangsize a.low a.low-lt in
      (
        record { rowbufid = r.high; bankid = c.low; channelid = b.low },
        r.low * g.dram_mop_gangsize + a.low,
        record { row = r.high-lt; bank = c.low-lt; channel = b.low-lt },
        subst (λ t. r.low * g.dram_mop_gangsize + a.low < t) (sym v.whole)
            (mul-add-lt r.low a.low _ _ r.low-lt a.low-lt),
        rw (e, hi, lo, ← r.value, ← c.value, ← b.value, ← a.value),
      )

  mop-Placed : g.dram_map_policy ≡ 2 → Placed g d rows x
  mop-Placed e =
      let a =
        Digits-of x
          (rows * (d.lines_in_rowbuf / g.dram_mop_gangsize) * d.banks_in_channel * d.num_channels)
          g.dram_mop_gangsize v.gang (omega (arith, gangs_out)) in
      let b =
        Digits-of a.high (rows * (d.lines_in_rowbuf / g.dram_mop_gangsize) * d.banks_in_channel)
          d.num_channels v.channels a.high-lt in
      let c =
        Digits-of b.high (rows * (d.lines_in_rowbuf / g.dram_mop_gangsize)) d.banks_in_channel
          v.banks b.high-lt in
      let r = Digits-of c.high rows (d.lines_in_rowbuf / g.dram_mop_gangsize) v.gangs c.high-lt in
      mop_build e a b c r
    where
      gangs_out :
          d.lines_in_mem
          ≡ rows
            * (d.lines_in_rowbuf / g.dram_mop_gangsize)
            * d.banks_in_channel
            * d.num_channels
            * g.dram_mop_gangsize
      gangs_out =
          v.total ∙ ap (λ t. rows * d.banks_in_channel * d.num_channels * t) v.whole ∙ omega arith

  zen_build :
      g.dram_map_policy ≡ 3
      → (a : Digits x (rows * (d.lines_in_rowbuf / 2) * d.banks_in_channel * 2) d.num_channels)
      → (b : Digits a.high (rows * (d.lines_in_rowbuf / 2) * d.banks_in_channel) 2)
      → (c : Digits b.high (rows * (d.lines_in_rowbuf / 2)) d.banks_in_channel)
      → (r : Digits c.high rows (d.lines_in_rowbuf / 2)) → Placed g d rows x
  unfolding line_of
  zen_build e a b c r =
      let hi : (r.low * 2 + b.low) / 2 ≡ r.low = omega (arith, b.low-lt) in
      let lo : (r.low * 2 + b.low) % 2 ≡ b.low = omega (arith, b.low-lt) in
      (
        record { rowbufid = r.high; bankid = c.low; channelid = a.low },
        r.low * 2 + b.low,
        record { row = r.high-lt; bank = c.low-lt; channel = a.low-lt },
        omega (arith, r.low-lt, b.low-lt, v.even),
        rw (e, hi, lo, ← r.value, ← c.value, ← b.value, ← a.value),
      )

  zen-Placed : g.dram_map_policy ≡ 3 → Placed g d rows x
  zen-Placed e =
      let a =
        Digits-of x (rows * (d.lines_in_rowbuf / 2) * d.banks_in_channel * 2) d.num_channels
          v.channels (omega (arith, pairs_out)) in
      let b =
        Digits-of a.high (rows * (d.lines_in_rowbuf / 2) * d.banks_in_channel) 2 (omega arith)
          a.high-lt in
      let c =
        Digits-of b.high (rows * (d.lines_in_rowbuf / 2)) d.banks_in_channel v.banks b.high-lt in
      let r = Digits-of c.high rows (d.lines_in_rowbuf / 2) v.pairs c.high-lt in zen_build e a b c r
    where
      pairs_out :
          d.lines_in_mem ≡ rows * (d.lines_in_rowbuf / 2) * d.banks_in_channel * 2 * d.num_channels
      pairs_out =
          v.total ∙ ap (λ t. rows * d.banks_in_channel * d.num_channels * t) v.even ∙ omega arith

  line-Placed : g.dram_map_policy < 4 → Placed g d rows x
  line-Placed known = elim (ℕ_discrete g.dram_map_policy 0) [
    | yes e ↦ coffeelake-Placed e
    | no a ↦ elim (ℕ_discrete g.dram_map_policy 1) [
      | yes e ↦ skylake-Placed e
      | no b ↦ elim (ℕ_discrete g.dram_map_policy 2) [
        | yes e ↦ mop-Placed e
        | no c ↦ zen-Placed (omega arith)
      ]
    ]
  ]

  -- With a geometry in which nothing is left over and one of the four policies, every line of the memory
  -- stands at a column of a place, which dram_parseaddr returns: so the bank, the channel and the row that
  -- it returns exist.
  pub parseaddr-Placed :
      g.dram_map_policy < 4
      → (p : Place) × (col : ℕ) × (parseaddr g d x ≡ ok p)
        × InMemory d rows p
        × (col < d.lines_in_rowbuf)
        × (line_of g d p col ≡ x)
  parseaddr-Placed known =
      let (p, col, m, k, e) = line-Placed known in
      (
        p,
        col,
        subst (λ t. parseaddr g d t ≡ ok p) e (parseaddr-line_of g d rows v p col m k known),
        m,
        k,
        e,
      )
