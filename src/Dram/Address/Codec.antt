-- ===== src/Dram/Address/Codec.antt =====
-- dram_parseaddr of src/dram.cpp against its inverse: the line of a place and a column under each mapping
-- policy, as the comments of the source draw it (<row> <bank> <channel> <column>, and so on).
use mds.Base.{
  ℕ, ◌+◌, ◌*◌, ◌/◌, ◌%◌, ◌<◌, ◌≡◌, arith, ok, ◌==◌, if◌then◌else◌, div-mul-add, mod-mul-add,
  split_by, div-lt,
}
use mds.Settings.{Settings}
use mds.Dram.Types.{Dram}
use mds.Dram.Address.{Place, udiv, umod, coffeelake, skylake, mop, zen, parseaddr}

-- A geometry in which nothing is left over: `rows` rows in every bank, an even number of lines in a row,
-- and whole gangs.
pub record Geometry (g : Settings) (d : Dram) (rows : ℕ) : Type 0 where
  pub channels : 0 < d.num_channels
  pub banks : 0 < d.banks_in_channel
  pub pairs : 0 < d.lines_in_rowbuf / 2
  pub even : d.lines_in_rowbuf ≡ d.lines_in_rowbuf / 2 * 2
  pub gang : 0 < g.dram_mop_gangsize
  pub gangs : 0 < d.lines_in_rowbuf / g.dram_mop_gangsize
  pub whole : d.lines_in_rowbuf ≡ d.lines_in_rowbuf / g.dram_mop_gangsize * g.dram_mop_gangsize
  pub total : d.lines_in_mem ≡ rows * d.banks_in_channel * d.num_channels * d.lines_in_rowbuf

-- a place of the memory
pub record InMemory (d : Dram) (rows : ℕ) (p : Place) : Type 0 where
  pub row : p.rowbufid < rows
  pub bank : p.bankid < d.banks_in_channel
  pub channel : p.channelid < d.num_channels

-- the line at a place and a column
unfoldable pub line_of : Settings → Dram → Place → ℕ → ℕ
line_of g d p col =
    if g.dram_map_policy == 0
    then ((p.rowbufid * d.banks_in_channel + p.bankid) * d.num_channels + p.channelid)
        * d.lines_in_rowbuf
      + col
    else if g.dram_map_policy == 1
    then (((p.rowbufid * d.banks_in_channel + p.bankid) * (d.lines_in_rowbuf / 2) + col / 2)
            * d.num_channels
          + p.channelid)
        * 2
      + col % 2
    else if g.dram_map_policy == 2
    then (((p.rowbufid * (d.lines_in_rowbuf / g.dram_mop_gangsize) + col / g.dram_mop_gangsize)
                * d.banks_in_channel
              + p.bankid)
            * d.num_channels
          + p.channelid)
        * g.dram_mop_gangsize
      + col % g.dram_mop_gangsize
    else (((p.rowbufid * (d.lines_in_rowbuf / 2) + col / 2) * d.banks_in_channel + p.bankid) * 2
          + col % 2)
        * d.num_channels
      + p.channelid

-- division of a number in two digits
udiv-digits : (q k r : ℕ) → r < k → udiv (q * k + r) k ≡ ok q
unfolding udiv
udiv-digits q k r h = let e = div-mul-add q k r h in ground arith

umod-digits : (q k r : ℕ) → r < k → umod (q * k + r) k ≡ ok r
unfolding umod
umod-digits q k r h = let e = mod-mul-add q k r h in ground arith

udiv-ok : (a b : ℕ) → 0 < b → udiv a b ≡ ok (a / b)
unfolding udiv
udiv-ok a b h = ground arith

module _ (g : Settings) (d : Dram) (rows : ℕ) (v : Geometry g d rows) where
  module _ (row bank channel col : ℕ) (b : bank < d.banks_in_channel) (c : channel < d.num_channels)
      (k : col < d.lines_in_rowbuf) where
    coffeelake_back :
        coffeelake d
          (((row * d.banks_in_channel + bank) * d.num_channels + channel) * d.lines_in_rowbuf + col)
        ≡ ok (record { rowbufid = row; bankid = bank; channelid = channel })
    unfolding coffeelake
    coffeelake_back = simp (
      udiv-digits ((row * d.banks_in_channel + bank) * d.num_channels + channel) d.lines_in_rowbuf
          col k,
      umod-digits (row * d.banks_in_channel + bank) d.num_channels channel c,
      udiv-digits (row * d.banks_in_channel + bank) d.num_channels channel c,
      umod-digits row d.banks_in_channel bank b,
      udiv-digits row d.banks_in_channel bank b,
    )

    skylake_back :
        skylake d (
          (((row * d.banks_in_channel + bank) * (d.lines_in_rowbuf / 2) + col / 2) * d.num_channels
              + channel)
            * 2
          + col % 2)
        ≡ ok (record { rowbufid = row; bankid = bank; channelid = channel })
    unfolding skylake
    skylake_back =
        let hi : col / 2 < d.lines_in_rowbuf / 2 = omega (arith, v.even) in
        simp (
          div-mul-add
              (((row * d.banks_in_channel + bank) * (d.lines_in_rowbuf / 2) + col / 2)
                  * d.num_channels
                + channel)
              2 (col % 2) (omega arith),
          umod-digits ((row * d.banks_in_channel + bank) * (d.lines_in_rowbuf / 2) + col / 2)
              d.num_channels channel c,
          udiv-digits ((row * d.banks_in_channel + bank) * (d.lines_in_rowbuf / 2) + col / 2)
              d.num_channels channel c,
          udiv-digits (row * d.banks_in_channel + bank) (d.lines_in_rowbuf / 2) (col / 2) hi,
          umod-digits row d.banks_in_channel bank b,
          udiv-digits row d.banks_in_channel bank b,
        )

    mop_back :
        mop g d (
          (((row * (d.lines_in_rowbuf / g.dram_mop_gangsize) + col / g.dram_mop_gangsize)
                    * d.banks_in_channel
                  + bank)
                * d.num_channels
              + channel)
            * g.dram_mop_gangsize
          + col % g.dram_mop_gangsize)
        ≡ ok (record { rowbufid = row; bankid = bank; channelid = channel })
    unfolding mop
    mop_back =
        let lo = split_by col g.dram_mop_gangsize v.gang in
        let hi : col / g.dram_mop_gangsize < d.lines_in_rowbuf / g.dram_mop_gangsize =
          div-lt col _ _ (omega (arith, v.whole)) in
        let high = row * (d.lines_in_rowbuf / g.dram_mop_gangsize) + col / g.dram_mop_gangsize in
        simp (
          udiv-digits ((high * d.banks_in_channel + bank) * d.num_channels + channel)
              g.dram_mop_gangsize (col % g.dram_mop_gangsize) lo.1,
          umod-digits (high * d.banks_in_channel + bank) d.num_channels channel c,
          udiv-digits (high * d.banks_in_channel + bank) d.num_channels channel c,
          umod-digits high d.banks_in_channel bank b,
          udiv-digits high d.banks_in_channel bank b,
          udiv-ok d.lines_in_rowbuf g.dram_mop_gangsize v.gang,
          udiv-digits row (d.lines_in_rowbuf / g.dram_mop_gangsize) (col / g.dram_mop_gangsize) hi,
        )

    zen_back :
        zen d (
          (((row * (d.lines_in_rowbuf / 2) + col / 2) * d.banks_in_channel + bank) * 2 + col % 2)
            * d.num_channels
          + channel)
        ≡ ok (record { rowbufid = row; bankid = bank; channelid = channel })
    unfolding zen
    zen_back =
        let hi : col / 2 < d.lines_in_rowbuf / 2 = omega (arith, v.even) in
        let high = row * (d.lines_in_rowbuf / 2) + col / 2 in
        simp (
          umod-digits ((high * d.banks_in_channel + bank) * 2 + col % 2) d.num_channels channel c,
          udiv-digits ((high * d.banks_in_channel + bank) * 2 + col % 2) d.num_channels channel c,
          div-mul-add (high * d.banks_in_channel + bank) 2 (col % 2) (omega arith),
          umod-digits high d.banks_in_channel bank b,
          udiv-digits high d.banks_in_channel bank b,
          udiv-digits row (d.lines_in_rowbuf / 2) (col / 2) hi,
        )

  -- With a geometry in which nothing is left over and one of the four policies, dram_parseaddr finds, for
  -- every place of the memory and every column, the place of the line that stands there: it inverts the
  -- mapping that the comments of the source draw.
  pub parseaddr-line_of :
      (p : Place) (col : ℕ)
      → InMemory d rows p
      → col < d.lines_in_rowbuf
      → g.dram_map_policy < 4
      → parseaddr g d (line_of g d p col) ≡ ok p
  unfolding parseaddr line_of
  parseaddr-line_of p col m k known = ground (
    arith,
    coffeelake_back p.rowbufid p.bankid p.channelid col m.bank m.channel k,
    skylake_back p.rowbufid p.bankid p.channelid col m.bank m.channel k,
    mop_back p.rowbufid p.bankid p.channelid col m.bank m.channel k,
    zen_back p.rowbufid p.bankid p.channelid col m.bank m.channel k,
  )
