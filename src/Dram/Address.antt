-- ===== src/Dram/Address.antt =====
-- dram_parseaddr of src/dram.cpp: the row, bank and channel of a line under the four mapping policies.
pub mod Codec
pub mod Total
use mds.Base.{ℕ, ◌/◌, ◌%◌, Result, ok, err, ◌>>=◌, assert_failed, undefined, ◌==◌, if◌then◌else◌}
use mds.Settings.{Settings}
use mds.Dram.Types.{Dram}

-- what the three output pointers receive
pub record Place : Type 0 where
  pub rowbufid : ℕ
  pub bankid : ℕ
  pub channelid : ℕ

-- Division by zero is undefined.
unfoldable pub udiv : ℕ → ℕ → Result ℕ
udiv a b = if b == 0 then err undefined else ok (a / b)

unfoldable pub umod : ℕ → ℕ → Result ℕ
umod a b = if b == 0 then err undefined else ok (a % b)

-- DRAM_MAP_COFFEELAKE
unfoldable pub coffeelake : Dram → ℕ → Result Place
coffeelake d lineaddr = do
  global_row_id ← udiv lineaddr d.lines_in_rowbuf
  my_channel_id ← umod global_row_id d.num_channels
  shifted_addr1 ← udiv global_row_id d.num_channels
  my_local_bankid ← umod shifted_addr1 d.banks_in_channel
  shifted_addr2 ← udiv shifted_addr1 d.banks_in_channel
  ok (record { rowbufid = shifted_addr2; bankid = my_local_bankid; channelid = my_channel_id })

-- DRAM_MAP_SKYLAKE
unfoldable pub skylake : Dram → ℕ → Result Place
skylake d lineaddr = do
  my_channel_id ← umod (lineaddr / 2) d.num_channels
  shifted_addr1 ← udiv (lineaddr / 2) d.num_channels
  shifted_addr2 ← udiv shifted_addr1 (d.lines_in_rowbuf / 2)
  my_local_bankid ← umod shifted_addr2 d.banks_in_channel
  shifted_addr3 ← udiv shifted_addr2 d.banks_in_channel
  ok (record { rowbufid = shifted_addr3; bankid = my_local_bankid; channelid = my_channel_id })

-- DRAM_MAP_MOP
unfoldable pub mop : Settings → Dram → ℕ → Result Place
mop g d lineaddr = do
  gang_id ← udiv lineaddr g.dram_mop_gangsize
  my_channel_id ← umod gang_id d.num_channels
  shifted_addr1 ← udiv gang_id d.num_channels
  my_local_bankid ← umod shifted_addr1 d.banks_in_channel
  shifted_addr2 ← udiv shifted_addr1 d.banks_in_channel
  gangs_in_row ← udiv d.lines_in_rowbuf g.dram_mop_gangsize
  myrowbufid ← udiv shifted_addr2 gangs_in_row
  ok (record { rowbufid = myrowbufid; bankid = my_local_bankid; channelid = my_channel_id })

-- DRAM_MAP_ZEN
unfoldable pub zen : Dram → ℕ → Result Place
zen d lineaddr = do
  my_channel_id ← umod lineaddr d.num_channels
  shifted_addr1 ← udiv lineaddr d.num_channels
  my_local_bankid ← umod (shifted_addr1 / 2) d.banks_in_channel
  shifted_addr3 ← udiv (shifted_addr1 / 2) d.banks_in_channel
  myrowbufid ← udiv shifted_addr3 (d.lines_in_rowbuf / 2)
  ok (record { rowbufid = myrowbufid; bankid = my_local_bankid; channelid = my_channel_id })

-- `dram_parseaddr`
unfoldable pub parseaddr : Settings → Dram → ℕ → Result Place
parseaddr g d lineaddr =
    if g.dram_map_policy == 0
    then coffeelake d lineaddr
    else if g.dram_map_policy == 1
    then skylake d lineaddr
    else if g.dram_map_policy == 2
    then mop g d lineaddr
    else if g.dram_map_policy == 3
    then zen d lineaddr
    else err assert_failed
