-- ===== src/Dram/Sample.antt =====
-- A small DRAM for the tests: 1 MB in two channels of four banks with 512 rows of four lines.
use mds.Base.{ℕ, ◌<◌, ◌≡◌, refl, arith}
use mds.Settings.{Settings, defaults}
use mds.Dram.Types.{Dram}
use mds.Dram.Address.Codec.{Geometry}
use mds.Dram.System.{new_of}
use mds.Dram.System.State.{AllSound, in_flight}
use mds.Dram.System.Start.{Exact, new_dram, dram_new-Started}

abbrev pub tiny : Settings
tiny = record defaults {
  mem_size_mb = 1;
  mem_channels = 2;
  mem_banks = 8;
  mem_pagesize = 256;
  dram_bankgroups = 2;
}

pub tiny-Exact : Exact tiny 512 4 4
tiny-Exact = record {
  line = omega arith;
  page = refl;
  lines_even = refl;
  some_pairs = omega arith;
  gang = omega arith;
  gangs = omega arith;
  gangs_whole = refl;
  some_channels = omega arith;
  few_channels = omega arith;
  all_banks = refl;
  few_banks = omega arith;
  groups = omega arith;
  groups_fit = omega arith;
  few_rows = omega arith;
  size = refl;
}

abbrev pub tiny_dram : Dram
tiny_dram = new_dram tiny 512 4

pub tiny-Geometry : Geometry tiny tiny_dram 512
tiny-Geometry =
    let (g', e, only, geo, s, pos, none_yet) = dram_new-Started tiny 512 4 4 tiny-Exact in geo

pub tiny-AllSound : AllSound tiny_dram 512
tiny-AllSound =
    let (g', e, only, geo, s, pos, none_yet) = dram_new-Started tiny 512 4 4 tiny-Exact in s

pub in_memory : 13 < tiny_dram.lines_in_mem
unfolding new_dram new_of
in_memory = omega arith

pub tiny_groups : 0 < tiny_dram.banks_in_bankgroup
tiny_groups =
    let (g', e, only, geo, s, pos, none_yet) = dram_new-Started tiny 512 4 4 tiny-Exact in pos

pub tiny_empty : (a : ℕ) → in_flight a tiny_dram ≡ 0
tiny_empty =
    let (g', e, only, geo, s, pos, none_yet) = dram_new-Started tiny 512 4 4 tiny-Exact in none_yet
