-- ===== src/Sim/Defaults.antt =====
-- The initial values of src/params.h are settings with which main of src/sim.cpp can start its loop.
use mds.Base.{refl, arith}
use mds.Settings.{defaults}
use mds.Dram.System.{new_of}
use mds.Dram.System.Start.{Exact, new_dram}
use mds.Sim.{os_pages, l3_sets}
use mds.Sim.Turn.{Limits}
use mds.Sim.Start.{Setup}

defaults-Exact : Exact defaults 65536 32 128
defaults-Exact = record {
  line = omega arith;
  page = refl;
  lines_even = refl;
  some_pairs = omega arith;
  gang = omega arith;
  gangs = omega arith;
  gangs_whole = refl;
  some_channels = omega arith;
  few_channels = omega arith;
  all_banks = refl;
  few_banks = omega arith;
  groups = omega arith;
  groups_fit = omega arith;
  few_rows = omega arith;
  size = refl;
}

defaults-Limits : Limits defaults
defaults-Limits = record {
  width = omega arith;
  width_fits = omega arith;
  latency = omega arith;
  mapping = omega arith;
  scheduling = omega arith;
}

pub defaults-Setup : Setup defaults 65536 32 128 8192 8388608
unfolding os_pages l3_sets new_dram new_of
defaults-Setup = record {
  memory = defaults-Exact;
  limits = defaults-Limits;
  some_rob = omega arith;
  rob_fits = omega arith;
  pages = refl;
  some_pages = omega arith;
  few_pages = omega arith;
  line = omega arith;
  page = omega arith;
  pages_fit = omega arith;
  sets_of = refl;
  some_sets = omega arith;
  some_ways = omega arith;
  small_cache = omega arith;
  policy = omega arith;
}
