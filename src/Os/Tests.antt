-- ===== src/Os/Tests.antt =====
-- The page table at concrete inputs: eight pages of 64 lines and two threads.
use mds.Base.{ℕ, suc, ◌+◌, ◌*◌, ◌≡◌, refl, true, false, [], ◌∷◌, arith, ok, Rand}
use mds.Settings.{defaults}
use mds.Os.{Os, find_page, try_pages, get_victim_from_ipt, page_fault, vpn_to_pfn, v2p_lineaddr}
use mds.Os.Layout.{IsFair}
use mds.Os.Bounds.{InPages, v2p_lineaddr-InPages}
use mds.Os.Distinct.{v2p_lineaddr-distinct}
use mds.Os.Start.{new_os, os_new-IsFair}

abbrev small_os : Os
small_os = new_os defaults 8 2

small-IsFair : IsFair small_os
small-IsFair =
    (os_new-IsFair defaults 8 2 (omega arith) (omega arith) (omega arith) (omega arith)).1

-- draws 8, which is page 0 and taken, and then 11, which is page 3; and so on
abbrev dice : Rand
dice n = 8 + n * 3

abbrev later : Rand
later n = dice (suc (suc n))

-- line 7 of thread 0 goes to page 3
abbrev one_page : Os
one_page = record small_os {
  pt = (0, 3) ∷ [];
  ipt = true ∷ false ∷ false ∷ true ∷ false ∷ false ∷ false ∷ false ∷ [];
  s_miss_count = 1;
}

first_line : v2p_lineaddr small_os 7 0 dice ≡ ok (199, one_page, later)
unfolding v2p_lineaddr vpn_to_pfn find_page page_fault get_victim_from_ipt try_pages
first_line = refl

same_line : v2p_lineaddr one_page 7 0 later ≡ ok (199, one_page, later)
unfolding v2p_lineaddr vpn_to_pfn find_page
same_line = refl

abbrev asked : ℕ
asked = 7

abbrev asked_again : ℕ
asked_again = 7

abbrev thread : ℕ
thread = 0

v2p_lineaddr-distinct_example : (asked ≡ asked_again) × (thread ≡ thread)
v2p_lineaddr-distinct_example =
    v2p_lineaddr-distinct small_os dice asked thread 199 one_page later asked_again thread 199
      one_page later small-IsFair (omega arith, omega arith) (omega arith, omega arith) first_line
      same_line refl

v2p_lineaddr-InPages_example : InPages small_os (v2p_lineaddr small_os 7 0 dice)
v2p_lineaddr-InPages_example = v2p_lineaddr-InPages small_os 7 0 dice small-IsFair (omega arith)
