-- ===== src/Os.antt =====
-- The page table of src/os.cpp and src/os.h: physical pages are given out at random, one to one.
pub mod Layout
pub mod Paging
pub mod Distinct
pub mod Bounds
pub mod Start
mod Tests
use mds.Base.{
  ℕ, zero, suc, ◌+◌, ◌*◌, ◌/◌, ◌%◌, ◌^◌, Bool, true, false, not, Option, none, some, List, [], ◌∷◌,
  Result, ok, err, ◌>>=◌, ◌>>◌, check, assert_failed, undefined, ltb, ◌==◌, if◌then◌else◌, get_or,
  set, replicate, add64, mul64, to32, Rand, draw,
}
use mds.Settings.{Settings}

-- `pt` is an association list in which a key stands at most once.
pub record Os : Type 0 where
  pub pt : List (ℕ × ℕ)
  pub ipt : List Bool
  pub lines_in_page : ℕ
  pub num_threads : ℕ
  pub num_pages : ℕ
  pub s_miss_count : ℕ

-- `os_new`. os.cpp reads OS_PAGESIZE and LINESIZE as 32-bit numbers.
unfoldable pub os_new : Settings → ℕ → ℕ → Result Os
os_new g num_pages num_threads =
    if to32 g.linesize == 0
    then err undefined
    else if num_pages == 0
    then err undefined
    else ok (record {
      pt = [];
      ipt = set (replicate num_pages false) 0 true;
      lines_in_page = to32 g.os_pagesize / to32 g.linesize;
      num_threads = num_threads;
      num_pages = num_pages;
      s_miss_count = 0;
    })

-- `os->pt[key]` where it is there
unfoldable pub find_page : ℕ → List (ℕ × ℕ) → Option ℕ
find_page key [] = none
find_page key ((k, p) ∷ t) = if k == key then some p else find_page key t

abbrev pub max_tries : ℕ
max_tries = 1000

-- the loop of `os_get_victim_from_ipt` with the tries that are left
unfoldable pub try_pages : ℕ → Os → Rand → Result (ℕ × Os × Rand)
try_pages zero o r = err assert_failed
try_pages (suc n) o r =
    let (v, r') = draw r in
    let victim = to32 (v % o.num_pages) in
    let rest = try_pages n o r' in
    if get_or o.ipt victim true
    then rest
    else ok (victim, record o { ipt = set o.ipt victim true }, r')

-- `os_get_victim_from_ipt`. The comparison of the count with `0.95 * num_pages` in `double` is that of 20 and
-- 19 times the numbers: the product is exact up to half a unit of its last place, and a whole number of pages
-- is a 20th away from the next bound, or meets it.
unfoldable pub get_victim_from_ipt : Os → Rand → Result (ℕ × Os × Rand)
get_victim_from_ipt o r = do
  check (ltb (20 * o.s_miss_count) (19 * o.num_pages))
  (if o.num_pages == 0 then err undefined else try_pages max_tries o r)

-- the key of a page: the thread in the high bits
abbrev pub tid_vpn : ℕ → ℕ → ℕ
tid_vpn vpn tid = add64 (mul64 tid (2 ^ 36)) vpn

-- a page that is not there yet
unfoldable pub page_fault : Os → ℕ → Rand → Result (ℕ × Os × Rand)
page_fault o key r = do
  (victim_pfn, o1, r1) ← get_victim_from_ipt o r
  ok (
    victim_pfn,
    record o1 { pt = (key, victim_pfn) ∷ o1.pt; s_miss_count = add64 o1.s_miss_count 1 },
    r1,
  )

-- `os_vpn_to_pfn`
unfoldable pub vpn_to_pfn : Os → ℕ → ℕ → Rand → Result (ℕ × Os × Rand)
vpn_to_pfn o vpn tid r = do
  check (vpn / 2 ^ 36 == 0)
  elim (find_page (tid_vpn vpn tid) o.pt) [
    | some pfn ↦ ok (pfn, o, r)
    | none ↦ page_fault o (tid_vpn vpn tid) r
  ]

-- `os_v2p_lineaddr`
unfoldable pub v2p_lineaddr : Os → ℕ → ℕ → Rand → Result (ℕ × Os × Rand)
v2p_lineaddr o lineaddr tid r =
    if o.lines_in_page == 0
    then err undefined
    else (vpn_to_pfn o (lineaddr / o.lines_in_page) tid r >>= λ (pfn, o1, r1).
        ok (add64 (mul64 pfn o.lines_in_page) (lineaddr % o.lines_in_page), o1, r1))
