-- ===== src/Os/Start.antt =====
-- os_new of src/os.cpp.
use mds.Base.{
  ℕ, ◌/◌, ◌^◌, ◌<◌, ◌≤◌, ◌≡◌, refl, ◌∙◌, true, false, [], arith, none, ok, ◌==◌, set, replicate,
  length-set, length-replicate, get_or-set_self, to32,
}
use mds.Settings.{Settings}
use mds.Os.{Os, find_page, os_new}
use mds.Os.Layout.{IsFair}

abbrev pub new_os : Settings → ℕ → ℕ → Os
new_os g num_pages num_threads = record {
  pt = [];
  ipt = set (replicate num_pages false) 0 true;
  lines_in_page = to32 g.os_pagesize / to32 g.linesize;
  num_threads = num_threads;
  num_pages = num_pages;
  s_miss_count = 0;
}

-- With a 32-bit number of pages that is not 0, and pages at least as large as lines, os_new returns a
-- well-formed page table in which no page is given out.
pub os_new-IsFair :
    (g : Settings) (num_pages num_threads : ℕ)
    → 0 < num_pages
    → num_pages < 2 ^ 32
    → 0 < to32 g.linesize
    → to32 g.linesize ≤ to32 g.os_pagesize
    → (os_new g num_pages num_threads ≡ ok (new_os g num_pages num_threads))
      × IsFair (new_os g num_pages num_threads)
      × ((k : ℕ) → find_page k (new_os g num_pages num_threads).pt ≡ none)
unfolding os_new find_page
os_new-IsFair g num_pages num_threads some_pages few line page =
    let e1 : (to32 g.linesize == 0) ≡ false = ground arith in
    let e2 : (num_pages == 0) ≡ false = ground arith in
    (
      rw (e1, e2),
      record {
        size = length-set (replicate num_pages false) 0 true ∙ length-replicate num_pages false;
        some_pages = some_pages;
        few_pages = few;
        some_lines = grind arith;
        few_lines = grind arith;
        zero_taken =
            get_or-set_self (replicate num_pages false) 0 true true
              (omega (arith, length-replicate num_pages false));
        given = λ k p e. absurd cc;
        one_to_one = λ k j p e f. absurd cc;
      },
      λ k. refl,
    )
