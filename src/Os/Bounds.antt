-- ===== src/Os/Bounds.antt =====
-- os_v2p_lineaddr of src/os.cpp: the physical lines that it gives lie in the pages.
use mds.Base.{
  ℕ, ◌+◌, ◌*◌, ◌/◌, ◌%◌, ◌^◌, ◌<◌, ◌≡◌, ap, ◌⊎◌, inl, inr, false, arith, Rand, Result, ok, err,
  assert_failed, ◌==◌, split_by, mul-add-lt, subst,
}
use mds.Os.{Os, v2p_lineaddr}
use mds.Os.Layout.{IsFair}
use mds.Os.Paging.{vpn_to_pfn-Mapped}
use mds.Os.Distinct.{address_fits}

-- what a translation comes to, as far as the number goes
abbrev pub InPages : Os → Result (ℕ × Os × Rand) → Type 0
InPages o out =
    (out ≡ err assert_failed)
    ⊎ ((a : ℕ) × (o' : Os) × (r' : Rand) × (out ≡ ok (a, o', r'))
        × (a < o.num_pages * o.lines_in_page)
        × IsFair o'
        × (o'.num_pages ≡ o.num_pages)
        × (o'.lines_in_page ≡ o.lines_in_page))

-- On a well-formed page table and for a page number below 2^36, os_v2p_lineaddr fails an assertion or
-- returns a line below the number of pages times the lines in a page, and leaves the page table well-formed
-- with the same two sizes.
pub v2p_lineaddr-InPages :
    (o : Os) (lineaddr tid : ℕ) (r : Rand)
    → IsFair o
    → lineaddr / o.lines_in_page < 2 ^ 36
    → InPages o (v2p_lineaddr o lineaddr tid r)
unfolding v2p_lineaddr
v2p_lineaddr-InPages o lineaddr tid r v h =
    let some_lines : (o.lines_in_page == 0) ≡ false = ground (arith, v.some_lines) in
    elim (vpn_to_pfn-Mapped o (lineaddr / o.lines_in_page) tid r v h) [
      | inr (fails, absent, why) ↦ inl (rw (some_lines, fails))
      | inl (pfn, o1, r1, done, fair, found, kept, lines, pages) ↦
          let few : pfn < o.num_pages = subst (λ t. pfn < t) pages (fair.given _ pfn found).0 in
          let column = (split_by lineaddr o.lines_in_page v.some_lines).1 in
          let address =
            address_fits o.num_pages o.lines_in_page pfn (lineaddr % o.lines_in_page) v.few_pages
              v.few_lines few column in
          inr (
            pfn * o.lines_in_page + lineaddr % o.lines_in_page,
            o1,
            r1,
            rw (some_lines, done) (ap (λ (t : ℕ). ok (t, o1, r1)) address),
            mul-add-lt pfn (lineaddr % o.lines_in_page) o.num_pages o.lines_in_page few column,
            fair,
            pages,
            lines,
          )
    ]
