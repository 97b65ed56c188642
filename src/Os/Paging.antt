-- ===== src/Os/Paging.antt =====
-- os_vpn_to_pfn and os_v2p_lineaddr of src/os.cpp.
use mds.Base.{
  ℕ, zero, suc, ◌*◌, ◌/◌, ◌%◌, ◌^◌, ◌<◌, ◌≤◌, ◌≡◌, refl, sym, ap, ◌∙◌, subst, ◌⊎◌, inl, inr, true,
  false, ◌∷◌, arith, none, some, Option-cases, ◌==◌, ltb, get_or, set, Bool-cases, Rand, Result, ok,
  err, assert_failed, to32, add64,
}
use mds.Os.{
  Os, find_page, try_pages, get_victim_from_ipt, tid_vpn, page_fault, vpn_to_pfn, max_tries,
}
use mds.Os.Layout.{IsFair, given-IsFair}

-- the page that try number `i` draws
abbrev pub tried : Os → Rand → ℕ → ℕ
tried o r i = to32 (r i % o.num_pages)

-- what the tries come to: a free page, or only pages that are taken
abbrev pub Tried : ℕ → Os → Rand → Result (ℕ × Os × Rand) → Type 0
Tried n o r out =
    ((p : ℕ) × (r' : Rand) × (out ≡ ok (p, record o { ipt = set o.ipt p true }, r'))
      × (p < o.num_pages)
      × (get_or o.ipt p true ≡ false))
    ⊎ ((out ≡ err assert_failed) × ((i : ℕ) → i < n → get_or o.ipt (tried o r i) true ≡ true))

-- the draw before tries that failed
also :
    (n : ℕ) (o : Os) (r : Rand)
    → get_or o.ipt (tried o r 0) true ≡ true
    → ((i : ℕ) → i < n → get_or o.ipt (tried o (λ k. r (suc k)) i) true ≡ true)
    → (i : ℕ) → i < suc n
    → get_or o.ipt (tried o r i) true ≡ true
also n o r taken all zero h = taken
also n o r taken all (suc i) h = all i (omega arith)

try_pages-Tried : (n : ℕ) (o : Os) (r : Rand) → IsFair o → Tried n o r (try_pages n o r)
unfolding try_pages
try_pages-Tried zero o r v = inr (refl, λ i h. absurd (omega arith))
try_pages-Tried (suc n) o r v = elim (Bool-cases (get_or o.ipt (tried o r 0) true)) [
  | inr free ↦ inl (
    tried o r 0,
    (λ k. r (suc k)),
    rw free,
    (let f = v.few_pages in let p = v.some_pages in grind arith),
    free,
  )
  | inl taken ↦ elim (try_pages-Tried n o (λ k. r (suc k)) v) [
    | inl (p, r', e, h, free) ↦ inl (p, r', rw (taken, e), h, free)
    | inr (e, all) ↦ inr (rw (taken, e), also n o r taken all)
  ]
]

-- what a translation comes to
abbrev pub Mapped : Os → ℕ → Rand → Result (ℕ × Os × Rand) → Type 0
Mapped o key r out =
    ((pfn : ℕ) × (o' : Os) × (r' : Rand) × (out ≡ ok (pfn, o', r'))
      × IsFair o'
      × (find_page key o'.pt ≡ some pfn)
      × ((k p : ℕ) → find_page k o.pt ≡ some p → find_page k o'.pt ≡ some p)
      × (o'.lines_in_page ≡ o.lines_in_page)
      × (o'.num_pages ≡ o.num_pages))
    ⊎ ((out ≡ err assert_failed)
        × (find_page key o.pt ≡ none)
        × ((19 * o.num_pages ≤ 20 * o.s_miss_count)
            ⊎ ((i : ℕ) → i < max_tries → get_or o.ipt (tried o r i) true ≡ true)))

page_fault-Mapped :
    (o : Os) (key : ℕ) (r : Rand)
    → IsFair o
    → find_page key o.pt ≡ none
    → Mapped o key r (page_fault o key r)
unfolding page_fault get_victim_from_ipt find_page
page_fault-Mapped o key r v absent =
    let some_page : (o.num_pages == 0) ≡ false = ground (arith, v.some_pages) in
    elim (Bool-cases (ltb (20 * o.s_miss_count) (19 * o.num_pages))) [
      | inr full ↦ inr (rw full, absent, inl (ground arith))
      | inl room ↦ elim (try_pages-Tried max_tries o r v) [
        | inr (e, all) ↦ inr (rw (room, some_page, e), absent, inr all)
        | inl (p, r', e, h, free) ↦ inl (
          p,
          paged p,
          r',
          rw (room, some_page, e),
          given-IsFair o.num_pages o.lines_in_page o.ipt o.pt key p v h free,
          found p,
          kept p,
          refl,
          refl,
        )
      ]
    ]
  where
    paged : ℕ → Os
    paged p = record o {
      ipt = set o.ipt p true;
      pt = (key, p) ∷ o.pt;
      s_miss_count = add64 o.s_miss_count 1;
    }

    found : (p : ℕ) → find_page key ((key, p) ∷ o.pt) ≡ some p
    found p = let same : (key == key) ≡ true = ground arith in rw same

    kept : (p k q : ℕ) → find_page k o.pt ≡ some q → find_page k ((key, p) ∷ o.pt) ≡ some q
    kept p k q e = elim (Bool-cases (key == k)) [
      | inl same ↦
          let one : key ≡ k = ground arith in
          let none_there : find_page k o.pt ≡ none =
            ap (λ t. find_page t o.pt) (sym one) ∙ absent in
          absurd cc
      | inr differs ↦ rw differs e
    ]

pub vpn_to_pfn-Mapped :
    (o : Os) (vpn tid : ℕ) (r : Rand)
    → IsFair o
    → vpn < 2 ^ 36
    → Mapped o (tid_vpn vpn tid) r (vpn_to_pfn o vpn tid r)
unfolding vpn_to_pfn
vpn_to_pfn-Mapped o vpn tid r v h =
    let low : (vpn / 2 ^ 36 == 0) ≡ true = ground arith in
    elim (Option-cases (find_page (tid_vpn vpn tid) o.pt)) [
      | inr (pfn, there) ↦ inl (pfn, o, r, rw (low, there), v, there, (λ k p e. e), refl, refl)
      | inl absent ↦
          let faults : vpn_to_pfn o vpn tid r ≡ page_fault o (tid_vpn vpn tid) r =
            rw (low, absent) in
          subst (Mapped o (tid_vpn vpn tid) r) (sym faults)
            (page_fault-Mapped o (tid_vpn vpn tid) r v absent)
    ]
