-- ===== src/Os/Distinct.antt =====
-- os_v2p_lineaddr of src/os.cpp: no two lines share a physical line.
use mds.Base.{
  ℕ, ◌+◌, ◌*◌, ◌/◌, ◌%◌, ◌^◌, ◌<◌, ◌≤◌, ◌≡◌, sym, ap, ◌∙◌, subst, inl, inr, false, arith, some,
  ◌==◌, Rand, ok, err, assert_failed, add64, mul64, div-mul-add, mod-mul-add, split_by, mul-add-lt,
}
use mds.Os.{Os, find_page, tid_vpn, v2p_lineaddr}
use mds.Os.Layout.{IsFair}
use mds.Os.Paging.{vpn_to_pfn-Mapped}

-- a line of a thread that os.cpp can translate
abbrev pub InSpace : Os → ℕ → ℕ → Type 0
InSpace o lineaddr tid = (lineaddr / o.lines_in_page < 2 ^ 36) × (tid < 2 ^ 28)

-- what a successful translation gives
abbrev pub Translated : Os → ℕ → ℕ → ℕ → Os → Type 0
Translated o lineaddr tid a o' =
    (pfn : ℕ) × (a ≡ pfn * o.lines_in_page + lineaddr % o.lines_in_page)
    × (find_page (tid_vpn (lineaddr / o.lines_in_page) tid) o'.pt ≡ some pfn)
    × IsFair o'
    × (o'.lines_in_page ≡ o.lines_in_page)
    × ((k p : ℕ) → find_page k o.pt ≡ some p → find_page k o'.pt ≡ some p)

ok_injective : {A : Type 0} {a b : A} → ok a ≡ ok b → a ≡ b
ok_injective e = cc

failed : {A : Type 0} {a : A} → err assert_failed ≡ ok a → ⊥
failed e = cc

-- the physical line fits in 64 bits
pub address_fits :
    (num_pages lines pfn lineid : ℕ)
    → num_pages < 2 ^ 32
    → lines < 2 ^ 32
    → pfn < num_pages
    → lineid < lines
    → add64 (mul64 pfn lines) lineid ≡ pfn * lines + lineid
address_fits num_pages lines pfn lineid a b c d =
    let small : num_pages * lines < 2 ^ 64 =
      (let all = mul-add-lt num_pages 0 (2 ^ 32) (2 ^ 32) a (omega arith) in
        let fewer : num_pages * lines ≤ num_pages * 2 ^ 32 = grind arith in omega arith) in
    let inside : pfn * lines + lineid < num_pages * lines =
      mul-add-lt pfn lineid num_pages lines c d in
    omega arith

moved :
    (o : Os) (lineaddr tid a : ℕ) (o1 o' : Os)
    → o1 ≡ o'
    → Translated o lineaddr tid a o1
    → Translated o lineaddr tid a o'
moved o lineaddr tid a o1 o' e t = subst (Translated o lineaddr tid a) e t

v2p_lineaddr-Translated :
    (o : Os) (lineaddr tid : ℕ) (r : Rand) (a : ℕ) (o' : Os) (r' : Rand)
    → IsFair o
    → lineaddr / o.lines_in_page < 2 ^ 36
    → v2p_lineaddr o lineaddr tid r ≡ ok (a, o', r')
    → Translated o lineaddr tid a o'
unfolding v2p_lineaddr
v2p_lineaddr-Translated o lineaddr tid r a o' r' v h e =
    let some_lines : (o.lines_in_page == 0) ≡ false = ground (arith, v.some_lines) in
    elim (vpn_to_pfn-Mapped o (lineaddr / o.lines_in_page) tid r v h) [
      | inl (pfn, o1, r1, done, fair, found, kept, lines, pages) ↦
          let step : v2p_lineaddr o lineaddr tid r
              ≡ ok (add64 (mul64 pfn o.lines_in_page) (lineaddr % o.lines_in_page), o1, r1) =
            rw (some_lines, done) in
          let same = ok_injective (sym step ∙ e) in
          let p = fair.given _ pfn found in
          let address =
            address_fits o1.num_pages o.lines_in_page pfn (lineaddr % o.lines_in_page)
              fair.few_pages v.few_lines p.0 (split_by lineaddr o.lines_in_page v.some_lines).1 in
          moved o lineaddr tid a o1 o' (ap (λ (t : ℕ × Os × Rand). t.1) same)
            (pfn, sym (ap (λ (t : ℕ × Os × Rand). t.0) same) ∙ address, found, fair, lines, kept)
      | inr (fails, absent, why) ↦
          let step : v2p_lineaddr o lineaddr tid r ≡ err assert_failed = rw (some_lines, fails) in
          absurd (failed (sym step ∙ e))
    ]

-- the keys of pages of different threads differ
tid_vpn_injective :
    (v1 t1 v2 t2 : ℕ)
    → v1 < 2 ^ 36
    → v2 < 2 ^ 36
    → t1 < 2 ^ 28
    → t2 < 2 ^ 28
    → tid_vpn v1 t1 ≡ tid_vpn v2 t2
    → (v1 ≡ v2) × (t1 ≡ t2)
tid_vpn_injective v1 t1 v2 t2 a b c d e = (omega arith, omega arith)

digits_injective :
    (p1 p2 k r1 r2 : ℕ) → r1 < k → r2 < k → p1 * k + r1 ≡ p2 * k + r2 → (p1 ≡ p2) × (r1 ≡ r2)
digits_injective p1 p2 k r1 r2 a b e = (
  sym (div-mul-add p1 k r1 a) ∙ ap (λ t. t / k) e ∙ div-mul-add p2 k r2 b,
  sym (mod-mul-add p1 k r1 a) ∙ ap (λ t. t % k) e ∙ mod-mul-add p2 k r2 b,
)

-- On a well-formed page table, let two lines of threads be translated one after the other. If they get the
-- same physical line, they are the same line of the same thread.
pub v2p_lineaddr-distinct :
    (o : Os) (r : Rand) (l1 t1 a1 : ℕ) (o1 : Os) (r1 : Rand) (l2 t2 a2 : ℕ) (o2 : Os) (r2 : Rand)
    → IsFair o
    → InSpace o l1 t1
    → InSpace o l2 t2
    → v2p_lineaddr o l1 t1 r ≡ ok (a1, o1, r1)
    → v2p_lineaddr o1 l2 t2 r1 ≡ ok (a2, o2, r2)
    → a1 ≡ a2
    → (l1 ≡ l2) × (t1 ≡ t2)
v2p_lineaddr-distinct o r l1 t1 a1 o1 r1 l2 t2 a2 o2 r2 v s1 s2 e1 e2 same =
    let (p1, b1, f1, v1, n1, k1) = v2p_lineaddr-Translated o l1 t1 r a1 o1 r1 v s1.0 e1 in
    let (p2, b2, f2, v2, n2, k2) =
      v2p_lineaddr-Translated o1 l2 t2 r1 a2 o2 r2 v1 (subst (λ t. l2 / t < 2 ^ 36) (sym n1) s2.0)
        e2 in
    let b2' : a2 ≡ p2 * o.lines_in_page + l2 % o.lines_in_page =
      subst (λ t. a2 ≡ p2 * t + l2 % t) n1 b2 in
    let f2' : find_page (tid_vpn (l2 / o.lines_in_page) t2) o2.pt ≡ some p2 =
      subst (λ t. find_page (tid_vpn (l2 / t) t2) o2.pt ≡ some p2) n1 f2 in
    let d1 = split_by l1 o.lines_in_page v.some_lines in
    let d2 = split_by l2 o.lines_in_page v.some_lines in
    let (pages, columns) =
      digits_injective p1 p2 o.lines_in_page (l1 % o.lines_in_page) (l2 % o.lines_in_page) d1.1 d2.1
        (sym b1 ∙ same ∙ b2') in
    let keys = v2.one_to_one _ _ p2 (k2 _ p1 f1 ∙ ap some pages) f2' in
    let (vpns, tids) =
      tid_vpn_injective (l1 / o.lines_in_page) t1 (l2 / o.lines_in_page) t2 s1.0 s2.0 s1.1 s2.1
        keys in
    (
      d1.0
          ∙ ap (λ t. t * o.lines_in_page + l1 % o.lines_in_page) vpns
          ∙ ap (λ t. l2 / o.lines_in_page * o.lines_in_page + t) columns
          ∙ sym d2.0,
      tids,
    )
