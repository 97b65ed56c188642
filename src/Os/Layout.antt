-- ===== src/Os/Layout.antt =====
-- The well-formedness of the page table of src/os.h.
use mds.Base.{
  ℕ, ◌^◌, ◌<◌, ◌≡◌, ◌≢◌, sym, ap, ◌∙◌, ◌⊎◌, inl, inr, Bool, true, false, List, ◌∷◌, arith, some,
  ◌==◌, length, get_or, set, length-set, get_or-set-cases, get_or-set_self, Bool-cases,
}
use native.Mathlib.Decide.{ℕ_discrete}
use mds.Os.{Os, find_page}

-- Pages that are given out exist, are not page 0, and are marked; no page is given out twice.
pub record Fair (num_pages lines_in_page : ℕ) (ipt : List Bool) (pt : List (ℕ × ℕ)) : Type 0 where
  pub size : length ipt ≡ num_pages
  pub some_pages : 0 < num_pages
  pub few_pages : num_pages < 2 ^ 32
  pub some_lines : 0 < lines_in_page
  pub few_lines : lines_in_page < 2 ^ 32
  pub zero_taken : get_or ipt 0 true ≡ true
  pub given :
      (k p : ℕ) → find_page k pt ≡ some p → (p < num_pages) × (0 < p) × (get_or ipt p true ≡ true)
  pub one_to_one : (k j p : ℕ) → find_page k pt ≡ some p → find_page j pt ≡ some p → k ≡ j

abbrev pub IsFair : Os → Type 0
IsFair o = Fair o.num_pages o.lines_in_page o.ipt o.pt

-- what a new entry leaves to be found
pub find_page-cases :
    (k key p : ℕ) (pt : List (ℕ × ℕ)) (q : ℕ)
    → find_page k ((key, p) ∷ pt) ≡ some q
    → ((k ≡ key) × (q ≡ p)) ⊎ ((k ≢ key) × (find_page k pt ≡ some q))
unfolding find_page
find_page-cases k key p pt q h = elim (Bool-cases (key == k)) [
  | inl here ↦ inl (ground arith, ground arith)
  | inr later ↦ inr (ground arith, ground arith)
]

-- A page that was free may be given to a new key.
pub given-IsFair :
    (num_pages lines_in_page : ℕ) (ipt : List Bool) (pt : List (ℕ × ℕ)) (key p : ℕ)
    → Fair num_pages lines_in_page ipt pt
    → p < num_pages
    → get_or ipt p true ≡ false
    → Fair num_pages lines_in_page (set ipt p true) ((key, p) ∷ pt)
given-IsFair num_pages lines_in_page ipt pt key p v h free = record {
  size = length-set ipt p true ∙ v.size;
  some_pages = v.some_pages;
  few_pages = v.few_pages;
  some_lines = v.some_lines;
  few_lines = v.few_lines;
  zero_taken = stays 0 v.zero_taken;
  given = λ k q e. elim (find_page-cases k key p pt q e) [
    | inl (a, b) ↦ fresh q b
    | inr (a, b) ↦ let old = v.given k q b in (old.0, old.1, stays q old.2)
  ];
  one_to_one = λ k j q e f. elim (find_page-cases k key p pt q e) [
    | inl (a, b) ↦ elim (find_page-cases j key p pt q f) [
      | inl (c, d) ↦ a ∙ sym c
      | inr (c, d) ↦ absurd (clash j q b d)
    ]
    | inr (a, b) ↦ elim (find_page-cases j key p pt q f) [
      | inl (c, d) ↦ absurd (clash k q d b)
      | inr (c, d) ↦ v.one_to_one k j q b d
    ]
  ];
}
  where
    stays : (i : ℕ) → get_or ipt i true ≡ true → get_or (set ipt p true) i true ≡ true
    stays i e = elim (get_or-set-cases ipt p i true true (omega (arith, v.size))) [
      | inl (a, b) ↦ b
      | inr (a, b) ↦ b ∙ e
    ]

    positive : 0 < p
    positive = elim (ℕ_discrete p 0) [
      | yes z ↦
          let taken : get_or ipt p true ≡ true = ap (λ t. get_or ipt t true) z ∙ v.zero_taken in
          absurd cc
      | no ne ↦ omega arith
    ]

    fresh : (q : ℕ) → q ≡ p → (q < num_pages) × (0 < q) × (get_or (set ipt p true) q true ≡ true)
    fresh q e = (
      omega (arith, e),
      omega (arith, e, positive),
      ap (λ t. get_or (set ipt p true) t true) e
          ∙ get_or-set_self ipt p true true (omega (arith, v.size)),
    )

    clash : (j q : ℕ) → q ≡ p → find_page j pt ≡ some q → ⊥
    clash j q e f =
        let taken : get_or ipt p true ≡ true =
          ap (λ t. get_or ipt t true) (sym e) ∙ (v.given j q f).2 in
        cc
