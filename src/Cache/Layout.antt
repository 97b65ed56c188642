-- ===== src/Cache/Layout.antt =====
-- The well-formedness of a cache: every valid entry stands in the set of its tag, and no line is held
-- twice. The lemmas here are about src/mcache.h's entry array and the search that the operations share.
use mds.Base.{
  ℕ, ◌+◌, ◌*◌, ◌%◌, ◌^◌, ◌≤◌, ◌<◌, ◌≡◌, ◌≢◌, sym, ap, ◌∙◌, ◌⊎◌, inl, inr, true, false, none, some,
  List, ok, arith, Bool-cases, Option-cases, length, get_or, length-set, get_or-set-cases,
  find_index-some, find_index-none,
}
use mds.Cache.Defs.{
  Cache, Entry, zero_entry, entry_at, put_entry, get_index, start_of, end_of, is_line, find_line,
}

-- the entries of set `s` when every set has `assocs` ways
abbrev pub InSet : ℕ → ℕ → ℕ → Type 0
InSet assocs s i = (s * assocs ≤ i) × (i < s * assocs + assocs)

pub record Layout (sets assocs index_policy : ℕ) (entries : List Entry) : Type 0 where
  pub some_sets : 0 < sets
  pub some_ways : 0 < assocs
  pub modulo : index_policy ≡ 0
  pub sized : length entries ≡ sets * assocs
  pub small : sets * assocs < 2 ^ 31
  pub placed :
      (i : ℕ)
      → (get_or entries i zero_entry).valid ≡ true
      → InSet assocs ((get_or entries i zero_entry).tag % sets) i
  pub unique :
      (i j : ℕ)
      → (get_or entries i zero_entry).valid ≡ true
      → (get_or entries j zero_entry).valid ≡ true
      → (get_or entries i zero_entry).tag ≡ (get_or entries j zero_entry).tag
      → i ≡ j

abbrev pub IsValid : Cache → Type 0
IsValid c = Layout c.sets c.assocs c.index_policy c.entries

-- the counters of SRRIP are 32-bit values
abbrev pub Narrow : Cache → Type 0
Narrow c = (j : ℕ) → (entry_at c j).ripctr < 2 ^ 32

-- the line is in the cache, at entry `i`
abbrev pub HeldAt : Cache → ℕ → ℕ → Type 0
HeldAt c addr i = is_line addr (entry_at c i) ≡ true

abbrev pub Holds : Cache → ℕ → Type 0
Holds c addr = (i : ℕ) × HeldAt c addr i

pub set-lt : (sets assocs s : ℕ) → s < sets → s * assocs + assocs ≤ sets * assocs
set-lt sets assocs s h = grind arith

pub is_line-eq : (tag : ℕ) (e : Entry) → is_line tag e ≡ true → (e.valid ≡ true) × (e.tag ≡ tag)
is_line-eq tag e h = ground arith

is_line_clash : (tag : ℕ) (e : Entry) → e.valid ≡ true → e.tag ≡ tag → is_line tag e ≡ false → ⊥
is_line_clash tag e h t m = ground arith

module _ (c : Cache) (v : IsValid c) where
  pub get_index-ok : (addr : ℕ) → get_index c addr ≡ ok (addr % c.sets)
  unfolding get_index
  get_index-ok addr = ground (arith, v.some_sets, v.modulo)

  pub index-lt : (addr : ℕ) → addr % c.sets < c.sets
  index-lt addr = grind (arith, v.some_sets)

  -- The loop bounds do not wrap, and stay inside the array.
  pub bounds :
      (s : ℕ)
      → s < c.sets
      → (start_of c s ≡ s * c.assocs)
        × (end_of c s ≡ s * c.assocs + c.assocs)
        × (s * c.assocs + c.assocs ≤ length c.entries)
  bounds s h = omega (arith, set-lt c.sets c.assocs s h, v.small, v.sized)

  pub find_line-some :
      (addr i : ℕ)
      → find_line c (addr % c.sets) addr ≡ some i
      → HeldAt c addr i × InSet c.assocs (addr % c.sets) i
  unfolding find_line
  find_line-some addr i h =
      let b = bounds (addr % c.sets) (index-lt addr) in
      let f = find_index-some _ _ _ i h in (f.2, (omega (arith, b, f.0), omega (arith, b, f.1)))

  pub find_line-none :
      (addr i : ℕ) → find_line c (addr % c.sets) addr ≡ none → is_line addr (entry_at c i) ≡ false
  unfolding find_line
  find_line-none addr i h = elim (Bool-cases (is_line addr (entry_at c i))) [
    | inr miss ↦ miss
    | inl hit ↦
        let l = is_line-eq addr (entry_at c i) hit in
        let p : InSet c.assocs (addr % c.sets) i = rw (← l.1) (v.placed i l.0) in
        let b = bounds (addr % c.sets) (index-lt addr) in
        find_index-none _ _ _ h i (omega (arith, b, p)) (omega (arith, b, p))
  ]

  -- A line is held once, so the search finds every entry that holds it.
  pub find_line-held : (addr i : ℕ) → HeldAt c addr i → find_line c (addr % c.sets) addr ≡ some i
  find_line-held addr i h = elim (Option-cases (find_line c (addr % c.sets) addr)) [
    | inl e ↦ absurd (let m = find_line-none addr i e in ground arith)
    | inr (k, e) ↦
        let f = find_line-some addr k e in
        let a = is_line-eq addr (entry_at c i) h in
        let b = is_line-eq addr (entry_at c k) f.0 in
        e ∙ ap some (v.unique k i b.0 a.0 (b.1 ∙ sym a.1))
  ]

  -- Writing an entry keeps the layout, if the entry is invalid, or stands in the set of its tag and no
  -- other entry holds that tag.
  pub put_entry-IsValid :
      (k : ℕ) (e : Entry)
      → k < length c.entries
      → (e.valid ≡ true → InSet c.assocs (e.tag % c.sets) k)
      → (e.valid ≡ true → (j : ℕ) → j ≢ k → is_line e.tag (entry_at c j) ≡ false)
      → IsValid (put_entry c k e)
  put_entry-IsValid k e inside there alone = record {
    some_sets = v.some_sets;
    some_ways = v.some_ways;
    modulo = v.modulo;
    sized = length-set c.entries k e ∙ v.sized;
    small = v.small;
    placed = λ i h. elim (after i) [
      | inl (q, r) ↦ rw (r, q) (there (rw (← r) h))
      | inr (q, r) ↦ rw r (v.placed i (rw (← r) h))
    ];
    unique = λ i j hi hj t. elim (after i) [
      | inl (qi, ri) ↦ elim (after j) [
        | inl (qj, rj) ↦ qi ∙ sym qj
        | inr (qj, rj) ↦ absurd (
            is_line_clash e.tag (entry_at c j) (rw (← rj) hj)
              (ap (λ (x : Entry). x.tag) (sym rj) ∙ sym t ∙ ap (λ (x : Entry). x.tag) ri)
              (alone (rw (← ri) hi) j qj))
      ]
      | inr (qi, ri) ↦ elim (after j) [
        | inl (qj, rj) ↦ absurd (
            is_line_clash e.tag (entry_at c i) (rw (← ri) hi)
              (ap (λ (x : Entry). x.tag) (sym ri) ∙ t ∙ ap (λ (x : Entry). x.tag) rj)
              (alone (rw (← rj) hj) i qi))
        | inr (qj, rj) ↦
            v.unique i j (rw (← ri) hi) (rw (← rj) hj)
              (ap (λ (x : Entry). x.tag) (sym ri) ∙ t ∙ ap (λ (x : Entry). x.tag) rj)
      ]
    ];
  }
    where
      after :
          (i : ℕ)
          → ((i ≡ k) × (entry_at (put_entry c k e) i ≡ e))
            ⊎ ((i ≢ k) × (entry_at (put_entry c k e) i ≡ entry_at c i))
      after i = get_or-set-cases c.entries k i e zero_entry inside
