-- ===== src/Cache/Replace.antt =====
-- mcache_install of src/mcache.cpp: which line goes, which comes, and what is written back.
use mds.Base.{
  ℕ, ◌%◌, ◌<◌, ◌≡◌, ◌≢◌, ◌↔◌, sym, ap, ◌∙◌, subst, ◌⊎◌, inl, inr, true, false, ◌&&◌, arith, ok, err,
  exited, none, some, Bool-cases, length, get_or-set-cases, get_or-set_self, Rand,
}
use mds.Cache.Defs.{
  Cache, num_repl_policy, Entry, zero_entry, entry_at, put_entry, is_line, find_line,
}
use mds.Cache.Layout.{
  IsValid, Narrow, InSet, HeldAt, Holds, get_index-ok, index-lt, bounds, find_line-held,
  put_entry-IsValid,
}
use mds.Cache.Finding.{find_line-cases}
use mds.Cache.Victim.Choose.{Keeps-IsValid, Keeps-is_line, Chosen, find_victim-Chosen}
use mds.Cache.Install.{srrip_init, check_absent, note_eviction, fill, install}

-- What `mcache_install` promises when it puts `addr` at entry `k`.
pub record Installed (c : Cache) (addr k : ℕ) (c' : Cache) : Type 0 where
  pub layout : IsValid c'
  pub narrow : Narrow c'
  pub policy : c'.repl_policy ≡ c.repl_policy
  pub in_set : InSet c.assocs (addr % c.sets) k
  pub here : HeldAt c' addr k
  pub clean : (entry_at c' k).dirty ≡ false
  pub stamped : (entry_at c' k).last_access ≡ c.s_count
  pub lines : (a : ℕ) → Holds c' a ↔ ((a ≡ addr) ⊎ ((j : ℕ) × (j ≢ k) × HeldAt c a j))
  pub writes_back : c'.evicted_dirty_line ≡ ((entry_at c k).valid && (entry_at c k).dirty)
  pub victim_addr : c'.evicted_dirty_line ≡ true → c'.evicted_line_addr ≡ (entry_at c k).tag
  pub invalid_first :
      (entry_at c k).valid ≡ true
      → (j : ℕ) → InSet c.assocs (addr % c.sets) j
      → (entry_at c j).valid ≡ true

-- the entry that `mcache_install` writes over `e`
abbrev fresh : ℕ → ℕ → Entry → Entry
fresh addr now e = record e {
  tag = addr;
  valid = true;
  dirty = false;
  ripctr = srrip_init;
  last_access = now;
}

fresh-is_line : (addr now : ℕ) (e : Entry) → is_line addr (fresh addr now e) ≡ true
fresh-is_line addr now e = ground arith

fresh-eq : (a addr now : ℕ) (e : Entry) → is_line a (fresh addr now e) ≡ true → a ≡ addr
fresh-eq a addr now e h = ground arith

module _ (c : Cache) (addr : ℕ) (v : IsValid c) (absent : ¬ Holds c addr) where
  -- the layout after the write, for any entry of the right set
  fill-IsValid :
      (k now : ℕ) (e : Entry)
      → InSet c.assocs (addr % c.sets) k
      → IsValid (put_entry c k (fresh addr now e))
  fill-IsValid k now e i =
      let b = bounds c v (addr % c.sets) (index-lt c v addr) in
      put_entry-IsValid c v k (fresh addr now e) (omega (arith, b, i)) (λ _. i)
        λ _ j _. elim (Bool-cases (is_line addr (entry_at c j))) [
          | inl m ↦ absurd (absent (j, m))
          | inr m ↦ m
        ]

  -- the lines after the write
  fill-lines :
      (k now : ℕ) (e : Entry) (a : ℕ)
      → k < length c.entries
      → Holds (put_entry c k (fresh addr now e)) a
        ↔ ((a ≡ addr) ⊎ ((j : ℕ) × (j ≢ k) × HeldAt c a j))
  fill-lines k now e a inside = (there, back)
    where
      cases :
          (j : ℕ)
          → ((j ≡ k) × (entry_at (put_entry c k (fresh addr now e)) j ≡ fresh addr now e))
            ⊎ ((j ≢ k) × (entry_at (put_entry c k (fresh addr now e)) j ≡ entry_at c j))
      cases j = get_or-set-cases c.entries k j (fresh addr now e) zero_entry inside

      there :
          Holds (put_entry c k (fresh addr now e)) a
          → (a ≡ addr) ⊎ ((j : ℕ) × (j ≢ k) × HeldAt c a j)
      there (j, h) = elim (cases j) [
        | inl (q, r) ↦ inl (fresh-eq a addr now e (ap (is_line a) (sym r) ∙ h))
        | inr (q, r) ↦ inr (j, q, ap (is_line a) (sym r) ∙ h)
      ]

      back :
          (a ≡ addr) ⊎ ((j : ℕ) × (j ≢ k) × HeldAt c a j)
          → Holds (put_entry c k (fresh addr now e)) a
      back (inl q) = (
        k,
        ap (is_line a) (get_or-set_self c.entries k (fresh addr now e) zero_entry inside)
            ∙ subst (λ t. is_line t (fresh addr now e) ≡ true) (sym q) (fresh-is_line addr now e),
      )
      back (inr (j, ne, h)) = elim (cases j) [
        | inl (q, r) ↦ absurd (ne q)
        | inr (q, r) ↦ (j, ap (is_line a) r ∙ h)
      ]

-- the bookkeeping of an eviction, after `evicted_dirty_line = FALSE`
note_eviction_lem :
    (c : Cache) (e : Entry)
    → c.evicted_dirty_line ≡ false
    → ((note_eviction c e).evicted_dirty_line ≡ (e.valid && e.dirty))
      × ((note_eviction c e).evicted_dirty_line ≡ true
          → (note_eviction c e).evicted_line_addr ≡ e.tag)
unfolding note_eviction
note_eviction_lem c e h = (ground arith, λ t. ground arith)

-- The written cache, in terms of the cache that the victim search leaves.
fill-Installed :
    (c : Cache) (addr k : ℕ) (c1 : Cache)
    → IsValid c
    → Narrow c
    → (¬ Holds c addr)
    → Chosen (record c { evicted_dirty_line = false }) (addr % c.sets) k c1
    → Installed c addr k (fill (note_eviction c1 (entry_at c1 k)) (addr % c.sets) k addr)
unfolding fill note_eviction
fill-Installed c addr k c1 v small absent w = record {
  narrow = λ j.
      elim (get_or-set-cases c1.entries k j (fresh addr c1.s_count (entry_at c1 k)) zero_entry
        inside) [
          | inl (q, r) ↦ omega (arith, ap (λ (e : Entry). e.ripctr) r)
          | inr (q, r) ↦ omega (arith, ap (λ (e : Entry). e.ripctr) r, w.keeps.counters j, small j)
        ];
  policy = w.keeps.policy;
  layout = fill-IsValid c1 addr v1 absent1 k c1.s_count (entry_at c1 k) there;
  in_set = w.in_set;
  here = ap (is_line addr) self ∙ fresh-is_line addr c1.s_count (entry_at c1 k);
  clean = ap (λ (e : Entry). e.dirty) self;
  stamped = ap (λ (e : Entry). e.last_access) self ∙ w.keeps.count;
  lines = λ a.
      let f = fill-lines c1 addr v1 absent1 k c1.s_count (entry_at c1 k) a inside in
      (λ t. other a (f.0 t), λ t. f.1 (other' a t));
  writes_back = noted.0 ∙ ap (λ (e : Entry). e.valid && e.dirty) (w.keeps.frame k);
  victim_addr = λ t. noted.1 t ∙ ap (λ (e : Entry). e.tag) (w.keeps.frame k);
  invalid_first = w.invalid_first;
}
  where
    c0 : Cache
    c0 = record c { evicted_dirty_line = false }

    v1 : IsValid c1
    v1 = Keeps-IsValid c0 c1 w.keeps v

    absent1 : ¬ Holds c1 addr
    absent1 (j, h) = absent (j, sym (Keeps-is_line c0 c1 addr j w.keeps) ∙ h)

    there : InSet c1.assocs (addr % c1.sets) k
    there = rw (w.keeps.sets, w.keeps.assocs) w.in_set

    inside : k < length c1.entries
    inside = omega (arith, bounds c v (addr % c.sets) (index-lt c v addr), w.in_set, w.keeps.sized)

    self :
        entry_at (put_entry c1 k (fresh addr c1.s_count (entry_at c1 k))) k
        ≡ fresh addr c1.s_count (entry_at c1 k)
    self = get_or-set_self c1.entries k _ zero_entry inside

    noted :
        ((note_eviction c1 (entry_at c1 k)).evicted_dirty_line
          ≡ ((entry_at c1 k).valid && (entry_at c1 k).dirty))
        × ((note_eviction c1 (entry_at c1 k)).evicted_dirty_line ≡ true
            → (note_eviction c1 (entry_at c1 k)).evicted_line_addr ≡ (entry_at c1 k).tag)
    noted = note_eviction_lem c1 (entry_at c1 k) w.keeps.flag

    other :
        (a : ℕ)
        → (a ≡ addr) ⊎ ((j : ℕ) × (j ≢ k) × HeldAt c1 a j)
        → (a ≡ addr) ⊎ ((j : ℕ) × (j ≢ k) × HeldAt c a j)
    other a (inl q) = inl q
    other a (inr (j, ne, h)) = inr (j, ne, sym (Keeps-is_line c0 c1 a j w.keeps) ∙ h)

    other' :
        (a : ℕ)
        → (a ≡ addr) ⊎ ((j : ℕ) × (j ≢ k) × HeldAt c a j)
        → (a ≡ addr) ⊎ ((j : ℕ) × (j ≢ k) × HeldAt c1 a j)
    other' a (inl q) = inl q
    other' a (inr (j, ne, h)) = inr (j, ne, Keeps-is_line c0 c1 a j w.keeps ∙ h)

-- the test at the head of `mcache_install`, whatever the flag that was reset before it
check_absent-ok :
    (c : Cache) (s addr : ℕ)
    → find_line c s addr ≡ none
    → check_absent (record c { evicted_dirty_line = false }) s addr ≡ ok tt
unfolding check_absent find_line
check_absent-ok c s addr e = rw (e, check_absent)

check_absent-err :
    (c : Cache) (s addr i : ℕ)
    → find_line c s addr ≡ some i
    → check_absent (record c { evicted_dirty_line = false }) s addr ≡ err exited
unfolding check_absent find_line
check_absent-err c s addr i e = rw (e, check_absent)

-- On a well-formed cache with one of the four policies that does not hold the line, mcache_install returns
-- a well-formed cache, with the same policy and 32-bit counters, in which the line stands clean and freshly
-- stamped in its set; every other line stays but the one at the entry that was overwritten; that entry was
-- valid only if the whole set was; and a write-back is announced exactly when it was valid and dirty, with
-- its address.
pub install-Installed :
    (tth : ℕ) (c : Cache) (addr : ℕ) (r : Rand)
    → IsValid c
    → Narrow c
    → c.repl_policy ≢ num_repl_policy
    → (¬ Holds c addr)
    → (k : ℕ) × (c' : Cache) × (r' : Rand) × (install tth c addr r ≡ ok (c', r'))
      × Installed c addr k c'
unfolding install
install-Installed tth c addr r v narrow known absent = elim (find_line-cases c v addr) [
  | inl (i, e, h) ↦ absurd (absent (i, h))
  | inr (e, _) ↦
      let (k, c1, r', q, w) =
        find_victim-Chosen tth (record c { evicted_dirty_line = false }) (addr % c.sets) v
          (index-lt c v addr) r narrow known in
      (
        k,
        _,
        r',
        rw (get_index-ok c v addr, check_absent-ok c (addr % c.sets) addr e, q),
        fill-Installed c addr k c1 v narrow absent w,
      )
]

-- On a well-formed cache that already holds the line, mcache_install exits.
pub install-present :
    (tth : ℕ) (c : Cache) (addr : ℕ) (r : Rand)
    → IsValid c
    → Holds c addr
    → install tth c addr r ≡ err exited
unfolding install
install-present tth c addr r v (i, h) =
    let e = find_line-held c v addr i h in
    rw (get_index-ok c v addr, check_absent-err c (addr % c.sets) addr i e)
