-- ===== src/Cache/Victim/Choose.antt =====
-- mcache_find_victim of src/mcache.cpp as a whole: it always finds an entry of the set, an invalid one if
-- there is any, and moves no line.
use mds.Base.{
  ℕ, suc, ◌+◌, ◌*◌, ◌%◌, ◌≤◌, ◌<◌, ◌^◌, ◌≡◌, ◌≢◌, refl, sym, ap, ◌∙◌, inl, inr, true, false, not,
  arith, ok, lt→ltb, ◌==◌, Option-cases, length, find_index, find_index-some, find_index-none,
  add32, Rand,
}
use native.Mathlib.Decide.{dec_lt}
use mds.Cache.Defs.{
  Cache, ReplPolicy, repl_lru, repl_rnd, repl_srrip, repl_lru_wbt, num_repl_policy, Entry, entry_at,
  start_of, end_of, is_line,
}
use mds.Cache.Layout.{IsValid, Narrow, InSet, bounds}
use mds.Cache.Victim.{
  ways, victim_lru, victim_rnd, victim_lru_wbt, victim_by_policy, find_invalid, find_victim,
}
use mds.Cache.Victim.Lru.{victim_lru-oldest}
use mds.Cache.Victim.WriteBack.{victim_lru_wbt-WbtChoice}
use mds.Cache.Victim.Srrip.{Aged, Aged-le, victim_srrip-SrripChoice}

-- an entry but for its re-reference counter
abbrev pub blank : Entry → Entry
blank e = record e { ripctr = 0 }

-- What choosing a victim leaves alone.
pub record Keeps (c c' : Cache) : Type 0 where
  pub sets : c'.sets ≡ c.sets
  pub assocs : c'.assocs ≡ c.assocs
  pub policy : c'.repl_policy ≡ c.repl_policy
  pub index : c'.index_policy ≡ c.index_policy
  pub sized : length c'.entries ≡ length c.entries
  pub count : c'.s_count ≡ c.s_count
  pub misses : c'.s_miss ≡ c.s_miss
  pub evictions : c'.s_evict ≡ c.s_evict
  pub flag : c'.evicted_dirty_line ≡ c.evicted_dirty_line
  pub addr : c'.evicted_line_addr ≡ c.evicted_line_addr
  pub frame : (j : ℕ) → blank (entry_at c' j) ≡ blank (entry_at c j)
  pub counters : (j : ℕ) → (entry_at c' j).ripctr ≤ (entry_at c j).ripctr

Keeps-refl : (c : Cache) → Keeps c c
Keeps-refl c = record {
  sets = refl;
  assocs = refl;
  policy = refl;
  index = refl;
  sized = refl;
  count = refl;
  misses = refl;
  evictions = refl;
  flag = refl;
  addr = refl;
  frame = λ j. refl;
  counters = λ j. omega arith;
}

pub Keeps-is_line :
    (c c' : Cache) (a j : ℕ) → Keeps c c' → is_line a (entry_at c' j) ≡ is_line a (entry_at c j)
Keeps-is_line c c' a j k = ap (is_line a) (k.frame j)

pub Keeps-IsValid : (c c' : Cache) → Keeps c c' → IsValid c → IsValid c'
Keeps-IsValid c c' k v = record {
  some_sets = omega (arith, k.sets, v.some_sets);
  some_ways = omega (arith, k.assocs, v.some_ways);
  modulo = k.index ∙ v.modulo;
  sized = k.sized ∙ v.sized ∙ sym area;
  small = omega (arith, area, v.small);
  placed = λ i h. rw (k.assocs, k.sets, tag i) (v.placed i (sym (valid i) ∙ h));
  unique =
      λ i j x y z. v.unique i j (sym (valid i) ∙ x) (sym (valid j) ∙ y) (sym (tag i) ∙ z ∙ tag j);
}
  where
    valid : (j : ℕ) → (entry_at c' j).valid ≡ (entry_at c j).valid
    valid j = ap (λ (e : Entry). e.valid) (k.frame j)

    tag : (j : ℕ) → (entry_at c' j).tag ≡ (entry_at c j).tag
    tag j = ap (λ (e : Entry). e.tag) (k.frame j)

    area : c'.sets * c'.assocs ≡ c.sets * c.assocs
    area = rw (k.sets, k.assocs)

Aged-Keeps : (c : Cache) (start stop n : ℕ) (c' : Cache) → Aged c start stop n c' → Keeps c c'
Aged-Keeps c start stop n c' a = record {
  sets = ap (λ (x : Cache). x.sets) a.same;
  assocs = ap (λ (x : Cache). x.assocs) a.same;
  policy = ap (λ (x : Cache). x.repl_policy) a.same;
  index = ap (λ (x : Cache). x.index_policy) a.same;
  sized = a.sized;
  count = ap (λ (x : Cache). x.s_count) a.same;
  misses = ap (λ (x : Cache). x.s_miss) a.same;
  evictions = ap (λ (x : Cache). x.s_evict) a.same;
  flag = ap (λ (x : Cache). x.evicted_dirty_line) a.same;
  addr = ap (λ (x : Cache). x.evicted_line_addr) a.same;
  frame = λ j. elim (dec_lt j start) [
    | yes x ↦ ap blank (a.before j x)
    | no x ↦ elim (dec_lt j stop) [
      | yes y ↦ ap blank (a.inside j (omega arith) y)
      | no y ↦ ap blank (a.after j (omega arith))
    ]
  ];
  counters = λ j. Aged-le c start stop n c' j a;
}

victim_lru_wbt-Keeps : (tth : ℕ) (c : Cache) (s : ℕ) → Keeps c (victim_lru_wbt tth c s).1
unfolding victim_lru_wbt
victim_lru_wbt-Keeps tth c s = record {
  sets = refl;
  assocs = refl;
  policy = refl;
  index = refl;
  sized = refl;
  count = refl;
  misses = refl;
  evictions = refl;
  flag = refl;
  addr = refl;
  frame = λ j. refl;
  counters = λ j. omega arith;
}

pub record Chosen (c : Cache) (s k : ℕ) (c' : Cache) : Type 0 where
  pub in_set : InSet c.assocs s k
  pub keeps : Keeps c c'
  pub invalid_first :
      (entry_at c k).valid ≡ true → (j : ℕ) → InSet c.assocs s j → (entry_at c j).valid ≡ true

module _ (tth : ℕ) (c : Cache) (s : ℕ) (v : IsValid c) (h : s < c.sets) where
  find_invalid-ok :
      find_invalid c s ≡ ok (find_index (λ ii. not (entry_at c ii).valid) (ways c s) (start_of c s))
  unfolding find_invalid
  find_invalid-ok =
      let b = bounds c v s h in
      let low : start_of c s < 2 ^ 31 = omega (arith, b, v.small, v.sized, v.some_ways) in
      let high : end_of c s < 2 ^ 31 = omega (arith, b, v.small, v.sized) in
      rw (lt→ltb _ _ low, lt→ltb _ _ high)

  victim_rnd-InSet :
      (r : Rand) → (k : ℕ) × (victim_rnd c s r ≡ ok (k, λ n. r (suc n))) × InSet c.assocs s k
  unfolding victim_rnd
  victim_rnd-InSet r =
      let b = bounds c v s h in
      let pos = v.some_ways in
      let m : r 0 % c.assocs < c.assocs = grind arith in
      let ne : (c.assocs == 0) ≡ false = ground arith in
      (
        add32 (start_of c s) (r 0 % c.assocs),
        rw ne,
        (omega (arith, b, m, v.small, v.sized), omega (arith, b, m, v.small, v.sized)),
      )

  -- the switch, on a set of valid entries
  victim_by_policy-Chosen :
      (p : ReplPolicy) (r : Rand)
      → Narrow c
      → p ≢ num_repl_policy
      → ((j : ℕ) → InSet c.assocs s j → (entry_at c j).valid ≡ true)
      → (k : ℕ) × (c' : Cache) × (r' : Rand) × (victim_by_policy p tth c s r ≡ ok (k, c', r'))
        × Chosen c s k c'
  unfolding victim_by_policy
  victim_by_policy-Chosen repl_lru r narrow known all = (
    victim_lru c s,
    c,
    r,
    refl,
    record {
      in_set = (victim_lru-oldest c s v h).0;
      keeps = Keeps-refl c;
      invalid_first = λ _. all;
    },
  )
  victim_by_policy-Chosen repl_rnd r narrow known all =
      let (k, e, q) = victim_rnd-InSet r in
      (
        k,
        c,
        λ n. r (suc n),
        rw e,
        record { in_set = q; keeps = Keeps-refl c; invalid_first = λ _. all },
      )
  victim_by_policy-Chosen repl_srrip r narrow known all =
      let (k, c', e, q) = victim_srrip-SrripChoice c s v h narrow in
      (
        k,
        c',
        r,
        rw e,
        record {
          in_set = (q.low, q.high);
          keeps = Aged-Keeps c _ _ _ c' q.left;
          invalid_first = λ _. all;
        },
      )
  victim_by_policy-Chosen repl_lru_wbt r narrow known all =
      let w = victim_lru_wbt-WbtChoice tth c s v h all in
      (
        (victim_lru_wbt tth c s).0,
        (victim_lru_wbt tth c s).1,
        r,
        refl,
        record {
          in_set = w.in_set;
          keeps = victim_lru_wbt-Keeps tth c s;
          invalid_first = λ _. all;
        },
      )
  victim_by_policy-Chosen num_repl_policy r narrow known all = absurd (known refl)

  -- On a well-formed cache with one of the four policies, mcache_find_victim returns an entry of the set; a
  -- valid one only if every entry of the set is valid; and it changes no line, no valid or dirty bit and no
  -- access stamp.
  pub find_victim-Chosen :
      (r : Rand)
      → Narrow c
      → c.repl_policy ≢ num_repl_policy
      → (k : ℕ) × (c' : Cache) × (r' : Rand) × (find_victim tth c s r ≡ ok (k, c', r'))
        × Chosen c s k c'
  unfolding find_victim
  find_victim-Chosen r narrow known =
      elim (Option-cases (find_index (λ ii. not (entry_at c ii).valid) (ways c s) (start_of c s))) [
        | inr (k, e) ↦
            let f = find_index-some _ _ _ k e in
            (
              k,
              c,
              r,
              rw (find_invalid-ok, e),
              record {
                in_set = (omega (arith, b, f.0), omega (arith, b, f.1));
                keeps = Keeps-refl c;
                invalid_first = λ t. let u = f.2 in absurd (ground arith);
              },
            )
        | inl e ↦
            let all : (j : ℕ) → InSet c.assocs s j → (entry_at c j).valid ≡ true = λ j x.
              let u = find_index-none _ _ _ e j (omega (arith, b, x)) (omega (arith, b, x)) in
              ground arith in
            let (k, c', r', q, w) = victim_by_policy-Chosen c.repl_policy r narrow known all in
            (k, c', r', rw (find_invalid-ok, e) q, w)
      ]
    where
      b :
          (start_of c s ≡ s * c.assocs)
          × (end_of c s ≡ s * c.assocs + c.assocs)
          × (s * c.assocs + c.assocs ≤ length c.entries)
      b = bounds c v s h
