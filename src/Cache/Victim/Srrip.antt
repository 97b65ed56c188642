-- ===== src/Cache/Victim/Srrip.antt =====
-- mcache_find_victim_srrip of src/mcache.cpp: it ends, and whom it chooses.
use mds.Base.{
  ℕ, zero, suc, ◌+◌, ◌-◌, ◌*◌, ◌≤◌, ◌<◌, ◌^◌, ◌≡◌, ◌≢◌, refl, sym, ap, ◌∙◌, subst, inl, inr, arith,
  ok, some, Option-cases, for_range_inv, length, length-set, get_or-set_self, get_or-set_ne,
  find_index, find_index-some, find_index-none, up_to_next, sub32,
}
use native.Mathlib.Decide.{dec_lt}
use mds.Cache.Defs.{Cache, Entry, zero_entry, entry_at, start_of}
use mds.Cache.Layout.{IsValid, bounds}
use mds.Cache.Victim.{ways, age_entry, age, expired, srrip_loop, victim_srrip}

-- the entry after `n` rounds of aging that never met a zero
abbrev pub aged : ℕ → Entry → Entry
aged n e = record e { ripctr = e.ripctr - n }

-- a cache that differs from `c` in its entries only
abbrev pub SameButEntries : Cache → Cache → Type 0
SameButEntries c c' = c' ≡ record c { entries = c'.entries }

-- `c'` is `c` with the entries of the range aged `n` times, and the others as they were.
pub record Aged (c : Cache) (start stop n : ℕ) (c' : Cache) : Type 0 where
  pub same : SameButEntries c c'
  pub sized : length c'.entries ≡ length c.entries
  pub inside : (j : ℕ) → start ≤ j → j < stop → entry_at c' j ≡ aged n (entry_at c j)
  pub before : (j : ℕ) → j < start → entry_at c' j ≡ entry_at c j
  pub after : (j : ℕ) → stop ≤ j → entry_at c' j ≡ entry_at c j

aged_by_one :
    (e : Entry)
    → 0 < e.ripctr
    → e.ripctr < 2 ^ 32
    → record e { ripctr = sub32 e.ripctr 1 } ≡ aged 1 e
aged_by_one e h k = ap (λ n. record e { ripctr = n }) (omega arith)

-- one step of the aging loop at `k`
age_entry-Aged :
    (c : Cache) (start k : ℕ) (c' : Cache)
    → start ≤ k
    → k < length c.entries
    → 0 < (entry_at c k).ripctr
    → (entry_at c k).ripctr < 2 ^ 32
    → Aged c start k 1 c'
    → Aged c start (k + 1) 1 (age_entry k c')
age_entry-Aged c start k c' h within pos small a = record {
  same = ap (λ (x : Cache). record x { entries = (age_entry k c').entries }) a.same;
  sized = length-set c'.entries k written ∙ a.sized;
  inside =
      up_to_next (λ j. entry_at (age_entry k c') j ≡ aged 1 (entry_at c j)) start k
        (λ j x y. elsewhere j (omega arith) ∙ a.inside j x y) here;
  before = λ j x. elsewhere j (omega arith) ∙ a.before j x;
  after = λ j x. elsewhere j (omega arith) ∙ a.after j (omega arith);
}
  where
    written : Entry
    written = record (entry_at c' k) { ripctr = sub32 (entry_at c' k).ripctr 1 }

    here : entry_at (age_entry k c') k ≡ aged 1 (entry_at c k)
    here =
        get_or-set_self c'.entries k written zero_entry (omega (arith, a.sized))
        ∙ ap (λ (e : Entry). record e { ripctr = sub32 e.ripctr 1 }) (a.after k (omega arith))
        ∙ aged_by_one (entry_at c k) pos small

    elsewhere : (j : ℕ) → k ≢ j → entry_at (age_entry k c') j ≡ entry_at c' j
    elsewhere j ne = get_or-set_ne c'.entries k j written zero_entry ne

-- One round of aging over a range without a zero lowers every counter of the range by one.
age-Aged :
    (c : Cache) (start n : ℕ)
    → start + n ≤ length c.entries
    → ((j : ℕ) → start ≤ j → j < start + n → 0 < (entry_at c j).ripctr)
    → ((j : ℕ) → (entry_at c j).ripctr < 2 ^ 32)
    → Aged c start (start + n) 1 (age c start n)
unfolding age
age-Aged c start n fits pos small =
    for_range_inv (λ k t. Aged c start k 1 t) age_entry n start (start + n) c refl
      (λ k t x y a. age_entry-Aged c start k t x (omega arith) (pos k x y) (small k) a)
      (record {
        same = refl;
        sized = refl;
        inside = λ j x y. absurd (omega arith);
        before = λ j x. refl;
        after = λ j x. refl;
      })

Aged-trans :
    (c : Cache) (start stop n : ℕ) (d e : Cache)
    → Aged c start stop 1 d
    → Aged d start stop n e
    → Aged c start stop (n + 1) e
Aged-trans c start stop n d e a b = record {
  same = b.same ∙ ap (λ (x : Cache). record x { entries = e.entries }) a.same;
  sized = b.sized ∙ a.sized;
  inside = λ j x y.
      b.inside j x y
      ∙ ap (aged n) (a.inside j x y)
      ∙ ap (λ m. record (entry_at c j) { ripctr = m }) (omega arith);
  before = λ j x. b.before j x ∙ a.before j x;
  after = λ j x. b.after j x ∙ a.after j x;
}

-- What the search ends with: the first entry of the range whose counter is the least, and the range
-- aged by that least counter.
pub record SrripChoice (c : Cache) (start stop k : ℕ) (c' : Cache) : Type 0 where
  pub low : start ≤ k
  pub high : k < stop
  pub least : (j : ℕ) → start ≤ j → j < stop → (entry_at c k).ripctr ≤ (entry_at c j).ripctr
  pub first : (j : ℕ) → start ≤ j → j < k → (entry_at c k).ripctr < (entry_at c j).ripctr
  pub left : Aged c start stop (entry_at c k).ripctr c'

-- the search at a range that holds a zero
srrip_found :
    (c : Cache) (start n k : ℕ)
    → find_index (expired c) n start ≡ some k
    → SrripChoice c start (start + n) k c
srrip_found c start n k e =
    let f = find_index-some (expired c) n start k e in
    let z : (entry_at c k).ripctr ≡ 0 = let t = f.2 in ground arith in
    record {
      low = f.0;
      high = f.1;
      least = λ j x y. omega arith;
      first = λ j x y. let t = f.3 j x y in ground arith;
      left = record {
        same = refl;
        sized = refl;
        inside = λ j x y. ap (λ m. record (entry_at c j) { ripctr = m }) (omega arith);
        before = λ j x. refl;
        after = λ j x. refl;
      };
    }

pub Aged-le :
    (c : Cache) (start stop n : ℕ) (c' : Cache) (j : ℕ)
    → Aged c start stop n c'
    → (entry_at c' j).ripctr ≤ (entry_at c j).ripctr
Aged-le c start stop n c' j a = elim (dec_lt j start) [
  | yes x ↦ omega (arith, ap (λ (e : Entry). e.ripctr) (a.before j x))
  | no x ↦ elim (dec_lt j stop) [
    | yes y ↦ omega (arith, ap (λ (e : Entry). e.ripctr) (a.inside j (omega arith) y))
    | no y ↦ omega (arith, ap (λ (e : Entry). e.ripctr) (a.after j (omega arith)))
  ]
]

-- the search after a round of aging
srrip_later :
    (c : Cache) (start n k : ℕ) (d c' : Cache)
    → ((j : ℕ) → start ≤ j → j < start + n → 0 < (entry_at c j).ripctr)
    → Aged c start (start + n) 1 d
    → SrripChoice d start (start + n) k c'
    → SrripChoice c start (start + n) k c'
srrip_later c start n k d c' full a r = record {
  low = r.low;
  high = r.high;
  least = λ j x y. omega (arith, one j x y, chosen, r.least j x y);
  first = λ j x y. omega (arith, one j x (omega (arith, r.high)), chosen, r.first j x y);
  left =
      subst (λ m. Aged c start (start + n) m c') (sym chosen)
        (Aged-trans c start (start + n) (entry_at d k).ripctr d c' a r.left);
}
  where
    one : (j : ℕ) → start ≤ j → j < start + n → (entry_at c j).ripctr ≡ (entry_at d j).ripctr + 1
    one j x y = omega (arith, ap (λ (e : Entry). e.ripctr) (a.inside j x y), full j x y)

    chosen : (entry_at c k).ripctr ≡ (entry_at d k).ripctr + 1
    chosen = one k r.low r.high

-- With more rounds than the first counter the loop ends.
srrip_loop-SrripChoice :
    (fuel : ℕ) (c : Cache) (start n : ℕ)
    → 0 < n
    → start + n ≤ length c.entries
    → ((j : ℕ) → (entry_at c j).ripctr < 2 ^ 32)
    → (entry_at c start).ripctr < fuel
    → (k : ℕ) × (c' : Cache) × (srrip_loop fuel c start n ≡ ok (k, c'))
      × SrripChoice c start (start + n) k c'
unfolding srrip_loop
srrip_loop-SrripChoice zero c start n pos fits small enough = absurd (omega arith)
srrip_loop-SrripChoice (suc fuel) c start n pos fits small enough =
    elim (Option-cases (find_index (expired c) n start)) [
      | inl e ↦
          let full : (j : ℕ) → start ≤ j → j < start + n → 0 < (entry_at c j).ripctr =
            λ j x y. let t = find_index-none (expired c) n start e j x y in ground arith in
          let a = age-Aged c start n fits full small in
          let (k, c', q, r) =
            srrip_loop-SrripChoice fuel (age c start n) start n pos (omega (arith, a.sized))
              (λ j. omega (arith, Aged-le c start (start + n) 1 (age c start n) j a, small j))
              (omega (
                arith,
                ap (λ (x : Entry). x.ripctr) (a.inside start (omega arith) (omega arith)),
                full start (omega arith) (omega arith),
              )) in
          (k, c', rw (e, srrip_loop) q, srrip_later c start n k (age c start n) c' full a r)
      | inr (k, e) ↦ (k, c, rw (e, srrip_loop), srrip_found c start n k e)
    ]

-- mcache_find_victim_srrip ends on every set of a well-formed cache whose counters are 32-bit values: it
-- returns the first entry of the set with the least counter, lowers every counter of the set by that least
-- one, and changes nothing else.
pub victim_srrip-SrripChoice :
    (c : Cache) (s : ℕ)
    → IsValid c
    → s < c.sets
    → ((j : ℕ) → (entry_at c j).ripctr < 2 ^ 32)
    → (k : ℕ) × (c' : Cache) × (victim_srrip c s ≡ ok (k, c'))
      × SrripChoice c (s * c.assocs) (s * c.assocs + c.assocs) k c'
unfolding victim_srrip
victim_srrip-SrripChoice c s v h small =
    let b = bounds c v s h in
    let (k, c', q, r) =
      srrip_loop-SrripChoice (suc (entry_at c (start_of c s)).ripctr) c (start_of c s) (ways c s)
        (omega (arith, b, v.some_ways)) (omega (arith, b)) small (omega arith) in
    (
      k,
      c',
      q,
      subst (λ t. SrripChoice c (s * c.assocs) t k c') (omega (arith, b))
          (subst (λ t. SrripChoice c t (t + ways c s) k c') b.0 r),
    )
