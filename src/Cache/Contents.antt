-- ===== src/Cache/Contents.antt =====
-- What the look-ups of src/mcache.cpp answer and change, against the set of lines that the cache holds.
use mds.Base.{
  ℕ, ◌%◌, ◌≡◌, ◌≢◌, ◌↔◌, refl, sym, ap, ◌∙◌, subst, ◌⊎◌, inl, inr, Bool, true, false, ok, arith,
  if◌then◌else◌, add64, get_or-set_self, get_or-set_ne, get_or-set-cases,
}
use mds.Cache.Defs.{Cache, Entry, zero_entry, entry_at, put_entry, is_line}
use mds.Cache.Layout.{IsValid, Narrow, HeldAt, Holds, is_line-eq, get_index-ok}
use mds.Cache.Lookup.{srrip_max, counted, touch, note_miss, access, probe, invalidate, mark_dirty}
use mds.Cache.Finding.{
  put-Narrow, held-lt, find_line-cases, held_unique, put_same-IsValid, put_same-lines,
  update_line-cases, access-cases,
}

module _ (c : Cache) (v : IsValid c) where
  -- On a well-formed cache mcache_probe always returns, and decides whether some entry of the whole array
  -- holds the line.
  pub probe-Holds :
      (addr : ℕ)
      → ((probe c addr ≡ ok true) × Holds c addr) ⊎ ((probe c addr ≡ ok false) × (¬ Holds c addr))
  unfolding probe
  probe-Holds addr = elim (find_line-cases c v addr) [
    | inl (i, e, h) ↦ inl (rw (get_index-ok c v addr, e), (i, h))
    | inr (e, h) ↦ inr (rw (get_index-ok c v addr, e), h)
  ]

-- What `mcache_access` promises of its answer and of the cache that it leaves.
pub record Accessed (c : Cache) (addr : ℕ) (hit : Bool) (c' : Cache) : Type 0 where
  pub layout : IsValid c'
  pub counters : Narrow c → Narrow c'
  pub policy : c'.repl_policy ≡ c.repl_policy
  pub verdict : (hit ≡ true) ↔ Holds c addr
  pub same_lines : (a i : ℕ) → is_line a (entry_at c' i) ≡ is_line a (entry_at c i)
  pub stamped : (i : ℕ) → HeldAt c addr i → (entry_at c' i).last_access ≡ add64 c.s_count 1
  pub others : (i : ℕ) → (¬ HeldAt c addr i) → entry_at c' i ≡ entry_at c i
  pub accesses : c'.s_count ≡ add64 c.s_count 1
  pub misses : c'.s_miss ≡ (if hit then c.s_miss else add64 c.s_miss 1)

-- On a well-formed cache mcache_access always returns: a hit exactly when the line is there, whose entry
-- alone is stamped; it moves no line, keeps the cache well-formed, and counts the access and the miss.
pub access-Accessed :
    (c : Cache) (addr : ℕ)
    → IsValid c
    → (hit : Bool) × (c' : Cache) × (access c addr ≡ ok (hit, c')) × Accessed c addr hit c'
access-Accessed c addr v = elim (access-cases c v addr) [
  | inl (i, h, e) ↦ (
    true,
    touch (counted c) (addr % c.sets) i,
    e,
    record {
      layout = put_same-IsValid c v i (stamp i) (held-lt c addr i h) (λ t. t) refl;
      counters = put-Narrow c i (stamp i) (held-lt c addr i h) (λ n. omega arith);
      policy = refl;
      verdict = (λ _. (i, h), λ _. refl);
      same_lines = λ a j. put_same-lines c v i (stamp i) a j (held-lt c addr i h) refl;
      stamped = λ j k.
          ap (λ t. (entry_at (touch (counted c) (addr % c.sets) i) t).last_access)
            (held_unique c v addr j i k h)
          ∙ ap (λ (x : Entry). x.last_access)
              (get_or-set_self c.entries i (stamp i) zero_entry (held-lt c addr i h));
      others = λ j k.
          get_or-set_ne c.entries i j (stamp i) zero_entry (λ q. k (subst (HeldAt c addr) q h));
      accesses = refl;
      misses = refl;
    },
  )
  | inr (h, e) ↦ (
    false,
    note_miss (counted c) (addr % c.sets),
    e,
    record {
      layout = v;
      counters = λ n. n;
      policy = refl;
      verdict = (λ t. absurd (cc), λ t. absurd (h t));
      same_lines = λ a i. refl;
      stamped = λ i k. absurd (h (i, k));
      others = λ i k. refl;
      accesses = refl;
      misses = refl;
    },
  )
]
  where
    stamp : ℕ → Entry
    stamp i = record (entry_at c i) { last_access = add64 c.s_count 1; ripctr = srrip_max }

pub record Invalidated (c : Cache) (addr : ℕ) (found : Bool) (c' : Cache) : Type 0 where
  pub layout : IsValid c'
  pub verdict : (found ≡ true) ↔ Holds c addr
  pub lines : (a : ℕ) → Holds c' a ↔ (Holds c a × (a ≢ addr))

-- the entry as `mcache_invalidate` leaves it holds no line
is_line-invalid : (a : ℕ) (e : Entry) → is_line a (record e { valid = false }) ≡ false
is_line-invalid a e = refl

invalidated-lines :
    (c : Cache) (addr i a : ℕ)
    → IsValid c
    → HeldAt c addr i
    → Holds (put_entry c i (record (entry_at c i) { valid = false })) a ↔ (Holds c a × (a ≢ addr))
invalidated-lines c addr i a v h = (there, back)
  where
    gone : Entry
    gone = record (entry_at c i) { valid = false }

    cases :
        (j : ℕ)
        → ((j ≡ i) × (entry_at (put_entry c i gone) j ≡ gone))
          ⊎ ((j ≢ i) × (entry_at (put_entry c i gone) j ≡ entry_at c j))
    cases j = get_or-set-cases c.entries i j gone zero_entry (held-lt c addr i h)

    there : Holds (put_entry c i gone) a → Holds c a × (a ≢ addr)
    there (j, k) = elim (cases j) [
      | inl (q, r) ↦
          absurd (let t : is_line a gone ≡ true = ap (is_line a) (sym r) ∙ k in ground arith)
      | inr (q, r) ↦
          let k' : HeldAt c a j = ap (is_line a) (sym r) ∙ k in
          ((j, k'), λ e. q (held_unique c v addr j i (subst (λ t. HeldAt c t j) e k') h))
    ]

    back : Holds c a × (a ≢ addr) → Holds (put_entry c i gone) a
    back ((j, k), ne) = elim (cases j) [
      | inl (q, r) ↦
          let x = is_line-eq a (entry_at c j) k in
          let y = is_line-eq addr (entry_at c i) h in
          absurd (ne (sym x.1 ∙ ap (λ t. (entry_at c t).tag) q ∙ y.1))
      | inr (q, r) ↦ (j, ap (is_line a) r ∙ k)
    ]

-- On a well-formed cache mcache_invalidate always returns, says whether the line was there, keeps the cache
-- well-formed, and removes this line and no other.
pub invalidate-Invalidated :
    (c : Cache) (addr : ℕ)
    → IsValid c
    → (found : Bool) × (c' : Cache) × (invalidate c addr ≡ ok (found, c'))
      × Invalidated c addr found c'
unfolding invalidate
invalidate-Invalidated c addr v =
    elim (update_line-cases c v (λ e. record e { valid = false }) addr) [
      | inl (i, h, e) ↦ (
        true,
        _,
        e,
        record {
          layout = put_same-IsValid c v i _ (held-lt c addr i h) (λ t. absurd (cc)) refl;
          verdict = (λ _. (i, h), λ _. refl);
          lines = λ a. invalidated-lines c addr i a v h;
        },
      )
      | inr (h, e) ↦ (
        false,
        c,
        e,
        record {
          layout = v;
          verdict = (λ t. absurd (cc), λ t. absurd (h t));
          lines = λ a. (λ t. (t, λ q. h (subst (Holds c) q t)), λ t. t.0);
        },
      )
    ]

pub record MarkedDirty (c : Cache) (addr : ℕ) (found : Bool) (c' : Cache) : Type 0 where
  pub layout : IsValid c'
  pub counters : Narrow c → Narrow c'
  pub policy : c'.repl_policy ≡ c.repl_policy
  pub verdict : (found ≡ true) ↔ Holds c addr
  pub same_lines : (a i : ℕ) → is_line a (entry_at c' i) ≡ is_line a (entry_at c i)
  pub dirtied : (i : ℕ) → HeldAt c addr i → (entry_at c' i).dirty ≡ true
  pub others : (i : ℕ) → (¬ HeldAt c addr i) → entry_at c' i ≡ entry_at c i

-- On a well-formed cache mcache_mark_dirty always returns, says whether the line is there, sets the dirty
-- bit of its entry alone, and keeps the cache well-formed.
pub mark_dirty-MarkedDirty :
    (c : Cache) (addr : ℕ)
    → IsValid c
    → (found : Bool) × (c' : Cache) × (mark_dirty c addr ≡ ok (found, c'))
      × MarkedDirty c addr found c'
unfolding mark_dirty
mark_dirty-MarkedDirty c addr v =
    elim (update_line-cases c v (λ e. record e { dirty = true }) addr) [
      | inl (i, h, e) ↦ (
        true,
        put_entry c i (stained i),
        e,
        record {
          layout = put_same-IsValid c v i (stained i) (held-lt c addr i h) (λ t. t) refl;
          counters = put-Narrow c i (stained i) (held-lt c addr i h) (λ n. n i);
          policy = refl;
          verdict = (λ _. (i, h), λ _. refl);
          same_lines = λ a j. put_same-lines c v i (stained i) a j (held-lt c addr i h) refl;
          dirtied = λ j k.
              ap (λ t. (entry_at (put_entry c i (stained i)) t).dirty)
                (held_unique c v addr j i k h)
              ∙ ap (λ (x : Entry). x.dirty)
                  (get_or-set_self c.entries i (stained i) zero_entry (held-lt c addr i h));
          others = λ j k.
              get_or-set_ne c.entries i j (stained i) zero_entry
                (λ q. k (subst (HeldAt c addr) q h));
        },
      )
      | inr (h, e) ↦ (
        false,
        c,
        e,
        record {
          layout = v;
          counters = λ n. n;
          policy = refl;
          verdict = (λ t. absurd (cc), λ t. absurd (h t));
          same_lines = λ a i. refl;
          dirtied = λ i k. absurd (h (i, k));
          others = λ i k. refl;
        },
      )
    ]
  where
    stained : ℕ → Entry
    stained i = record (entry_at c i) { dirty = true }
