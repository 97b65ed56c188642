-- ===== src/Cache/Finding.antt =====
-- Where the look-ups of src/mcache.cpp find a line, and what a rewrite of its entry keeps.
use mds.Base.{
  ℕ, ◌%◌, ◌^◌, ◌<◌, ◌≡◌, sym, ap, ◌∙◌, ◌⊎◌, inl, inr, true, false, none, some, ok, arith,
  Bool-cases, Option-cases, length, get_or-set-cases, get_or-beyond,
}
use native.Mathlib.Decide.{dec_lt}
use mds.Cache.Defs.{Cache, Entry, zero_entry, entry_at, put_entry, is_line, find_line}
use mds.Cache.Layout.{
  IsValid, Narrow, HeldAt, Holds, is_line-eq, get_index-ok, find_line-some, find_line-none,
  put_entry-IsValid,
}
use mds.Cache.Lookup.{counted, touch, note_miss, access, update_line}

pub put-Narrow :
    (c : Cache) (i : ℕ) (e : Entry)
    → i < length c.entries
    → (Narrow c → e.ripctr < 2 ^ 32)
    → Narrow c
    → Narrow (put_entry c i e)
put-Narrow c i e inside small n j = elim (get_or-set-cases c.entries i j e zero_entry inside) [
  | inl (q, r) ↦ omega (arith, ap (λ (x : Entry). x.ripctr) r, small n)
  | inr (q, r) ↦ omega (arith, ap (λ (x : Entry). x.ripctr) r, n j)
]

-- an entry that holds a line lies inside the array
pub held-lt : (c : Cache) (addr i : ℕ) → HeldAt c addr i → i < length c.entries
held-lt c addr i h = elim (dec_lt i (length c.entries)) [
  | yes p ↦ p
  | no p ↦
      let e : entry_at c i ≡ zero_entry = get_or-beyond c.entries i zero_entry (omega arith) in
      absurd (ground arith)
]

module _ (c : Cache) (v : IsValid c) where
  -- Either the line is found at its entry, or no entry holds it.
  pub find_line-cases :
      (addr : ℕ)
      → ((i : ℕ) × (find_line c (addr % c.sets) addr ≡ some i) × HeldAt c addr i)
        ⊎ ((find_line c (addr % c.sets) addr ≡ none) × (¬ Holds c addr))
  find_line-cases addr = elim (Option-cases (find_line c (addr % c.sets) addr)) [
    | inl e ↦ inr (e, λ h. let m = find_line-none c v addr h.0 e in let t = h.1 in ground arith)
    | inr (i, e) ↦ inl (i, e, (find_line-some c v addr i e).0)
  ]

  pub held_unique : (addr i j : ℕ) → HeldAt c addr i → HeldAt c addr j → i ≡ j
  held_unique addr i j h k =
      let a = is_line-eq addr (entry_at c i) h in
      let b = is_line-eq addr (entry_at c j) k in v.unique i j a.0 b.0 (a.1 ∙ sym b.1)

  -- Rewriting an entry without making it valid or giving it another tag keeps the layout.
  pub put_same-IsValid :
      (i : ℕ) (e : Entry)
      → i < length c.entries
      → (e.valid ≡ true → (entry_at c i).valid ≡ true)
      → e.tag ≡ (entry_at c i).tag
      → IsValid (put_entry c i e)
  put_same-IsValid i e inside keeps same =
      put_entry-IsValid c v i e inside (λ h. rw same (v.placed i (keeps h)))
        λ h j ne. elim (Bool-cases (is_line e.tag (entry_at c j))) [
          | inr m ↦ m
          | inl m ↦
              let l = is_line-eq e.tag (entry_at c j) m in
              absurd (ne (v.unique j i l.0 (keeps h) (l.1 ∙ same)))
        ]

  -- A rewrite that keeps the valid bit and the tag changes no answer of the search.
  pub put_same-lines :
      (i : ℕ) (e : Entry) (a j : ℕ)
      → i < length c.entries
      → is_line a e ≡ is_line a (entry_at c i)
      → is_line a (entry_at (put_entry c i e) j) ≡ is_line a (entry_at c j)
  put_same-lines i e a j inside same = elim (get_or-set-cases c.entries i j e zero_entry inside) [
    | inl (q, r) ↦ ap (is_line a) r ∙ same ∙ ap (λ t. is_line a (entry_at c t)) (sym q)
    | inr (q, r) ↦ ap (is_line a) r
  ]

  -- The two outcomes of the loop that `mcache_invalidate` and `mcache_mark_dirty` share.
  pub update_line-cases :
      (f : Entry → Entry) (addr : ℕ)
      → ((i : ℕ) × HeldAt c addr i
          × (update_line f c addr ≡ ok (true, put_entry c i (f (entry_at c i)))))
        ⊎ ((¬ Holds c addr) × (update_line f c addr ≡ ok (false, c)))
  unfolding update_line
  update_line-cases f addr = elim (find_line-cases addr) [
    | inl (i, e, h) ↦ inl (i, h, rw (get_index-ok c v addr, e))
    | inr (e, h) ↦ inr (h, rw (get_index-ok c v addr, e))
  ]

  -- The same for `mcache_access`.
  pub access-cases :
      (addr : ℕ)
      → ((i : ℕ) × HeldAt c addr i
          × (access c addr ≡ ok (true, touch (counted c) (addr % c.sets) i)))
        ⊎ ((¬ Holds c addr) × (access c addr ≡ ok (false, note_miss (counted c) (addr % c.sets))))
  unfolding access find_line
  access-cases addr = elim (find_line-cases addr) [
    | inl (i, e, h) ↦ inl (i, h, rw (get_index-ok c v addr, e))
    | inr (e, h) ↦ inr (h, rw (get_index-ok c v addr, e))
  ]
