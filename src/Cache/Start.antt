-- ===== src/Cache/Start.antt =====
-- mcache_new of src/mcache.cpp: a new cache is well-formed and holds nothing.
use mds.Base.{
  ℕ, ◌*◌, ◌<◌, ◌^◌, ◌≡◌, refl, ap, ◌∙◌, true, arith, mul32, length-replicate, get_or-replicate,
}
use mds.Cache.Defs.{Entry, zero_entry, entry_at, new}
use mds.Cache.Layout.{Narrow, IsValid, Holds}

module _ (sets assocs repl : ℕ) where
  entries-new : (i : ℕ) → entry_at (new sets assocs repl) i ≡ zero_entry
  unfolding new
  entries-new i = get_or-replicate (mul32 sets assocs) i zero_entry

  invalid-new : (i : ℕ) → (entry_at (new sets assocs repl) i).valid ≡ true → ⊥
  invalid-new i h = let e = ap (λ (x : Entry). x.valid) (entries-new i) in ground arith

  -- With at least one set and one way, and fewer than 2^31 entries, mcache_new gives a well-formed cache
  -- that holds no line.
  pub new-IsValid :
      0 < sets
      → 0 < assocs
      → sets * assocs < 2 ^ 31
      → IsValid (new sets assocs repl) × ((addr : ℕ) → ¬ Holds (new sets assocs repl) addr)
  unfolding new
  new-IsValid s a small = (
    record {
      some_sets = s;
      some_ways = a;
      modulo = refl;
      sized = length-replicate (mul32 sets assocs) zero_entry ∙ omega arith;
      small = small;
      placed = λ i h. absurd (invalid-new i h);
      unique = λ i j x y z. absurd (invalid-new i x);
    },
    λ addr h. let e = entries-new h.0 in let t = h.1 in ground arith,
  )

  pub new-Narrow : Narrow (new sets assocs repl)
  new-Narrow j = omega (arith, ap (λ (x : Entry). x.ripctr) (entries-new j))
