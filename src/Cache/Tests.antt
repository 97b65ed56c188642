-- ===== src/Cache/Tests.antt =====
-- The cache at concrete inputs: two sets of two ways, filled by a short history.
use mds.Base.{
  ℕ, zero, suc, ◌%◌, ◌^◌, ◌≤◌, ◌<◌, ◌≡◌, refl, sym, ap, ◌∙◌, ◌⊎◌, Bool, true, false, [], ◌∷◌, ok,
  err, exited, Rand, arith, find_index, for_range, if◌then◌else◌, ◌==◌,
}
use mds.Cache.Defs.{Cache, Entry, zero_entry, entry_at, repl_lru, get_index, find_line}
use mds.Cache.Layout.{IsValid, InSet, Holds}
use mds.Cache.Lookup.{access, probe, invalidate, mark_dirty}
use mds.Cache.Victim.{
  last_access, victim_lru, victim_srrip, victim_lru_wbt, find_victim, age, srrip_loop, wbt_loop,
  find_invalid, victim_by_policy,
}
use mds.Cache.Install.{check_absent, note_eviction, fill, install}
use mds.Cache.Contents.{
  probe-Holds, Accessed, access-Accessed, Invalidated, invalidate-Invalidated, MarkedDirty,
  mark_dirty-MarkedDirty,
}
use mds.Cache.Victim.Lru.{victim_lru-oldest}
use mds.Cache.Victim.WriteBack.{WbtChoice, victim_lru_wbt-WbtChoice}
use mds.Cache.Victim.Srrip.{SrripChoice, victim_srrip-SrripChoice}
use mds.Cache.Victim.Choose.{Chosen, find_victim-Chosen}
use mds.Cache.Replace.{Installed, install-Installed, install-present}

abbrev line : ℕ → Bool → ℕ → ℕ → Entry
line t d rip now = record zero_entry {
  valid = true;
  dirty = d;
  tag = t;
  ripctr = rip;
  last_access = now;
}

-- set 0 holds lines 4 (dirty) and 2, set 1 holds line 7 and an invalid entry
abbrev warm : Cache
warm = record cold {
  entries = line 4 true 7 5 ∷ line 2 false 2 6 ∷ line 7 false 1 3 ∷ zero_entry ∷ [];
  s_count = 6;
}
  where
    cold : Cache
    cold = record {
      sets = 2;
      assocs = 2;
      repl_policy = repl_lru;
      index_policy = 0;
      entries = [];
      touched_wayid = 0;
      touched_setid = 0;
      touched_lineid = 0;
      evicted_dirty_line = false;
      evicted_line_addr = 0;
      s_count = 0;
      s_miss = 0;
      s_evict = 0;
      s_wb_avoided = 0;
      s_wb_forced = 0;
      wb_in_2k_epoch = 0;
    }

abbrev zeros : Rand
zeros _ = 0

-- the least recently used line 4 goes, and is written back
install_evicts_dirty :
    let r = install 32 warm 6 zeros in
    r
    ≡ ok (
      record warm {
        entries = line 6 false 1 6 ∷ line 2 false 2 6 ∷ line 7 false 1 3 ∷ zero_entry ∷ [];
        evicted_dirty_line = true;
        evicted_line_addr = 4;
        s_evict = 1;
      },
      zeros,
    )
unfolding install get_index find_line find_index check_absent find_victim find_invalid
    victim_by_policy victim_lru for_range note_eviction fill
install_evicts_dirty = refl

-- SRRIP ages the set twice and takes line 2
srrip_ages :
    victim_srrip warm 0
    ≡ ok (
      1,
      record warm {
        entries = line 4 true 5 5 ∷ line 2 false 0 6 ∷ line 7 false 1 3 ∷ zero_entry ∷ [];
      },
    )
unfolding victim_srrip srrip_loop age for_range find_index
srrip_ages = refl

-- with the budget spent the write-back aware policy spares the dirty line 4
wbt_spares_dirty : (victim_lru_wbt 0 warm 0).0 ≡ 1
unfolding victim_lru_wbt wbt_loop victim_lru for_range
wbt_spares_dirty = refl

-- the entry of each line of `warm`
abbrev slot : ℕ → ℕ
slot t = if t == 4 then 0 else if t == 2 then 1 else 2

warm-slot : (i : ℕ) → (entry_at warm i).valid ≡ true → i ≡ slot (entry_at warm i).tag
warm-slot zero h = refl
warm-slot (suc zero) h = refl
warm-slot (suc (suc zero)) h = refl
warm-slot (suc (suc (suc zero))) h = absurd (cc)
warm-slot (suc (suc (suc (suc i)))) h = absurd (cc)

warm_placed : (i : ℕ) → (entry_at warm i).valid ≡ true → InSet 2 ((entry_at warm i).tag % 2) i
warm_placed zero h = omega arith
warm_placed (suc zero) h = omega arith
warm_placed (suc (suc zero)) h = omega arith
warm_placed (suc (suc (suc zero))) h = absurd (cc)
warm_placed (suc (suc (suc (suc i)))) h = absurd (cc)

warm-IsValid : IsValid warm
warm-IsValid = record {
  some_sets = omega arith;
  some_ways = omega arith;
  modulo = refl;
  sized = refl;
  small = omega arith;
  placed = warm_placed;
  unique = λ i j x y t. warm-slot i x ∙ ap slot t ∙ sym (warm-slot j y);
}

warm-Narrow : (i : ℕ) → (entry_at warm i).ripctr < 2 ^ 32
warm-Narrow zero = omega arith
warm-Narrow (suc zero) = omega arith
warm-Narrow (suc (suc zero)) = omega arith
warm-Narrow (suc (suc (suc zero))) = omega arith
warm-Narrow (suc (suc (suc (suc i)))) = omega arith

warm_full : (i : ℕ) → InSet 2 0 i → (entry_at warm i).valid ≡ true
warm_full zero h = refl
warm_full (suc zero) h = refl
warm_full (suc (suc i)) h = absurd (omega arith)

-- line 6 is not there
warm_without_6 : ¬ Holds warm 6
warm_without_6 (zero, h) = cc
warm_without_6 (suc zero, h) = cc
warm_without_6 (suc (suc zero), h) = cc
warm_without_6 (suc (suc (suc zero)), h) = cc
warm_without_6 (suc (suc (suc (suc i))), h) = cc

probe-Holds_example :
    ((probe warm 4 ≡ ok true) × Holds warm 4) ⊎ ((probe warm 4 ≡ ok false) × (¬ Holds warm 4))
probe-Holds_example = probe-Holds warm warm-IsValid 4

access-Accessed_example :
    (hit : Bool) × (c' : Cache) × (access warm 4 ≡ ok (hit, c')) × Accessed warm 4 hit c'
access-Accessed_example = access-Accessed warm 4 warm-IsValid

invalidate-Invalidated_example :
    (found : Bool) × (c' : Cache) × (invalidate warm 2 ≡ ok (found, c'))
    × Invalidated warm 2 found c'
invalidate-Invalidated_example = invalidate-Invalidated warm 2 warm-IsValid

mark_dirty-MarkedDirty_example :
    (found : Bool) × (c' : Cache) × (mark_dirty warm 7 ≡ ok (found, c'))
    × MarkedDirty warm 7 found c'
mark_dirty-MarkedDirty_example = mark_dirty-MarkedDirty warm 7 warm-IsValid

victim_lru-oldest_example :
    InSet 2 0 (victim_lru warm 0)
    × ((j : ℕ)
        → InSet 2 0 j
        → (last_access warm (victim_lru warm 0) ≤ last_access warm j)
          × (j < victim_lru warm 0 → last_access warm (victim_lru warm 0) < last_access warm j))
victim_lru-oldest_example = victim_lru-oldest warm 0 warm-IsValid (omega arith)

victim_lru_wbt-WbtChoice_example : WbtChoice 0 warm 0 (victim_lru_wbt 0 warm 0)
victim_lru_wbt-WbtChoice_example =
    victim_lru_wbt-WbtChoice 0 warm 0 warm-IsValid (omega arith) warm_full

victim_srrip-SrripChoice_example :
    (k : ℕ) × (c' : Cache) × (victim_srrip warm 0 ≡ ok (k, c')) × SrripChoice warm 0 2 k c'
victim_srrip-SrripChoice_example =
    victim_srrip-SrripChoice warm 0 warm-IsValid (omega arith) warm-Narrow

find_victim-Chosen_example :
    (k : ℕ) × (c' : Cache) × (r' : Rand) × (find_victim 32 warm 1 zeros ≡ ok (k, c', r'))
    × Chosen warm 1 k c'
find_victim-Chosen_example =
    find_victim-Chosen 32 warm 1 warm-IsValid (omega arith) zeros warm-Narrow (λ e. cc)

install-Installed_example :
    (k : ℕ) × (c' : Cache) × (r' : Rand) × (install 32 warm 6 zeros ≡ ok (c', r'))
    × Installed warm 6 k c'
install-Installed_example =
    install-Installed 32 warm 6 zeros warm-IsValid warm-Narrow (λ e. cc) warm_without_6

twice_installed : install 32 warm 7 zeros ≡ err exited
twice_installed = install-present 32 warm 7 zeros warm-IsValid (2, refl)
