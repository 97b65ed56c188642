-- ===== src/Cache/Victim.antt =====
-- The replacement policies: mcache_find_victim and its four policies in src/mcache.cpp.
pub mod Lru
pub mod WriteBack
pub mod Srrip
pub mod Choose
use mds.Base.{
  ℕ, zero, suc, ◌+◌, ◌-◌, ◌%◌, ◌^◌, Bool, true, false, not, ◌&&◌, ◌||◌, Option, none, some, Result,
  ok, err, ◌>>=◌, exited, undefined, hangs, ltb, ◌==◌, if◌then◌else◌, add32, add64, sub32,
  find_index, for_range, Rand, draw,
}
use mds.Cache.Defs.{
  Cache, ReplPolicy, repl_lru, repl_rnd, repl_srrip, repl_lru_wbt, num_repl_policy, entry_at,
  put_entry, start_of, end_of,
}

-- the number of rounds of a loop from `start` to `end`
abbrev pub ways : Cache → ℕ → ℕ
ways c set_id = end_of c set_id - start_of c set_id

abbrev pub last_access : Cache → ℕ → ℕ
last_access c ii = (entry_at c ii).last_access

-- the loop body of `mcache_find_victim_lru`
abbrev pub lru_step : Cache → ℕ → ℕ → ℕ
lru_step c ii lowest = if ltb (last_access c ii) (last_access c lowest) then ii else lowest

-- `mcache_find_victim_lru`
unfoldable pub victim_lru : Cache → ℕ → ℕ
victim_lru c set_id = for_range (lru_step c) (ways c set_id) (start_of c set_id) (start_of c set_id)

-- `mcache_find_victim_rnd`
unfoldable pub victim_rnd : Cache → ℕ → Rand → Result (ℕ × Rand)
victim_rnd c set_id r =
    let (v, r') = draw r in
    if c.assocs == 0 then err undefined else ok (add32 (start_of c set_id) (v % c.assocs), r')

-- one round of aging: `ripctr--` in every entry of the set
abbrev pub age_entry : ℕ → Cache → Cache
age_entry ii c = let e = entry_at c ii in put_entry c ii (record e { ripctr = sub32 e.ripctr 1 })

unfoldable pub age : Cache → ℕ → ℕ → Cache
age c start n = for_range age_entry n start c

abbrev pub expired : Cache → ℕ → Bool
expired c ii = (entry_at c ii).ripctr == 0

-- the loop `while(victim == end)`, with the number of rounds it may make
unfoldable pub srrip_loop : ℕ → Cache → ℕ → ℕ → Result (ℕ × Cache)
srrip_loop zero c start n = err hangs
srrip_loop (suc fuel) c start n = elim (find_index (expired c) n start) [
  | some victim ↦ ok (victim, c)
  | none ↦ srrip_loop fuel (age c start n) start n
]

-- `mcache_find_victim_srrip`. Every round lowers the first entry's counter by one, so its value bounds
-- the rounds; an empty set makes the source loop for ever.
unfoldable pub victim_srrip : Cache → ℕ → Result (ℕ × Cache)
victim_srrip c set_id =
    srrip_loop (suc (entry_at c (start_of c set_id)).ripctr) c (start_of c set_id) (ways c set_id)

pub record Choice : Type 0 where
  pub found : Bool
  pub lowest : ℕ

-- the second test in the loop body of `mcache_find_victim_lru_wbt`; `tth` is LRU_WB_TTH
abbrev pub affordable : ℕ → Cache → ℕ → Bool
affordable tth c ii = not (entry_at c ii).dirty || ltb c.wb_in_2k_epoch tth

abbrev pub consider : ℕ → Cache → ℕ → Choice → Choice
consider tth c ii s =
    if not s.found || ltb (last_access c ii) (last_access c s.lowest)
    then (if affordable tth c ii then record { found = true; lowest = ii } else s)
    else s

-- the loop, with its `break` at an invalid entry
unfoldable pub wbt_loop : ℕ → Cache → ℕ → ℕ → Choice → Choice
wbt_loop tth c zero ii s = s
wbt_loop tth c (suc n) ii s = elim (entry_at c ii).valid [
  | true ↦ wbt_loop tth c n (ii + 1) (consider tth c ii s)
  | false ↦ record { found = true; lowest = ii }
]

-- the statistics after the loop, and the victim
wbt_settle : Cache → ℕ → Choice → ℕ × Cache
wbt_settle c lruv s =
    let victim = if s.found then s.lowest else lruv in
    let avoided =
      s.found
      && (not (lruv == s.lowest) && ((entry_at c lruv).dirty && not (entry_at c s.lowest).dirty)) in
    (
      victim,
      record c {
        s_wb_forced = if s.found then c.s_wb_forced else add64 c.s_wb_forced 1;
        s_wb_avoided = if avoided then add64 c.s_wb_avoided 1 else c.s_wb_avoided;
        wb_in_2k_epoch =
            if (entry_at c victim).dirty then add32 c.wb_in_2k_epoch 1 else c.wb_in_2k_epoch;
      },
    )

-- `mcache_find_victim_lru_wbt`
unfoldable pub victim_lru_wbt : ℕ → Cache → ℕ → ℕ × Cache
unfolding wbt_settle
victim_lru_wbt tth c set_id = wbt_settle c (victim_lru c set_id) (
    wbt_loop tth c (ways c set_id) (start_of c set_id)
      (record { found = false; lowest = start_of c set_id }))

-- The search of `mcache_find_victim` for an invalid entry. Its bounds are `int`: an `end` of 2^31 or
-- more is negative and ends the loop at once, and a negative `start` reads before the array.
unfoldable pub find_invalid : Cache → ℕ → Result (Option ℕ)
find_invalid c set_id =
    let start = start_of c set_id in
    let stop = end_of c set_id in
    if ltb start (2 ^ 31)
    then ok (
        find_index (λ ii. not (entry_at c ii).valid) (if ltb stop (2 ^ 31) then stop - start else 0)
          start)
    else if ltb start stop || ltb stop (2 ^ 31)
    then err undefined
    else ok none

-- the `switch` of `mcache_find_victim`
unfoldable pub victim_by_policy : ReplPolicy → ℕ → Cache → ℕ → Rand → Result (ℕ × Cache × Rand)
victim_by_policy repl_lru tth c set_id r = ok (victim_lru c set_id, c, r)
victim_by_policy repl_rnd tth c set_id r = do (v, r') ← victim_rnd c set_id r; ok (v, c, r')
victim_by_policy repl_srrip tth c set_id r = do (v, c') ← victim_srrip c set_id; ok (v, c', r)
victim_by_policy repl_lru_wbt tth c set_id r =
    let (v, c') = victim_lru_wbt tth c set_id in ok (v, c', r)
victim_by_policy num_repl_policy tth c set_id r = err exited

-- `mcache_find_victim`
unfoldable pub find_victim : ℕ → Cache → ℕ → Rand → Result (ℕ × Cache × Rand)
find_victim tth c set_id r = do
  invalid ← find_invalid c set_id
  elim invalid [ some ii ↦ ok (ii, c, r) | none ↦ victim_by_policy c.repl_policy tth c set_id r ]
