-- ===== src/Cache/Defs.antt =====
-- The last-level cache: src/mcache.h, and the parts of src/mcache.cpp that every operation uses.
use mds.Base.{
  ℕ, ◌-◌, ◌%◌, Bool, false, ◌&&◌, Option, List, Result, ok, err, exited, undefined, ◌==◌,
  if◌then◌else◌, get_or, set, replicate, add32, mul32, find_index,
}

pub data ReplPolicy : Type 0 where
  repl_lru repl_rnd repl_srrip repl_lru_wbt num_repl_policy : ReplPolicy

-- The cast `(MCache_ReplPolicy)repl_policy`. `num_repl_policy` stands for every value that no policy has.
unfoldable pub repl_of_uns : ℕ → ReplPolicy
repl_of_uns n =
    if n == 0
    then repl_lru
    else if n == 1
    then repl_rnd
    else if n == 2
    then repl_srrip
    else if n == 3
    then repl_lru_wbt
    else num_repl_policy

pub record Entry : Type 0 where
  pub valid : Bool
  pub dirty : Bool
  pub tag : ℕ
  pub ripctr : ℕ
  pub last_access : ℕ
  pub orig_lineaddr : ℕ

-- An entry as `calloc` leaves it; also what a read outside the array is taken to give.
abbrev pub zero_entry : Entry
zero_entry = record {
  valid = false;
  dirty = false;
  tag = 0;
  ripctr = 0;
  last_access = 0;
  orig_lineaddr = 0;
}

pub record Cache : Type 0 where
  pub sets : ℕ
  pub assocs : ℕ
  pub repl_policy : ReplPolicy
  pub index_policy : ℕ
  pub entries : List Entry
  pub touched_wayid : ℕ
  pub touched_setid : ℕ
  pub touched_lineid : ℕ
  pub evicted_dirty_line : Bool
  pub evicted_line_addr : ℕ
  pub s_count : ℕ
  pub s_miss : ℕ
  pub s_evict : ℕ
  pub s_wb_avoided : ℕ
  pub s_wb_forced : ℕ
  pub wb_in_2k_epoch : ℕ

-- `mcache_new`
unfoldable pub new : ℕ → ℕ → ℕ → Cache
unfolding repl_of_uns
new sets assocs repl = record {
  sets = sets;
  assocs = assocs;
  repl_policy = repl_of_uns repl;
  index_policy = 0;
  entries = replicate (mul32 sets assocs) zero_entry;
  touched_wayid = 0;
  touched_setid = 0;
  touched_lineid = 0;
  evicted_dirty_line = false;
  evicted_line_addr = 0;
  s_count = 0;
  s_miss = 0;
  s_evict = 0;
  s_wb_avoided = 0;
  s_wb_forced = 0;
  wb_in_2k_epoch = 0;
}

-- `c->entries[ii]`
abbrev pub entry_at : Cache → ℕ → Entry
entry_at c ii = get_or c.entries ii zero_entry

-- a write through `&c->entries[ii]`
abbrev pub put_entry : Cache → ℕ → Entry → Cache
put_entry c ii e = record c { entries = set c.entries ii e }

-- `mcache_get_index`: `exit(-1)` for an unknown policy; a remainder by zero sets is undefined.
unfoldable pub get_index : Cache → ℕ → Result ℕ
get_index c addr =
    if c.index_policy == 0
    then (if c.sets == 0 then err undefined else ok (addr % c.sets))
    else err exited

-- the loop bounds `start = set * c->assocs` and `end = start + c->assocs`
abbrev pub start_of : Cache → ℕ → ℕ
start_of c set_id = mul32 set_id c.assocs

abbrev pub end_of : Cache → ℕ → ℕ
end_of c set_id = add32 (start_of c set_id) c.assocs

-- the test `entry->valid && (entry->tag == tag)`
abbrev pub is_line : ℕ → Entry → Bool
is_line tag e = e.valid && e.tag == tag

-- The loop that `mcache_access`, `mcache_probe`, `mcache_invalidate`, `mcache_mark_dirty` and
-- `mcache_install` begin with: the first entry of the set that holds the line.
unfoldable pub find_line : Cache → ℕ → ℕ → Option ℕ
find_line c set_id tag =
    find_index (λ ii. is_line tag (entry_at c ii)) (end_of c set_id - start_of c set_id)
      (start_of c set_id)
