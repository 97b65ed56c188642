-- ===== src/Cache/Install.antt =====
-- mcache_install of src/mcache.cpp.
use mds.Base.{
  ℕ, true, false, ◌&&◌, none, some, Result, ok, err, ◌>>=◌, ◌>>◌, exited, if◌then◌else◌, add64,
  sub32, Rand,
}
use mds.Cache.Defs.{Cache, Entry, entry_at, put_entry, get_index, start_of, find_line}
use mds.Cache.Victim.{find_victim}

abbrev pub srrip_init : ℕ
srrip_init = 1

-- `exit(-1)` when the line is already there
unfoldable pub check_absent : Cache → ℕ → ℕ → Result (Unit {0})
check_absent c set_id tag = elim (find_line c set_id tag) [ some ii ↦ err exited | none ↦ ok tt ]

-- the bookkeeping of the entry that is thrown out
unfoldable pub note_eviction : Cache → Entry → Cache
note_eviction c e =
    let writes_back = e.valid && e.dirty in
    record c {
      s_evict = if e.valid then add64 c.s_evict 1 else c.s_evict;
      evicted_dirty_line = if writes_back then true else c.evicted_dirty_line;
      evicted_line_addr = if writes_back then e.tag else c.evicted_line_addr;
    }

-- the new information, and the touched position
unfoldable pub fill : Cache → ℕ → ℕ → ℕ → Cache
fill c set_id victim tag =
    record (put_entry c victim (record (entry_at c victim) {
      tag = tag;
      valid = true;
      dirty = false;
      ripctr = srrip_init;
      last_access = c.s_count;
    })) {
      touched_lineid = victim;
      touched_setid = set_id;
      touched_wayid = sub32 victim (start_of c set_id);
    }

-- `mcache_install`
unfoldable pub install : ℕ → Cache → ℕ → Rand → Result (Cache × Rand)
install tth c addr r = do
  set_id ← get_index c addr
  let c0 = record c { evicted_dirty_line = false }
  check_absent c0 set_id addr
  (victim, c1, r') ← find_victim tth c0 set_id r
  ok (fill (note_eviction c1 (entry_at c1 victim)) set_id victim addr, r')
