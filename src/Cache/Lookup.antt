-- ===== src/Cache/Lookup.antt =====
-- mcache_access, mcache_probe, mcache_invalidate and mcache_mark_dirty of src/mcache.cpp.
use mds.Base.{ℕ, Bool, true, false, none, some, Result, ok, ◌>>=◌, add64, sub32}
use mds.Cache.Defs.{Cache, Entry, entry_at, put_entry, get_index, start_of, find_line}

abbrev pub srrip_max : ℕ
srrip_max = 7

-- `c->s_count++`
abbrev pub counted : Cache → Cache
counted c = record c { s_count = add64 c.s_count 1 }

-- the state after a hit at `ii`
abbrev pub touch : Cache → ℕ → ℕ → Cache
touch c set_id ii =
    record (put_entry c ii
      (record (entry_at c ii) { last_access = c.s_count; ripctr = srrip_max })) {
        touched_wayid = sub32 ii (start_of c set_id);
        touched_setid = set_id;
        touched_lineid = ii;
      }

-- the state after a miss
abbrev pub note_miss : Cache → ℕ → Cache
note_miss c set_id = record c {
  touched_wayid = 0;
  touched_setid = set_id;
  touched_lineid = start_of c set_id;
  s_miss = add64 c.s_miss 1;
}

-- `mcache_access`; true is `HIT`
unfoldable pub access : Cache → ℕ → Result (Bool × Cache)
access c addr = do
  set_id ← get_index c addr
  ok (elim (find_line (counted c) set_id addr) [
    | some ii ↦ (true, touch (counted c) set_id ii)
    | none ↦ (false, note_miss (counted c) set_id)
  ])

-- `mcache_probe`
unfoldable pub probe : Cache → ℕ → Result Bool
probe c addr = do
  set_id ← get_index c addr
  ok (elim (find_line c set_id addr) [ some ii ↦ true | none ↦ false ])

-- The loops of `mcache_invalidate` and `mcache_mark_dirty` differ in the flag they set.
unfoldable pub update_line : (Entry → Entry) → Cache → ℕ → Result (Bool × Cache)
update_line f c addr = do
  set_id ← get_index c addr
  ok (elim (find_line c set_id addr) [
    | some ii ↦ (true, put_entry c ii (f (entry_at c ii)))
    | none ↦ (false, c)
  ])

-- `mcache_invalidate`
unfoldable pub invalidate : Cache → ℕ → Result (Bool × Cache)
invalidate = update_line (λ e. record e { valid = false })

-- `mcache_mark_dirty`
unfoldable pub mark_dirty : Cache → ℕ → Result (Bool × Cache)
mark_dirty = update_line (λ e. record e { dirty = true })
