-- ===== src/Sim/Pending.antt =====
-- What joins the reorder buffer of a core (src/mcore.cpp) to the table of the memory system (src/memsys.cpp):
-- every read in flight has its place in the buffer of its core, where its instruction waits.
use mds.Base.{
  ℕ, ◌+◌, ◌%◌, ◌^◌, ◌<◌, ◌≡◌, ◌≢◌, sym, ap, ◌∙◌, Bool, true, List, [], ◌∷◌, arith, leb, length-set,
  get_or-set_ne, get_or-set_self, sub64,
}
use mds.Settings.{Settings}
use mds.Core.Types.{RobEntry, Rob, Core, default_mem_delay, no_rob_entry}
use mds.Core.Rob.{rob_at, put_rob}
use mds.Core.Rob.Ring.{ring_ne}
use mds.Core.Rob.Queue.{Ring}
use mds.MemSys.Table.{MshrEntry, Each}

-- the part of a core that the memory depends on
pub record Frame : Type 0 where
  pub rob : Rob
  pub asleep : Bool
  pub sleep_robid : ℕ
  pub sleep_inst_num : ℕ
  pub sleep_lineaddr : ℕ
  pub id : ℕ
  pub cycle : ℕ

abbrev pub frame : {T : Type 0} → Core T → Frame
frame c = record {
  rob = c.rob;
  asleep = c.sleep;
  sleep_robid = c.sleep_robid;
  sleep_inst_num = c.sleep_inst_num;
  sleep_lineaddr = c.sleep_lineaddr;
  id = c.id;
  cycle = c.cycle;
}

-- It was inserted with the delay of the memory.
abbrev pub is_slow : RobEntry → Bool
is_slow e = leb default_mem_delay (sub64 e.ready_time e.birth_time)

module _ (g : Settings) where
  -- The instruction of the table's entry is in the buffer, at the entry's place, and waits for the memory;
  -- it is not the one that the core sleeps on.
  pub record Pending (f : Frame) (e : MshrEntry) : Type 0 where
    pub at : ℕ
    pub inside : at < f.rob.size
    pub place : e.robid ≡ (f.rob.ptr + at) % g.rob_size
    pub holds : (rob_at f.rob e.robid).inst_num ≡ e.inst_num
    pub slow : is_slow (rob_at f.rob e.robid) ≡ true
    pub other : f.asleep ≡ true → e.robid ≢ f.sleep_robid

  -- The instruction that the core sleeps on is in the buffer, and its line in the memory.
  pub record Sleeper (lines : ℕ) (f : Frame) : Type 0 where
    pub at : ℕ
    pub inside : at < f.rob.size
    pub place : f.sleep_robid ≡ (f.rob.ptr + at) % g.rob_size
    pub holds : (rob_at f.rob f.sleep_robid).inst_num ≡ f.sleep_inst_num
    pub line : f.sleep_lineaddr < lines

  pub record FrameOk (lines i : ℕ) (f : Frame) : Type 0 where
    pub ring : Ring g.rob_size f.rob
    pub id : f.id ≡ i
    pub cycle : f.cycle < 2 ^ 64
    pub sleeper : f.asleep ≡ true → Sleeper lines f

  -- the entries of core `i`
  abbrev pub Own : ℕ → Frame → MshrEntry → Type 0
  Own i f e = e.coreid ≡ i → Pending f e

  pub Pending-place :
      (f : Frame) (e : MshrEntry) → Ring g.rob_size f.rob → Pending f e → e.robid < g.rob_size
  Pending-place f e v p = let pos = v.some_room in let q = p.place in grind arith

  -- a write to another place
  pub put-Pending :
      (f : Frame) (e : MshrEntry) (p : ℕ) (x : RobEntry)
      → e.robid ≢ p
      → Pending f e
      → Pending (record f { rob = put_rob (f.rob) p x }) e
  put-Pending f e p x ne w = record {
    at = w.at;
    inside = w.inside;
    place = w.place;
    holds = ap (λ (t : RobEntry). t.inst_num) same ∙ w.holds;
    slow = ap is_slow same ∙ w.slow;
    other = w.other;
  }
    where
      same : rob_at (put_rob (f.rob) p x) e.robid ≡ rob_at f.rob e.robid
      same = get_or-set_ne f.rob.entries p e.robid x no_rob_entry (λ q. ne (sym q))

  pub put-Ring :
      (q : Rob) (p : ℕ) (x : RobEntry) → Ring g.rob_size q → Ring g.rob_size (put_rob q p x)
  put-Ring q p x v = record {
    some_room = v.some_room;
    small = v.small;
    inside = omega (arith, v.inside, length-set q.entries p x);
    front = v.front;
    fits = v.fits;
  }

  -- the place behind the last entry is nobody's
  pub Pending-ne-new :
      (f : Frame) (e : MshrEntry)
      → Ring g.rob_size f.rob
      → f.rob.size < g.rob_size
      → Pending f e
      → e.robid ≢ (f.rob.ptr + f.rob.size) % g.rob_size
  Pending-ne-new f e v room w q =
      ring_ne f.rob.ptr w.at f.rob.size g.rob_size v.front w.inside room (sym q ∙ w.place)

  -- the buffer after an insertion
  abbrev pub inserted : Rob → RobEntry → Rob
  inserted q x = record (put_rob q ((q.ptr + q.size) % g.rob_size) x) { size = q.size + 1 }

  pub inserted-Ring :
      (q : Rob) (x : RobEntry)
      → Ring g.rob_size q
      → q.size < g.rob_size
      → Ring g.rob_size (inserted q x)
  inserted-Ring q x v room = record {
    some_room = v.some_room;
    small = v.small;
    inside = omega (arith, v.inside, length-set q.entries ((q.ptr + q.size) % g.rob_size) x);
    front = v.front;
    fits = omega arith;
  }

  pub inserted-Pending :
      (f : Frame) (e : MshrEntry) (x : RobEntry)
      → Ring g.rob_size f.rob
      → f.rob.size < g.rob_size
      → Pending f e
      → Pending (record f { rob = inserted (f.rob) x }) e
  inserted-Pending f e x v room w =
      let p =
        put-Pending f e ((f.rob.ptr + f.rob.size) % g.rob_size) x (Pending-ne-new f e v room w) w in
      record {
        at = w.at;
        inside = omega (arith, w.inside);
        place = w.place;
        holds = p.holds;
        slow = p.slow;
        other = w.other;
      }

  pub inserted_self :
      (q : Rob) (x : RobEntry)
      → Ring g.rob_size q
      → rob_at (inserted q x) ((q.ptr + q.size) % g.rob_size) ≡ x
  inserted_self q x v =
      get_or-set_self q.entries ((q.ptr + q.size) % g.rob_size) x no_rob_entry
        (let a = v.some_room in let b = v.inside in grind arith)

-- No two entries of the table have the same place in the buffer of one core.
abbrev pub Elsewhere : MshrEntry → MshrEntry → Type 0
Elsewhere e e' = e'.coreid ≡ e.coreid → e'.robid ≢ e.robid

abbrev pub Apart : List (ℕ × MshrEntry) → Type 0
Apart [] = Unit
Apart ((k, e) ∷ t) = Each (Elsewhere e) t × Apart t
