-- ===== src/Sim/Sending.antt =====
-- The end of an instruction in mcore_cycle of src/mcore.cpp: its entry in the reorder buffer, and its request
-- to the memory.
use mds.Base.{
  ℕ, ◌+◌, ◌%◌, ◌^◌, ◌<◌, ◌≤◌, ◌≡◌, refl, sym, ap, ◌∙◌, subst, Bool, true, false, not, List, ◌∷◌,
  arith, ok, lt→ltb, le→leb, length, if◌then◌else◌, add32, add64, sub64, Safe, Safe-bind, returns,
}
use mds.Settings.{Settings}
use mds.Core.Types.{RobEntry, Core, default_mem_delay}
use mds.Core.Rob.{rob_insert}
use mds.Core.Rob.Queue.{Ring}
use mds.Core.Cycle.{Nest, send}
use mds.MemSys.{MemSys, memsys_access}
use mds.MemSys.Table.{MshrEntry, Each, Each-map}
use mds.MemSys.Keeping.{MemKept, memsys_access-Safe}
use mds.Sim.Pending.{
  frame, is_slow, Pending, Own, Elsewhere, Apart, Pending-ne-new, inserted, inserted-Ring,
  inserted-Pending, inserted_self,
}
use mds.Sim.Turn.{Limits, Any, Grown, InCycle}

-- the entry that is inserted
abbrev pub new_entry : {T : Type 0} → Core T → ℕ → RobEntry
new_entry c delay = record {
  birth_time = c.cycle;
  ready_time = add64 c.cycle delay;
  inst_num = c.inst_num;
}

pub slow_delay :
    (cycle delay : ℕ)
    → cycle < 2 ^ 64
    → default_mem_delay ≤ delay
    → delay < 2 ^ 32
    → default_mem_delay ≤ sub64 (add64 cycle delay) cycle
slow_delay cycle delay a b c = omega arith

module _ {T : Type 0} (g : Settings) where
  abbrev pub with_entry : Core T → ℕ → Core T
  with_entry c delay = record c { rob = inserted g (c.rob) (new_entry c delay) }

  abbrev pub next_place : Core T → ℕ
  next_place c = (c.rob.ptr + c.rob.size) % g.rob_size

  pub rob_insert-inserted :
      (c : Core T) (delay : ℕ)
      → Ring g.rob_size c.rob
      → c.rob.size < g.rob_size
      → rob_insert g c c.inst_num c.cycle (add64 c.cycle delay)
        ≡ ok (next_place c, with_entry c delay)
  unfolding rob_insert
  rob_insert-inserted c delay v room =
      let fits = lt→ltb c.rob.size g.rob_size room in
      let place : add32 c.rob.ptr c.rob.size % g.rob_size ≡ next_place c =
        ap (λ t. t % g.rob_size) (omega (arith, v.small, v.front)) in
      let inside : next_place c < length c.rob.entries =
        (let a = v.some_room in let b = v.inside in grind arith) in
      let size : add32 c.rob.size 1 ≡ c.rob.size + 1 = omega (arith, v.small) in
      rw (fits, place, lt→ltb _ _ inside, size)

module _ {T : Type 0} (g : Settings) (limits : Limits g) (now rows lines i : ℕ)
    (t0 : List (ℕ × MshrEntry)) where
  pub inserted-InCycle :
      (n : Nest) (c : Core T) (delay : ℕ)
      → InCycle g rows lines i t0 n c
      → c.sleep ≡ false
      → c.rob.size < g.rob_size
      → InCycle g rows lines i t0 n (with_entry g c delay)
  inserted-InCycle n c delay v awake room = record {
    nest = v.nest;
    core = record {
      ring = inserted-Ring g c.rob (new_entry c delay) v.core.ring room;
      id = v.core.id;
      cycle = v.core.cycle;
      sleeper = λ asleep. absurd (cc);
    };
    own =
        Each-map (Own g i (frame c)) (Own g i (frame (with_entry g c delay))) n.memsys.mshr
          (λ e w q. inserted-Pending g (frame c) e (new_entry c delay) v.core.ring room (w q))
          v.own;
    apart = v.apart;
    grown = v.grown;
    va = v.va;
  }

  -- what an instruction comes to
  abbrev pub Issued : Core T → Bool × Nest × Core T → Type 0
  Issued c out =
      InCycle g rows lines i t0 out.1 out.2
      × (out.2.rob.size ≡ c.rob.size + 1)
      × (out.2.sleep ≡ not out.0)

  -- the core that goes to sleep
  abbrev sleeping : Core T → ℕ → ℕ → Core T
  sleeping c lineaddr robid = record c {
    queue_full_count = add64 c.queue_full_count 1;
    sleep_lineaddr = lineaddr;
    sleep_robid = robid;
    sleep_inst_num = c.inst_num;
    sleep = true;
  }

  module _ (n : Nest) (c : Core T) (delay lineaddr : ℕ) (v : InCycle g rows lines i t0 n c)
      (awake : c.sleep ≡ false) (room : c.rob.size < g.rob_size) (h : lineaddr < lines) where
    refused-InCycle :
        (m : MemSys)
        → MemKept g rows lines Any m
        → m.mshr ≡ n.memsys.mshr
        → InCycle g rows lines i t0
            (record n { memsys = m })
            (sleeping (with_entry g c delay) lineaddr (next_place g c))
    refused-InCycle m kept same = record {
      nest = record { memory = kept; cache = v.nest.cache; pages = v.nest.pages };
      core = record {
        ring = inserted-Ring g c.rob (new_entry c delay) v.core.ring room;
        id = v.core.id;
        cycle = v.core.cycle;
        sleeper = λ _. record {
          at = c.rob.size;
          inside = omega arith;
          place = refl;
          holds =
              ap (λ (x : RobEntry). x.inst_num)
                (inserted_self g c.rob (new_entry c delay) v.core.ring);
          line = h;
        };
      };
      own =
          subst
            (λ t.
              Each (Own g i (frame (sleeping (with_entry g c delay) lineaddr (next_place g c)))) t)
            (sym same)
            (Each-map (Own g i (frame c))
              (Own g i (frame (sleeping (with_entry g c delay) lineaddr (next_place g c))))
              n.memsys.mshr (λ e w q. asleep e (w q)) v.own);
      apart = subst Apart (sym same) v.apart;
      grown = subst (Grown i t0) (sym same) v.grown;
      va = v.va;
    }
      where
        asleep :
            (e : MshrEntry)
            → Pending g (frame c) e
            → Pending g (frame (sleeping (with_entry g c delay) lineaddr (next_place g c))) e
        asleep e w =
            let p = inserted-Pending g (frame c) e (new_entry c delay) v.core.ring room w in
            record {
              at = p.at;
              inside = p.inside;
              place = p.place;
              holds = p.holds;
              slow = p.slow;
              other = λ _. Pending-ne-new g (frame c) e v.core.ring room w;
            }

    -- the entry of the table
    abbrev request : MshrEntry
    request = record { coreid = c.id; robid = next_place g c; inst_num = c.inst_num }

    request-Pending :
        default_mem_delay ≤ delay
        → delay < 2 ^ 32
        → Pending g (frame (with_entry g c delay)) request
    request-Pending slow small =
        let self = inserted_self g c.rob (new_entry c delay) v.core.ring in
        let late = slow_delay c.cycle delay v.core.cycle slow small in
        let is_late : is_slow (new_entry c delay) ≡ true = le→leb _ _ late in
        record {
          at = c.rob.size;
          inside = omega arith;
          place = refl;
          holds = ap (λ (x : RobEntry). x.inst_num) self;
          slow = ap is_slow self ∙ is_late;
          other = λ asleep. absurd (cc);
        }

    accepted-InCycle :
        (m : MemSys)
        → MemKept g rows lines Any m
        → m.mshr ≡ (lineaddr, request) ∷ n.memsys.mshr
        → default_mem_delay ≤ delay
        → delay < 2 ^ 32
        → InCycle g rows lines i t0 (record n { memsys = m }) (with_entry g c delay)
    accepted-InCycle m kept table slow small =
        let w = inserted-InCycle n c delay v awake room in
        let (new, old, mine) = v.grown in
        record {
          nest = record { memory = kept; cache = v.nest.cache; pages = v.nest.pages };
          core = w.core;
          own =
              subst (λ t. Each (Own g i (frame (with_entry g c delay))) t) (sym table)
                ((λ _. request-Pending slow small), w.own);
          apart = subst Apart (sym table) (
            Each-map (Own g i (frame c)) (Elsewhere request) n.memsys.mshr
                (λ e pending q.
                  Pending-ne-new g (frame c) e v.core.ring room (pending (q ∙ v.core.id)))
                v.own,
            v.apart,
          );
          grown = (
            (lineaddr, request) ∷ new,
            table ∙ ap (λ t. (lineaddr, request) ∷ t) old,
            (v.core.id, mine),
          );
          va = v.va;
        }

  pub send-Issued :
      (n : Nest) (c : Core T) (delay lineaddr wb_lineaddr : ℕ)
      → InCycle g rows lines i t0 n c
      → c.sleep ≡ false
      → c.rob.size < g.rob_size
      → lineaddr < lines
      → wb_lineaddr < lines
      → default_mem_delay ≤ delay
      → delay < 2 ^ 32
      → Safe (Issued c) (send g now n (with_entry g c delay) lineaddr (next_place g c) wb_lineaddr)
  unfolding send
  send-Issued n c delay lineaddr wb_lineaddr v awake room h hw slow small =
      Safe-bind
        (λ out.
          MemKept g rows lines Any out.1
          × (out.1.mshr ≡ (if out.0 then (lineaddr, e) ∷ n.memsys.mshr else n.memsys.mshr)))
        (Issued c) (memsys_access g now n.memsys lineaddr e wb_lineaddr)
        (λ (sent, m). ok (
          sent,
          record n { memsys = m },
          if sent then c4 else sleeping c4 lineaddr (next_place g c),
        ))
        (memsys_access-Safe g now rows lines Any n.memsys lineaddr e wb_lineaddr v.nest.memory
          limits.mapping h hw tt)
        answered
    where
      e : MshrEntry
      e = record { coreid = c.id; robid = next_place g c; inst_num = c.inst_num }

      c4 : Core T
      c4 = with_entry g c delay

      answered :
          (out : Bool × MemSys)
          → MemKept g rows lines Any out.1
            × (out.1.mshr ≡ (if out.0 then (lineaddr, e) ∷ n.memsys.mshr else n.memsys.mshr))
          → Safe (Issued c) (
              ok (
                out.0,
                record n { memsys = out.1 },
                if out.0 then c4 else sleeping c4 lineaddr (next_place g c),
              ))
      answered (true, m) (kept, table) =
          returns (true, record n { memsys = m }, c4) refl
            (
              accepted-InCycle n c delay lineaddr v awake room h m kept table slow small,
              refl,
              awake,
            )
      answered (false, m) (kept, table) =
          returns (false, record n { memsys = m }, sleeping c4 lineaddr (next_place g c)) refl
            (refused-InCycle n c delay lineaddr v awake room h m kept table, refl, refl)
