-- ===== src/Sim/Retrying.antt =====
-- mcore_retry_sleeping_request of src/mcore.cpp.
use mds.Base.{
  ℕ, ◌<◌, ◌≡◌, refl, sym, ap, ◌∙◌, subst, Bool, true, false, not, List, ◌∷◌, arith, ok, err,
  undefined, ltb, lt→ltb, le→leb, length, get_or-set_self, if◌then◌else◌, add64, Safe, Safe-bind,
  returns,
}
use mds.Settings.{Settings}
use mds.Core.Types.{RobEntry, Core, default_mem_delay, no_rob_entry}
use mds.Core.Rob.{rob_at, put_rob}
use mds.Core.Cycle.{Nest, retry_sleeping_request}
use mds.MemSys.{MemSys, memsys_access}
use mds.MemSys.Table.{MshrEntry, Each, Each-map}
use mds.MemSys.Keeping.{MemKept, memsys_access-Safe}
use mds.Sim.Pending.{
  frame, is_slow, Pending, Sleeper, FrameOk, Own, Elsewhere, Apart, put-Pending, put-Ring,
}
use mds.Sim.Turn.{Limits, Any, InCycle, InCycle-same}
use mds.Sim.Sending.{slow_delay}

-- the entry that the retry writes
abbrev late_entry : {T : Type 0} → Core T → RobEntry
late_entry c = record {
  birth_time = c.cycle;
  ready_time = add64 c.cycle default_mem_delay;
  inst_num = c.sleep_inst_num;
}

module _ {T : Type 0} (g : Settings) (limits : Limits g) (now rows lines i : ℕ)
    (t0 : List (ℕ × MshrEntry)) where
  abbrev counted : Core T → Core T
  counted c = record c { sleep_cycle_count = add64 c.sleep_cycle_count 1 }

  abbrev woken_up : Core T → Core T
  woken_up c = record (counted c) {
    rob = put_rob (c.rob) c.sleep_robid (late_entry c);
    sleep = false;
  }

  abbrev retry_entry : Core T → MshrEntry
  retry_entry c = record { coreid = c.id; robid = c.sleep_robid; inst_num = c.sleep_inst_num }

  -- what a retry comes to
  abbrev pub Retried : Bool × Nest × Core T → Type 0
  Retried out = InCycle g rows lines i t0 out.1 out.2 × (out.2.sleep ≡ not out.0)

  sleep_place :
      (c : Core T)
      → FrameOk g lines i (frame c)
      → c.sleep ≡ true
      → c.sleep_robid < length c.rob.entries
  sleep_place c v asleep =
      let w = v.sleeper asleep in
      let pos = v.ring.some_room in let most = v.ring.inside in let q = w.place in grind arith

  woken_up-InCycle :
      (n : Nest) (c : Core T) (m : MemSys)
      → InCycle g rows lines i t0 n c
      → c.sleep ≡ true
      → MemKept g rows lines Any m
      → m.mshr ≡ (c.sleep_lineaddr, retry_entry c) ∷ n.memsys.mshr
      → InCycle g rows lines i t0 (record n { memsys = m }) (woken_up c)
  woken_up-InCycle n c m v asleep kept table =
      let w = v.core.sleeper asleep in
      let (new, old, mine) = v.grown in
      let self : rob_at (put_rob (c.rob) c.sleep_robid (late_entry c)) c.sleep_robid
          ≡ late_entry c =
        get_or-set_self c.rob.entries c.sleep_robid (late_entry c) no_rob_entry
          (sleep_place c v.core asleep) in
      let is_late : is_slow (late_entry c) ≡ true =
        le→leb _ _
          (slow_delay c.cycle default_mem_delay v.core.cycle (omega arith) (omega arith)) in
      record {
        nest = record { memory = kept; cache = v.nest.cache; pages = v.nest.pages };
        core = record {
          ring = put-Ring g c.rob c.sleep_robid (late_entry c) v.core.ring;
          id = v.core.id;
          cycle = v.core.cycle;
          sleeper = λ awake. absurd (cc);
        };
        own =
            subst (λ t. Each (Own g i (frame (woken_up c))) t) (sym table)
              (
                (λ _. record {
                  at = w.at;
                  inside = w.inside;
                  place = w.place;
                  holds = ap (λ (x : RobEntry). x.inst_num) self;
                  slow = ap is_slow self ∙ is_late;
                  other = λ awake. absurd (cc);
                }),
                Each-map (Own g i (frame c)) (Own g i (frame (woken_up c))) n.memsys.mshr
                    (λ e p q. still e (p q)) v.own,
              );
        apart = subst Apart (sym table) (
          Each-map (Own g i (frame c)) (Elsewhere (retry_entry c)) n.memsys.mshr
              (λ e p q. (p (q ∙ v.core.id)).other asleep) v.own,
          v.apart,
        );
        grown = (
          (c.sleep_lineaddr, retry_entry c) ∷ new,
          table ∙ ap (λ t. (c.sleep_lineaddr, retry_entry c) ∷ t) old,
          (v.core.id, mine),
        );
        va = v.va;
      }
    where
      still : (e : MshrEntry) → Pending g (frame c) e → Pending g (frame (woken_up c)) e
      still e p =
          let q = put-Pending g (frame c) e c.sleep_robid (late_entry c) (p.other asleep) p in
          record {
            at = q.at;
            inside = q.inside;
            place = q.place;
            holds = q.holds;
            slow = q.slow;
            other = λ awake. absurd (cc);
          }

  pub retry_sleeping_request-Retried :
      (n : Nest) (c : Core T)
      → InCycle g rows lines i t0 n c
      → c.sleep ≡ true
      → Safe Retried (retry_sleeping_request g now n c)
  unfolding retry_sleeping_request
  retry_sleeping_request-Retried n c v asleep =
      Safe-bind
        (λ out.
          MemKept g rows lines Any out.1
          × (out.1.mshr ≡ (
              if out.0 then (c.sleep_lineaddr, retry_entry c) ∷ n.memsys.mshr else n.memsys.mshr)))
        Retried (memsys_access g now n.memsys c.sleep_lineaddr (retry_entry c) 0)
        (λ (sent, m).
          if not sent
          then ok (false, record n { memsys = m }, counted c)
          else if ltb c.sleep_robid (length c.rob.entries)
          then ok (true, record n { memsys = m }, woken_up c)
          else err undefined)
        (memsys_access-Safe g now rows lines Any n.memsys c.sleep_lineaddr (retry_entry c) 0
          v.nest.memory limits.mapping w.line (omega (arith, w.line)) tt)
        answered
    where
      w : Sleeper g lines (frame c)
      w = v.core.sleeper asleep

      answered :
          (out : Bool × MemSys)
          → MemKept g rows lines Any out.1
            × (out.1.mshr ≡ (
                if out.0 then (c.sleep_lineaddr, retry_entry c) ∷ n.memsys.mshr else n.memsys.mshr))
          → Safe Retried (
              if not out.0
              then ok (false, record n { memsys = out.1 }, counted c)
              else if ltb c.sleep_robid (length c.rob.entries)
              then ok (true, record n { memsys = out.1 }, woken_up c)
              else err undefined)
      answered (false, m) (kept, table) =
          returns (false, record n { memsys = m }, counted c) refl
            (
              InCycle-same g rows lines i t0 n (record n { memsys = m }) c (counted c) v
                  (record { memory = kept; cache = v.nest.cache; pages = v.nest.pages }) table refl
                  v.va,
              asleep,
            )
      answered (true, m) (kept, table) =
          returns (true, record n { memsys = m }, woken_up c)
            (rw (lt→ltb _ _ (sleep_place c v.core asleep)) refl)
            (woken_up-InCycle n c m v asleep kept table, refl)
