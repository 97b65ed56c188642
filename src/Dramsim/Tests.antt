-- ===== src/Dramsim/Tests.antt =====
-- src/memsys_dramsim3.cpp over a memory that keeps two transactions and serves one of them every cycle.
use mds.Base.{
  ℕ, ◌+◌, ◌≡◌, refl, Bool, Bool-cases, true, false, List, [], ◌∷◌, ◌++◌, arith, ok, err,
  assert_failed, ltb, length, ◌==◌, if◌then◌else◌, ◌%◌, inl, inr, tally-append,
}
use mds.Settings.{defaults}
use mds.Core.Types.{Core}
use mds.Core.Rob.{rob_wakeup}
use mds.MemSys.{memsys_callback, wakeup_core}
use mds.MemSys.Table.{MshrEntry, lookup, erase}
use mds.MemSys.Answers.{Waits}
use mds.MemSys.Sample.{waiting_core}
use mds.Dramsim.{
  Dramsim, DramsimMemSys, dramsim_access, dramsim_read, dramsim_write_back, dramsim_mshr_insert,
  dramsim_cycle, answer_all, dramsim_callback,
}
use mds.Dramsim.Contract.{Contract, answers, asked, asked_more}
use mds.Dramsim.Steady.{DramsimOk, dramsim_cycle-DramsimOk}
use mds.Dramsim.Access.{DramsimAccessed, dramsim_access-DramsimAccessed}

abbrev Queue : Type 0
Queue = List (Bool × ℕ)

serve : Queue → List (Bool × ℕ) × Queue
serve [] = ([], [])
serve (call ∷ d) = (call ∷ [], d)

abbrev two_places : Dramsim Queue
two_places = record {
  will_accept_transaction = λ d a is_write. ltb (length d) 2;
  add_transaction = λ d a is_write. d ++ (is_write, a) ∷ [];
  clock_tick = serve;
}

two_places-Contract : Contract two_places
unfolding serve
two_places-Contract = record {
  reads = answers;
  read_added = λ d a b room. omega (
    arith,
    tally-append (λ call. if call.0 then 0 else if call.1 == b then 1 else 0) d ((false, a) ∷ []),
  );
  write_added = λ d a b room. omega (
    arith,
    tally-append (λ call. if call.0 then 0 else if call.1 == b then 1 else 0) d ((true, a) ∷ []),
  );
  ticked = served;
}
  where
    served : (d : Queue) (b : ℕ) → answers b ((serve d).1) + answers b ((serve d).0) ≡ answers b d
    served [] b = omega arith
    served (call ∷ d) b = omega arith

abbrev first : MshrEntry
first = record { coreid = 0; robid = 0; inst_num = 1 }

abbrev second : MshrEntry
second = record { coreid = 0; robid = 1; inst_num = 2 }

-- a read of line 3 in flight
abbrev one_read : DramsimMemSys Queue
one_read = record {
  mainmem = (false, 192) ∷ [];
  lines_in_mainmem_rbuf = 128;
  mshr = (3, first) ∷ [];
}

nothing_asked : (b : ℕ) → asked 64 b [] ≡ 0
nothing_asked b = elim (Bool-cases (b % 64 == 0)) [ inl e ↦ rw e refl | inr e ↦ rw e refl ]

first-Waits : Waits (waiting_core ∷ []) first
first-Waits = (waiting_core, refl, omega arith, refl)

second-Waits : Waits (waiting_core ∷ []) second
second-Waits = (waiting_core, refl, omega arith, refl)

one_read-DramsimOk : DramsimOk two_places two_places-Contract defaults one_read (waiting_core ∷ [])
unfolding two_places-Contract
one_read-DramsimOk = (
  (first-Waits, tt),
  λ b. omega (arith, asked_more 64 3 b first [] (omega arith) (omega arith), nothing_asked b),
)

-- the answer of a tick
dramsim_cycle-DramsimOk_example :
    (m' : DramsimMemSys Queue) × (cs' : List (Core Unit)) × (dramsim_cycle two_places defaults
        one_read
        (waiting_core ∷ [])
      ≡ ok (m', cs'))
    × DramsimOk two_places two_places-Contract defaults m' cs'
dramsim_cycle-DramsimOk_example =
    dramsim_cycle-DramsimOk two_places two_places-Contract defaults one_read (waiting_core ∷ [])
      (omega arith) one_read-DramsimOk

-- what that tick leaves in the table
table_cleared :
    (cs' : List (Core Unit)) × (dramsim_cycle two_places defaults one_read (waiting_core ∷ [])
      ≡ ok (record { mainmem = []; lines_in_mainmem_rbuf = 128; mshr = [] }, cs'))
unfolding dramsim_cycle serve answer_all dramsim_callback memsys_callback wakeup_core rob_wakeup
    lookup erase
table_cleared = (_, refl)

-- a second read, with a write-back that finds no place
dramsim_access-DramsimAccessed_example :
    DramsimAccessed two_places two_places-Contract defaults one_read
      (waiting_core ∷ [])
      7
      second
      (dramsim_access two_places defaults one_read 7 second 9)
dramsim_access-DramsimAccessed_example =
    dramsim_access-DramsimAccessed two_places two_places-Contract defaults one_read
      (waiting_core ∷ []) 7 second 9 (omega arith) (omega arith) second-Waits one_read-DramsimOk

second_entered :
    dramsim_access two_places defaults one_read 7 second 9
    ≡ ok (
      true,
      record {
        mainmem = (false, 192) ∷ (false, 448) ∷ [];
        lines_in_mainmem_rbuf = 128;
        mshr = (7, second) ∷ (3, first) ∷ [];
      },
    )
unfolding dramsim_access dramsim_read dramsim_write_back dramsim_mshr_insert
second_entered = refl

twice : dramsim_access two_places defaults one_read 3 second 0 ≡ err assert_failed
unfolding dramsim_access dramsim_read dramsim_write_back dramsim_mshr_insert
twice = refl
