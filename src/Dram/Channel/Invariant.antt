-- ===== src/Dram/Channel/Invariant.antt =====
-- The well-formedness of a channel of src/dramchannel.h, and the reads that are in flight in it.
use mds.Base.{
  ◌/◌, ℕ, ◌+◌, ◌≤◌, ◌<◌, ◌≡◌, ◌≢◌, sym, ap, ◌∙◌, subst, ◌⊎◌, inl, inr, true, false, ◌&&◌, List,
  arith, ◌==◌, if◌then◌else◌, length, get_or, set, length-set, get_or-set_ne, get_or-set-cases,
  to32, tally, tally-set,
}
use mds.Dram.Types.{
  BankqEntry, Bank, BusqEntry, Busq, Channel, num_bank_entries, num_busq_entries, no_busq_entry,
}
use mds.Dram.Bus.{busq_at}
use mds.Dram.Bank.{is_read, is_wait, bankq_at}
use mds.Dram.Cycle.{no_bank, bank_at, put_bank}

-- the requests of a bank wait, and there are at most 16
pub record BankOk (b : Bank) : Type 0 where
  pub short : length b.bankq ≤ num_bank_entries
  pub waiting : (k : ℕ) → k < length b.bankq → is_wait (bankq_at b k).status ≡ true

abbrev pub valid_weight : BusqEntry → ℕ
valid_weight e = if e.valid then 1 else 0

-- the fields of a bank and of a channel that never change
abbrev pub kind : Bank → ℕ × ℕ
kind b = (b.id, b.num_rows)

abbrev pub shape : Channel → ℕ × ℕ
shape c = (c.num_banks, c.num_rows)

-- what the bank with number `i` is
abbrev pub kind_at : Channel → ℕ → ℕ × ℕ
kind_at c i = (i, c.num_rows / c.num_banks)

-- The bus queue has one place for each bank, and counts the places that are taken.
pub record Sound (num_banks num_rows group_size : ℕ) (bank : List Bank) (q : Busq) : Type 0 where
  pub banks : length bank ≡ num_banks
  pub some_banks : 0 < num_banks
  pub limit : num_banks ≤ 32
  pub groups : 0 < to32 group_size
  pub slots : length q.entries ≡ num_busq_entries
  pub ids : (i : ℕ) → i < num_banks → kind (get_or bank i no_bank) ≡ (i, num_rows / num_banks)
  pub bank_ok : (i : ℕ) → i < num_banks → BankOk (get_or bank i no_bank)
  pub beyond : (i : ℕ) → num_banks ≤ i → (get_or q.entries i no_busq_entry).valid ≡ false
  pub counted : q.size ≡ tally valid_weight q.entries

abbrev pub IsSound : Channel → Type 0
IsSound c = Sound c.num_banks c.num_rows c.banks_in_bankgroup c.bank c.dbusq

-- the reads of line `a` in a bank's queue, on the bus queue, and in the channel
abbrev pub read_weight : ℕ → BankqEntry → ℕ
read_weight a e = if is_read e.reqtype && e.lineaddr == a then 1 else 0

abbrev pub bus_weight : ℕ → BusqEntry → ℕ
bus_weight a e = if e.valid && (is_read e.reqtype && e.lineaddr == a) then 1 else 0

abbrev pub bank_weight : ℕ → Bank → ℕ
bank_weight a b = tally (read_weight a) b.bankq

unfoldable pub reads : ℕ → Channel → ℕ
reads a c = tally (bank_weight a) c.bank + tally (bus_weight a) c.dbusq.entries

-- a bank may be written back if it kept its number and is well-formed
pub put_bank-IsSound :
    (c : Channel) (i : ℕ) (b : Bank)
    → IsSound c
    → i < c.num_banks
    → kind b ≡ kind_at c i
    → BankOk b
    → IsSound (put_bank c i b)
put_bank-IsSound c i b v h e k = record {
  banks = length-set c.bank i b ∙ v.banks;
  some_banks = v.some_banks;
  limit = v.limit;
  groups = v.groups;
  slots = v.slots;
  ids = λ j x. elim (cases j) [
    | inl (q, r) ↦ ap kind r ∙ e ∙ ap (kind_at c) (sym q)
    | inr (q, r) ↦ ap kind r ∙ v.ids j x
  ];
  bank_ok = λ j x. elim (cases j) [
    | inl (q, r) ↦ subst BankOk (sym r) k
    | inr (q, r) ↦ subst BankOk (sym r) (v.bank_ok j x)
  ];
  beyond = v.beyond;
  counted = v.counted;
}
  where
    cases :
        (j : ℕ)
        → ((j ≡ i) × (bank_at (put_bank c i b) j ≡ b))
          ⊎ ((j ≢ i) × (bank_at (put_bank c i b) j ≡ bank_at c j))
    cases j = get_or-set-cases c.bank i j b no_bank (omega (arith, v.banks))

-- what a write to a bank does to the reads in flight
pub reads-put_bank :
    (a : ℕ) (c : Channel) (i : ℕ) (b : Bank)
    → i < length c.bank
    → reads a (put_bank c i b) + bank_weight a (bank_at c i) ≡ reads a c + bank_weight a b
unfolding reads
reads-put_bank a c i b h = omega (arith, tally-set (bank_weight a) c.bank i b no_bank h)

-- the bus queue with the entry of bank `i` and the count replaced
abbrev pub put_busq : Channel → ℕ → BusqEntry → ℕ → Channel
put_busq c i e n = record c { dbusq = record { entries = set c.dbusq.entries i e; size = n } }

pub put_busq-IsSound :
    (c : Channel) (i : ℕ) (e : BusqEntry) (n : ℕ)
    → IsSound c
    → i < c.num_banks
    → n + valid_weight (busq_at c i) ≡ c.dbusq.size + valid_weight e
    → IsSound (put_busq c i e n)
put_busq-IsSound c i e n v h s = record {
  banks = v.banks;
  some_banks = v.some_banks;
  limit = v.limit;
  groups = v.groups;
  slots = length-set c.dbusq.entries i e ∙ v.slots;
  ids = v.ids;
  bank_ok = v.bank_ok;
  beyond = λ j x.
      ap (λ (t : BusqEntry). t.valid)
        (get_or-set_ne c.dbusq.entries i j e no_busq_entry (omega arith))
      ∙ v.beyond j x;
  counted = omega (
    arith,
    s,
    v.counted,
    tally-set valid_weight c.dbusq.entries i e no_busq_entry (omega (arith, v.slots, v.limit)),
  );
}

pub reads-put_busq :
    (a : ℕ) (c : Channel) (i : ℕ) (e : BusqEntry) (n : ℕ)
    → i < length c.dbusq.entries
    → reads a (put_busq c i e n) + bus_weight a (busq_at c i) ≡ reads a c + bus_weight a e
unfolding reads
reads-put_busq a c i e n h =
    omega (arith, tally-set (bus_weight a) c.dbusq.entries i e no_busq_entry h)
