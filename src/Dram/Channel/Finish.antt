-- ===== src/Dram/Channel/Finish.antt =====
-- The end of dram_bank_cycle of src/drambank.cpp, seen from the channel.
use mds.Dram.Channel.Invariant.{kind, kind_at, shape}
use mds.Base.{
  ◌/◌, ℕ, add64, ◌+◌, ◌≤◌, ◌<◌, ◌≡◌, refl, sym, ap, ◌∙◌, subst, inl, inr, true, false, List, arith,
  Result, ok, lt→ltb, length, get_or, set, erase_at, length-set, length-erase_at, get_or-set_self,
  erase_at-set, get_or-erase_at, tally-le-length, Bool-cases, add32, tally, tally-erase_at,
}
use mds.Dram.Types.{ReqType, BankqEntry, Bank, BusqEntry, Channel, no_bankq_entry}
use mds.Dram.Bus.{busq_at, transfer, insert_rdwrq}
use mds.Dram.Bank.{is_data, is_wait, is_finished, bankq_at, bank_remove}
use mds.Dram.Cycle.{no_bank, bank_at, put_bank, served, charge, finish}
use mds.Dram.Channel.Invariant.{
  BankOk, valid_weight, IsSound, read_weight, bus_weight, bank_weight, reads, put_bank-IsSound,
  reads-put_bank, put_busq, put_busq-IsSound, reads-put_busq,
}

-- The request that has been served leaves the queue.
bank_remove-ok :
    (b : Bank) (index : ℕ)
    → index < length b.bankq
    → is_finished (bankq_at b index).status ≡ true
    → bank_remove b index ≡ ok (record b { bankq = erase_at b.bankq index })
unfolding bank_remove
bank_remove-ok b index h e = let pos : 0 < length b.bankq = omega arith in rw (lt→ltb _ _ pos, e)

-- the bank after the request at `index` has left
abbrev left_bank : ℕ → Bank → Bank → Bank
left_bank index b out = record out { bankq = erase_at b.bankq index }

erased-BankOk :
    (b out : Bank) (index : ℕ) → BankOk b → index < length b.bankq → BankOk (left_bank index b out)
erased-BankOk b out index k h =
    let l = length-erase_at b.bankq index h in
    record {
      short = omega (arith, k.short, l);
      waiting = λ j x.
          get_or-erase_at (λ e. is_wait e.status ≡ true) b.bankq index no_bankq_entry h k.waiting j
            (omega (arith, l));
    }

insert_rdwrq-ok :
    (c : Channel) (k : ℕ) (type : ReqType) (line time : ℕ)
    → (busq_at c k).valid ≡ false
    → insert_rdwrq c k type line time
      ≡ ok (put_busq c k (transfer type line time) (add32 c.dbusq.size 1))
unfolding insert_rdwrq
insert_rdwrq-ok c k type line time e = rw e

-- what serving leaves true of the channel, when it took the requests of bank `b` for those of bank `i`
abbrev pub Kept : Channel → ℕ → Bank → Result Channel → Type 0
Kept c i b out =
    (c' : Channel) × (out ≡ ok c')
    × IsSound c'
    × (shape c' ≡ shape c)
    × ((a : ℕ) → reads a c' + bank_weight a (bank_at c i) ≡ reads a c + bank_weight a b)

not_data-read_weight : (a : ℕ) (e : BankqEntry) → is_data e.reqtype ≡ false → read_weight a e ≡ 0
not_data-read_weight a e h = ground arith

module _ (now i index delay : ℕ) (c : Channel) (b : Bank) (v : IsSound c) (h : i < c.num_banks)
    (e : kind b ≡ kind_at c i) (k : BankOk b) (l : index < length b.bankq) where
  -- `out` is the bank with its request marked as done
  remove_done :
      (out : Bank)
      → out.bankq ≡ set b.bankq index (served now delay (bankq_at b index))
      → bank_remove out index ≡ ok (left_bank index b out)
  remove_done out q =
      bank_remove-ok out index
        (omega (arith, ap length q, length-set b.bankq index (served now delay (bankq_at b index))))
        (ap (λ (t : List BankqEntry). is_finished (get_or t index no_bankq_entry).status) q
          ∙ ap (λ (t : BankqEntry). is_finished t.status)
              (get_or-set_self b.bankq index _ no_bankq_entry l))
      ∙ ap (λ t. ok (record out { bankq = t }))
          (ap (λ t. erase_at t index) q ∙ erase_at-set b.bankq index _)

  left-weight :
      (a : ℕ) (out : Bank)
      → bank_weight a (left_bank index b out) + read_weight a (bankq_at b index) ≡ bank_weight a b
  left-weight a out = tally-erase_at (read_weight a) b.bankq index no_bankq_entry l

  -- the bank goes back into a channel that has the banks of `c`
  put_left :
      (d : Channel) (out : Bank)
      → IsSound d
      → shape d ≡ shape c
      → d.bank ≡ c.bank
      → kind out ≡ kind_at c i
      → IsSound (put_bank d i (left_bank index b out))
        × ((a : ℕ)
            → reads a (put_bank d i (left_bank index b out))
                + bank_weight a (bank_at c i)
                + read_weight a (bankq_at b index)
              ≡ reads a d + bank_weight a b)
  put_left d out s n' q m' =
      let n = ap (λ (t : ℕ × ℕ). t.0) n' in
      let m : kind out ≡ kind_at d i = m' ∙ ap (λ (t : ℕ × ℕ). (i, t.1 / t.0)) (sym n') in
      (
        put_bank-IsSound d i (left_bank index b out) s (omega (arith, n)) m
            (erased-BankOk b out index k l),
        λ a.
            let w = left-weight a out in
            let same : bank_weight a (bank_at d i) ≡ bank_weight a (bank_at c i) =
              ap (λ t. bank_weight a (get_or t i no_bank)) q in
            let p = reads-put_bank a d i (left_bank index b out) (omega (arith, s.banks, n)) in
            omega (arith, w, same, p),
      )

  abbrev line_entry : BusqEntry
  line_entry = transfer (bankq_at b index).reqtype (bankq_at b index).lineaddr (add64 now delay)

  -- the request is on the bus
  on_bus : (busq_at c i).valid ≡ false → IsSound (put_busq c i line_entry (add32 c.dbusq.size 1))
  on_bus free =
      let room : c.dbusq.size ≤ 128 =
        subst (λ t. t ≤ 128) (sym v.counted)
          (subst (λ t. tally valid_weight c.dbusq.entries ≤ t) v.slots
            (tally-le-length valid_weight c.dbusq.entries (λ t. ground arith))) in
      put_busq-IsSound c i line_entry (add32 c.dbusq.size 1) v h (ground (arith, room, free))

  finish_other :
      (busq_at c i).valid ≡ false
      → is_data (bankq_at b index).reqtype ≡ false
      → Kept c i b (finish now i index delay c b)
  unfolding finish
  finish_other free other =
      let out = record b { bankq = set b.bankq index (served now delay (bankq_at b index)) } in
      let p = put_left c out v refl refl e in
      (
        put_bank c i (left_bank index b out),
        rw (other, remove_done out refl),
        p.0,
        refl,
        λ a. omega (arith, p.1 a, not_data-read_weight a (bankq_at b index) other),
      )

  finish_data :
      (busq_at c i).valid ≡ false
      → is_data (bankq_at b index).reqtype ≡ true
      → Kept c i b (finish now i index delay c b)
  unfolding finish
  finish_data free data_request =
      let w = served now delay (bankq_at b index) in
      let out = charge delay w (record b { bankq = set b.bankq index w }) in
      let d = put_busq c i line_entry (add32 c.dbusq.size 1) in
      let inserted : insert_rdwrq c b.id (bankq_at b index).reqtype (bankq_at b index).lineaddr
            (add64 now delay)
          ≡ ok d =
        ap
          (λ t.
            insert_rdwrq c t (bankq_at b index).reqtype (bankq_at b index).lineaddr
              (add64 now delay))
          (ap (λ (t : ℕ × ℕ). t.0) e)
        ∙ insert_rdwrq-ok c i _ _ _ free in
      let p = put_left d out (on_bus free) refl refl e in
      (
        put_bank d i (left_bank index b out),
        rw (data_request, inserted, remove_done out refl),
        p.0,
        refl,
        λ a.
            let q =
              reads-put_busq a c i line_entry (add32 c.dbusq.size 1)
                (omega (arith, v.slots, v.limit)) in
            let z : bus_weight a (busq_at c i) ≡ 0 = rw free in omega (arith, p.1 a, q, z),
      )

  pub finish-Kept : (busq_at c i).valid ≡ false → Kept c i b (finish now i index delay c b)
  finish-Kept free = elim (Bool-cases (is_data (bankq_at b index).reqtype)) [
    | inr other ↦ finish_other free other
    | inl data_request ↦ finish_data free data_request
  ]
