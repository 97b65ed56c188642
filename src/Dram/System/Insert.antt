-- ===== src/Dram/System/Insert.antt =====
-- dram_insert of src/dram.cpp and what it calls: a request of a line of the memory.
use mds.Base.{
  ℕ, ◌+◌, ◌/◌, ◌<◌, ◌≡◌, ◌↔◌, refl, sym, ap, ◌∙◌, subst, inl, inr, Bool, true, false, ◌&&◌, arith,
  [], ◌∷◌, ◌++◌, Result, ok, ◌==◌, if◌then◌else◌, length, length-append, get_or-append, List,
  get_or, lt→ltb, Bool-cases, tally-append, to32, add64,
}
use mds.Settings.{Settings}
use mds.Dram.Types.{
  ReqType, rd, wb, BankqEntry, Bank, Channel, Dram, num_bank_entries, no_bankq_entry,
}
use mds.Dram.Bank.{is_data, is_read, is_wait, waiting, bank_insert}
use mds.Dram.Cycle.{bank_at, put_bank}
use mds.Dram.Channel.{channel_insert}
use mds.Dram.Channel.Invariant.{
  BankOk, IsSound, kind, shape, read_weight, bank_weight, reads, put_bank-IsSound, reads-put_bank,
}
use mds.Dram.Address.{Place, parseaddr}
use mds.Dram.Address.Codec.{Geometry}
use mds.Dram.Address.Total.{parseaddr-Placed}
use mds.Dram.System.{channel_at, put_channel, dram_insert}
use mds.Dram.System.State.{
  CyclesOnly, AllSound, in_flight, put_channel-AllSound, in_flight-put_channel,
}

-- the reads of line `a` that an insertion adds
abbrev pub added : Bool → ReqType → ℕ → ℕ → ℕ
added done type lineaddr a = if done && (is_read type && lineaddr == a) then 1 else 0

appended-BankOk :
    (b b' : Bank) (e : BankqEntry)
    → BankOk b
    → length b.bankq < num_bank_entries
    → b'.bankq ≡ b.bankq ++ e ∷ []
    → is_wait e.status ≡ true
    → BankOk b'
appended-BankOk b b' e k room q w = record {
  short = omega (arith, ap length q, length-append b.bankq (e ∷ []));
  waiting = subst Waiting (sym q) (λ j x.
      get_or-append (λ t. is_wait t.status ≡ true) b.bankq e no_bankq_entry k.waiting w j
        (omega (arith, length-append b.bankq (e ∷ []))));
}
  where
    Waiting : List BankqEntry → Type 0
    Waiting t = (j : ℕ) → j < length t → is_wait (get_or t j no_bankq_entry).status ≡ true

module _ (now rowid lineaddr : ℕ) (type : ReqType) where
  -- what `dram_bank_insert` comes to
  abbrev BankInserted : Bank → Result (Bool × Bank) → Type 0
  BankInserted b out =
      (done : Bool) × (b' : Bank) × (out ≡ ok (done, b'))
      × BankOk b'
      × (kind b' ≡ kind b)
      × ((done ≡ false) ↔ (length b.bankq ≡ num_bank_entries))
      × ((a : ℕ) → bank_weight a b' ≡ bank_weight a b + added done type lineaddr a)

  bank_insert-BankInserted :
      (b : Bank)
      → BankOk b
      → rowid < b.num_rows
      → BankInserted b (bank_insert now b type rowid lineaddr)
  unfolding bank_insert
  bank_insert-BankInserted b k h = elim (Bool-cases (length b.bankq == num_bank_entries)) [
    | inl full ↦ (
      false,
      b,
      rw (lt→ltb _ _ h, full),
      k,
      refl,
      (λ e. ground arith, λ e. refl),
      λ a. omega arith,
    )
    | inr room ↦
        let b' = record b {
          s_req = if is_data type then add64 b.s_req 1 else b.s_req;
          bankq = b.bankq ++ waiting type rowid lineaddr now ∷ [];
        } in
        (
          true,
          b',
          rw (lt→ltb _ _ h, room),
          appended-BankOk b b' (waiting type rowid lineaddr now) k (ground (arith, k.short)) refl
              refl,
          refl,
          (λ e. cc, λ e. ground arith),
          λ a.
              omega (
                arith,
                tally-append (read_weight a) b.bankq (waiting type rowid lineaddr now ∷ []),
              ),
        )
  ]

  -- what an insertion of bank `bankid` comes to
  abbrev pub ChannelInserted : ℕ → Channel → Result (Bool × Channel) → Type 0
  ChannelInserted bankid c out =
      (done : Bool) × (c' : Channel) × (out ≡ ok (done, c'))
      × IsSound c'
      × (shape c' ≡ shape c)
      × ((done ≡ false) ↔ (length (bank_at c bankid).bankq ≡ num_bank_entries))
      × ((a : ℕ) → reads a c' ≡ reads a c + added done type lineaddr a)

  channel_insert-ChannelInserted :
      (bankid : ℕ) (c : Channel)
      → IsSound c
      → bankid < c.num_banks
      → rowid < c.num_rows / c.num_banks
      → ChannelInserted bankid c (channel_insert now c bankid type rowid lineaddr)
  unfolding channel_insert
  channel_insert-ChannelInserted bankid c v h l =
      let b = bank_at c bankid in
      let named = v.ids bankid h in
      let (done, b', e, k, same, full, w) =
        bank_insert-BankInserted b (v.bank_ok bankid h)
          (omega (arith, ap (λ (t : ℕ × ℕ). t.1) named)) in
      (
        done,
        put_bank c bankid b',
        rw (lt→ltb _ _ h, e),
        put_bank-IsSound c bankid b' v h (same ∙ named) k,
        refl,
        full,
        λ a. omega (arith, reads-put_bank a c bankid b' (omega (arith, v.banks)), w a),
      )

-- what `dram_insert` comes to
abbrev pub DramInserted : Settings → ℕ → ℕ → Bool → Dram → Result (Bool × Dram) → Type 0
DramInserted g rows lineaddr is_wb d out =
    (place : Place) × (done : Bool) × (d' : Dram) × (parseaddr g d lineaddr ≡ ok place)
    × (out ≡ ok (done, d'))
    × AllSound d' rows
    × CyclesOnly d d'
    × ((done ≡ false)
        ↔ (length (bank_at (channel_at d place.channelid) place.bankid).bankq ≡ num_bank_entries))
    × ((a : ℕ) → in_flight a d' ≡ in_flight a d + added done (if is_wb then wb else rd) lineaddr a)

inserted_at :
    (g : Settings) (now rows : ℕ) (d : Dram) (lineaddr : ℕ) (is_wb : Bool) (p : Place)
    → AllSound d rows
    → lineaddr < d.lines_in_mem
    → parseaddr g d lineaddr ≡ ok p
    → p.channelid < d.num_channels
    → to32 p.bankid ≡ p.bankid
    → ChannelInserted now p.rowbufid lineaddr
        (if is_wb then wb else rd)
        p.bankid
        (channel_at d p.channelid)
        (channel_insert now
          (channel_at d p.channelid)
          p.bankid
          (if is_wb then wb else rd)
          p.rowbufid
          lineaddr)
    → DramInserted g rows lineaddr is_wb d (dram_insert g now d lineaddr is_wb)
unfolding dram_insert
inserted_at g now rows d lineaddr is_wb p v h parsed m small
      (done, c', inserted, s', shaped, full, w) =
    (
      p,
      done,
      put_channel d p.channelid c',
      parsed,
      rw (lt→ltb _ _ h, parsed, small, inserted),
      put_channel-AllSound d rows p.channelid c' v m s' shaped,
      refl,
      full,
      λ a. omega (arith, in_flight-put_channel a d p.channelid c' (omega (arith, v.count)), w a),
    )

-- With a geometry in which nothing is left over and one of the four mapping policies, dram_insert of a line
-- of the memory never fails its assertions. It refuses exactly when the 16 places of the line's bank are
-- taken; otherwise the reads in flight grow by this one, if it is a read, and the DRAM stays well-formed.
pub dram_insert-DramInserted :
    (g : Settings) (now rows : ℕ) (d : Dram) (lineaddr : ℕ) (is_wb : Bool)
    → Geometry g d rows
    → AllSound d rows
    → g.dram_map_policy < 4
    → lineaddr < d.lines_in_mem
    → DramInserted g rows lineaddr is_wb d (dram_insert g now d lineaddr is_wb)
dram_insert-DramInserted g now rows d lineaddr is_wb geo v known h =
    let (p, col, parsed, m, k, e) = parseaddr-Placed g d rows geo lineaddr h known in
    let c = channel_at d p.channelid in
    let s = v.sound p.channelid m.channel in
    let n = v.num_banks p.channelid m.channel in
    let in_range : p.rowbufid < c.num_rows / c.num_banks =
      subst (λ t. p.rowbufid < c.num_rows / t) (sym n)
        (subst (λ t. p.rowbufid < t) (sym (v.num_rows p.channelid m.channel)) m.row) in
    inserted_at g now rows d lineaddr is_wb p v h parsed m.channel
      (omega (arith, m.bank, n, s.limit))
      (channel_insert-ChannelInserted now p.rowbufid lineaddr (if is_wb then wb else rd) p.bankid c
        s (omega (arith, m.bank, n)) in_range)
