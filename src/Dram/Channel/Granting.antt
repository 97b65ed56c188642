-- ===== src/Dram/Channel/Granting.antt =====
-- dram_channel_schedule_rdwrq of src/dramchannel.cpp: which transfer gets the bus.
use mds.Base.{
  sub64, ◌-◌, ℕ, leb, add64, ◌+◌, ◌%◌, ◌≤◌, ◌<◌, ◌≡◌, refl, subst, ◌⊎◌, inl, inr, Bool, true, false,
  arith, Result, ok, ◌>>=◌, ◌==◌, if◌then◌else◌, Bool-cases, Option-cases, sub32, get_or-le-tally,
  find_index, find_index-some, find_index-none, FailsBelow, tally-le-length,
}
use mds.Settings.{Settings}
use mds.Dram.Types.{BusqEntry, Channel, RdwrToken, no_busq_entry}
use mds.Dram.Bus.{busq_at, get_rdwr_token}
use native.Mathlib.Decide.{dec_lt}
use mds.Dram.Bank.{is_read}
use mds.Dram.Cycle.{bank_at, put_bank}
use mds.Dram.Channel.{is_ready, index_of, grant_bus, try_bus, schedule_rdwrq}
use mds.Dram.Channel.Invariant.{
  valid_weight, IsSound, bus_weight, reads, put_bank-IsSound, reads-put_bank, put_busq,
  put_busq-IsSound, reads-put_busq,
}

-- the channel after entry `index` has the bus
abbrev pub granted : Settings → ℕ → ℕ → RdwrToken → Channel → Channel
granted g now index token c =
    let e = busq_at c index in
    record (put_bank (put_busq c index (record e { valid = false }) (sub32 c.dbusq.size 1)) index
      (record (bank_at c index) { sleep_cycle = add64 now g.t_rdrd })) {
        rdwr_token = token;
        s_bus_time = add64 c.s_bus_time (add64 g.t_cas g.t_rdrd);
      }

-- Round `ii` of the loop looks at a bank of the channel.
pub index_of-lt :
    (now : ℕ) (c : Channel) (ii : ℕ) → 0 < c.num_banks → index_of now c ii < c.num_banks
index_of-lt now c ii h = grind arith

sub32_pred : (n : ℕ) → 0 < n → n ≤ 128 → sub32 n 1 + 1 ≡ n
sub32_pred n h k = ground arith

module _ (g : Settings) (now index : ℕ) (token : RdwrToken) (c : Channel) (v : IsSound c)
    (h : index < c.num_banks) (taken : (busq_at c index).valid ≡ true) where
  freed :
      IsSound (put_busq c index (record (busq_at c index) { valid = false }) (sub32 c.dbusq.size 1))
  freed =
      let e : BusqEntry = record (busq_at c index) { valid = false } in
      let some_size =
        get_or-le-tally valid_weight c.dbusq.entries index no_busq_entry
          (omega (arith, v.slots, v.limit)) in
      let room = tally-le-length valid_weight c.dbusq.entries (λ t. ground arith) in
      let one : valid_weight (busq_at c index) ≡ 1 = rw taken in
      put_busq-IsSound c index e (sub32 c.dbusq.size 1) v h (
        omega (
          arith,
          sub32_pred c.dbusq.size (omega (arith, some_size, v.counted, one))
              (omega (arith, room, v.slots, v.counted)),
          one,
        ))

  pub granted-IsSound : IsSound (granted g now index token c)
  granted-IsSound =
      put_bank-IsSound
        (put_busq c index (record (busq_at c index) { valid = false }) (sub32 c.dbusq.size 1)) index
        (record (bank_at c index) { sleep_cycle = add64 now g.t_rdrd }) freed h (v.ids index h)
        (record { short = (v.bank_ok index h).short; waiting = (v.bank_ok index h).waiting })

  -- the entry that leaves the bus queue is the only one in flight that is lost
  pub reads-granted :
      (a : ℕ) → reads a (granted g now index token c) + bus_weight a (busq_at c index) ≡ reads a c
  unfolding reads
  reads-granted a =
      let d =
        put_busq c index (record (busq_at c index) { valid = false }) (sub32 c.dbusq.size 1) in
      let p =
        reads-put_bank a d index (record (bank_at c index) { sleep_cycle = add64 now g.t_rdrd })
          (omega (arith, v.banks, h)) in
      let q =
        reads-put_busq a c index (record (busq_at c index) { valid = false }) (sub32 c.dbusq.size 1)
          (omega (arith, v.slots, v.limit, h)) in
      omega (arith, p, q)

-- The loop looks at every bank.
index_of_reaches :
    (now : ℕ) (c : Channel) (j : ℕ)
    → c.num_banks ≤ 32
    → j < c.num_banks
    → (ii : ℕ) × (ii < c.num_banks) × (index_of now c ii ≡ j)
index_of_reaches now c j small h = elim (dec_lt j (now % c.num_banks)) [
  | no le ↦ (j - now % c.num_banks, omega arith, grind arith)
  | yes lt ↦ (j + c.num_banks - now % c.num_banks, grind arith, grind arith)
]

-- No transfer of the channel may go.
abbrev pub NoneReady : ℕ → Channel → Type 0
NoneReady now c = (j : ℕ) → j < c.num_banks → is_ready now c j ≡ false

none_ready :
    (now : ℕ) (c : Channel)
    → IsSound c
    → FailsBelow (λ ii. is_ready now c (index_of now c ii)) 0 c.num_banks
    → NoneReady now c
none_ready now c v fails j h =
    let (ii, l, e) = index_of_reaches now c j v.limit h in
    subst (λ t. is_ready now c t ≡ false) e (fails ii (omega arith) l)

-- the first transfer in the rotation that may go
abbrev pub FirstInTurn : ℕ → Channel → ℕ → Type 0
FirstInTurn now c index =
    (ii : ℕ) × (ii < c.num_banks)
    × (index ≡ index_of now c ii)
    × (is_ready now c index ≡ true)
    × FailsBelow (λ jj. is_ready now c (index_of now c jj)) 0 ii

abbrev pub token_free : Settings → ℕ → Channel → Bool
token_free g now c = leb c.rdwr_token.rdwr_time (sub64 now c.rdwr_token.prev_time)

-- the granted transfer's data goes to the outside if it is a read
abbrev pub deliver : {W : Type 0} → (ℕ → W → Result W) → BusqEntry → W → Result W
deliver callback e w = if is_read e.reqtype then callback e.lineaddr w else ok w

module _ {W : Type 0} (callback : ℕ → W → Result W) (g : Settings) (now : ℕ) (c : Channel)
    (w : W) where
  -- the bus stays as it is, or one transfer gets it
  abbrev pub Scheduled : Result (Channel × W) → Type 0
  Scheduled out =
      ((out ≡ ok (c, w)) × (NoneReady now c ⊎ (token_free g now c ≡ false)))
      ⊎ ((index : ℕ) × (index < c.num_banks)
          × FirstInTurn now c index
          × (token_free g now c ≡ true)
          × (out ≡ (
              deliver callback (busq_at c index) w >>= λ w1.
              ok (granted g now index (record (c.rdwr_token) { prev_time = now }) c, w1))))

  -- On a well-formed channel dram_channel_schedule_rdwrq leaves everything alone when no transfer is ready
  -- or the read/write token is not free; otherwise it grants the bus to the first ready transfer in the
  -- rotation that starts at cycle % num_banks, and calls back for its line exactly if it is a read.
  pub schedule_rdwrq-Scheduled : IsSound c → Scheduled (schedule_rdwrq callback g now c w)
  unfolding schedule_rdwrq try_bus grant_bus get_rdwr_token
  schedule_rdwrq-Scheduled v =
      let some_banks : (c.num_banks == 0) ≡ false = ground (arith, v.some_banks) in
      elim (Option-cases (find_index (λ ii. is_ready now c (index_of now c ii)) c.num_banks 0)) [
        | inl e ↦
            rw (some_banks, e)
              (inl (
                refl,
                inl (none_ready now c v (λ j x y. find_index-none _ _ _ e j x (omega arith))),
              ))
        | inr (ii, e) ↦
            let (low, l, hit, before) = find_index-some _ _ _ ii e in
            elim (Bool-cases (token_free g now c)) [
              | inr denied ↦ rw (some_banks, e, denied) (inl (refl, inr refl))
              | inl free ↦
                  rw (some_banks, e, free)
                    (inr (
                      index_of now c ii,
                      index_of-lt now c ii v.some_banks,
                      (ii, omega arith, refl, hit, before),
                      refl,
                      refl,
                    ))
            ]
      ]
