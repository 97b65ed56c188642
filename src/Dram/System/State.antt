-- ===== src/Dram/System/State.antt =====
-- The well-formedness of the DRAM of src/dram.h, and the reads that are in flight in it.
use mds.Base.{
  ℕ, ◌+◌, ◌/◌, ◌<◌, ◌≡◌, ◌≢◌, sym, ap, ◌∙◌, subst, ◌⊎◌, inl, inr, List, arith, length, get_or,
  length-set, get_or-set-cases, tally, tally-set,
}
use mds.Dram.Types.{Channel, Dram}
use mds.Dram.System.{no_channel, channel_at, put_channel}
use mds.Dram.Channel.Invariant.{IsSound, shape, reads}

-- There are as many channels as the DRAM says, each well-formed and with the same banks of `rows` rows.
pub record Sounds (num_channels banks rows : ℕ) (channel : List Channel) : Type 0 where
  pub count : length channel ≡ num_channels
  pub sound : (i : ℕ) → i < num_channels → IsSound (get_or channel i no_channel)
  pub num_banks : (i : ℕ) → i < num_channels → (get_or channel i no_channel).num_banks ≡ banks
  pub num_rows : (i : ℕ) → i < num_channels → (get_or channel i no_channel).num_rows / banks ≡ rows

abbrev pub AllSound : Dram → ℕ → Type 0
AllSound d rows = Sounds d.num_channels d.banks_in_channel rows d.channel

-- the reads of line `a` that are in flight
unfoldable pub in_flight : ℕ → Dram → ℕ
in_flight a d = tally (reads a) d.channel

-- a channel may be written back if it is well-formed and kept its shape
pub put_channel-AllSound :
    (d : Dram) (rows i : ℕ) (c : Channel)
    → AllSound d rows
    → i < d.num_channels
    → IsSound c
    → shape c ≡ shape (channel_at d i)
    → AllSound (put_channel d i c) rows
put_channel-AllSound d rows i c v h s e = record {
  count = length-set d.channel i c ∙ v.count;
  sound = λ j x. elim (cases j) [
    | inl (q, r) ↦ subst IsSound (sym r) s
    | inr (q, r) ↦ subst IsSound (sym r) (v.sound j x)
  ];
  num_banks = λ j x. elim (cases j) [
    | inl (q, r) ↦ ap (λ (t : Channel). t.num_banks) r ∙ ap (λ (t : ℕ × ℕ). t.0) e ∙ v.num_banks i h
    | inr (q, r) ↦ ap (λ (t : Channel). t.num_banks) r ∙ v.num_banks j x
  ];
  num_rows = λ j x. elim (cases j) [
    | inl (q, r) ↦
        ap (λ (t : Channel). t.num_rows / d.banks_in_channel) r
        ∙ ap (λ (t : ℕ × ℕ). t.1 / d.banks_in_channel) e
        ∙ v.num_rows i h
    | inr (q, r) ↦ ap (λ (t : Channel). t.num_rows / d.banks_in_channel) r ∙ v.num_rows j x
  ];
}
  where
    cases :
        (j : ℕ)
        → ((j ≡ i) × (channel_at (put_channel d i c) j ≡ c))
          ⊎ ((j ≢ i) × (channel_at (put_channel d i c) j ≡ channel_at d j))
    cases j = get_or-set-cases d.channel i j c no_channel (omega (arith, v.count))

pub in_flight-put_channel :
    (a : ℕ) (d : Dram) (i : ℕ) (c : Channel)
    → i < length d.channel
    → in_flight a (put_channel d i c) + reads a (channel_at d i) ≡ in_flight a d + reads a c
unfolding in_flight
in_flight-put_channel a d i c h = tally-set (reads a) d.channel i c no_channel h

-- what a cycle may change of the DRAM
abbrev pub CyclesOnly : Dram → Dram → Type 0
CyclesOnly d e = e ≡ record d {
  channel = e.channel;
  refsb_ptr = e.refsb_ptr;
  last_trefi_cycle = e.last_trefi_cycle;
  last_trefw_cycle = e.last_trefw_cycle;
  num_trefi = e.num_trefi;
  num_trefw = e.num_trefw;
}

pub CyclesOnly-trans : (d e f : Dram) → CyclesOnly d e → CyclesOnly e f → CyclesOnly d f
CyclesOnly-trans d e f p q =
    q
    ∙ ap
        (λ (t : Dram). record t {
          channel = f.channel;
          refsb_ptr = f.refsb_ptr;
          last_trefi_cycle = f.last_trefi_cycle;
          last_trefw_cycle = f.last_trefw_cycle;
          num_trefi = f.num_trefi;
          num_trefw = f.num_trefw;
        })
        p
