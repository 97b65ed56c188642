-- ===== src/Dram/System/Fresh.antt =====
-- The channels and banks that dram_new of src/dram.cpp starts with: dram_channel_new and dram_bank_new.
use mds.Base.{
  ℕ, zero, suc, ◌+◌, ◌*◌, ◌/◌, ◌≤◌, ◌<◌, ◌≡◌, refl, sym, ap, subst, false, List, [], ◌∷◌, arith, ok,
  ltb, ◌==◌, length, get_or, replicate, length-replicate, get_or-replicate, tally,
  tally-replicate_zero,
}
use mds.Settings.{Settings}
use mds.Dram.Types.{Bank, Channel, no_busq_entry, num_busq_entries, BusqEntry}
use mds.Dram.Bank.{bank_new}
use mds.Dram.Cycle.{no_bank}
use mds.Dram.Channel.{banks_new, channel_new}
use mds.Dram.Channel.Invariant.{BankOk, IsSound, kind, bank_weight, bus_weight, valid_weight, reads}
use mds.Dram.System.{no_channel, channels_new}

length-banks_new : (id num_rows ii n : ℕ) → length (banks_new id num_rows ii n) ≡ n
unfolding banks_new
length-banks_new id num_rows ii zero = refl
length-banks_new id num_rows ii (suc n) = ap suc (length-banks_new id num_rows (ii + 1) n)

-- what is true of a new bank is true of all new banks
banks_new_all :
    (P : ℕ → Bank → Type 0) (id num_rows : ℕ)
    → ((k : ℕ) → P k (bank_new k id num_rows))
    → (ii n k : ℕ) → k < n
    → P (ii + k) (get_or (banks_new id num_rows ii n) k no_bank)
unfolding banks_new
banks_new_all P id num_rows h ii zero k l = absurd (omega arith)
banks_new_all P id num_rows h ii (suc n) zero l =
    subst (λ t. P t (bank_new ii id num_rows)) {x = ii} {y = ii + 0} (omega arith) (h ii)
banks_new_all P id num_rows h ii (suc n) (suc k) l =
    subst (λ t. P t (get_or (banks_new id num_rows (ii + 1) n) k no_bank)) {x = ii + 1 + k}
      {y = ii + suc k} (omega arith) (banks_new_all P id num_rows h (ii + 1) n k (omega arith))

banks_new_at :
    (P : ℕ → Bank → Type 0) (id num_rows : ℕ)
    → ((k : ℕ) → P k (bank_new k id num_rows))
    → (n k : ℕ) → k < n
    → P k (get_or (banks_new id num_rows 0 n) k no_bank)
banks_new_at P id num_rows h n k l =
    subst (λ t. P t (get_or (banks_new id num_rows 0 n) k no_bank)) {x = 0 + k} {y = k}
      (omega arith) (banks_new_all P id num_rows h 0 n k l)

banks_new_empty : (a id num_rows ii n : ℕ) → tally (bank_weight a) (banks_new id num_rows ii n) ≡ 0
unfolding banks_new bank_new
banks_new_empty a id num_rows ii zero = refl
banks_new_empty a id num_rows ii (suc n) = omega (arith, banks_new_empty a id num_rows (ii + 1) n)

abbrev pub new_channel : Settings → ℕ → ℕ → ℕ → Channel
new_channel g id num_banks num_rows = record {
  id = id;
  rfmab = false;
  rfmsb = 0;
  bank = banks_new id (num_rows / num_banks) 0 num_banks;
  dbusq = record { entries = replicate num_busq_entries no_busq_entry; size = 0 };
  tfaw_token = record { tfaw_time = 12 * 4; prev0 = 0; prev1 = 0; prev2 = 0; prev3 = 0 };
  rdwr_token = record { rdwr_time = g.t_rdrd; prev_time = 0 };
  num_banks = num_banks;
  num_rows = num_rows;
  banks_in_bankgroup = num_banks / g.dram_bankgroups;
  s_rfm = 0;
  s_bus_time = 0;
}

-- what a new channel is
abbrev pub NewChannel : ℕ → ℕ → Channel → Type 0
NewChannel num_banks num_rows c =
    IsSound c × (c.num_banks ≡ num_banks) × (c.num_rows ≡ num_rows) × ((a : ℕ) → reads a c ≡ 0)

channel_new-NewChannel :
    (g : Settings) (id num_banks num_rows : ℕ)
    → 0 < g.dram_bankgroups
    → g.dram_bankgroups ≤ num_banks
    → num_banks ≤ 32
    → (channel_new g id num_banks num_rows ≡ ok (new_channel g id num_banks num_rows))
      × NewChannel num_banks num_rows (new_channel g id num_banks num_rows)
unfolding channel_new reads bank_new
channel_new-NewChannel g id num_banks num_rows some_groups fits limit =
    let e0 : (g.dram_bankgroups == 0) ≡ false = ground arith in
    let e1 : (num_banks == 0) ≡ false = ground arith in
    let e2 : ltb 32 num_banks ≡ false = ground arith in
    (
      rw (e0, e1, e2),
      (
        record {
          banks = length-banks_new id (num_rows / num_banks) 0 num_banks;
          some_banks = omega arith;
          limit = limit;
          groups = grind arith;
          slots = length-replicate num_busq_entries no_busq_entry;
          ids =
              banks_new_at (λ k b. kind b ≡ (k, num_rows / num_banks)) id (num_rows / num_banks)
                (λ k. refl) num_banks;
          bank_ok =
              banks_new_at (λ k b. BankOk b) id (num_rows / num_banks)
                (λ k. record { short = omega arith; waiting = λ j x. absurd (omega arith) })
                num_banks;
          beyond = λ i h.
              ap (λ (t : BusqEntry). t.valid) (get_or-replicate num_busq_entries i no_busq_entry);
          counted = sym (tally-replicate_zero valid_weight num_busq_entries no_busq_entry refl);
        },
        refl,
        refl,
        λ a. omega (
          arith,
          banks_new_empty a id (num_rows / num_banks) 0 num_banks,
          tally-replicate_zero (bus_weight a) num_busq_entries no_busq_entry refl,
        ),
      ),
    )

abbrev pub new_channels : Settings → ℕ → ℕ → ℕ → ℕ → List Channel
new_channels g num_banks num_rows ii zero = []
new_channels g num_banks num_rows ii (suc n) =
    new_channel g ii num_banks num_rows ∷ new_channels g num_banks num_rows (ii + 1) n

abbrev pub NewChannels : ℕ → ℕ → ℕ → List Channel → Type 0
NewChannels n num_banks num_rows cs =
    (length cs ≡ n)
    × ((i : ℕ) → i < n → NewChannel num_banks num_rows (get_or cs i no_channel))
    × ((a : ℕ) → tally (reads a) cs ≡ 0)

pub channels_new-NewChannels :
    (g : Settings) (num_banks num_rows ii n : ℕ)
    → 0 < g.dram_bankgroups
    → g.dram_bankgroups ≤ num_banks
    → num_banks ≤ 32
    → (channels_new g num_banks num_rows ii n ≡ ok (new_channels g num_banks num_rows ii n))
      × NewChannels n num_banks num_rows (new_channels g num_banks num_rows ii n)
unfolding channels_new
channels_new-NewChannels g num_banks num_rows ii zero p q r =
    (refl, (refl, λ i h. absurd (omega arith), λ a. refl))
channels_new-NewChannels g num_banks num_rows ii (suc n) p q r =
    let (e, new) = channel_new-NewChannel g ii num_banks num_rows p q r in
    let (e', (l, news, none_yet)) =
      channels_new-NewChannels g num_banks num_rows (ii + 1) n p q r in
    (rw (e, e'), (ap suc l, at _ _ new news, λ a. omega (arith, new.3 a, none_yet a)))
  where
    at :
        (c : Channel) (cs : List Channel)
        → NewChannel num_banks num_rows c
        → ((i : ℕ) → i < n → NewChannel num_banks num_rows (get_or cs i no_channel))
        → (i : ℕ) → i < suc n
        → NewChannel num_banks num_rows (get_or (c ∷ cs) i no_channel)
    at c cs new news zero h = new
    at c cs new news (suc i) h = news i (omega arith)
