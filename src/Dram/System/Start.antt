-- ===== src/Dram/System/Start.antt =====
-- dram_new of src/dram.cpp with dram_channel_new and dram_bank_new.
use mds.Base.{
  ℕ, ◌*◌, ◌/◌, ◌^◌, ◌≤◌, ◌<◌, ◌≡◌, refl, sym, ap, ◌∙◌, subst, false, List, arith, Result, ok, ltb,
  ◌==◌, if◌then◌else◌, to32, div-mul, err, undefined,
}
use mds.Settings.{Settings}
use mds.Dram.Types.{Channel, Dram, RefType, ref_none, ref_sb, ref_ab, ref_other}
use mds.Dram.Bank.{topen_of}
use mds.Dram.Address.Codec.{Geometry}
use mds.Dram.System.{channels_new, memsize_of, new_of, scale_trefi, dram_new, bad_geometry}
use mds.Dram.System.State.{AllSound, in_flight}
use mds.Dram.System.Fresh.{new_channels, NewChannels, channels_new-NewChannels}

unfoldable pub new_dram : Settings → ℕ → ℕ → Dram
unfolding new_of
new_dram g rows banks = new_of g (new_channels g banks (rows * banks) 0 g.mem_channels)

-- Settings in which every size is a multiple of the next, with `rows` rows in every bank.
pub record Exact (g : Settings) (rows banks lines : ℕ) : Type 0 where
  pub line : 0 < g.linesize
  pub page : g.mem_pagesize ≡ lines * g.linesize
  pub lines_even : lines ≡ lines / 2 * 2
  pub some_pairs : 0 < lines / 2
  pub gang : 0 < g.dram_mop_gangsize
  pub gangs : 0 < lines / g.dram_mop_gangsize
  pub gangs_whole : lines ≡ lines / g.dram_mop_gangsize * g.dram_mop_gangsize
  pub some_channels : 0 < g.mem_channels
  pub few_channels : g.mem_channels ≤ 32
  pub all_banks : g.mem_banks ≡ banks * g.mem_channels
  pub few_banks : banks ≤ 32
  pub groups : 0 < g.dram_bankgroups
  pub groups_fit : g.dram_bankgroups ≤ banks
  pub few_rows : rows * banks < 2 ^ 32
  pub size : memsize_of g ≡ rows * banks * g.mem_channels * lines * g.linesize

-- what `dram_new` may change of the settings
abbrev pub Scales : Settings → Settings → Type 0
Scales g g' = g' ≡ record g { t_refi = g'.t_refi; dram_max_topen = g'.dram_max_topen }

scale_by_mode : Settings → Dram → RefType → Result Settings
scale_by_mode g d m = elim m [
  | ref_sb ↦
      if d.banks_in_bankgroup == 0
      then err undefined
      else ok (record g { t_refi = g.t_refi / d.banks_in_bankgroup })
  | _ ↦ ok g
]

scale_by_mode-ok :
    (g : Settings) (d : Dram) (m : RefType)
    → 0 < d.banks_in_bankgroup
    → (g' : Settings) × (scale_by_mode g d m ≡ ok g') × Scales g g'
unfolding scale_by_mode
scale_by_mode-ok g d ref_none h = (g, refl, refl)
scale_by_mode-ok g d ref_ab h = (g, refl, refl)
scale_by_mode-ok g d ref_other h = (g, refl, refl)
scale_by_mode-ok g d ref_sb h =
    let ne : (d.banks_in_bankgroup == 0) ≡ false = ground arith in
    (record g { t_refi = g.t_refi / d.banks_in_bankgroup }, rw ne, refl)

scale_trefi-ok :
    (g : Settings) (d : Dram)
    → 0 < d.banks_in_bankgroup
    → (g' : Settings) × (scale_trefi g d ≡ ok g') × Scales g g'
unfolding scale_trefi scale_by_mode
scale_trefi-ok g d h = scale_by_mode-ok g d d.refmode h

module _ (g : Settings) (rows banks lines : ℕ) (v : Exact g rows banks lines) where
  memory_lines : memsize_of g / g.linesize ≡ rows * banks * g.mem_channels * lines
  memory_lines = ap (λ t. t / g.linesize) v.size ∙ div-mul _ g.linesize v.line

  page_positive : 0 < g.mem_pagesize
  page_positive =
      let p = v.page in
      let l = v.line in
      let s = v.some_pairs in let some_lines : 0 < lines = grind arith in grind arith

  memory_rows : memsize_of g / g.mem_pagesize ≡ rows * banks * g.mem_channels
  memory_rows =
      let product : memsize_of g ≡ rows * banks * g.mem_channels * g.mem_pagesize =
        v.size ∙ omega arith ∙ ap (λ t. rows * banks * g.mem_channels * t) (sym v.page) in
      ap (λ t. t / g.mem_pagesize) product ∙ div-mul _ g.mem_pagesize page_positive

  channel_rows : memsize_of g / g.mem_pagesize / g.mem_channels ≡ rows * banks
  channel_rows = ap (λ t. t / g.mem_channels) memory_rows ∙ div-mul _ g.mem_channels v.some_channels

  channel_banks : g.mem_banks / g.mem_channels ≡ banks
  channel_banks =
      ap (λ t. t / g.mem_channels) v.all_banks ∙ div-mul banks g.mem_channels v.some_channels

  page_lines : g.mem_pagesize / g.linesize ≡ lines
  page_lines = ap (λ t. t / g.linesize) v.page ∙ div-mul lines g.linesize v.line

  banks_positive : 0 < banks
  banks_positive = omega (arith, v.groups, v.groups_fit)

  good_geometry : bad_geometry g ≡ false
  good_geometry =
      let page : (g.mem_pagesize == 0) ≡ false = ground (arith, page_positive) in
      let line : (g.linesize == 0) ≡ false = ground (arith, v.line) in
      let nonzero : 0 < g.mem_banks =
        subst (λ t. 0 < t) (sym v.all_banks)
          (let p = banks_positive in let c = v.some_channels in grind arith) in
      let all : (g.mem_banks == 0) ≡ false = ground (arith, nonzero) in
      let some_channels : (g.mem_channels == 0) ≡ false = ground (arith, v.some_channels) in
      let few : ltb 32 g.mem_channels ≡ false = ground (arith, v.few_channels) in
      rw (page, line, all, some_channels, few)

  groups_of_bank : (cs : List Channel) → 0 < (new_of g cs).banks_in_bankgroup
  unfolding new_of
  groups_of_bank cs =
      subst (λ t. 0 < t / g.dram_bankgroups) (sym channel_banks)
        (let a = v.groups in let b = v.groups_fit in grind arith)

  scaled :
      (cs : List Channel)
      → (g' : Settings) × (scale_trefi (topen_of g) (new_of g cs) ≡ ok g') × Scales g g'
  unfolding topen_of
  scaled cs =
      let (g', e, only) = scale_trefi-ok (topen_of g) (new_of g cs) (groups_of_bank cs) in
      (g', e, only)

  new-Geometry : (cs : List Channel) → Geometry g (new_of g cs) rows
  unfolding new_of
  new-Geometry cs = record {
    channels = v.some_channels;
    banks = subst (λ t. 0 < t) (sym channel_banks) banks_positive;
    pairs = subst (λ t. 0 < t / 2) (sym page_lines) v.some_pairs;
    even = subst (λ t. t ≡ t / 2 * 2) (sym page_lines) v.lines_even;
    gang = v.gang;
    gangs = subst (λ t. 0 < t / g.dram_mop_gangsize) (sym page_lines) v.gangs;
    whole =
        subst (λ t. t ≡ t / g.dram_mop_gangsize * g.dram_mop_gangsize) (sym page_lines)
          v.gangs_whole;
    total =
        memory_lines
        ∙ ap (λ t. rows * t * g.mem_channels * lines) (sym channel_banks)
        ∙ ap (λ t. rows * (g.mem_banks / g.mem_channels) * g.mem_channels * t) (sym page_lines);
  }

  new-AllSound :
      (cs : List Channel)
      → NewChannels g.mem_channels banks (rows * banks) cs
      → AllSound (new_of g cs) rows
  unfolding new_of
  new-AllSound cs (l, news, none_yet) = record {
    count = l;
    sound = λ i h. (news i h).0;
    num_banks = λ i h. (news i h).1 ∙ sym channel_banks;
    num_rows = λ i h.
        ap (λ t. t / (g.mem_banks / g.mem_channels)) (news i h).2
        ∙ ap (λ t. rows * banks / t) channel_banks
        ∙ div-mul rows banks banks_positive;
  }

  -- With settings in which every size divides the next and the arrays are large enough, dram_new returns a
  -- DRAM that is well-formed and in which nothing is in flight, with the geometry in which every line of
  -- the memory has one place.
  pub dram_new-Started :
      (g' : Settings) × (dram_new g ≡ ok (g', new_dram g rows banks))
      × Scales g g'
      × Geometry g (new_dram g rows banks) rows
      × AllSound (new_dram g rows banks) rows
      × (0 < (new_dram g rows banks).banks_in_bankgroup)
      × ((a : ℕ) → in_flight a (new_dram g rows banks) ≡ 0)
  unfolding dram_new new_of new_dram in_flight
  dram_new-Started =
      let cs = new_channels g banks (rows * banks) 0 g.mem_channels in
      let (made, new) =
        channels_new-NewChannels g banks (rows * banks) 0 g.mem_channels v.groups v.groups_fit
          v.few_banks in
      let (g', e, only) = scaled cs in
      let made' : channels_new g (to32 (g.mem_banks / g.mem_channels))
            (to32 (memsize_of g / g.mem_pagesize / g.mem_channels)) 0 g.mem_channels
          ≡ ok cs =
        ap
          (λ t.
            channels_new g (to32 t) (to32 (memsize_of g / g.mem_pagesize / g.mem_channels)) 0
              g.mem_channels)
          channel_banks
        ∙ ap
            (λ t.
              channels_new g t (to32 (memsize_of g / g.mem_pagesize / g.mem_channels)) 0
                g.mem_channels)
            (omega (arith, v.few_banks))
        ∙ ap (λ t. channels_new g banks (to32 t) 0 g.mem_channels) channel_rows
        ∙ ap (λ t. channels_new g banks t 0 g.mem_channels) (let f = v.few_rows in grind arith)
        ∙ made in
      (
        g',
        rw (good_geometry, made', e),
        only,
        new-Geometry cs,
        new-AllSound cs new,
        groups_of_bank cs,
        new.2,
      )
