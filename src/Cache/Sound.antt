-- ===== src/Cache/Sound.antt =====
-- What the core relies on in the last-level cache, src/mcache.cpp: a well-formed cache of lines of the memory.
use mds.Base.{
  ℕ, ◌<◌, ◌≡◌, ◌≢◌, sym, ◌∙◌, inl, inr, Bool, true, false, ok, Rand, Bool-cases, ◌&&◌, arith,
  if◌then◌else◌,
}
use mds.Cache.Defs.{Cache, Entry, num_repl_policy, entry_at, is_line}
use mds.Cache.Layout.{IsValid, Narrow, HeldAt, Holds}
use mds.Cache.Lookup.{access, mark_dirty}
use mds.Cache.Contents.{access-Accessed, mark_dirty-MarkedDirty}
use mds.Cache.Install.{install}
use mds.Cache.Replace.{install-Installed}

pub record CacheOk (lines : ℕ) (c : Cache) : Type 0 where
  pub layout : IsValid c
  pub narrow : Narrow c
  pub known : c.repl_policy ≢ num_repl_policy
  pub inside : (a : ℕ) → Holds c a → a < lines

-- A cache in which every entry holds the line that it held.
same-inside :
    (lines : ℕ) (c c' : Cache)
    → ((a i : ℕ) → is_line a (entry_at c' i) ≡ is_line a (entry_at c i))
    → ((a : ℕ) → Holds c a → a < lines)
    → (a : ℕ) → Holds c' a
    → a < lines
same-inside lines c c' same below a (i, h) = below a (i, sym (same a i) ∙ h)

pub access-CacheOk :
    (lines : ℕ) (c : Cache) (addr : ℕ)
    → CacheOk lines c
    → (hit : Bool) × (c' : Cache) × (access c addr ≡ ok (hit, c'))
      × CacheOk lines c'
      × (hit ≡ false → ¬ Holds c' addr)
access-CacheOk lines c addr v =
    let (hit, c', e, w) = access-Accessed c addr v.layout in
    (
      hit,
      c',
      e,
      record {
        layout = w.layout;
        narrow = w.counters v.narrow;
        known = λ q. v.known (sym w.policy ∙ q);
        inside = same-inside lines c c' w.same_lines v.inside;
      },
      λ miss (i, h). absurd (let there = w.verdict.1 (i, sym (w.same_lines addr i) ∙ h) in cc),
    )

pub mark_dirty-CacheOk :
    (lines : ℕ) (c : Cache) (addr : ℕ)
    → CacheOk lines c
    → (found : Bool) × (c' : Cache) × (mark_dirty c addr ≡ ok (found, c')) × CacheOk lines c'
mark_dirty-CacheOk lines c addr v =
    let (found, c', e, w) = mark_dirty-MarkedDirty c addr v.layout in
    (
      found,
      c',
      e,
      record {
        layout = w.layout;
        narrow = w.counters v.narrow;
        known = λ q. v.known (sym w.policy ∙ q);
        inside = same-inside lines c c' w.same_lines v.inside;
      },
    )

-- The line that is thrown out dirty is a line of the memory.
pub install-CacheOk :
    (lines tth : ℕ) (c : Cache) (addr : ℕ) (r : Rand)
    → CacheOk lines c
    → addr < lines
    → (¬ Holds c addr)
    → (c' : Cache) × (r' : Rand) × (install tth c addr r ≡ ok (c', r'))
      × CacheOk lines c'
      × ((if c'.evicted_dirty_line then c'.evicted_line_addr else 0) < lines)
install-CacheOk lines tth c addr r v h absent =
    let (k, c', r', e, w) = install-Installed tth c addr r v.layout v.narrow v.known absent in
    (
      c',
      r',
      e,
      record {
        layout = w.layout;
        narrow = w.narrow;
        known = λ q. v.known (sym w.policy ∙ q);
        inside = λ a held. elim ((w.lines a).0 held) [
          | inl q ↦ omega arith
          | inr (j, ne, there) ↦ v.inside a (j, there)
        ];
      },
      elim (Bool-cases c'.evicted_dirty_line) [
        | inr none_out ↦ rw none_out (omega arith)
        | inl out ↦
            let was_there : HeldAt c c'.evicted_line_addr k =
              dirty_line (entry_at c k) c'.evicted_line_addr (sym w.writes_back ∙ out)
                (w.victim_addr out) in
            rw out (v.inside c'.evicted_line_addr (k, was_there))
      ],
    )
  where
    dirty_line : (e : Entry) (a : ℕ) → (e.valid && e.dirty) ≡ true → a ≡ e.tag → is_line a e ≡ true
    dirty_line e a t q = ground arith
