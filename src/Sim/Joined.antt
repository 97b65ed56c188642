-- ===== src/Sim/Joined.antt =====
-- The cores (src/mcore.cpp) and the table of the memory system (src/memsys.cpp) together.
use mds.Base.{
  ℕ, ◌+◌, ◌^◌, ◌<◌, ◌≡◌, ◌≢◌, refl, sym, ap, ◌∙◌, subst, inl, inr, List, [], ◌∷◌, arith, some, ok,
  length, length-set, set, ◌==◌, Bool-cases,
}
use native.Mathlib.Decide.{ℕ_discrete}
use mds.Settings.{Settings}
use mds.Core.Types.{Core}
use mds.Core.Rob.{rob_at}
use mds.Dram.Outbox.{Outbox}
use mds.MemSys.{World, core_at, memsys_callback}
use mds.MemSys.Table.{
  MshrEntry, Table, count, lookup, erase, count-lookup, count-erase, count-erase_other, Each,
  lookup-Each, erase-Each, Each-map, Each-zip,
}
use mds.MemSys.Answers.{
  core_at-set_self, core_at-set_ne, Option_injective, woken, woken-inst_num, memsys_callback-ok,
}
use mds.Sim.Pending.{frame, FrameOk, Own, Elsewhere, Apart, Pending-place, put-Pending, put-Ring}
use mds.Sim.Retiring.{Filled}

erase-Apart : (a : ℕ) (t : Table) → Apart t → Apart (erase a t)
unfolding erase
erase-Apart a [] v = v
erase-Apart a ((k, e) ∷ t) (far, v) = elim (Bool-cases (k == a)) [
  | inl here ↦ rw here v
  | inr later ↦ rw later (erase-Each (Elsewhere e) a t far, erase-Apart a t v)
]

-- an entry that is found, and the others
erased-Elsewhere :
    (a : ℕ) (t : Table) (e : MshrEntry)
    → lookup a t ≡ some e
    → Apart t
    → Each (Elsewhere e) (erase a t)
unfolding erase lookup
erased-Elsewhere a [] e found v = cc
erased-Elsewhere a ((k, e') ∷ t) e found (far, v) = elim (Bool-cases (k == a)) [
  | inl here ↦
      rw here (subst (λ x. Each (Elsewhere x) t) (let same : e' ≡ e = ground arith in same) far)
  | inr later ↦
      let there : lookup a t ≡ some e = ground arith in
      let away = lookup-Each (Elsewhere e') a t e far there in
      rw later ((λ q r. away (sym q) (sym r)), erased-Elsewhere a t e there v)
]

module _ {T : Type 0} (g : Settings) (lines : ℕ) where
  -- Every core is well-formed and has the places of its own reads in flight; no place is taken twice; and
  -- every read in flight has a core.
  pub record Joined (cs : List (Core T)) (t : Table) : Type 0 where
    pub core :
        (i : ℕ) (c : Core T)
        → core_at cs i ≡ some c
        → FrameOk g lines i (frame c) × Filled g c × (c.trace_va < 2 ^ 32)
    pub own : (i : ℕ) (c : Core T) → core_at cs i ≡ some c → Each (Own g i (frame c)) t
    pub apart : Apart t
    pub known : Each (λ e. (c : Core T) × (core_at cs e.coreid ≡ some c)) t

  pub known-set :
      (cs : List (Core T)) (i : ℕ) (c c' : Core T) (e : MshrEntry)
      → core_at cs i ≡ some c
      → (x : Core T) × (core_at cs e.coreid ≡ some x)
      → (x : Core T) × (core_at (set cs i c') e.coreid ≡ some x)
  known-set cs i c c' e at (x, there) = elim (ℕ_discrete i e.coreid) [
    | yes same ↦ (c', ap (λ t. core_at (set cs i c') t) (sym same) ∙ core_at-set_self cs i c c' at)
    | no ne ↦ (x, core_at-set_ne cs i e.coreid c' ne ∙ there)
  ]

  -- what is true of every core, when one was replaced
  pub replaced :
      (P : ℕ → Core T → Type 0) (cs : List (Core T)) (i : ℕ) (c c' : Core T)
      → core_at cs i ≡ some c
      → P i c'
      → ((j : ℕ) (x : Core T) → j ≢ i → core_at cs j ≡ some x → P j x)
      → (j : ℕ) (x : Core T) → core_at (set cs i c') j ≡ some x
      → P j x
  replaced P cs i c c' at here others j x e = elim (ℕ_discrete i j) [
    | yes same ↦
        let it : core_at (set cs i c') i ≡ some x = ap (λ t. core_at (set cs i c') t) same ∙ e in
        let one : c' ≡ x = Option_injective (sym (core_at-set_self cs i c c' at) ∙ it) in
        subst (λ t. P t x) same (subst (P i) one here)
    | no ne ↦ others j x (λ q. ne (sym q)) (sym (core_at-set_ne cs i j c' ne) ∙ e)
  ]

  -- The answer to a read.
  woken-FrameOk :
      (i robid : ℕ) (c : Core T)
      → robid < length c.rob.entries
      → FrameOk g lines i (frame c)
      → FrameOk g lines i (frame (woken c robid))
  woken-FrameOk i robid c h v = record {
    ring = put-Ring g c.rob robid (record (rob_at c.rob robid) { ready_time = c.cycle }) v.ring;
    id = v.id;
    cycle = v.cycle;
    sleeper = λ asleep.
        let w = v.sleeper asleep in
        record {
          at = w.at;
          inside = w.inside;
          place = w.place;
          holds = woken-inst_num c robid c.sleep_robid h ∙ w.holds;
          line = w.line;
        };
  }

  answered-Joined :
      (a : ℕ) (cs : List (Core T)) (t : Table) (e : MshrEntry) (c : Core T)
      → Joined cs t
      → lookup a t ≡ some e
      → core_at cs e.coreid ≡ some c
      → e.robid < length c.rob.entries
      → Joined (set cs e.coreid (woken c e.robid)) (erase a t)
  answered-Joined a cs t e c v found at h = record {
    core =
        replaced (λ i x. FrameOk g lines i (frame x) × Filled g x × (x.trace_va < 2 ^ 32)) cs
          e.coreid c (woken c e.robid) at
          (let (f, filled, va) = v.core e.coreid c at in
            (woken-FrameOk e.coreid e.robid c h f, filled, va))
          (λ j x ne there. v.core j x there);
    own =
        replaced (λ i x. Each (Own g i (frame x)) (erase a t)) cs e.coreid c (woken c e.robid) at
          (Each-map (λ x. Own g e.coreid (frame c) x × Elsewhere e x)
            (Own g e.coreid (frame (woken c e.robid))) (erase a t)
            (λ x (mine, far) q.
              put-Pending g (frame c) x e.robid
                (record (rob_at c.rob e.robid) { ready_time = c.cycle }) (far q) (mine q))
            (Each-zip (Own g e.coreid (frame c)) (Elsewhere e) (erase a t)
              (erase-Each (Own g e.coreid (frame c)) a t (v.own e.coreid c at))
              (erased-Elsewhere a t e found v.apart)))
          (λ j x ne there. erase-Each (Own g j (frame x)) a t (v.own j x there));
    apart = erase-Apart a t v.apart;
    known =
        Each-map (λ x. (y : Core T) × (core_at cs x.coreid ≡ some y)) _ (erase a t)
          (λ x there. known-set cs e.coreid c (woken c e.robid) x at there)
          (erase-Each (λ x. (y : Core T) × (core_at cs x.coreid ≡ some y)) a t v.known);
  }

  pub Joined-delivers :
      (num a : ℕ) (w : World T)
      → Joined w.mcore w.mshr × (length w.mcore ≡ num)
      → 0 < count a w.mshr
      → (w' : World T) × (memsys_callback a w ≡ ok w')
        × (Joined w'.mcore w'.mshr × (length w'.mcore ≡ num))
        × (count a w'.mshr + 1 ≡ count a w.mshr)
        × ((b : ℕ) → b ≢ a → count b w'.mshr ≡ count b w.mshr)
  Joined-delivers num a w (v, size) h =
      let (e, found) = count-lookup a w.mshr h in
      let (c, at) =
        lookup-Each (λ x. (y : Core T) × (core_at w.mcore x.coreid ≡ some y)) a w.mshr e v.known
          found in
      let ring = (v.core e.coreid c at).0.ring in
      let waits =
        lookup-Each (Own g e.coreid (frame c)) a w.mshr e (v.own e.coreid c at) found refl in
      let inside : e.robid < length c.rob.entries =
        omega (arith, Pending-place g (frame c) e ring waits, ring.inside) in
      (
        record { mshr = erase a w.mshr; mcore = set w.mcore e.coreid (woken c e.robid) },
        memsys_callback-ok a w e c h found at inside waits.holds,
        (
          answered-Joined a w.mcore w.mshr e c v found at inside,
          length-set w.mcore e.coreid (woken c e.robid) ∙ size,
        ),
        count-erase a w.mshr h,
        λ b ne. count-erase_other a b w.mshr ne,
      )

  abbrev pub joined_answers : ℕ → Outbox (World T)
  joined_answers num = record {
    callback = memsys_callback;
    pending = λ a w. count a w.mshr;
    Good = λ w. Joined w.mcore w.mshr × (length w.mcore ≡ num);
    delivers = Joined-delivers num;
  }
