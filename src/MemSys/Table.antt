-- ===== src/MemSys/Table.antt =====
-- The `unordered_map` of MSHR entries of src/memsys.h, as an association list in which a key stands at
-- most once.
use mds.Base.{
  Bool-cases, inl, inr, false, ℕ, ◌+◌, ◌<◌, ◌≡◌, ◌≢◌, refl, subst, List, [], ◌∷◌, ◌++◌, Option,
  none, some, ◌==◌, if◌then◌else◌, tally, arith,
}

pub record MshrEntry : Type 0 where
  pub coreid : ℕ
  pub robid : ℕ
  pub inst_num : ℕ

abbrev pub Table : Type 0
Table = List (ℕ × MshrEntry)

-- `mshr.count(a)`
abbrev pub count : ℕ → Table → ℕ
count a = tally (λ e. if e.0 == a then 1 else 0)

-- `mshr[a]` where it is there
unfoldable pub lookup : ℕ → Table → Option MshrEntry
lookup a [] = none
lookup a ((k, e) ∷ t) = if k == a then some e else lookup a t

-- `mshr.erase(a)`
unfoldable pub erase : ℕ → Table → Table
erase a [] = []
erase a ((k, e) ∷ t) = if k == a then t else (k, e) ∷ erase a t

-- what is counted is found, and one less is counted without it
pub count-lookup : (a : ℕ) (t : Table) → 0 < count a t → (e : MshrEntry) × (lookup a t ≡ some e)
unfolding lookup
count-lookup a [] h = absurd (omega arith)
count-lookup a ((k, e) ∷ t) h = elim (Bool-cases (k == a)) [
  | inl here ↦ (e, rw here)
  | inr later ↦ let (e', found) = count-lookup a t (ground arith) in (e', rw (later, found))
]

pub count-erase : (a : ℕ) (t : Table) → 0 < count a t → count a (erase a t) + 1 ≡ count a t
unfolding erase
count-erase a [] h = absurd (omega arith)
count-erase a ((k, e) ∷ t) h = elim (Bool-cases (k == a)) [
  | inl here ↦ rw here (omega arith)
  | inr later ↦ let less = count-erase a t (ground arith) in rw (later, later) (omega (arith, less))
]

pub count-erase_other : (a b : ℕ) (t : Table) → b ≢ a → count b (erase a t) ≡ count b t
unfolding erase
count-erase_other a b [] h = refl
count-erase_other a b ((k, e) ∷ t) h = elim (Bool-cases (k == a)) [
  | inl here ↦ let ne : (k == b) ≡ false = ground (arith, h) in rw (here, ne) (omega arith)
  | inr later ↦ rw later (omega (arith, count-erase_other a b t h))
]

-- what is true of every entry
abbrev pub Each : (MshrEntry → Type 0) → Table → Type 0
Each P [] = Unit
Each P ((k, e) ∷ t) = P e × Each P t

pub lookup-Each :
    (P : MshrEntry → Type 0) (a : ℕ) (t : Table) (e : MshrEntry)
    → Each P t
    → lookup a t ≡ some e
    → P e
unfolding lookup
lookup-Each P a [] e all found = cc
lookup-Each P a ((k, e') ∷ t) e all found = elim (Bool-cases (k == a)) [
  | inl here ↦ let same : e' ≡ e = ground arith in subst P same all.0
  | inr later ↦ lookup-Each P a t e all.1 (ground arith)
]

pub erase-Each : (P : MshrEntry → Type 0) (a : ℕ) (t : Table) → Each P t → Each P (erase a t)
unfolding erase
erase-Each P a [] all = all
erase-Each P a ((k, e') ∷ t) all = elim (Bool-cases (k == a)) [
  | inl here ↦ rw here (all.1)
  | inr later ↦ rw later (all.0, erase-Each P a t all.1)
]

pub Each-map :
    (P Q : MshrEntry → Type 0) (t : Table) → ((e : MshrEntry) → P e → Q e) → Each P t → Each Q t
Each-map P Q [] h all = tt
Each-map P Q ((k, e) ∷ t) h all = (h e all.0, Each-map P Q t h all.1)

pub Each-zip :
    (P Q : MshrEntry → Type 0) (t : Table) → Each P t → Each Q t → Each (λ e. P e × Q e) t
Each-zip P Q [] p q = tt
Each-zip P Q ((k, e) ∷ t) p q = ((p.0, q.0), Each-zip P Q t p.1 q.1)

pub Each-append : (P : MshrEntry → Type 0) (s t : Table) → Each P s → Each P t → Each P (s ++ t)
Each-append P [] t p q = q
Each-append P ((k, e) ∷ s) t p q = (p.0, Each-append P s t p.1 q)
