-- ===== src/Params/Copies.antt =====
-- The copies of the first trace's name that the rate mode of src/params.h makes.
use mds.Base.{
  ℕ, zero, suc, ◌+◌, ◌≤◌, ◌<◌, ◌≡◌, refl, ap, ◌∙◌, false, List, [], arith, ok, err, undefined, ltb,
  lt→ltb, length, length-set, get_or, get_or-set_ne, get_or-set_self, set,
}
use native.Mathlib.Decide.{ℕ_discrete, dec_lt}
use mds.Params.{copy_name, trace_rows, trace_bytes, copy_rows}

-- the rows after the copies from `ii` on
abbrev pub Copied : ℕ → ℕ → List (List ℕ) → List (List ℕ) → Type 0
Copied n ii rows rows' =
    (length rows' ≡ length rows)
    × ((i : ℕ) → i < ii → get_or rows' i [] ≡ get_or rows i [])
    × ((i : ℕ) → ii ≤ i → i < ii + n → get_or rows' i [] ≡ get_or rows 0 [])

copied_one :
    (ii : ℕ) (name : List ℕ) (rows : List (List ℕ))
    → ii < trace_rows
    → length name ≤ 240
    → copy_name ii name rows ≡ ok (set rows ii name)
unfolding copy_name
copied_one ii name rows h short =
    rw (lt→ltb ii trace_rows h, lt→ltb (length name) trace_bytes (omega arith)) refl

pub copy_rows-Copied :
    (n ii : ℕ) (rows : List (List ℕ))
    → 0 < ii
    → ii + n ≤ trace_rows
    → length rows ≡ trace_rows
    → length (get_or rows 0 []) ≤ 240
    → (rows' : List (List ℕ)) × (copy_rows n ii rows ≡ ok rows') × Copied n ii rows rows'
unfolding copy_rows
copy_rows-Copied zero ii rows pos fits size short =
    (rows, refl, (refl, λ i b. refl, λ i a b. absurd (omega arith)))
copy_rows-Copied (suc n) ii rows pos fits size short =
    let name = get_or rows 0 [] in
    let head : get_or (set rows ii name) 0 [] ≡ name =
      get_or-set_ne rows ii 0 name [] (λ e. absurd (omega arith)) in
    let (rows', e, (len, before, after)) =
      copy_rows-Copied n (ii + 1) (set rows ii name) (omega arith) (omega arith)
        (length-set rows ii name ∙ size)
        (omega (arith, short, ap (λ (t : List ℕ). length t) head)) in
    (
      rows',
      rw (copied_one ii name rows (omega arith) short, e) refl,
      (
        len ∙ length-set rows ii name,
        λ i b. before i (omega arith) ∙ get_or-set_ne rows ii i name [] (λ e. absurd (omega arith)),
        λ i a b. elim (ℕ_discrete i ii) [
          | yes same ↦
              rw same (before ii (omega arith) ∙ get_or-set_self rows ii name [] (omega arith))
          | no ne ↦ after i (omega arith) (omega arith) ∙ head
        ],
      ),
    )

pub copy_rows_overruns :
    (n ii : ℕ) (rows : List (List ℕ))
    → 0 < ii
    → ii ≤ trace_rows
    → trace_rows < ii + n
    → length rows ≡ trace_rows
    → length (get_or rows 0 []) ≤ 240
    → copy_rows n ii rows ≡ err undefined
unfolding copy_rows copy_name
copy_rows_overruns zero ii rows pos low over size short = absurd (omega arith)
copy_rows_overruns (suc n) ii rows pos low over size short = elim (dec_lt ii trace_rows) [
  | yes inside ↦
      let name = get_or rows 0 [] in
      let head : get_or (set rows ii name) 0 [] ≡ name =
        get_or-set_ne rows ii 0 name [] (λ e. absurd (omega arith)) in
      rw (copied_one ii name rows inside short) (
        copy_rows_overruns n (ii + 1) (set rows ii name) (omega arith) (omega arith) (omega arith)
          (length-set rows ii name ∙ size)
          (omega (arith, short, ap (λ (t : List ℕ). length t) head)))
  | no beyond ↦
      let outside : ltb ii trace_rows ≡ false = ground arith in rw (outside, copy_name) refl
]
