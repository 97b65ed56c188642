-- ===== src/Core/Trace/Reading.antt =====
-- The format of the trace that mcore_fread_trace (src/mcore.cpp) reads: ten bytes a record.
use mds.Base.{
  ℕ, zero, suc, ◌/◌, ◌%◌, ◌^◌, ◌<◌, ◌≡◌, refl, ap, ◌∙◌, Bool, true, false, not, if◌then◌else◌, List,
  [], ◌∷◌, ◌++◌, ◌==◌, arith, div-lt,
}
use mds.Core.Types.{Core}
use mds.Core.Trace.{Zlib, value_of, fread_trace}

-- the low `k` bytes of a number, the lowest first
abbrev pub bytes_of : ℕ → ℕ → List ℕ
bytes_of zero n = []
bytes_of (suc k) n = n % 256 ∷ bytes_of k (n / 256)

abbrev pub take : ℕ → List ℕ → List ℕ
take zero xs = []
take (suc n) [] = []
take (suc n) (x ∷ xs) = x ∷ take n xs

abbrev pub drop : ℕ → List ℕ → List ℕ
drop zero xs = xs
drop (suc n) [] = []
drop (suc n) (x ∷ xs) = drop n xs

-- an instruction count, whether the access is a write-back, and a line address
pub record TraceRecord : Type 0 where
  pub inst_num : ℕ
  pub wb : Bool
  pub va : ℕ

-- the record in front of what follows it in the file
abbrev pub encode : TraceRecord → List ℕ → List ℕ
encode o rest = bytes_of 5 o.inst_num ++ ((if o.wb then 1 else 0) ∷ (bytes_of 4 o.va ++ rest))

-- The fields fit their bytes.
pub record Fits (o : TraceRecord) : Type 0 where
  pub inst_num : o.inst_num < 2 ^ 40
  pub va : o.va < 2 ^ 32

-- What zlib documents of `gzread`: it gives the next bytes of the file, `bytes`, and moves past them.
abbrev pub ReadsOn : {T : Type 0} → Zlib T → (T → List ℕ) → Type 0
ReadsOn {T} z bytes =
    (t : T) (n : ℕ)
    → ((z.gzread t n).0 ≡ take n (bytes t)) × (bytes (z.gzread t n).1 ≡ drop n (bytes t))

value_of-bytes_of : (k n : ℕ) → n < 256 ^ k → value_of (bytes_of k n) ≡ n
value_of-bytes_of zero n h = omega arith
value_of-bytes_of (suc k) n h =
    let rest = value_of-bytes_of k (n / 256) (div-lt n (256 ^ k) 256 (grind arith)) in
    omega (arith, rest)

take-bytes_of : (k n : ℕ) (rest : List ℕ) → take k (bytes_of k n ++ rest) ≡ bytes_of k n
take-bytes_of zero n rest = refl
take-bytes_of (suc k) n rest = ap (λ t. n % 256 ∷ t) (take-bytes_of k (n / 256) rest)

drop-bytes_of : (k n : ℕ) (rest : List ℕ) → drop k (bytes_of k n ++ rest) ≡ rest
drop-bytes_of zero n rest = refl
drop-bytes_of (suc k) n rest = drop-bytes_of k (n / 256) rest

flag_lem : (b : Bool) → not (value_of ((if b then 1 else 0) ∷ []) == 0) ≡ b
flag_lem true = refl
flag_lem false = refl

module _ {T : Type 0} (z : Zlib T) (bytes : T → List ℕ) where
  -- With a gzread that gives the next bytes of the file and moves past them, let the file of a core go on
  -- with a record: the instruction count in five bytes and, after a byte for the write-back flag, the
  -- address in four, both little-endian and small enough for them. Then mcore_fread_trace stores the count,
  -- the flag and the address of the record, and the file goes on with what followed it.
  pub fread_trace-encode :
      ReadsOn z bytes
      → (c : Core T) (o : TraceRecord) (rest : List ℕ) → Fits o
      → bytes c.addr_trace ≡ encode o rest
      → ((fread_trace z c).trace_inst_num ≡ o.inst_num)
        × ((fread_trace z c).trace_wb ≡ o.wb)
        × ((fread_trace z c).trace_va ≡ o.va)
        × (bytes (fread_trace z c).addr_trace ≡ rest)
  unfolding fread_trace
  fread_trace-encode reads c o rest fits h =
      let t = c.addr_trace in
      let t1 = (z.gzread t 5).1 in
      let t2 = (z.gzread t1 1).1 in
      let after : List ℕ = (if o.wb then 1 else 0) ∷ (bytes_of 4 o.va ++ rest) in
      let b0 = (reads t 5).0 ∙ ap (take 5) h ∙ take-bytes_of 5 o.inst_num after in
      let e1 = (reads t 5).1 ∙ ap (drop 5) h ∙ drop-bytes_of 5 o.inst_num after in
      let b1 = (reads t1 1).0 ∙ ap (take 1) e1 in
      let e2 = (reads t1 1).1 ∙ ap (drop 1) e1 in
      let b2 = (reads t2 4).0 ∙ ap (take 4) e2 ∙ take-bytes_of 4 o.va rest in
      let e3 = (reads t2 4).1 ∙ ap (drop 4) e2 ∙ drop-bytes_of 4 o.va rest in
      (
        ap value_of b0 ∙ value_of-bytes_of 5 o.inst_num (omega (arith, fits.inst_num)),
        ap (λ x. not (value_of x == 0)) b1 ∙ flag_lem o.wb,
        ap value_of b2 ∙ value_of-bytes_of 4 o.va (omega (arith, fits.va)),
        e3,
      )
