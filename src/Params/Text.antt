-- ===== src/Params/Text.antt =====
-- C strings as src/params.h uses them: the bytes before the terminator, with strcmp and atoi.
use Prim.Native.Char.{code}
use Prim.Native.String.{String}
use mds.Base.{
  ℕ, ◌+◌, ◌-◌, ◌*◌, ◌%◌, ◌^◌, Bool, true, false, ◌&&◌, ◌||◌, List, [], ◌∷◌, Result, ok, err,
  undefined, leb, ltb, ◌==◌, if◌then◌else◌,
}

-- the bytes of a literal
abbrev pub codes : String → List ℕ
codes String.[] = []
codes (String.◌∷◌ c s) = code c ∷ codes s

-- `!strcmp(a, b)`
unfoldable pub same_text : List ℕ → List ℕ → Bool
same_text [] [] = true
same_text [] (b ∷ t) = false
same_text (a ∷ s) [] = false
same_text (a ∷ s) (b ∷ t) = a == b && same_text s t

-- `s[0] == '-'`
unfoldable pub dashed : List ℕ → Bool
dashed [] = false
dashed (c ∷ s) = c == b'-'

-- `isspace`: the blank, and the five controls from the tab to the carriage return
abbrev pub is_space : ℕ → Bool
is_space c = c == b' ' || (leb 9 c && leb c 13)

abbrev pub is_digit : ℕ → Bool
is_digit c = leb b'0' c && leb c b'9'

unfoldable pub skip_space : List ℕ → List ℕ
skip_space [] = []
skip_space (c ∷ s) = if is_space c then skip_space s else c ∷ s

-- the number that the leading digits spell, after `acc`
unfoldable pub read_digits : List ℕ → ℕ → ℕ
read_digits [] acc = acc
read_digits (c ∷ s) acc = if is_digit c then read_digits s (acc * 10 + (c - b'0')) else acc

-- An `int` as the `uns64` that it converts to. A number that no `int` holds is undefined.
abbrev pub positive : ℕ → Result ℕ
positive n = if ltb n (2 ^ 31) then ok n else err undefined

abbrev pub negative : ℕ → Result ℕ
negative n = if leb n (2 ^ 31) then ok ((2 ^ 64 - n) % 2 ^ 64) else err undefined

-- the sign and the digits
unfoldable pub signed : List ℕ → Result ℕ
signed [] = ok 0
signed (c ∷ s) =
    if c == b'-'
    then negative (read_digits s 0)
    else if c == b'+'
    then positive (read_digits s 0)
    else positive (read_digits (c ∷ s) 0)

-- `atoi`
unfoldable pub atoi : List ℕ → Result ℕ
atoi s = signed (skip_space s)
