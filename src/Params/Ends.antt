-- ===== src/Params/Ends.antt =====
-- What the parsing of src/params.h comes to: it asserts nothing, so it exits or it returns.
use mds.Base.{◌≡◌, refl, ap, ◌∙◌, Bool, true, false, Result, ok, err, exited, ◌>>=◌, if◌then◌else◌}

-- The process exits, or the call returns what `P` is true of.
pub data Ends {R : Type 0} (P : R → Type 0) (out : Result R) : Type 0 where
  leaves : out ≡ err exited → Ends P out
  yields : (a : R) → out ≡ ok a → P a → Ends P out

-- a call that comes to what another does
pub Ends-eq :
    {R : Type 0} {P : R → Type 0} (out out' : Result R) → out' ≡ out → Ends P out → Ends P out'
Ends-eq out out' e (leaves f) = leaves (e ∙ f)
Ends-eq out out' e (yields a f p) = yields a (e ∙ f) p

pub Ends-bind :
    {R S : Type 0} (P : R → Type 0) (Q : S → Type 0) (call : Result R) (next : R → Result S)
    → Ends P call
    → ((a : R) → P a → Ends Q (next a))
    → Ends Q (call >>= next)
Ends-bind P Q call next (leaves e) rest = leaves (ap (λ t. t >>= next) e)
Ends-bind P Q call next (yields a e p) rest =
    Ends-eq (next a) (call >>= next) (ap (λ t. t >>= next) e) (rest a p)

pub if_Ends :
    {R : Type 0} (P : R → Type 0) (test : Bool) (yes_out no_out : Result R)
    → (test ≡ true → Ends P yes_out)
    → (test ≡ false → Ends P no_out)
    → Ends P (if test then yes_out else no_out)
if_Ends P true yes_out no_out a b = a refl
if_Ends P false yes_out no_out a b = b refl
