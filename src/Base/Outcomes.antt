-- ===== src/Base/Outcomes.antt =====
-- What a call may come to when nothing in it is undefined and no loop hangs.
use mathlib.Core.Path.{◌≡◌, refl, ap, ◌∙◌}
use mathlib.Core.Bool.{Bool, true, false}
use mds.Base.Tests.{if◌then◌else◌}
use mds.Base.Results.{Result, ok, err, assert_failed, exited, ◌>>=◌}

-- The process dies of a failed assertion, or exits, or the call returns what `P` is true of.
pub data Safe {R : Type 0} (P : R → Type 0) (out : Result R) : Type 0 where
  aborts : out ≡ err assert_failed → Safe P out
  exits : out ≡ err exited → Safe P out
  returns : (a : R) → out ≡ ok a → P a → Safe P out

-- a call that comes to what another does
pub Safe-eq :
    {R : Type 0} {P : R → Type 0} (out out' : Result R) → out' ≡ out → Safe P out → Safe P out'
Safe-eq out out' e (aborts f) = aborts (e ∙ f)
Safe-eq out out' e (exits f) = exits (e ∙ f)
Safe-eq out out' e (returns a f p) = returns a (e ∙ f) p

pub Safe-bind :
    {R S : Type 0} (P : R → Type 0) (Q : S → Type 0) (call : Result R) (next : R → Result S)
    → Safe P call
    → ((a : R) → P a → Safe Q (next a))
    → Safe Q (call >>= next)
Safe-bind P Q call next (aborts e) rest = aborts (ap (λ t. t >>= next) e)
Safe-bind P Q call next (exits e) rest = exits (ap (λ t. t >>= next) e)
Safe-bind P Q call next (returns a e p) rest =
    Safe-eq (next a) (call >>= next) (ap (λ t. t >>= next) e) (rest a p)

pub Safe-map :
    {R : Type 0} (P Q : R → Type 0) (out : Result R)
    → ((a : R) → P a → Q a)
    → Safe P out
    → Safe Q out
Safe-map P Q out f (aborts e) = aborts e
Safe-map P Q out f (exits e) = exits e
Safe-map P Q out f (returns a e p) = returns a e (f a p)

pub if_Safe :
    {R : Type 0} (P : R → Type 0) (test : Bool) (yes_out no_out : Result R)
    → (test ≡ true → Safe P yes_out)
    → (test ≡ false → Safe P no_out)
    → Safe P (if test then yes_out else no_out)
if_Safe P true yes_out no_out a b = a refl
if_Safe P false yes_out no_out a b = b refl
