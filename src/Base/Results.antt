-- ===== src/Base/Results.antt =====
-- Fallible code: an assertion, a deliberate exit, or behaviour that C++ leaves undefined.
use mathlib.Core.Path.{◌≡◌, refl}
use mathlib.Core.Bool.{Bool, true, false}

pub data Fault : Type 0 where
  assert_failed exited undefined hangs : Fault

-- what a call comes to: the process dies of a fault, or the call returns
pub data Result {ℓ} (R : Type ℓ) : Type ℓ where
  err : Fault → Result R
  ok : R → Result R

infixl 5 ◌>>=◌ ◌>>◌
abbrev pub ◌>>=◌ {ℓ κ} : {R : Type ℓ} {S : Type κ} → Result R → (R → Result S) → Result S
call >>= next = elim call [ err fault ↦ err fault | ok value ↦ next value ]

-- a test in the middle of a function, and the assertion
abbrev pub demand : Fault → Bool → Result (Unit {0})
demand fault holds = elim holds [ false ↦ err fault | true ↦ ok tt ]

abbrev pub check : Bool → Result (Unit {0})
check holds = demand assert_failed holds

abbrev pub ◌>>◌ {ℓ} : {S : Type ℓ} → Result (Unit {0}) → Result S → Result S
test >> next = elim test [ err fault ↦ err fault | ok done ↦ next ]

pub bind_ok {ℓ} : {R : Type ℓ} (call : Result R) → call ≡ (call >>= ok)
bind_ok (err fault) = refl
bind_ok (ok value) = refl

pub bind_cong {ℓ κ} :
    {R : Type ℓ} {S : Type κ} (call : Result R) (f g : R → Result S)
    → ((a : R) → f a ≡ g a)
    → (call >>= f) ≡ (call >>= g)
bind_cong (err fault) f g same = refl
bind_cong (ok value) f g same = same value
