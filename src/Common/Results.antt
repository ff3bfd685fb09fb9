-- ===== src/Common/Results.antt =====
-- What a kernel function can do besides returning: the ways in which the model stops a call.
use mathlib.Core.Bool.{Bool, true, false}
use mathlib.Core.Path.{◌≡◌, refl}

-- `assertion` is a failed ASSERT and `reached` a NOT_REACHED; both panic, as `panic` does.
-- `bad_access` is an access outside an array, which C leaves undefined, and `divide_error` the
-- processor's #DE. `sleeps` is a thread that blocks inside the call. `out_of_fuel` is no outcome of
-- the code: it is how a loop of the model ends if it is given too few rounds.
pub data Fault : Type 0 where
  assertion reached panic bad_access divide_error sleeps out_of_fuel : Fault

pub data Result {ℓ} (A : Type ℓ) : Type ℓ where
  ok : A → Result A
  err : Fault → Result A

-- A fault ends the call: what follows is not run.
infixl 5 ◌>>=◌ ◌>>◌
abbrev pub ◌>>=◌ {ℓ κ} :
    {Before : Type ℓ} {After : Type κ} → Result Before → (Before → Result After) → Result After
err fault >>= rest = err fault
ok value >>= rest = rest value

abbrev pub ◌>>◌ {κ} : {After : Type κ} → Result (Unit {0}) → Result After → Result After
err fault >> rest = err fault
ok done >> rest = rest

-- ASSERT (b)
abbrev pub assert : Bool → Result (Unit {0})
assert true = ok tt
assert false = err assertion

pub assert-true {ℓ} :
    {A : Type ℓ} {b : Bool} (rest : Result A) → b ≡ true → (assert b >> rest) ≡ rest
assert-true rest h = rw h refl

-- The call comes to a result that has the property.
abbrev pub Returns {ℓ} : {A : Type ℓ} → (A → Type 0) → Result A → Type 0
Returns P (ok a) = P a
Returns P (err fault) = ⊥

pub Returns-assert {ℓ} :
    {A : Type ℓ} (P : A → Type 0) (b : Bool) (rest : Result A)
    → b ≡ true
    → Returns P rest
    → Returns P (assert b >> rest)
Returns-assert P b rest h r = rw h r

pub Returns-bind {ℓ κ} :
    {A : Type ℓ} {B : Type κ} (P : A → Type 0) (Q : B → Type 0) (first : Result A)
    (rest : A → Result B)
    → Returns P first
    → ((a : A) → P a → Returns Q (rest a))
    → Returns Q (first >>= rest)
Returns-bind P Q (ok a) rest r k = k a r
Returns-bind P Q (err fault) rest r k = elim r [ ]

pub Returns-weaken {ℓ} :
    {A : Type ℓ} (P Q : A → Type 0) (call : Result A)
    → ((a : A) → P a → Q a)
    → Returns P call
    → Returns Q call
Returns-weaken P Q (ok a) k r = k a r
Returns-weaken P Q (err fault) k r = elim r [ ]

pub Returns-ok {ℓ} :
    {A : Type ℓ} (P : A → Type 0) (call : Result A) → Returns P call → (a : A) × (call ≡ ok a) × P a
Returns-ok P (ok a) r = (a, refl, r)
Returns-ok P (err fault) r = elim r [ ]
