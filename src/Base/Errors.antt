-- ===== src/Base/Errors.antt =====
-- kernel/lib/result.h: the error codes, and the value-or-error results that TRY and ENSURE chain.
use mathlib.Core.Path.{◌≡◌, refl}
use mathlib.Core.Logic.{◌⊎◌, inl, inr}
use mathlib.Core.Bool.{Bool, true, false}

-- `Error::None` is `success`.
pub data Error : Type 0 where
  success io no_mem invalid not_found bad_fs exists_already not_empty timeout busy no_device : Error
  not_supported full fail : Error

pub data Result {ℓ} (T : Type ℓ) : Type ℓ where
  err : Error → Result T
  ok : T → Result T

pub Result-cases {ℓ} :
    {T : Type ℓ} (r : Result T) → ((value : T) × (r ≡ ok value)) ⊎ ((e : Error) × (r ≡ err e))
Result-cases (err e) = inr (e, refl)
Result-cases (ok value) = inl (value, refl)

-- ENSURE(cond, error)
abbrev pub ensure : Bool → Error → Result (Unit {0})
ensure false e = err e
ensure true e = ok tt

pub ensure-eq-ok : (b : Bool) (e : Error) {u : Unit {0}} → ensure b e ≡ ok u → b ≡ true
ensure-eq-ok false e returned = cc
ensure-eq-ok true e returned = refl

-- TRY: the rest of the function, with the value, or a return of the error
infixl 5 ◌>>=◌
abbrev pub ◌>>=◌ {ℓ κ} : {T : Type ℓ} {U : Type κ} → Result T → (T → Result U) → Result U
err e >>= rest = err e
ok value >>= rest = rest value

infixl 5 ◌>>◌
abbrev pub ◌>>◌ {κ} : {U : Type κ} → Result (Unit {0}) → Result U → Result U
first >> rest = first >>= λ _. rest

pub >>=-eq-ok {ℓ κ} :
    {T : Type ℓ} {U : Type κ} (first : Result T) (rest : T → Result U) {result : U}
    → (first >>= rest) ≡ ok result
    → (value : T) × (first ≡ ok value) × (rest value ≡ ok result)
>>=-eq-ok (err e) rest returned = cc
>>=-eq-ok (ok value) rest returned = (value, refl, returned)
