-- ===== src/Base/Errors.antt =====
-- The exceptions of core/exceptions.py that the services raise, as values, with those of Python and
-- Django that they do not catch. A service method runs
-- in `transaction.atomic`, so what it wrote before it raised is rolled back.
use Prim.Native.String.{String}
use mathlib.Core.Bool.{Bool, true, false}
use mathlib.Core.Path.{◌≡◌, refl}
use mathlib.Core.Logic.{◌⊎◌, inl, inr}
use judgeloom_core.Base.Tests.{if◌then◌else◌}

pub data Error : Type 0 where
  not_found : String → Error
  permission_denied : String → Error
  validation_error : String → Error
  submission_error : String → Error
  contest_error : String → Error
  contest_access_denied : String → Error
  judge_job_conflict : String → Error
  key_error : String → Error
  attribute_error : String → Error
  value_error : String → Error
  integrity_error : String → Error
  multiple_objects : Error

pub data Result {ℓ} (A : Type ℓ) : Type ℓ where
  ok : A → Result A
  err : Error → Result A

-- `if test: raise error`
abbrev pub raise_if : Bool → Error → Result (Unit {0})
raise_if true e = err e
raise_if false e = ok tt

infixl 5 ◌>>=◌
abbrev pub ◌>>=◌ {ℓ μ} :
    {Value : Type ℓ} {Next : Type μ} → Result Value → (Value → Result Next) → Result Next
ok value >>= rest = rest value
err raised >>= rest = err raised

infixl 5 ◌>>◌
abbrev pub ◌>>◌ {μ} : {Next : Type μ} → Result (Unit {0}) → Result Next → Result Next
check >> rest = check >>= λ done. rest

pub >>=-eq-ok {ℓ μ} :
    {Value : Type ℓ} {Next : Type μ} (step : Result Value) (rest : Value → Result Next)
    {last : Next}
    → (step >>= rest) ≡ ok last
    → (value : Value) × (step ≡ ok value) × (rest value ≡ ok last)
>>=-eq-ok (ok value) rest h = (value, refl, h)
>>=-eq-ok (err raised) rest h = cc

-- Inversion of a check, and of one step before the rest.
pub >>-eq-ok {ℓ} :
    {B : Type ℓ} (m : Result (Unit {0})) (k : Result B) {b : B}
    → (m >> k) ≡ ok b
    → (m ≡ ok tt) × (k ≡ ok b)
>>-eq-ok (ok u) k h = (refl, h)
>>-eq-ok (err e) k h = cc

pub raise_if-eq-ok : (test : Bool) (e : Error) → raise_if test e ≡ ok tt → test ≡ false
raise_if-eq-ok true e h = cc
raise_if-eq-ok false e h = refl

pub ok-injective {ℓ} : {A : Type ℓ} (a b : A) → ok a ≡ ok b → a ≡ b
ok-injective a b h = cc

-- A conditional that returned took one of its branches.
pub if-eq-ok {ℓ} :
    {A : Type ℓ} (test : Bool) (m k : Result A) {a : A}
    → (if test then m else k) ≡ ok a
    → (test ≡ true) × (m ≡ ok a) ⊎ (test ≡ false) × (k ≡ ok a)
if-eq-ok true m k h = inl (refl, h)
if-eq-ok false m k h = inr (refl, h)
