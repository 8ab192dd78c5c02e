-- ===== src/Common/Outcome.antt =====
-- Results of fallible calls: Go's `(value, error)` pairs, where the value is used only without error.
use polar_db_stack_common.Common.{Bool, true, false, Option, none, some, ◌≡◌, ◌≢◌, refl}

pub data Outcome {ℓ κ} (E : Type ℓ) (A : Type κ) : Type (ℓ ⊔ κ) where
  ok : A → Outcome E A
  err : E → Outcome E A

infixl 5 ◌>>◌ ◌>>=◌
abbrev pub ◌>>=◌ {ℓ κ ι} :
    {E : Type ℓ} {A : Type κ} {B : Type ι} → Outcome E A → (A → Outcome E B) → Outcome E B
ok a >>= f = f a
err e >>= f = err e

-- A missing value, or a condition that does not hold, as an error.
abbrev pub or_fail {ℓ κ} : {E : Type ℓ} {A : Type κ} → Option A → E → Outcome E A
or_fail none e = err e
or_fail (some a) e = ok a

abbrev pub require {ℓ} : {E : Type ℓ} → E → Bool → Outcome E (Unit {0})
require e false = err e
require e true = ok tt

abbrev pub ◌>>◌ {ℓ κ} : {E : Type ℓ} {B : Type κ} → Outcome E (Unit {0}) → Outcome E B → Outcome E B
first >> second = first >>= (λ u. second)

-- Inversion of a successful bind.
pub >>=-eq-ok {ℓ κ ι} :
    {E : Type ℓ} {A : Type κ} {B : Type ι} (step : Outcome E A) (rest : A → Outcome E B) {last : B}
    → (step >>= rest) ≡ ok last
    → (first : A) × (step ≡ ok first) × (rest first ≡ ok last)
>>=-eq-ok (err failure) rest went_well = cc
>>=-eq-ok (ok first) rest went_well = (first, refl, went_well)

-- And of one that failed with an error that its first step does not give.
pub >>=-eq-err {ℓ κ ι} :
    {E : Type ℓ} {A : Type κ} {B : Type ι} (m : Outcome E A) (f : A → Outcome E B) {e : E}
    → m ≢ err e
    → (m >>= f) ≡ err e
    → (a : A) × (m ≡ ok a) × (f a ≡ err e)
>>=-eq-err (ok a) f ne h = (a, refl, h)
>>=-eq-err (err x) f ne h = absurd (ne (cc))
