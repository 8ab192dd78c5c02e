-- ===== src/Common/Trace.antt =====
-- Steps that leave a trace: what was called or received so far stands in a list, the latest first, and
-- what a step meets is a function of that list. A step has no result where the fuel of a loop in it is
-- used up.
use polar_db_stack_common.Common.{
  ◌≡◌, refl, Bool, true, false, List, ◌∷◌, Option, none, some, if◌then◌else◌,
}
use polar_db_stack_common.Common.Outcome.{Outcome, ok, err}

abbrev pub Trace : Type 0 → Type 0 → Type 0 → Type 0
Trace L E A = List L → Option (Outcome E A × List L)

module _ {L E : Type 0} where
  abbrev pub after_step :
      {A B : Type 0}
      → Option (Outcome E A × List L)
      → (A → Trace L E B)
      → Option (Outcome E B × List L)
  after_step none next = none
  after_step (some (err failure, seen)) next = some (err failure, seen)
  after_step (some (ok a, seen)) next = next a seen

  infixl 5 ◌>>=◌ ◌>>◌
  abbrev pub ◌>>=◌ : {A B : Type 0} → Trace L E A → (A → Trace L E B) → Trace L E B
  (step >>= next) seen = after_step (step seen) next

  abbrev pub ◌>>◌ : {B : Type 0} → Trace L E (Unit {0}) → Trace L E B → Trace L E B
  (step >> next) seen = after_step (step seen) (λ u. next)

  abbrev pub done : {A : Type 0} → A → Trace L E A
  done a seen = some (ok a, seen)

  abbrev pub stop : {A : Type 0} → E → Trace L E A
  stop failure seen = some (err failure, seen)

  -- One entry of the trace, and what is met there.
  abbrev pub record_entry : {A : Type 0} → L → (List L → Outcome E A) → Trace L E A
  record_entry entry answer seen = some (answer seen, entry ∷ seen)

  abbrev pub observed :
      {A : Type 0} → Option (Outcome E A × List L) → Option (Outcome E (Outcome E A) × List L)
  observed none = none
  observed (some (r, seen)) = some (ok r, seen)

  -- The step's result as a value, for code that looks at an error.
  abbrev pub outcome_of : {A : Type 0} → Trace L E A → Trace L E (Outcome E A)
  outcome_of step seen = observed (step seen)

  pub after_step-ok :
      {A B : Type 0} (r : Option (Outcome E A × List L)) (next : A → Trace L E B) {b : B}
      {seen : List L}
      → after_step r next ≡ some (ok b, seen)
      → (a : A) × (between : List L) × (r ≡ some (ok a, between))
        × (next a between ≡ some (ok b, seen))
  after_step-ok none next e = cc
  after_step-ok (some (err failure, s)) next e = cc
  after_step-ok (some (ok a, s)) next e = (a, s, refl, e)

  -- The step has a result whatever was seen before it.
  abbrev pub Returns : {A : Type 0} → Trace L E A → Type 0
  Returns {A} step = (seen : List L) → (y : Outcome E A × List L) × (step seen ≡ some y)

  after_step-some :
      {A B : Type 0} (r : Option (Outcome E A × List L)) (next : A → Trace L E B)
      (y : Outcome E A × List L)
      → r ≡ some y
      → ((a : A) → Returns (next a))
      → (z : Outcome E B × List L) × (after_step r next ≡ some z)
  after_step-some none next y e returns = cc
  after_step-some (some (err failure, s)) next y e returns = ((err failure, s), refl)
  after_step-some (some (ok a, s)) next y e returns = returns a s

  pub Returns-bind :
      {A B : Type 0} {step : Trace L E A} {next : A → Trace L E B}
      → Returns step
      → ((a : A) → Returns (next a))
      → Returns (λ seen. after_step (step seen) next)
  Returns-bind first rest seen = let (y, e) = first seen in after_step-some _ _ y e rest

  pub Returns-if :
      {A : Type 0} (b : Bool) {yes no : Trace L E A}
      → Returns yes
      → Returns no
      → Returns (if b then yes else no)
  Returns-if true y n = y
  Returns-if false y n = n

  pub Returns-record_entry :
      {A : Type 0} (entry : L) (answer : List L → Outcome E A) → Returns (record_entry entry answer)
  Returns-record_entry entry answer seen = ((answer seen, entry ∷ seen), refl)
