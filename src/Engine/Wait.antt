-- ===== src/Engine/Wait.antt =====
-- utils/waitutil/wait.go: WaitFor and PollImmediateWithContext. The goroutine of `poller` is a
-- parameter: the signal that the loop receives next. The loops run on fuel, and `none` is a loop that
-- has not returned when it is used up.
use polar_db_stack_common.Common.{
  ℕ, zero, suc, ◌≡◌, refl, ◌⊎◌, inl, inr, Bool, true, false, Option, none, some, arith,
}
use polar_db_stack_common.Common.Outcome.{Outcome, ok, err}

-- What the select of WaitFor receives: a tick of the channel, its close after the timeout, or the
-- end of the context.
pub data Signal : Type 0 where
  tick closed cancelled : Signal

pub data WaitResult {ℓ} (E : Type ℓ) : Type ℓ where
  waited : WaitResult E
  failed : E → WaitResult E
  -- ErrWaitTimeout
  wait_timeout : WaitResult E
  -- ErrWaitCancelled
  wait_cancelled : WaitResult E

pub signal_cases : (x : Signal) → (x ≡ cancelled) ⊎ (x ≡ tick) ⊎ (x ≡ closed)
signal_cases cancelled = inl refl
signal_cases tick = inr (inl refl)
signal_cases closed = inr (inr refl)

pub answer_cases :
    {E : Type 0} (r : Outcome E Bool) → ((e : E) × (r ≡ err e)) ⊎ (r ≡ ok false) ⊎ (r ≡ ok true)
answer_cases (err e) = inl (e, refl)
answer_cases (ok false) = inr (inl refl)
answer_cases (ok true) = inr (inr refl)

module _ {S E : Type 0} (signal : S → Signal × S) (condition : S → Outcome E Bool × S) where
  unfoldable pub wait_for : ℕ → S → Option (WaitResult E × S)
  wait_for zero s = none
  wait_for (suc fuel) s =
      let s₁ = (signal s).1 in
      let s₂ = (condition s₁).1 in
      elim (signal s).0 [
        | cancelled ↦ some (wait_cancelled, s₁)
        | tick ↦ elim (condition s₁).0 [
          | err e ↦ some (failed e, s₂)
          | ok b ↦ elim b [ true ↦ some (waited, s₂) | false ↦ wait_for fuel s₂ ]
        ]
        | closed ↦ elim (condition s₁).0 [
          | err e ↦ some (failed e, s₂)
          | ok b ↦ elim b [ true ↦ some (waited, s₂) | false ↦ some (wait_timeout, s₂) ]
        ]
      ]

  -- `PollImmediateWithContext`: the condition is asked once before the first signal.
  unfoldable pub poll_immediate : ℕ → S → Option (WaitResult E × S)
  poll_immediate fuel s = elim (condition s).0 [
    | err e ↦ some (failed e, (condition s).1)
    | ok b ↦ elim b [
      | true ↦ some (waited, (condition s).1)
      | false ↦ wait_for fuel (condition s).1
    ]
  ]

  -- Where the loop was successful, its last step was the condition, and it held.
  pub wait_for-waited :
      (fuel : ℕ) (s : S) {s' : S}
      → wait_for fuel s ≡ some (waited, s')
      → (s₁ : S) × ((condition s₁).0 ≡ ok true) × ((condition s₁).1 ≡ s')
  unfolding wait_for
  wait_for-waited zero s e = cc
  wait_for-waited (suc fuel) s {s'} e = elim (signal_cases (signal s).0) [
    | inl h ↦ ground arith
    | inr (inl h) ↦ elim (answer_cases (condition (signal s).1).0) [
      | inl (x, k) ↦ ground arith
      | inr (inl k) ↦ wait_for-waited fuel (condition (signal s).1).1 (ground arith)
      | inr (inr k) ↦ ((signal s).1, k, ground arith)
    ]
    | inr (inr h) ↦ elim (answer_cases (condition (signal s).1).0) [
      | inl (x, k) ↦ ground arith
      | inr (inl k) ↦ ground arith
      | inr (inr k) ↦ ((signal s).1, k, ground arith)
    ]
  ]
