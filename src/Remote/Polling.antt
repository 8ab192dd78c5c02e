-- ===== src/Remote/Polling.antt =====
-- Polling with a timeout: PollImmediateWithContext of utils/waitutil/wait.go over a trace. The ticks of
-- a poll are counted, so that the channel's close after the timeout can be told from its ticks.
pub mod Kept
use polar_db_stack_common.Common.{
  ℕ, zero, suc, ◌+◌, ◌<◌, ◌≤◌, ◌≡◌, ◌≢◌, ◌⊎◌, inl, inr, refl, ap, ◌∙◌, Bool, true, List, ◌∷◌,
  Option, none, some, arith,
}
use polar_db_stack_common.Common.Text.{Text, codes}
use polar_db_stack_common.Common.Outcome.{Outcome, ok, err}
use polar_db_stack_common.Common.Trace.{Trace}
use polar_db_stack_common.Engine.Wait.{
  Signal, tick, WaitResult, waited, failed, wait_timeout, wait_cancelled, wait_for, poll_immediate,
  wait_for-waited, answer_cases, signal_cases,
}

-- The variables of the condition's closure, and the trace.
pub record Poll (L S : Type 0) : Type 0 where
  pub ticks : ℕ
  pub vars : S
  pub seen : List L

-- The messages of ErrWaitTimeout and ErrWaitCancelled.
abbrev pub timeout_text : Text
timeout_text = codes "timed out waiting for the condition"

abbrev pub cancelled_text : Text
cancelled_text = codes "cancelled while waiting for the condition"

-- The error of a call to a service: one with a message, or a panic while its reply is read.
pub data RemoteError : Type 0 where
  error : Text → RemoteError
  panicked : RemoteError

abbrev pub poll_error : {S : Type 0} → WaitResult RemoteError → S → Outcome RemoteError S
poll_error waited s = ok s
poll_error (failed e) s = err e
poll_error wait_timeout s = err (error timeout_text)
poll_error wait_cancelled s = err (error cancelled_text)

pub poll_error-ok :
    {S : Type 0} (r : WaitResult RemoteError) (s s' : S)
    → poll_error r s ≡ ok s'
    → (r ≡ waited) × (s ≡ s')
poll_error-ok waited s s' e = (refl, ground (arith, e))
poll_error-ok (failed x) s s' e = cc
poll_error-ok wait_timeout s s' e = cc
poll_error-ok wait_cancelled s s' e = cc

module _ {L S : Type 0} (received : List L → ℕ → Signal) (signal_entry : L)
    (condition : S → List L → Outcome RemoteError Bool × S × List L) where
  abbrev pub next_signal : Poll L S → Signal × Poll L S
  next_signal p =
      (received p.seen p.ticks, record p { ticks = suc p.ticks; seen = signal_entry ∷ p.seen })

  abbrev pub ask : Poll L S → Outcome RemoteError Bool × Poll L S
  ask p = (
    (condition p.vars p.seen).0,
    record p { vars = (condition p.vars p.seen).1; seen = (condition p.vars p.seen).2 },
  )

  abbrev pub polled :
      Option (WaitResult RemoteError × Poll L S)
      → Option (Outcome RemoteError (S × WaitResult RemoteError) × List L)
  polled none = none
  polled (some (r, p)) = some (ok (p.vars, r), p.seen)

  -- The result of the wait stands beside the closure's variables, which are kept on an error too.
  unfoldable pub poll : ℕ → S → Trace L RemoteError (S × WaitResult RemoteError)
  poll fuel s seen =
      polled (poll_immediate next_signal ask fuel (record { ticks = zero; vars = s; seen = seen }))

  -- `PollInfinite` over a trace: the first thing is a signal.
  unfoldable pub poll_forever : ℕ → S → Trace L RemoteError (S × WaitResult RemoteError)
  poll_forever fuel s seen =
      polled (wait_for next_signal ask fuel (record { ticks = zero; vars = s; seen = seen }))

  -- A round either ends the loop, or it was begun by a tick and goes on from a state with one more.
  wait_for-round :
      (fuel : ℕ) (p : Poll L S)
      → ((r : WaitResult RemoteError × Poll L S) × (wait_for next_signal ask (suc fuel) p ≡ some r))
        ⊎ ((received p.seen p.ticks ≡ tick)
            × (next : Poll L S) × (next.ticks ≡ suc p.ticks)
            × (wait_for next_signal ask (suc fuel) p ≡ wait_for next_signal ask fuel next))
  unfolding wait_for
  wait_for-round fuel p =
      let p₁ = (next_signal p).1 in
      let p₂ = (ask p₁).1 in
      let answer : Outcome RemoteError Bool = (ask p₁).0 in
      elim (signal_cases (received p.seen p.ticks)) [
        | inl c ↦ inl ((wait_cancelled, p₁), ground arith)
        | inr (inl t) ↦ elim (answer_cases answer) [
          | inl (x, h) ↦ inl ((failed x, p₂), ground arith)
          | inr (inl h) ↦ inr (t, p₂, refl, ground arith)
          | inr (inr h) ↦ inl ((waited, p₂), ground arith)
        ]
        | inr (inr c) ↦ elim (answer_cases answer) [
          | inl (x, h) ↦ inl ((failed x, p₂), ground arith)
          | inr (inl h) ↦ inl ((wait_timeout, p₂), ground arith)
          | inr (inr h) ↦ inl ((waited, p₂), ground arith)
        ]
      ]

  wait_for-closes :
      (limit fuel : ℕ) (p : Poll L S)
      → ((l : List L) (n : ℕ) → limit ≤ n → received l n ≢ tick)
      → limit ≤ p.ticks + fuel
      → (r : WaitResult RemoteError × Poll L S) × (wait_for next_signal ask (suc fuel) p ≡ some r)
  wait_for-closes limit zero p closes enough = elim (wait_for-round zero p) [
    | inl ends ↦ ends
    | inr (t, next, more, goes_on) ↦ absurd (closes p.seen p.ticks (omega arith) t)
  ]
  wait_for-closes limit (suc fuel) p closes enough = elim (wait_for-round (suc fuel) p) [
    | inl ends ↦ ends
    | inr (t, next, more, goes_on) ↦
        let (r, ends) = wait_for-closes limit fuel next closes (omega arith) in (r, goes_on ∙ ends)
  ]

  pub polled-waited :
      (r : Option (WaitResult RemoteError × Poll L S)) (s : S) (seen : List L)
      → polled r ≡ some (ok (s, waited), seen)
      → (q : Poll L S) × (r ≡ some (waited, q)) × (q.vars ≡ s) × (q.seen ≡ seen)
  polled-waited none s seen e = cc
  polled-waited (some (w, q)) s seen e = (q, ground arith, ground arith, ground arith)

  polled-some :
      (r : Option (WaitResult RemoteError × Poll L S)) (x : WaitResult RemoteError × Poll L S)
      → r ≡ some x
      → (y : Outcome RemoteError (S × WaitResult RemoteError) × List L) × (polled r ≡ some y)
  polled-some r (w, p) e = ((ok (p.vars, w), p.seen), ap polled e)

  -- A channel that is closed, or a context that is done, after at most `limit` ticks ends the poll.
  pub poll_returns :
      (limit fuel : ℕ) (s : S) (seen : List L)
      → ((l : List L) (n : ℕ) → limit ≤ n → received l n ≢ tick)
      → limit < fuel
      → (r : Outcome RemoteError (S × WaitResult RemoteError) × List L) × (poll fuel s seen
          ≡ some r)
  unfolding poll poll_immediate
  poll_returns limit zero s seen closes enough = absurd (omega arith)
  poll_returns limit (suc fuel) s seen closes enough =
      let p : Poll L S = record { ticks = zero; vars = s; seen = seen } in
      let p₁ : Poll L S = (ask p).1 in
      let answer : Outcome RemoteError Bool = (ask p).0 in
      elim (answer_cases answer) [
        | inl (x, h) ↦ polled-some _ (failed x, p₁) (ground arith)
        | inr (inr h) ↦ polled-some _ (waited, p₁) (ground arith)
        | inr (inl h) ↦
            let (r, ends) = wait_for-closes limit fuel p₁ closes (omega arith) in
            polled-some _ r (ground (arith, ends))
      ]

  -- A poll that was waited for to its end: its last step was the condition, and it held.
  pub poll-waited :
      (fuel : ℕ) (s s' : S) (seen seen' : List L)
      → poll fuel s seen ≡ some (ok (s', waited), seen')
      → (v : S) × (before : List L) × (condition v before ≡ (ok true, s', seen'))
  unfolding poll poll_immediate
  poll-waited fuel s s' seen seen' e =
      let p : Poll L S = record { ticks = zero; vars = s; seen = seen } in
      let p₁ : Poll L S = (ask p).1 in
      let answer : Outcome RemoteError Bool = (ask p).0 in
      elim (answer_cases answer) [
        | inl (x, h) ↦ absurd (ground arith)
        | inr (inr h) ↦ (s, seen, ground arith)
        | inr (inl h) ↦
            let (q, ends, vars_eq, seen_eq) =
              polled-waited (wait_for next_signal ask fuel p₁) s' seen' (ground arith) in
            let (p₂, held, step) = wait_for-waited next_signal ask fuel p₁ ends in
            (p₂.vars, p₂.seen, ground arith)
      ]

  -- And one without an end of its own.
  pub poll_forever-waited :
      (fuel : ℕ) (s s' : S) (seen seen' : List L)
      → poll_forever fuel s seen ≡ some (ok (s', waited), seen')
      → (v : S) × (before : List L) × (condition v before ≡ (ok true, s', seen'))
  unfolding poll_forever
  poll_forever-waited fuel s s' seen seen' e =
      let p : Poll L S = record { ticks = zero; vars = s; seen = seen } in
      let (q, ends, vars_eq, seen_eq) =
        polled-waited (wait_for next_signal ask fuel p) s' seen' e in
      let (p₂, held, step) = wait_for-waited next_signal ask fuel p ends in
      (p₂.vars, p₂.seen, ground arith)
