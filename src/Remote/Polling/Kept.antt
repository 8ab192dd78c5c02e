-- ===== src/Remote/Polling/Kept.antt =====
-- What the variables of a polling loop keep where it does not succeed: the loop of utils/waitutil/wait.go.
use polar_db_stack_common.Common.{
  ℕ, zero, suc, ◌≡◌, ◌≢◌, inl, inr, Bool, true, false, List, Option, none, some, arith,
}
use polar_db_stack_common.Common.Outcome.{Outcome, ok}
use polar_db_stack_common.Engine.Wait.{
  Signal, WaitResult, waited, wait_for, poll_immediate, signal_cases, answer_cases,
}
use polar_db_stack_common.Remote.Polling.{
  Poll, RemoteError, next_signal, ask, polled, polled-waited, poll, poll_forever,
}

module _ {L S : Type 0} (received : List L → ℕ → Signal) (signal_entry : L)
    (condition : S → List L → Outcome RemoteError Bool × S × List L) where
  -- A test that a round keeps unless it ends the loop holds at the end of a loop that was not successful.
  wait_for-keeps :
      (test : S → Bool) (fuel : ℕ) (p q : Poll L S) (w : WaitResult RemoteError)
      → ((s : S) (seen : List L)
          → test s ≡ true
          → (condition s seen).0 ≢ ok true
          → test (condition s seen).1 ≡ true)
      → test p.vars ≡ true
      → w ≢ waited
      → wait_for
          (next_signal received signal_entry condition)
          (ask received signal_entry condition)
          fuel
          p
        ≡ some (w, q)
      → test q.vars ≡ true
  unfolding wait_for
  wait_for-keeps test zero p q w keeps holds ne e = cc
  wait_for-keeps test (suc fuel) p q w keeps holds ne e =
      let p₁ = (next_signal received signal_entry condition p).1 in
      let p₂ = (ask received signal_entry condition p₁).1 in
      let answer : Outcome RemoteError Bool = (ask received signal_entry condition p₁).0 in
      elim (signal_cases (received p.seen p.ticks)) [
        | inl c ↦ ground arith
        | inr (inl t) ↦ elim (answer_cases answer) [
          | inl (x, h) ↦
              let kept = keeps p₁.vars p₁.seen holds (λ k. absurd (ground (arith, h, k))) in
              ground (arith, kept)
          | inr (inl h) ↦
              let kept = keeps p₁.vars p₁.seen holds (λ k. absurd (ground (arith, h, k))) in
              wait_for-keeps test fuel p₂ q w keeps kept ne (ground (arith, h, t, e))
          | inr (inr h) ↦ absurd (ground (arith, h, t, e, ne))
        ]
        | inr (inr c) ↦ elim (answer_cases answer) [
          | inl (x, h) ↦
              let kept = keeps p₁.vars p₁.seen holds (λ k. absurd (ground (arith, h, k))) in
              ground (arith, kept)
          | inr (inl h) ↦
              let kept = keeps p₁.vars p₁.seen holds (λ k. absurd (ground (arith, h, k))) in
              ground (arith, kept)
          | inr (inr h) ↦ absurd (ground (arith, h, c, e, ne))
        ]
      ]

  polled_iff :
      (r : Option (WaitResult RemoteError × Poll L S)) (s : S) (w : WaitResult RemoteError)
      (seen : List L)
      → polled received signal_entry condition r ≡ some (ok (s, w), seen)
      → (q : Poll L S) × (r ≡ some (w, q)) × (q.vars ≡ s)
  polled_iff none s w seen e = cc
  polled_iff (some (v, q)) s w seen e = (q, ground (arith, e), ground (arith, e))

  pub poll-keeps :
      (test : S → Bool) (fuel : ℕ) (s s' : S) (w : WaitResult RemoteError) (seen seen' : List L)
      → ((v : S) (l : List L)
          → test v ≡ true
          → (condition v l).0 ≢ ok true
          → test (condition v l).1 ≡ true)
      → test s ≡ true
      → w ≢ waited
      → poll received signal_entry condition fuel s seen ≡ some (ok (s', w), seen')
      → test s' ≡ true
  unfolding poll poll_immediate
  poll-keeps test fuel s s' w seen seen' keeps holds ne e =
      let p : Poll L S = record { ticks = zero; vars = s; seen = seen } in
      let p₁ : Poll L S = (ask received signal_entry condition p).1 in
      let answer : Outcome RemoteError Bool = (ask received signal_entry condition p).0 in
      elim (answer_cases answer) [
        | inl (x, h) ↦
            let kept = keeps s seen holds (λ k. absurd (ground (arith, h, k))) in
            let (q, is, vars) = polled_iff _ s' w seen' e in ground (arith, kept, h, is, vars)
        | inr (inr h) ↦
            let (q, is, vars) = polled_iff _ s' w seen' e in absurd (ground (arith, h, is, ne))
        | inr (inl h) ↦
            let kept = keeps s seen holds (λ k. absurd (ground (arith, h, k))) in
            let (q, is, vars) = polled_iff _ s' w seen' e in
            let last = wait_for-keeps test fuel p₁ q w keeps kept ne (ground (arith, h, is)) in
            ground (arith, last, vars)
      ]

  -- Where the loop succeeds, the condition held on variables that passed a test which each round that does
  -- not end the loop keeps.
  wait_for-held :
      (test : S → Bool) (fuel : ℕ) (p q : Poll L S)
      → ((s : S) (seen : List L)
          → test s ≡ true
          → (condition s seen).0 ≡ ok false
          → test (condition s seen).1 ≡ true)
      → test p.vars ≡ true
      → wait_for
          (next_signal received signal_entry condition)
          (ask received signal_entry condition)
          fuel
          p
        ≡ some (waited, q)
      → (v : S) × (before : List L) × (test v ≡ true)
        × (condition v before ≡ (ok true, q.vars, q.seen))
  unfolding wait_for
  wait_for-held test zero p q keeps holds e = cc
  wait_for-held test (suc fuel) p q keeps holds e =
      let p₁ = (next_signal received signal_entry condition p).1 in
      let p₂ = (ask received signal_entry condition p₁).1 in
      let answer : Outcome RemoteError Bool = (ask received signal_entry condition p₁).0 in
      elim (signal_cases (received p.seen p.ticks)) [
        | inl c ↦ absurd (ground arith)
        | inr (inl t) ↦ elim (answer_cases answer) [
          | inl (x, h) ↦ absurd (ground arith)
          | inr (inl h) ↦
              wait_for-held test fuel p₂ q keeps (keeps p₁.vars p₁.seen holds h)
                (ground (arith, h, t, e))
          | inr (inr h) ↦ (p₁.vars, p₁.seen, holds, ground arith)
        ]
        | inr (inr c) ↦ elim (answer_cases answer) [
          | inl (x, h) ↦ absurd (ground arith)
          | inr (inl h) ↦ absurd (ground arith)
          | inr (inr h) ↦ (p₁.vars, p₁.seen, holds, ground arith)
        ]
      ]

  pub poll_forever-held :
      (test : S → Bool) (fuel : ℕ) (s s' : S) (seen seen' : List L)
      → ((v : S) (l : List L)
          → test v ≡ true
          → (condition v l).0 ≡ ok false
          → test (condition v l).1 ≡ true)
      → test s ≡ true
      → poll_forever received signal_entry condition fuel s seen ≡ some (ok (s', waited), seen')
      → (v : S) × (before : List L) × (test v ≡ true) × (condition v before ≡ (ok true, s', seen'))
  unfolding poll_forever
  poll_forever-held test fuel s s' seen seen' keeps holds e =
      let p : Poll L S = record { ticks = zero; vars = s; seen = seen } in
      let (q, ends, vars_eq, seen_eq) =
        polled-waited received signal_entry condition _ s' seen' e in
      let (v, before, passed, held) = wait_for-held test fuel p q keeps holds ends in
      (v, before, passed, ground arith)
