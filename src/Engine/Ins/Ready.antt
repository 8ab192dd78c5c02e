-- ===== src/Engine/Ins/Ready.antt =====
-- The polling of an instance's health: what a successful check has seen, and when it returns.
use polar_db_stack_common.Common.{
  ℕ, zero, suc, ◌≡◌, ◌≢◌, refl, sym, ap, ◌∙◌, ◌+◌, ◌*◌, ◌≤◌, ◌<◌, ◌⊎◌, inl, inr, true, false, ◌∷◌,
  Option, none, some, arith, Bool-cases, Option-cases,
}
use polar_db_stack_common.Common.Outcome.{Outcome, ok}
use polar_db_stack_common.Engine.Wait.{
  WaitResult, waited, failed, wait_timeout, wait_cancelled, answer_cases, wait_for, wait_for-waited,
}
use polar_db_stack_common.Engine.Calls.{
  Call, read_clock, next_tick, check_health, Log, HealthErrorName, starting_up, HealthCheckError,
  container_not_found, unknown, InsError, World,
}
use polar_db_stack_common.Engine.Health.{
  Poll, poll_infinite, after_health_error, health_round, poll_start, poll_outcome, poll_run,
  check_health_with_timeout,
}

abbrev poll_result : WaitResult (Unit {0}) × Poll → Outcome InsError (Unit {0}) × Log
poll_result (r, st) = (poll_outcome r st.latest_err, st.log)

poll_run-some : (r : WaitResult (Unit {0}) × Poll) → poll_run (some r) ≡ some (poll_result r)
poll_run-some (r, st) = refl

poll_run-ok :
    (r : Option (WaitResult (Unit {0}) × Poll)) (log : Log)
    → poll_run r ≡ some (ok tt, log)
    → (st : Poll) × (r ≡ some (waited, st)) × (st.log ≡ log)
poll_run-ok none log e = cc
poll_run-ok (some (waited, st)) log e = (st, refl, cc)
poll_run-ok (some (failed x, st)) log e = cc
poll_run-ok (some (wait_timeout, st)) log e = cc
poll_run-ok (some (wait_cancelled, st)) log e = cc

health_round-ok :
    (w : World) (timeout : ℕ) (st : Poll)
    → (health_round w timeout st).0 ≡ ok true
    → (w.health (read_clock ∷ st.log) ≡ none)
      × ((health_round w timeout st).1.log ≡ check_health ∷ read_clock ∷ st.log)
unfolding health_round
health_round-ok w timeout st e = ground arith

-- Where checkHealthWithTimeout returns nil, its last call was a health check, and that one found the
-- engine healthy.
pub checked_healthy :
    (w : World) (fuel timeout : ℕ) (log log' : Log)
    → check_health_with_timeout w fuel timeout log ≡ some (ok tt, log')
    → (before : Log) × (log' ≡ check_health ∷ before) × (w.health before ≡ none)
unfolding check_health_with_timeout
checked_healthy w fuel timeout log log' e =
    let (st, waited_st, log_eq) = poll_run-ok _ log' e in
    let (st₁, held, step) = wait_for-waited _ _ fuel _ waited_st in
    let (healthy, log_st) = health_round-ok w timeout st₁ held in
    (read_clock ∷ st₁.log, sym log_eq ∙ ap (λ (s : Poll). s.log) (sym step) ∙ log_st, healthy)

-- A clock that goes on by the interval with every tick, and never back.
abbrev pub Ticking : World → ℕ → Type 0
Ticking w interval =
    ((log : Log) → w.now log + interval ≤ w.now (next_tick ∷ log))
    × ((call : Call) (log : Log) → w.now log ≤ w.now (call ∷ log))

abbrev pub NeverStarting : World → Type 0
NeverStarting w = (log : Log) (e : HealthCheckError) → w.health log ≡ some e → e.name ≢ starting_up

after_health_error-eq :
    (w : World) (name : HealthErrorName) (st : Poll)
    → name ≢ starting_up
    → after_health_error w name st ≡ st
unfolding after_health_error
after_health_error-eq w starting_up st h = absurd (h refl)
after_health_error-eq w container_not_found st h = refl
after_health_error-eq w unknown st h = refl

-- A round that does not end the loop keeps the start of the timeout, which has not passed.
health_round-retry :
    (w : World) (timeout interval : ℕ) (st : Poll)
    → Ticking w interval
    → NeverStarting w
    → (health_round w timeout st).0 ≡ ok false
    → ((health_round w timeout st).1.timeout_begin_time ≡ st.timeout_begin_time)
      × (w.now st.log ≤ st.timeout_begin_time + timeout)
      × (w.now st.log ≤ w.now (health_round w timeout st).1.log)
unfolding health_round
health_round-retry w timeout interval st t n e =
    elim (Option-cases (w.health (read_clock ∷ st.log))) [
      | inl h ↦ ground arith
      | inr (x, h) ↦
          let same =
            after_health_error-eq w x.name
              (record st { latest_err = some x.error; log = check_health ∷ read_clock ∷ st.log })
              (n _ x h) in
          ground (arith, t.1 read_clock st.log, t.1 check_health (read_clock ∷ st.log))
    ]

-- One round of the loop ends it, or goes on from a state with the same start of the timeout, at
-- least an interval later, and only while the timeout has not passed.
health_wait-step :
    (w : World) (timeout interval : ℕ) (st : Poll)
    → Ticking w interval
    → NeverStarting w
    → ((r : WaitResult (Unit {0}) × Poll) × ((fuel : ℕ)
          → wait_for (poll_infinite w) (health_round w timeout) (suc fuel) st ≡ some r))
      ⊎ ((next : Poll) × ((fuel : ℕ)
            → wait_for (poll_infinite w) (health_round w timeout) (suc fuel) st
              ≡ wait_for (poll_infinite w) (health_round w timeout) fuel next)
          × (next.timeout_begin_time ≡ st.timeout_begin_time)
          × (w.now st.log + interval ≤ st.timeout_begin_time + timeout)
          × (w.now st.log + interval ≤ w.now next.log))
unfolding wait_for poll_infinite
health_wait-step w timeout interval st t n =
    let st₁ : Poll = record st { log = next_tick ∷ st.log } in
    let round = health_round w timeout st₁ in
    elim (Bool-cases (w.context_done st.log)) [
      | inl d ↦ inl ((wait_cancelled, st), λ fuel. ground arith)
      | inr d ↦ elim (answer_cases round.0) [
        | inl (x, h) ↦ inl ((failed x, round.1), λ fuel. ground arith)
        | inr (inr h) ↦ inl ((waited, round.1), λ fuel. ground arith)
        | inr (inl h) ↦
            let (same, passed, later) = health_round-retry w timeout interval st₁ t n h in
            let ticked = t.0 st.log in
            inr (round.1, (λ fuel. ground arith), same, omega arith, omega arith)
      ]
    ]

health_wait-returns :
    (w : World) (timeout interval fuel : ℕ) (st : Poll)
    → Ticking w interval
    → NeverStarting w
    → st.timeout_begin_time + timeout < w.now st.log + (interval + fuel * interval)
    → (r : WaitResult (Unit {0}) × Poll) × (wait_for
          (poll_infinite w)
          (health_round w timeout)
          (suc fuel)
          st
        ≡ some r)
health_wait-returns w timeout interval zero st t n budget =
    elim (health_wait-step w timeout interval st t n) [
      | inl (r, ends) ↦ (r, ends zero)
      | inr (next, again, same, passed, later) ↦ absurd (omega arith)
    ]
health_wait-returns w timeout interval (suc fuel) st t n budget =
    elim (health_wait-step w timeout interval st t n) [
      | inl (r, ends) ↦ (r, ends (suc fuel))
      | inr (next, again, same, passed, later) ↦
          let (r, ends) = health_wait-returns w timeout interval fuel next t n (omega arith) in
          (r, again (suc fuel) ∙ ends)
    ]

-- On a clock that goes on by at least an interval with every tick, checkHealthWithTimeout returns,
-- after at most fuel ticks where fuel intervals are longer than the timeout, unless the check says
-- that the engine is starting up, which begins the timeout anew.
pub health_check_returns :
    (w : World) (fuel timeout interval : ℕ) (log : Log)
    → Ticking w interval
    → NeverStarting w
    → timeout < fuel * interval
    → (r : Outcome InsError (Unit {0}) × Log) × (check_health_with_timeout w fuel timeout log
        ≡ some r)
unfolding check_health_with_timeout
health_check_returns w zero timeout interval log t n enough = absurd (omega arith)
health_check_returns w (suc fuel) timeout interval log t n enough =
    let started = t.1 read_clock log in
    let (r, e) = health_wait-returns w timeout interval fuel (poll_start w log) t n (omega arith) in
    (poll_result r, ap poll_run e ∙ poll_run-some r)
