-- ===== src/Engine/Retry.antt =====
-- utils/retryutil/retry_util.go: RetryFunc. Which signal the select receives at the i-th round, and
-- what the condition answers then, are functions of i.
use polar_db_stack_common.Common.{
  ℕ, zero, suc, ◌+◌, ◌<◌, ◌≤◌, ◌≡◌, ◌⊎◌, inl, inr, refl, ap, ◌∙◌, Bool, true, false, Option, none,
  some, if◌then◌else◌, ◌++◌, arith, Bool-cases, Option-cases, ==_iff, ◌==◌,
}
use polar_db_stack_common.Common.Int.{ℤ, pos, negsuc}
use polar_db_stack_common.Common.Decimal.{itoa}
use polar_db_stack_common.Common.Text.{Text, codes}

pub data RetryResult : Type 0 where
  succeeded : RetryResult
  -- "maxRetries should be > 0"
  bad_max_retries : ℤ → RetryResult
  -- "the context timeout has been reached"
  context_done : RetryResult
  condition_failed : Text → RetryResult
  -- `RetryError`: the number of retries and the last error
  still_failing : ℕ → Option Text → RetryResult

-- What the loop meets: whether the context is done in the i-th round, and the condition's answer.
pub record Rounds : Type 0 where
  pub done : ℕ → Bool
  pub condition : ℕ → Bool × Option Text

-- What one round returns, if it returns: `i == maxRetries` is tested after the condition.
unfoldable pub verdict : ℕ → ℕ → Option Text → Bool × Option Text → Option RetryResult
verdict max_retries i last_err (true, none) = some succeeded
verdict max_retries i last_err (true, some e) = some (condition_failed e)
verdict max_retries i last_err (false, none) =
    if i == max_retries then some (still_failing max_retries last_err) else none
verdict max_retries i last_err (false, some e) =
    if i == max_retries then some (still_failing max_retries (some e)) else none

abbrev pub latest : Option Text → Option Text → Option Text
latest last_err none = last_err
latest last_err (some e) = some e

-- The loop from its i-th round on; fuel is the number of rounds that it may still run.
unfoldable pub retry_loop : Rounds → ℕ → ℕ → ℕ → Option Text → Option RetryResult
retry_loop r max_retries zero i last_err = none
retry_loop r max_retries (suc fuel) i last_err = elim (r.done i) [
  | true ↦ some context_done
  | false ↦ elim (verdict max_retries i last_err (r.condition i)) [
    | some result ↦ some result
    | none ↦ retry_loop r max_retries fuel (suc i) (latest last_err (r.condition i).1)
  ]
]

-- `RetryFunc`: it runs at most `max_retries + 1` rounds, which is the fuel.
unfoldable pub retry_func : Rounds → ℤ → Option RetryResult
retry_func r (pos zero) = some (bad_max_retries (pos zero))
retry_func r (pos (suc n)) = retry_loop r (suc n) (suc (suc n)) zero none
retry_func r (negsuc n) = some (bad_max_retries (negsuc n))

-- The round in which the loop ends, from its i-th round on.
unfoldable pub last_round : Rounds → ℕ → ℕ → ℕ → ℕ
last_round r max_retries zero i = i
last_round r max_retries (suc fuel) i = elim (r.done i) [
  | true ↦ i
  | false ↦ elim (verdict max_retries i none (r.condition i)) [
    | some result ↦ i
    | none ↦ last_round r max_retries fuel (suc i)
  ]
]

-- The message of an error, and none for success. `RetryError.Error` and the two of RetryFunc itself.
unfoldable pub error_text : RetryResult → Option Text
error_text succeeded = none
error_text (bad_max_retries n) = some (codes "maxRetries (" ++ (itoa n ++ codes ") should be > 0"))
error_text context_done = some (codes "the context timeout has been reached")
error_text (condition_failed e) = some e
error_text (still_failing n none) =
    some (codes "still failing after " ++ (itoa (pos n) ++ codes " retries, last error: <nil>"))
error_text (still_failing n (some e)) =
    some (codes "still failing after " ++ (itoa (pos n) ++ (codes " retries, last error: " ++ e)))

-- The last error that the rounds before the i-th reported.
abbrev pub last_error : Rounds → ℕ → Option Text
last_error r zero = none
last_error r (suc i) = latest (last_error r i) (r.condition i).1

-- A round that lets the loop go on.
abbrev pub Fails : Rounds → ℕ → Type 0
Fails r i = (r.done i ≡ false) × ((r.condition i).0 ≡ false)

-- What ends the loop at a round that does not let it go on.
abbrev pub stop_result : Bool → Option Text → RetryResult
stop_result true e = context_done
stop_result false none = succeeded
stop_result false (some e) = condition_failed e

abbrev pub Stops : Rounds → ℕ → Type 0
Stops r i = (r.done i ≡ true) ⊎ ((r.done i ≡ false) × ((r.condition i).0 ≡ true))

verdict-fails :
    (m i : ℕ) (last_err : Option Text) (c : Bool × Option Text)
    → c.0 ≡ false
    → verdict m i last_err c
      ≡ (if i == m then some (still_failing m (latest last_err c.1)) else none)
unfolding verdict
verdict-fails m i last_err (true, e) f = cc
verdict-fails m i last_err (false, none) f = refl
verdict-fails m i last_err (false, some e) f = refl

verdict-holds :
    (m i : ℕ) (last_err : Option Text) (c : Bool × Option Text)
    → c.0 ≡ true
    → verdict m i last_err c ≡ some (stop_result false c.1)
unfolding verdict
verdict-holds m i last_err (false, e) f = cc
verdict-holds m i last_err (true, none) f = refl
verdict-holds m i last_err (true, some e) f = refl

loop-Stops :
    (r : Rounds) (m fuel i k : ℕ)
    → i ≤ k
    → k < i + fuel
    → i + fuel ≡ suc m
    → ((j : ℕ) → j < k → Fails r j)
    → Stops r k
    → retry_loop r m fuel i (last_error r i) ≡ some (stop_result (r.done k) (r.condition k).1)
unfolding retry_loop
loop-Stops r m zero i k a b c f s = absurd (omega arith)
loop-Stops r m (suc fuel) i k a b c f s = elim (Bool-cases (i == k)) [
  | inl same ↦
      let i_k = (==_iff i k).0 same in
      elim s [
        | inl d ↦ ground (arith, i_k)
        | inr (d, h) ↦ ground (arith, i_k, verdict-holds m k (last_error r k) (r.condition k) h)
      ]
  | inr differ ↦
      let below : i < k = ground (arith, ==_iff i k) in
      let (d, h) = f i below in
      let rest = loop-Stops r m fuel (suc i) k (omega arith) (omega arith) (omega arith) f s in
      ground (arith, verdict-fails m i (last_error r i) (r.condition i) h, ==_iff i m)
]

loop-Fails :
    (r : Rounds) (m fuel i : ℕ)
    → i + suc fuel ≡ suc m
    → ((j : ℕ) → j ≤ m → Fails r j)
    → retry_loop r m (suc fuel) i (last_error r i) ≡ some (still_failing m (last_error r (suc m)))
unfolding retry_loop
loop-Fails r m zero i c f =
    let i_m : i ≡ m = omega arith in
    let (d, h) = f m (omega arith) in
    ground (arith, i_m, verdict-fails m m (last_error r m) (r.condition m) h, ==_iff m m)
loop-Fails r m (suc fuel) i c f =
    let (d, h) = f i (omega arith) in
    let rest = loop-Fails r m fuel (suc i) (omega arith) f in
    ground (arith, verdict-fails m i (last_error r i) (r.condition i) h, ==_iff i m)

-- With maxRetries = n + 1, RetryFunc is decided by the first of its n + 2 rounds in which the context
-- is done or the condition answers true: it returns the timeout of the context, nil, or the error
-- that the condition gave along with true.
pub first_stop_decides :
    (r : Rounds) (n k : ℕ)
    → k ≤ suc n
    → ((j : ℕ) → j < k → Fails r j)
    → Stops r k
    → retry_func r (pos (suc n)) ≡ some (stop_result (r.done k) (r.condition k).1)
unfolding retry_func
first_stop_decides r n k a f s =
    loop-Stops r (suc n) (suc (suc n)) zero k (omega arith) (omega arith) (omega arith) f s

-- With maxRetries = n + 1, where the condition answers false in the n + 2 rounds 0 to n + 1 and the
-- context is not done, RetryFunc returns the RetryError with the last error that a round gave; an
-- error together with false does not end the loop.
pub all_rounds_fail :
    (r : Rounds) (n : ℕ)
    → ((j : ℕ) → j ≤ suc n → Fails r j)
    → retry_func r (pos (suc n)) ≡ some (still_failing (suc n) (last_error r (suc (suc n))))
unfolding retry_func
all_rounds_fail r n f = loop-Fails r (suc n) (suc n) zero (omega arith) f

-- A loop that succeeds ends in a round whose condition answered true without an error.
pub succeeded-last_round :
    (r : Rounds) (m fuel i : ℕ) (last_err : Option Text)
    → retry_loop r m fuel i last_err ≡ some succeeded
    → r.condition (last_round r m fuel i) ≡ (true, none)
unfolding retry_loop last_round
succeeded-last_round r m zero i last_err e = cc
succeeded-last_round r m (suc fuel) i last_err e = elim (Bool-cases (r.done i)) [
  | inl d ↦ absurd (ground arith)
  | inr d ↦ elim (Bool-cases (r.condition i).0) [
    | inl h ↦
        let now = verdict-holds m i last_err (r.condition i) h in
        let seen = verdict-holds m i none (r.condition i) h in
        elim (Option-cases (r.condition i).1) [
          | inl k ↦
              let here : last_round r m (suc fuel) i ≡ i = ground arith in
              let answer : r.condition i ≡ (true, none) = ground arith in
              ap (λ (j : ℕ). r.condition j) here ∙ answer
          | inr (x, k) ↦ absurd (ground arith)
        ]
    | inr h ↦
        let now = verdict-fails m i last_err (r.condition i) h in
        let seen = verdict-fails m i none (r.condition i) h in
        elim (Bool-cases (i == m)) [
          | inl same ↦ absurd (ground arith)
          | inr differ ↦
              let last = latest last_err (r.condition i).1 in
              let on : last_round r m (suc fuel) i ≡ last_round r m fuel (suc i) = ground arith in
              ap (λ (j : ℕ). r.condition j) on
              ∙ succeeded-last_round r m fuel (suc i) last (ground arith)
        ]
  ]
]
