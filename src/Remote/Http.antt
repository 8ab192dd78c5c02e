-- ===== src/Remote/Http.antt =====
-- One action on a service: the request is repeated by utils/retryutil until a reply satisfies the
-- condition. What the HTTP client gives in each round is an argument.
use polar_db_stack_common.Common.{ℕ, Bool, [], Option, none, some}
use polar_db_stack_common.Common.Int.{pos}
use polar_db_stack_common.Common.Text.{Text}
use polar_db_stack_common.Common.Outcome.{Outcome, ok, err}
use polar_db_stack_common.Engine.Retry.{Rounds, RetryResult, retry_func, last_round, error_text}

-- No reply, a body that could not be read to its end, or a status code and a body.
pub data Reply : Type 0 where
  no_reply : Text → Reply
  cut_off : Text → Text → Reply
  response : ℕ → Text → Reply

-- The rounds of one action, and in which of them the context is done.
pub record Attempts : Type 0 where
  pub reply : ℕ → Reply
  pub context_done : ℕ → Bool

-- A reply as the code reads it: the body, and the error, if any.
abbrev pub Reading : Type 0
Reading = Text × Option Text

abbrev pub rounds_of : (Reply → Reading) → (Reading → Bool × Option Text) → Attempts → Rounds
rounds_of read condition a = record {
  done = a.context_done;
  condition = λ i. condition (read (a.reply i));
}

abbrev pub action_result : Option Text → Text → Outcome Text Text
action_result none body = ok body
action_result (some e) body = err e

abbrev pub result_text : Option RetryResult → Option Text
result_text none = some []
result_text (some r) = error_text r

-- `doActionCommon`: three retries, and the body of the last round.
unfoldable pub do_action_common :
    (Reply → Reading) → (Reading → Bool × Option Text) → Attempts → Outcome Text Text
do_action_common read condition a =
    action_result (result_text (retry_func (rounds_of read condition a) (pos 3)))
      (read (a.reply (last_round (rounds_of read condition a) 3 4 0))).0
