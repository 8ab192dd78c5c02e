-- ===== src/Engine/Calls.antt =====
-- What the operations of business/domain/db_ins.go call: the interfaces IManagerClient and
-- IEnginePodManager, the clock and the context. The calls made so far stand in a log, the latest
-- first, and the answer to a call is a function of the log before it.
use polar_db_stack_common.Common.{ℕ, ◌≡◌, refl, Bool, List, ◌∷◌, Option, none, some, arith}
use polar_db_stack_common.Common.Text.{Text}
use polar_db_stack_common.Common.Dict.{Dict}
use polar_db_stack_common.Common.Outcome.{Outcome, ok, err}

pub data Call : Type 0 where
  pods_set_ins manager_set_ins create_pod_and_wait_ready delete_pod is_deleted : Call
  graceful_stop_engine install_engine get_primary_system_identifier setup_log_agent : Call
  create_engine_account check_health check_install_is_ready start_engine restart_engine : Call
  grow_storage read_clock next_tick : Call
  ensure_ins_type_meta create_replication_slot : Text → Call
  update_engine_params : Dict Text → Call

abbrev pub Log : Type 0
Log = List Call

-- `HealthErrorEnum`
pub data HealthErrorName : Type 0 where
  starting_up container_not_found unknown : HealthErrorName

pub record HealthCheckError : Type 0 where
  pub name : HealthErrorName
  pub error : Text

pub data InsError : Type 0 where
  -- insNotInitError
  not_init : InsError
  call_failed : Text → InsError
  -- the timeout of a health or install check, with the latest error of the check
  timed_out : Option Text → InsError
  wait_was_cancelled : InsError

pub record World : Type 0 where
  -- the error of a call that only returns one, and none where it returns nil
  pub answer : Log → Call → Option Text
  pub deleted : Log → Outcome Text Bool
  pub system_identifier : Log → Outcome Text Text
  pub health : Log → Option HealthCheckError
  pub install_is_ready : Log → Bool × Option Text
  pub now : Log → ℕ
  pub context_done : Log → Bool

-- A step: no result where the fuel of a loop is used up, else the result and the log after it.
abbrev pub Run {ℓ} : Type ℓ → Type ℓ
Run A = Log → Option (Outcome InsError A × Log)

abbrev pub bind_run {ℓ κ} :
    {A : Type ℓ} {B : Type κ}
    → Option (Outcome InsError A × Log)
    → (A → Run B)
    → Option (Outcome InsError B × Log)
bind_run none f = none
bind_run (some (ok a, log)) f = f a log
bind_run (some (err e, log)) f = some (err e, log)

infixl 5 ◌>>◌ ◌>>=◌
abbrev pub ◌>>=◌ {ℓ κ} : {A : Type ℓ} {B : Type κ} → Run A → (A → Run B) → Run B
(m >>= f) log = bind_run (m log) f

abbrev pub pure {ℓ} : {A : Type ℓ} → A → Run A
pure a log = some (ok a, log)

abbrev pub fail {ℓ} : {A : Type ℓ} → InsError → Run A
fail e log = some (err e, log)

-- What a step returned, as a value that the step after it branches on.
abbrev pub observe {ℓ} :
    {A : Type ℓ}
    → Option (Outcome InsError A × Log)
    → Option (Outcome InsError (Outcome InsError A) × Log)
observe none = none
observe (some (r, log)) = some (ok r, log)

abbrev pub attempt {ℓ} : {A : Type ℓ} → Run A → Run (Outcome InsError A)
attempt m log = observe (m log)

abbrev pub of_call {ℓ} : {A : Type ℓ} → Outcome Text A → Outcome InsError A
of_call (ok a) = ok a
of_call (err e) = err (call_failed e)

abbrev pub of_error : Option Text → Outcome InsError (Unit {0})
of_error none = ok tt
of_error (some e) = err (call_failed e)

-- A call that cannot fail, and one that may.
abbrev pub note : Call → Run (Unit {0})
note call log = some (ok tt, call ∷ log)

abbrev pub perform : World → Call → Run (Unit {0})
perform w call log = some (of_error (w.answer log call), call ∷ log)

abbrev pub ◌>>◌ {ℓ} : {B : Type ℓ} → Run (Unit {0}) → Run B → Run B
first >> second = first >>= (λ u. second)

-- Inversion of a step that went well, and of what an attempt observed.
pub bind_run-ok {ℓ κ} :
    {A : Type ℓ} {B : Type κ} (m : Option (Outcome InsError A × Log)) (f : A → Run B) {b : B}
    {log : Log}
    → bind_run m f ≡ some (ok b, log)
    → (a : A) × (between : Log) × (m ≡ some (ok a, between)) × (f a between ≡ some (ok b, log))
bind_run-ok none f e = cc
bind_run-ok (some (ok a, between)) f e = (a, between, refl, e)
bind_run-ok (some (err x, between)) f e = cc

pub observe-ok {ℓ} :
    {A : Type ℓ} (m : Option (Outcome InsError A × Log)) {r : Outcome InsError A} {log : Log}
    → observe m ≡ some (ok r, log)
    → m ≡ some (r, log)
observe-ok none e = cc
observe-ok (some (r, log)) e = cc

pub perform-ok :
    (w : World) (call : Call) (before log : Log)
    → perform w call before ≡ some (ok tt, log)
    → (w.answer before call ≡ none) × (log ≡ call ∷ before)
perform-ok w call before log e = ground arith
