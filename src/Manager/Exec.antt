-- ===== src/Manager/Exec.antt =====
-- ExecCmdInPodBase and ExecCmdInPod of business/adapter/manager_client.go: a command in the manager's
-- container, which is repeated while the container is not ready.
use polar_db_stack_common.Common.{
  ℕ, Bool, true, false, ◌&&◌, ◌||◌, List, [], ◌∷◌, ◌++◌, Option, none, some, if◌then◌else◌, any,
}
use polar_db_stack_common.Common.Text.{Text, codes, has_substring}
use polar_db_stack_common.Common.Dict.{Dict}
use polar_db_stack_common.Common.Outcome.{Outcome, ok, err}
use polar_db_stack_common.Common.Trace.{Trace, ◌>>=◌, done, record_entry}
use polar_db_stack_common.Engine.Wait.{
  Signal, WaitResult, waited, failed, wait_timeout, wait_cancelled,
}
use polar_db_stack_common.Remote.ClusterManager.Pods.Objects.{KubeError}
use polar_db_stack_common.Remote.Polling.{
  RemoteError, error, panicked, timeout_text, cancelled_text, poll,
}

-- The environments that the strategy makes; those of an update of parameters and of a slot have arguments.
pub data EnvKind : Type 0 where
  install_envs setup_log_agent_envs start_envs graceful_stop_envs lock_envs grow_storage_envs :
      EnvKind
  check_health_envs system_identifier_envs progress_envs : EnvKind
  update_params_envs : Dict Text → EnvKind
  replication_slot_envs : Text → EnvKind

pub data ManagerCall : Type 0 where
  -- a command with its environment, and `kill 1`
  exec : Text → ManagerCall
  kill check_pod_ready get_pod wait_for_pod_ready wait_signal : ManagerCall

-- Standard output, standard error and the error.
abbrev pub ExecResult : Type 0
ExecResult = Text × Text × Option Text

-- What is answered at a point of the trace: by the strategy, by the command, and by the API server; and
-- encoding/json and the regular expression of the system identifier.
pub record PodExec : Type 0 where
  pub envs : EnvKind → List ManagerCall → Outcome Text Text
  pub account_envs : List ManagerCall → Outcome Text (List Text)
  pub run : List ManagerCall → ExecResult
  pub pod_ready : List ManagerCall → Bool
  pub pod : List ManagerCall → Option KubeError
  pub wait_ready : List ManagerCall → Option Text
  pub received : List ManagerCall → ℕ → Signal
  pub string_map : Text → Outcome Text (Dict Text)
  pub system_identifier : Text → Option Text

-- The name and the namespace of the pod.
pub record ManagerClient : Type 0 where
  pub pod_name : Text
  pub pod_namespace : Text
  pub inited : Bool

abbrev pub ManagerStep : Type 0 → Type 0
ManagerStep A = Trace ManagerCall RemoteError A

abbrev pub container_not_ready_errors : List Text
container_not_ready_errors =
    codes "starting container process caused"
    ∷ (codes "container not found" ∷ (codes "pod does not exist" ∷ []))

-- `checkNeedRetry`
unfoldable pub check_need_retry : Bool → Text → Text → Text → Bool
check_need_retry wait_container stdout stderr e =
    wait_container
    && any (λ s. has_substring s e || (has_substring s stdout || has_substring s stderr))
        container_not_ready_errors

-- `errors.Wrap(err, message)`, which is nil for the nil error.
abbrev pub wrap_text : Text → Option Text → Option Text
wrap_text message none = none
wrap_text message (some e) = some (message ++ (codes ": " ++ e))

abbrev pub error_message : RemoteError → Text
error_message (error e) = e
error_message panicked = []

-- The result after the wait: the last command's output, and its error with that of the wait.
abbrev pub after_retry : WaitResult RemoteError → ExecResult → ExecResult
after_retry waited (out, stderr, e) = (out, stderr, none)
after_retry (failed x) (out, stderr, e) = (out, stderr, wrap_text (error_message x) e)
after_retry wait_timeout (out, stderr, e) = (out, stderr, wrap_text timeout_text e)
after_retry wait_cancelled (out, stderr, e) = (out, stderr, wrap_text cancelled_text e)

abbrev pub not_ready : ManagerClient → RemoteError
not_ready m =
    error (codes "[" ++ (m.pod_name ++ (codes " " ++ (m.pod_namespace ++ codes "] pod not ready"))))

abbrev pub retry_answer : Bool → ExecResult → Outcome RemoteError Bool
retry_answer wait_container (out, stderr, none) = ok true
retry_answer wait_container (out, stderr, some e) =
    if check_need_retry wait_container out stderr e then ok false else err (error e)

module _ (x : PodExec) (m : ManagerClient) where
  -- The condition of the wait keeps the result of the command that it ran last.
  unfoldable pub retry_round :
      Text
      → Bool
      → ExecResult
      → List ManagerCall
      → Outcome RemoteError Bool × ExecResult × List ManagerCall
  retry_round envs wait_container last seen =
      let seen₁ : List ManagerCall = check_pod_ready ∷ seen in
      if x.pod_ready seen
      then (retry_answer wait_container (x.run seen₁), x.run seen₁, exec envs ∷ seen₁)
      else (err (not_ready m), last, seen₁)

  abbrev pub after_first : ℕ → Text → Bool → ExecResult → ManagerStep ExecResult
  after_first fuel envs wait_container (out, stderr, none) = done (out, stderr, none)
  after_first fuel envs wait_container (out, stderr, some e) =
      if check_need_retry wait_container out stderr e
      then (do
        r ← poll x.received wait_signal (retry_round envs wait_container) fuel (out, stderr, some e)
        done (after_retry r.1 r.0))
      else done (out, stderr, some e)

  unfoldable pub exec_cmd_in_pod_base : ℕ → Text → Bool → ManagerStep ExecResult
  exec_cmd_in_pod_base fuel envs wait_container = do
    first ← record_entry (exec envs) (λ seen. ok (x.run seen))
    after_first fuel envs wait_container first

  abbrev pub exec_result : ExecResult → Outcome RemoteError Text
  exec_result (out, stderr, none) = ok out
  exec_result (out, stderr, some e) = err (error (codes "exec cmd in pod error: " ++ e))

  -- The standard output of a command that waits for the container.
  unfoldable pub exec_out : ℕ → Text → ManagerStep Text
  exec_out fuel envs = do
    r ← exec_cmd_in_pod_base fuel envs true
    λ seen. some (exec_result r, seen)

  unfoldable pub exec_cmd_in_pod : ℕ → Text → ManagerStep (Unit {0})
  exec_cmd_in_pod fuel envs = do out ← exec_out fuel envs; done tt
