-- ===== src/Manager/Tests.antt =====
-- Runs of business/adapter/manager_client.go: a healthy engine, and outputs with one marker and with two.
use polar_db_stack_common.Common.{
  if◌then◌else◌, ltb, length, ◌≡◌, ◌↔◌, refl, true, false, List, [], ◌∷◌, ◌++◌, Option, none, some,
  arith,
}
use polar_db_stack_common.Common.Text.{Text, codes, has_substring}
use polar_db_stack_common.Common.Dict.{Dict}
use polar_db_stack_common.Common.Outcome.{Outcome, ok, err}
use polar_db_stack_common.Engine.Wait.{tick, poll_immediate}
use polar_db_stack_common.Remote.Polling.{panicked, poll}
use polar_db_stack_common.Manager.Exec.{
  ManagerCall, exec, check_pod_ready, check_need_retry, retry_round, exec_cmd_in_pod_base, PodExec,
  ManagerClient,
}
use polar_db_stack_common.Manager.Client.{HealthReport, check_health}
use polar_db_stack_common.Manager.Progress.{marker, double_quotes, parsed, read_progress}
use polar_db_stack_common.Manager.Ran.{exec_ok_ran}
use polar_db_stack_common.Manager.Results.{
  check_health_iff, one_marker_panics, progress_between_markers,
}

abbrev json : Text → Outcome Text (Dict Text)
json s = ok ((codes "status", codes "succeed") ∷ [])

abbrev pod : PodExec
pod = record {
  envs = λ kind seen. ok (codes "srv_opr_type=health_check");
  account_envs = λ seen. ok [];
  run = λ seen. (codes "1", [], none);
  pod_ready = λ seen. true;
  pod = λ seen. none;
  wait_ready = λ seen. none;
  received = λ seen n. tick;
  string_map = json;
  system_identifier = λ out. none;
}

abbrev client : ManagerClient
client = record { pod_name = codes "p"; pod_namespace = codes "ns"; inited = true }

abbrev healthy : Option HealthReport
healthy = none

abbrev no_error : Option Text
no_error = none

check_health_iff_example :
    (report : Option HealthReport) × (check_health pod client 0 []
      ≡ some (ok report, exec (codes "srv_opr_type=health_check") ∷ []))
    × ((report ≡ none) ↔ (
        (no_error ≡ none)
        × (has_substring (codes "the database system is starting up") [] ≡ false)))
check_health_iff_example =
    check_health_iff pod client 0 (codes "srv_opr_type=health_check") [] refl refl

one_marker_panics_example :
    read_progress json (codes "log " ++ (marker ++ codes "{}")) ≡ err panicked
one_marker_panics_example =
    one_marker_panics json (codes "log ") (codes "{}") (ground arith) (ground arith)

progress_between_markers_example :
    read_progress json
      (codes "log " ++ (marker ++ (codes "{'status': 'succeed'}" ++ (marker ++ codes "."))))
    ≡ parsed (json (double_quotes (codes "{'status': 'succeed'}")))
progress_between_markers_example =
    progress_between_markers json (codes "log ") (codes "{'status': 'succeed'}") (codes ".")
      (ground arith) (ground arith)

-- The container is not there at first.
abbrev late_pod : PodExec
late_pod = record pod {
  run = λ seen.
      if ltb (length seen) 1
      then ([], [], some (codes "container not found"))
      else (codes "1", [], none);
}

abbrev late_log : List ManagerCall
late_log = exec (codes "e") ∷ (check_pod_ready ∷ (exec (codes "e") ∷ []))

late_runs :
    exec_cmd_in_pod_base late_pod client 1 (codes "e") true []
    ≡ some (ok (codes "1", [], none), late_log)
unfolding exec_cmd_in_pod_base check_need_retry has_substring poll poll_immediate retry_round
late_runs = refl

exec_ok_ran_example :
    (before : List ManagerCall) × (late_log ≡ exec (codes "e") ∷ before)
    × (late_pod.run before ≡ (codes "1", [], none))
exec_ok_ran_example =
    exec_ok_ran late_pod client 1 (codes "e") true (codes "1", [], none) [] late_log late_runs refl
