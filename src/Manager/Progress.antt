-- ===== src/Manager/Progress.antt =====
-- CheckInstallIsReady of business/adapter/manager_client.go: the progress of an installation between two
-- markers in a command's output.
use polar_db_stack_common.Common.{
  ℕ, zero, suc, ◌+◌, Bool, true, false, [], ◌∷◌, Option, none, some, if◌then◌else◌, ◌==◌, leb,
}
use polar_db_stack_common.Common.Text.{Text, codes, text_eq, starts_with, take, drop}
use polar_db_stack_common.Common.Dict.{Dict, lookup}
use polar_db_stack_common.Common.Outcome.{Outcome, ok, err}
use polar_db_stack_common.Common.Trace.{◌>>=◌}
use polar_db_stack_common.Remote.Polling.{RemoteError, error, panicked}
use polar_db_stack_common.Manager.Exec.{
  progress_envs, PodExec, ManagerClient, ManagerStep, exec_out,
}
use polar_db_stack_common.Manager.Client.{environs}

-- The six bytes `\u0001`, the backslash included.
abbrev pub marker : Text
marker = b'\\' ∷ codes "u0001"

-- `strings.Index` and `strings.LastIndex`
abbrev pub index_of : Text → Text → Option ℕ
index_of p [] = if starts_with p [] then some zero else none
index_of p (c ∷ s) =
    let rest : Option ℕ = elim (index_of p s) [ none ↦ none | some i ↦ some (suc i) ] in
    if starts_with p (c ∷ s) then some zero else rest

abbrev pub last_index_of : Text → Text → Option ℕ
last_index_of p [] = if starts_with p [] then some zero else none
last_index_of p (c ∷ s) = elim (last_index_of p s) [
  | some i ↦ some (suc i)
  | none ↦ if starts_with p (c ∷ s) then some zero else none
]

-- `strings.ReplaceAll(s, "'", "\"")`
abbrev pub double_quotes : Text → Text
double_quotes [] = []
double_quotes (c ∷ s) = (if c == b'\'' then b'"' else c) ∷ double_quotes s

-- `stdout[begin+6 : end]`, which panics where it begins behind its end.
abbrev pub between : ℕ → ℕ → Text → Outcome RemoteError Text
between begin end s =
    if leb (begin + 6) end then ok (drop (begin + 6) (take end s)) else err panicked

abbrev pub progress_text : Text → Option ℕ → Option ℕ → Outcome RemoteError Text
progress_text out (some begin) (some end) = between begin end out
progress_text out none end = err (error (codes "get installation progress failed"))
progress_text out (some begin) none = err (error (codes "get installation progress failed"))

abbrev pub field : Option Text → Text
field none = []
field (some v) = v

abbrev pub status_answer : Text → Text → Outcome RemoteError Bool
status_answer status message =
    if text_eq status (codes "running")
    then ok false
    else if text_eq status (codes "succeed")
    then ok true
    else err (error message)

abbrev pub parsed : Outcome Text (Dict Text) → Outcome RemoteError Bool
parsed (err e) = err (error e)
parsed (ok result) =
    status_answer (field (lookup (codes "status") result)) (field (lookup (codes "message") result))

abbrev pub read_text :
    (Text → Outcome Text (Dict Text)) → Outcome RemoteError Text → Outcome RemoteError Bool
read_text json (err e) = err e
read_text json (ok s) = parsed (json (double_quotes s))

-- How the output is read, by what json.Unmarshal makes of the text between the markers.
unfoldable pub read_progress : (Text → Outcome Text (Dict Text)) → Text → Outcome RemoteError Bool
read_progress json out =
    read_text json (progress_text out (index_of marker out) (last_index_of marker out))

module _ (x : PodExec) (m : ManagerClient) where
  unfoldable pub check_install_is_ready : ℕ → ManagerStep Bool
  check_install_is_ready fuel = do
    envs ← environs x m progress_envs (codes "GetInstallationProgressEnvirons error")
    out ← exec_out x m fuel envs
    λ seen. some (read_progress x.string_map out, seen)
