-- ===== src/Manager/Results.antt =====
-- What business/adapter/manager_client.go makes of a command's output: the health of the engine, and the
-- progress of an installation.
use mathlib.Core.List.{append_assoc}
use polar_db_stack_common.Common.{
  ℕ, suc, ◌+◌, ◌≡◌, ◌≢◌, ◌↔◌, refl, sym, ap, ◌∙◌, true, false, List, [], ◌∷◌, ◌++◌, Option, none,
  some, ==_iff, leb, length, length-append, arith,
}
use polar_db_stack_common.Common.Text.{
  Text, codes, IsFree, starts_with, has_substring, take, drop, take-append,
}
use polar_db_stack_common.Common.Dict.{Dict}
use polar_db_stack_common.Common.Outcome.{Outcome, ok, err}
use polar_db_stack_common.Remote.Polling.{panicked}
use polar_db_stack_common.Manager.Exec.{
  check_health_envs, ManagerCall, exec, PodExec, ManagerClient, ExecResult, check_need_retry,
  after_first, exec_cmd_in_pod_base,
}
use polar_db_stack_common.Manager.Client.{HealthReport, read_health, check_health}
use polar_db_stack_common.Manager.Progress.{
  marker, index_of, last_index_of, double_quotes, progress_text, parsed, read_text, read_progress,
}

-- Without a wait for the container a command runs once, whatever comes of it.
exec_once :
    (x : PodExec) (m : ManagerClient) (fuel : ℕ) (envs : Text) (r : ExecResult)
    (seen : List ManagerCall)
    → after_first x m fuel envs false r seen ≡ some (ok r, seen)
unfolding check_need_retry
exec_once x m fuel envs (out, stderr, none) seen = refl
exec_once x m fuel envs (out, stderr, some e) seen = refl

read_health_iff :
    (r : ExecResult)
    → (read_health r ≡ none)
      ↔ ((r.2 ≡ none) × (has_substring (codes "the database system is starting up") r.1 ≡ false))
unfolding read_health
read_health_iff (out, stderr, none) = ground arith
read_health_iff (out, stderr, some e) = ground arith

starts_elsewhere : (c : ℕ) (s : Text) → c ≢ b'\\' → starts_with marker (c ∷ s) ≡ false
starts_elsewhere c s other = ground (arith, other, ==_iff b'\\' c)

index_of-marker :
    (before rest : Text)
    → IsFree b'\\' before
    → index_of marker (before ++ (marker ++ rest)) ≡ some (length before)
index_of-marker [] rest free = refl
index_of-marker (c ∷ before) rest free =
    let elsewhere = starts_elsewhere c (before ++ (marker ++ rest)) free.0 in
    let later = index_of-marker before rest free.1 in ground (arith, elsewhere, later)

last_index_of-none : (s : Text) → IsFree b'\\' s → last_index_of marker s ≡ none
last_index_of-none [] free = refl
last_index_of-none (c ∷ s) free =
    let elsewhere = starts_elsewhere c s free.0 in
    let later = last_index_of-none s free.1 in ground (arith, elsewhere, later)

last_index_of-marker :
    (before after : Text)
    → IsFree b'\\' after
    → last_index_of marker (before ++ (marker ++ after)) ≡ some (length before)
last_index_of-marker [] after free = rw (last_index_of-none after free) refl
last_index_of-marker (c ∷ before) after free =
    let later = last_index_of-marker before after free in ground (arith, later)

drop-marker : (before text : Text) → drop (length before + 6) (before ++ (marker ++ text)) ≡ text
drop-marker [] text = refl
drop-marker (c ∷ before) text =
    let n : suc (length before) + 6 ≡ suc (length before + 6) = omega arith in
    ap (λ k. drop k (c ∷ (before ++ (marker ++ text)))) n ∙ drop-marker before text

-- Where the output has the marker of the progress, with no backslash before it and after it, so that the
-- marker stands there only once, CheckInstallIsReady panics: the slice between the first and the last
-- marker begins behind its end.
pub one_marker_panics :
    (json : Text → Outcome Text (Dict Text)) (before after : Text)
    → IsFree b'\\' before
    → IsFree b'\\' after
    → read_progress json (before ++ (marker ++ after)) ≡ err panicked
unfolding read_progress
one_marker_panics json before after free_before free_after =
    let first = index_of-marker before after free_before in
    let last = last_index_of-marker before after free_after in
    let late : leb (length before + 6) (length before) ≡ false = ground arith in
    ap
      (λ i. read_text json (
        progress_text (before ++ (marker ++ after)) i
          (last_index_of marker (before ++ (marker ++ after)))))
      first
    ∙ (ap
          (λ i.
            read_text json (progress_text (before ++ (marker ++ after)) (some (length before)) i))
          last
        ∙ rw late refl)

-- Where a text stands between two markers, and no backslash before the first and after the second,
-- CheckInstallIsReady reads this text, its quotes made double, as the status.
pub progress_between_markers :
    (json : Text → Outcome Text (Dict Text)) (before text after : Text)
    → IsFree b'\\' before
    → IsFree b'\\' after
    → read_progress json (before ++ (marker ++ (text ++ (marker ++ after))))
      ≡ parsed (json (double_quotes text))
unfolding read_progress
progress_between_markers json before text after free_before free_after =
    let front = before ++ (marker ++ text) in
    let out = before ++ (marker ++ (text ++ (marker ++ after))) in
    let whole : out ≡ front ++ (marker ++ after) =
      sym (append_assoc before (marker ++ text) (marker ++ after)) in
    let first = index_of-marker before (text ++ (marker ++ after)) free_before in
    let last : last_index_of marker out ≡ some (length front) =
      ap (last_index_of marker) whole ∙ last_index_of-marker front after free_after in
    let cut : take (length front) out ≡ front =
      ap (take (length front)) whole ∙ take-append front (marker ++ after) in
    let inside : drop (length before + 6) (take (length front) out) ≡ text =
      ap (drop (length before + 6)) cut ∙ drop-marker before text in
    let fits : leb (length before + 6) (length front) ≡ true =
      ground (arith, length-append before (marker ++ text)) in
    ap (λ i. read_text json (progress_text out i (last_index_of marker out))) first
    ∙ (ap (λ i. read_text json (progress_text out (some (length before)) i)) last
        ∙ rw fits (ap (λ t. parsed (json (double_quotes t))) inside))

-- CheckHealth of a client that is set up, where the strategy gives the environment, returns a report or
-- nil after one command, which is its only call. The report is nil exactly where the command has no
-- error and its standard error does not say that the database system is starting up.
pub check_health_iff :
    (x : PodExec) (m : ManagerClient) (fuel : ℕ) (envs : Text) (seen : List ManagerCall)
    → m.inited ≡ true
    → x.envs check_health_envs seen ≡ ok envs
    → (report : Option HealthReport) × (check_health x m fuel seen
        ≡ some (ok report, exec envs ∷ seen))
      × ((report ≡ none) ↔ (
          ((x.run seen).2 ≡ none)
          × (has_substring (codes "the database system is starting up") (x.run seen).1 ≡ false)))
unfolding check_health exec_cmd_in_pod_base
check_health_iff x m fuel envs seen inited made =
    let once = exec_once x m fuel envs (x.run seen) (exec envs ∷ seen) in
    (read_health (x.run seen), ground (arith, inited, made, once), read_health_iff (x.run seen))
