-- ===== src/Remote/ClusterManager/Switchover.antt =====
-- GetClusterStatus, WaitForStartingCompleted and Switchover of business/adapter/cluster_manager_client.go.
use polar_db_stack_common.Common.{
  ℕ, ◌+◌, Bool, true, false, ◌||◌, List, [], ◌∷◌, ◌++◌, Option, none, some, if◌then◌else◌, ltb,
}
use polar_db_stack_common.Common.Text.{Text, codes, text_eq}
use polar_db_stack_common.Common.Outcome.{Outcome, ok, err}
use polar_db_stack_common.Common.Trace.{◌>>=◌, after_step, done, stop}
use polar_db_stack_common.Remote.Http.{Reading}
use polar_db_stack_common.Remote.Polling.{RemoteError, error, panicked, poll_forever, poll_error}
use polar_db_stack_common.Remote.ClusterManager.Requests.{
  CmCall, get_status, read_clock, wait_signal, switchover, InsStatus, ClusterStatus, CmService,
  request_cm, CmStep, do_action_only, client_ip_of,
}
use polar_db_stack_common.Remote.ClusterManager.{CmClient, cm_not_init_error, when_inited}

-- The variables that the condition of WaitForStartingCompleted shares with the function.
pub record Starting : Type 0 where
  pub ins_status : Option InsStatus
  pub timeout_begin_time : ℕ

abbrev pub at_endpoint : Text → InsStatus → Bool
at_endpoint endpoint ins = text_eq ins.endpoint endpoint

-- Where `insStatus` points: at what it pointed to before the loop, or at the loop's variable `ro`.
pub data InsPointer : Type 0 where
  before_loop : Option InsStatus → InsPointer
  loop_variable : InsPointer

abbrev pub pointed_to : InsPointer → InsStatus → Option InsStatus
pointed_to (before_loop found) ro = found
pointed_to loop_variable ro = some ro

-- The loop over the ROs: each round writes the variable `ro`, and `insStatus = &ro` takes its address. The
-- value that is pointed to is read after the loop.
unfoldable pub ro_loop : Text → InsPointer → InsStatus → List InsStatus → Option InsStatus
ro_loop endpoint pointer ro [] = pointed_to pointer ro
ro_loop endpoint pointer ro (next ∷ rest) =
    ro_loop endpoint (if at_endpoint endpoint next then loop_variable else pointer) next rest

-- The variable before the first round.
abbrev pub no_status : InsStatus
no_status = record { endpoint = []; pod_name = []; phase = [] }

abbrev pub of_ro : Text → Option InsStatus → List InsStatus → Option InsStatus
of_ro endpoint found ros = ro_loop endpoint (before_loop found) no_status ros

-- The status that the condition judges; one that was found before is kept.
unfoldable pub select_ins : Text → Option InsStatus → ClusterStatus → Option InsStatus
select_ins endpoint found status =
    if at_endpoint endpoint status.rw then some status.rw else of_ro endpoint found status.ro

abbrev pub running : Text
running = codes "RUNNING"

abbrev pub is_starting : Text → Bool
is_starting phase = text_eq phase (codes "PENDING") || text_eq phase (codes "STARTING")

abbrev pub endpoint_of : Text → Text → Text
endpoint_of ip port = ip ++ (codes ":" ++ port)

module _ (svc : CmService) (m : CmClient) where
  abbrev pub read_status : Reading → Outcome RemoteError ClusterStatus
  read_status (body, some e) = err (error e)
  read_status (body, none) = elim (svc.cluster_status body) [
    | ok status ↦ ok status
    | err e ↦ err (error e)
  ]

  -- `GetClusterStatus`: one request, which is not repeated.
  unfoldable pub get_cluster_status : List CmCall → Outcome RemoteError ClusterStatus × List CmCall
  get_cluster_status seen =
      if m.inited
      then (
        read_status (request_cm (λ body. (body, none)) (svc.status_reply seen)),
        get_status ∷ seen,
      )
      else (err cm_not_init_error, seen)

  -- A starting engine begins the timeout anew.
  abbrev pub judge :
      Starting → Option InsStatus → List CmCall → Outcome RemoteError Bool × Starting × List CmCall
  judge vars none seen = (ok false, vars, seen)
  judge vars (some ins) seen =
      if is_starting ins.phase
      then (ok false, record vars { timeout_begin_time = svc.now seen }, read_clock ∷ seen)
      else if text_eq ins.phase running
      then (ok true, vars, seen)
      else (err (error (codes "ro status error")), vars, seen)

  abbrev pub after_status :
      Text
      → Starting
      → Outcome RemoteError ClusterStatus
      → List CmCall
      → Outcome RemoteError Bool × Starting × List CmCall
  after_status endpoint vars (err e) seen = (ok false, vars, seen)
  after_status endpoint vars (ok status) seen =
      let found = select_ins endpoint vars.ins_status status in
      judge (record vars { ins_status = found }) found seen

  -- The condition of WaitForStartingCompleted.
  unfoldable pub starting_round :
      Text → ℕ → Starting → List CmCall → Outcome RemoteError Bool × Starting × List CmCall
  starting_round endpoint timeout vars seen =
      if ltb (vars.timeout_begin_time + timeout) (svc.now seen)
      then (err (error (codes "wait for starting up completed timeout.")), vars, read_clock ∷ seen)
      else after_status endpoint vars (get_cluster_status (read_clock ∷ seen)).0
          (get_cluster_status (read_clock ∷ seen)).1

  -- The status stands beside the result of the wait.
  unfoldable pub wait_for_starting_completed :
      ℕ → Text → Text → ℕ → CmStep (Option InsStatus × Outcome RemoteError (Unit {0}))
  wait_for_starting_completed fuel client_ip port timeout seen =
      after_step
        (poll_forever svc.received wait_signal (starting_round (endpoint_of client_ip port) timeout)
          fuel (record { ins_status = none; timeout_begin_time = svc.now seen })
          (read_clock ∷ seen))
        (λ r. done (r.0.ins_status, poll_error r.1 tt))

  abbrev not_promoted : Option InsStatus → Text → Text → Text
  not_promoted (some ins) ori_ro_ip port =
      codes "RO "
      ++ (ins.pod_name
          ++ (codes " status is " ++ (ins.phase ++ codes " and cannot be promoted to RW.")))
  not_promoted none ori_ro_ip port =
      codes "RO "
      ++ (endpoint_of ori_ro_ip port ++ codes " status is not found from cm status metadata.")

  abbrev wrap : Text → RemoteError → RemoteError
  wrap message (error e) = error (message ++ (codes ": " ++ e))
  wrap message panicked = panicked

  abbrev pub after_wait :
      Text
      → Text
      → Text
      → Text
      → Option InsStatus × Outcome RemoteError (Unit {0})
      → CmStep (Unit {0})
  after_wait rw_client_ip ro_client_ip ori_ro_ip port (ins, ok u) =
      do_action_only svc
        (switchover (endpoint_of rw_client_ip port) (endpoint_of ro_client_ip port))
  after_wait rw_client_ip ro_client_ip ori_ro_ip port (ins, err e) =
      stop (wrap (not_promoted ins ori_ro_ip port) e)

  unfoldable pub switch_over : ℕ → Text → Text → Text → Bool → CmStep (Unit {0})
  switch_over fuel ori_rw_ip ori_ro_ip port is_client_ip = when_inited m (do
    rw_client_ip ← client_ip_of svc is_client_ip ori_rw_ip
    ro_client_ip ← client_ip_of svc is_client_ip ori_ro_ip
    -- five minutes, in nanoseconds
    w ← wait_for_starting_completed fuel ro_client_ip port 300000000000
    after_wait rw_client_ip ro_client_ip ori_ro_ip port w)
