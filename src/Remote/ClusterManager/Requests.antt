-- ===== src/Remote/ClusterManager/Requests.antt =====
-- The requests of business/adapter/cluster_manager_client.go to a cluster's manager, and how their
-- replies are read. The JSON content of a request stands in the model as its fields.
use polar_db_stack_common.Common.{
  ℕ, Bool, true, false, ◌||◌, List, [], ◌++◌, Option, none, some, if◌then◌else◌, ◌==◌,
}
use polar_db_stack_common.Common.Int.{ℤ, pos, eqb_ℤ}
use polar_db_stack_common.Common.Text.{Text, codes, has_substring}
use polar_db_stack_common.Common.Decimal.{itoa}
use polar_db_stack_common.Common.Outcome.{Outcome, ok, err}
use polar_db_stack_common.Common.Trace.{Trace, ◌>>=◌, record_entry, done, stop}
use polar_db_stack_common.Engine.Wait.{Signal}
use polar_db_stack_common.Remote.ClientIp.{NodeClientIp, find_client_ip}
use polar_db_stack_common.Remote.Http.{
  Reply, no_reply, cut_off, response, Attempts, Reading, do_action_common,
}
use polar_db_stack_common.Remote.Polling.{RemoteError, error, panicked}

pub record InsSpec : Type 0 where
  pub ip : Text
  pub port : Text
  pub role : Text
  pub sync : Text
  pub pod_name : Text
  pub host_name : Text

-- The actions, by their names in the manager's interface, which are the constructors' names.
pub data CmAction : Type 0 where
  global_set_leader global_set_follower global_promote : CmAction
  -- id, ip, pod name and port
  global_add_datamax global_update_datamax : Text → Text → Text → Text → CmAction
  global_remove_datamax global_remove_cluster : Text → CmAction
  -- id, ip and port
  global_add_cluster global_update_cluster : Text → Text → Text → CmAction
  -- upstream, downstream and the type of the copy
  global_add_topology_edge : Text → Text → Text → CmAction
  global_remove_topology_edge : Text → Text → CmAction
  -- id, the upstream's ip, port and id, and the type of the copy
  global_demote : Text → Text → Text → Text → Text → CmAction
  enable : ℕ → CmAction
  add_ins remove_ins : InsSpec → CmAction
  -- the endpoints from and to
  switchover : Text → Text → CmAction

pub data CmCall : Type 0 where
  -- the nodes' client addresses, a request, the status, the clock, and the signal of a wait
  client_ips : CmCall
  request : CmAction → CmCall
  get_status read_clock wait_signal : CmCall

pub record InsStatus : Type 0 where
  pub endpoint : Text
  pub pod_name : Text
  pub phase : Text

pub record ClusterStatus : Type 0 where
  pub rw : InsStatus
  pub ro : List InsStatus

-- The manager, the list of the nodes' addresses, the clock, and encoding/json for the code of a response
-- and for a status.
pub record CmService : Type 0 where
  pub attempts : List CmCall → Attempts
  pub code : Text → Outcome Text ℤ
  pub addresses : List CmCall → Outcome Text (List NodeClientIp)
  pub status_reply : List CmCall → Reply
  pub cluster_status : Text → Outcome Text ClusterStatus
  pub now : List CmCall → ℕ
  pub received : List CmCall → ℕ → Signal

unfoldable pub is_already_exist_error : Text → Bool
is_already_exist_error = has_substring (codes "already exist")

unfoldable pub is_not_exist_error : Text → Bool
is_not_exist_error = has_substring (codes "not exist")

unfoldable pub is_using_error : Text → Bool
is_using_error = has_substring (codes "still in edge")

abbrev pub bad_code : Outcome Text ℤ → Text → Option Text
bad_code (ok code) body =
    if eqb_ℤ code (pos 200) then none else some (codes "body: [" ++ (body ++ codes "]"))
bad_code (err e) body =
    some (codes "error unmarshal cluster manager response, body: [" ++ (body ++ (codes "]: " ++ e)))

-- `parseCmResponse`, with what json.Unmarshal finds in the body.
unfoldable pub parse_cm_response : (Text → Outcome Text ℤ) → Text → Reading
parse_cm_response code body = (body, bad_code (code body) body)

abbrev pub http_error : ℕ → Text → Text
http_error status body =
    codes "http code: " ++ (itoa (pos status) ++ (codes ", body: [" ++ (body ++ codes "]")))

-- `requestCm`: the last argument reads a body of status 200.
unfoldable pub request_cm : (Text → Reading) → Reply → Reading
request_cm body_parser (no_reply e) = ([], some e)
request_cm body_parser (cut_off body e) = (body, some e)
request_cm body_parser (response status body) =
    if status == 200 then body_parser body else (body, some (http_error status body))

-- `CmRequestRetry.ConditionFunc`: some errors are not retried.
unfoldable pub cm_condition : Reading → Bool × Option Text
cm_condition (body, none) = (true, none)
cm_condition (body, some e) =
    (is_already_exist_error body || (is_not_exist_error body || is_using_error body), some e)

abbrev pub of_text {ℓ} : {A : Type ℓ} → Outcome Text A → Outcome RemoteError A
of_text (ok a) = ok a
of_text (err e) = err (error e)

-- A test of an error's message.
abbrev pub says : (Text → Bool) → RemoteError → Bool
says test (error e) = test e
says test panicked = false

-- The name of a step over the manager.
abbrev pub CmStep : Type 0 → Type 0
CmStep A = Trace CmCall RemoteError A

-- What follows an action: nothing, `instead` where its error passes the test, or else its error.
abbrev pub unless_error :
    (Text → Bool) → CmStep (Unit {0}) → Outcome RemoteError Text → CmStep (Unit {0})
unless_error test instead (ok body) = done tt
unless_error test instead (err e) = if says test e then instead else stop e

module _ (svc : CmService) where
  -- `doActionPost`, `doActionGet` and `doAction`: the body of the reply.
  unfoldable pub do_action : CmAction → CmStep Text
  do_action action = record_entry (request action) (λ seen.
      of_text (
        do_action_common (request_cm (parse_cm_response svc.code)) cm_condition
          (svc.attempts seen)))

  abbrev pub do_action_only : CmAction → CmStep (Unit {0})
  do_action_only action = do body ← do_action action; done tt

  abbrev pub find_ip : Text → Outcome Text (List NodeClientIp) → Outcome RemoteError Text
  find_ip ip (err e) = err (error e)
  find_ip ip (ok nodes) = of_text (find_client_ip ip nodes)

  -- `GetClientIP`
  unfoldable pub get_client_ip : Text → CmStep Text
  get_client_ip ip = record_entry client_ips (λ seen. find_ip ip (svc.addresses seen))

  -- An address that is a client address already is taken as it is.
  abbrev pub client_ip_of : Bool → Text → CmStep Text
  client_ip_of true ip = done ip
  client_ip_of false ip = get_client_ip ip
