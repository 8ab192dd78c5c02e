-- ===== src/Remote/Storage/Requests.antt =====
-- The requests of business/adapter/storage_manager.go to the storage service, and how their replies are
-- read. The URL and the JSON content of a request stand in the model as its fields.
use polar_db_stack_common.Common.{
  ℕ, Bool, true, false, List, [], ◌++◌, Option, none, some, if◌then◌else◌, ◌==◌,
}
use polar_db_stack_common.Common.Int.{ℤ, pos, eqb_ℤ}
use polar_db_stack_common.Common.Text.{Text, codes}
use polar_db_stack_common.Common.Decimal.{itoa}
use polar_db_stack_common.Common.Dict.{Dict, lookup}
use polar_db_stack_common.Common.Outcome.{Outcome, ok, err, ◌>>=◌}
use polar_db_stack_common.Engine.Wait.{Signal}
use polar_db_stack_common.Remote.Http.{
  Reply, no_reply, cut_off, response, Attempts, Reading, do_action_common,
}
use polar_db_stack_common.Remote.Polling.{RemoteError, error, panicked}

pub data StorageCall : Type 0 where
  -- the look-up of the service's address, and the signal that a poll receives
  find_service wait_signal : StorageCall
  -- name and namespace, and then the node or the workflow
  lock topo ready expand_ready : Text → Text → Text → StorageCall
  release used_by : Text → Text → StorageCall
  -- volume, resource and volume type follow, and whether to format, or the size
  use_volume : Text → Text → Text → Text → Text → Bool → StorageCall
  expand : Text → Text → Text → Text → ℤ → ℤ → StorageCall

-- A JSON value as `map[string]interface{}` holds it; a number that is no integer has none.
pub data Value : Type 0 where
  text : Text → Value
  bool : Bool → Value
  number : Option ℤ → Value
  other : Value

pub record StorageTopoNode : Type 0 where
  pub node_id : Text
  pub node_ip : Text

pub record StorageTopo : Type 0 where
  pub read_nodes : List StorageTopoNode
  pub write_node : Option StorageTopoNode

-- The service, the API server and encoding/json: what they answer at a point of the trace.
pub record StorageService : Type 0 where
  pub attempts : List StorageCall → Attempts
  pub address : List StorageCall → Outcome Text (Text × Text)
  pub received : List StorageCall → ℕ → Signal
  -- json.Unmarshal into a map of texts, into a map of values, and into a pointer to a topology; the
  -- texts are its errors
  pub string_map : Text → Outcome Text (Dict Text)
  pub value_map : Text → Outcome Text (Dict Value)
  pub topology : Text → Option StorageTopo × Option Text

-- `handleResponse`, and the error of the client before it.
unfoldable pub handle_response : Reply → Reading
handle_response (no_reply e) = ([], some e)
handle_response (cut_off body e) = (body, some e)
handle_response (response status body) = if status == 200 then (body, none) else (
  body,
  some (
      codes "{ 'statusCode': "
      ++ (itoa (pos status) ++ (codes ", 'body': '" ++ (body ++ codes "' }")))),
)

-- `StorageSvcRequestRetry.ConditionFunc`
unfoldable pub storage_condition : Reading → Bool × Option Text
storage_condition (body, none) = (true, none)
storage_condition (body, some e) = (false, some e)

abbrev pub of_text {ℓ} : {A : Type ℓ} → Outcome Text A → Outcome RemoteError A
of_text (ok a) = ok a
of_text (err e) = err (error e)

-- `errors.Wrapf(err, message)`
abbrev wrap {ℓ} : {A : Type ℓ} → Text → Outcome Text A → Outcome RemoteError A
wrap message (ok a) = ok a
wrap message (err e) = err (error (message ++ (codes ": " ++ e)))

-- `clusterName.(string)` and its like panic on a value of another kind.
abbrev as_text : Value → Outcome RemoteError Text
as_text (text s) = ok s
as_text (bool b) = err panicked
as_text (number n) = err panicked
as_text other = err panicked

abbrev is_true : Option Value → Bool
is_true (some (bool b)) = b
is_true _ = false

-- `errors.Wrapf` of the nil error is nil, so that a reply without the field is an empty id and no error.
abbrev pub workflow_id : Option Text → Text
workflow_id none = []
workflow_id (some id) = id

module _ (svc : StorageService) where
  abbrev pub body_of : List StorageCall → Outcome RemoteError Text
  body_of seen = of_text (do_action_common handle_response storage_condition (svc.attempts seen))

  -- `requestWriteLock`, `requestUseStorage`, `requestRelease` and `requestExpand` read their reply alike.
  unfoldable pub request_workflow : List StorageCall → Outcome RemoteError Text
  request_workflow seen = do
    resp ← body_of seen
    result ← wrap (codes "unmarshal response error, " ++ resp) (svc.string_map resp)
    ok (workflow_id (lookup (codes "workflow_id") result))

  abbrev topology_error : Option Text → Outcome RemoteError (Unit {0})
  topology_error none = ok tt
  topology_error (some e) = err (error e)

  abbrev read_topology :
      Outcome RemoteError Text → Option StorageTopo × Outcome RemoteError (Unit {0})
  read_topology (err e) = (none, err e)
  read_topology (ok resp) = ((svc.topology resp).0, topology_error (svc.topology resp).1)

  -- `requestTopo`: a pointer, which may be set along with an error of json.Unmarshal.
  unfoldable pub request_topo :
      List StorageCall → Option StorageTopo × Outcome RemoteError (Unit {0})
  request_topo seen = read_topology (body_of seen)

  abbrev pub cluster_name : Option Value → Outcome RemoteError Text
  cluster_name none = ok []
  cluster_name (some v) = as_text v

  unfoldable pub request_pvc_used_by : List StorageCall → Outcome RemoteError Text
  request_pvc_used_by seen = do
    resp ← body_of seen
    result ← wrap (codes "unmarshal response error, " ++ resp) (svc.value_map resp)
    cluster_name (lookup (codes "db_cluster_name") result)

  unfoldable pub request_check_ready : List StorageCall → Outcome RemoteError Bool
  request_check_ready seen = do
    resp ← body_of seen
    result ← wrap (codes "unmarshal response error, " ++ resp) (svc.value_map resp)
    ok (is_true (lookup (codes "is_ready") result))

  abbrev expand_error : Text → Option Value → Outcome RemoteError Bool
  expand_error resp none =
      err (error (codes "request expand status error, response [" ++ (resp ++ codes "]")))
  expand_error resp (some v) = do message ← as_text v; err (error message)

  -- `result["status"].(float64)`: 0 is ready, 1 is not yet.
  abbrev expand_status : Text → Option Value → Option Value → Outcome RemoteError Bool
  expand_status resp message (some (number (some n))) =
      if eqb_ℤ n (pos 0)
      then ok true
      else if eqb_ℤ n (pos 1)
      then ok false
      else expand_error resp message
  expand_status resp message (some (number none)) = expand_error resp message
  expand_status resp message (some (text s)) = err panicked
  expand_status resp message (some (bool b)) = err panicked
  expand_status resp message (some other) = err panicked
  expand_status resp message none = err panicked

  unfoldable pub request_expand_ready : List StorageCall → Outcome RemoteError Bool
  request_expand_ready seen = do
    resp ← body_of seen
    result ← wrap (codes "unmarshal response error, " ++ resp) (svc.value_map resp)
    expand_status resp (lookup (codes "err_message") result) (lookup (codes "status") result)
