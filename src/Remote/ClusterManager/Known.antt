-- ===== src/Remote/ClusterManager/Known.antt =====
-- The errors that business/adapter/cluster_manager_client.go knows by their text: how the retries and the
-- operations treat them.
use polar_db_stack_common.Common.{
  ℕ, zero, ◌≡◌, inl, inr, sym, ap, ◌∙◌, Bool, true, false, ◌||◌, List, ◌∷◌, ◌++◌, some, ◌==◌, arith,
  Bool-cases,
}
use polar_db_stack_common.Common.Int.{ℤ, pos, eqb_ℤ}
use polar_db_stack_common.Common.Text.{Text, codes, has_substring}
use polar_db_stack_common.Common.Decimal.{itoa}
use polar_db_stack_common.Common.Outcome.{Outcome, ok, err}
use polar_db_stack_common.Common.Substring.{has_substring-prefix, has_substring-suffix}
use polar_db_stack_common.Common.Trace.{done}
use polar_db_stack_common.Engine.Retry.{retry_func, retry_loop, verdict, error_text}
use polar_db_stack_common.Remote.Http.{response, do_action_common}
use polar_db_stack_common.Remote.Polling.{RemoteError, error}
use polar_db_stack_common.Remote.ClusterManager.Requests.{
  CmCall, CmAction, request, add_ins, global_remove_cluster, global_remove_datamax,
  global_remove_topology_edge, CmService, bad_code, http_error, parse_cm_response, request_cm,
  cm_condition, is_already_exist_error, is_not_exist_error, is_using_error, CmStep, unless_error,
  do_action, client_ip_of,
}
use polar_db_stack_common.Remote.ClusterManager.Steps.{answer}
use polar_db_stack_common.Remote.ClusterManager.{
  CmClient, ins_spec, add_instance, delete_cluster, delete_data_max, delete_topology_edge,
}

-- Found in the middle part.
in_the_middle : (p a b c : Text) → has_substring p b ≡ true → has_substring p (a ++ (b ++ c)) ≡ true
in_the_middle p a b c h = has_substring-suffix p a (b ++ c) (has_substring-prefix p b c h)

some-inj : (a b : Text) → some a ≡ some b → a ≡ b
some-inj a b e = ground (arith, e)

bad_code-body :
    (p : Text) (code : Outcome Text ℤ) (body e : Text)
    → has_substring p body ≡ true
    → bad_code code body ≡ some e
    → has_substring p e ≡ true
bad_code-body p (ok n) body e h is = elim (Bool-cases (eqb_ℤ n (pos 200))) [
  | inl k ↦ absurd (ground (arith, k))
  | inr k ↦
      let text = some-inj (codes "body: [" ++ (body ++ codes "]")) e (ground (arith, k, is)) in
      ap (has_substring p) (sym text) ∙ in_the_middle p (codes "body: [") body (codes "]") h
]
bad_code-body p (err x) body e h is =
    let before = codes "error unmarshal cluster manager response, body: [" in
    let text = some-inj (before ++ (body ++ (codes "]: " ++ x))) e is in
    ap (has_substring p) (sym text) ∙ in_the_middle p before body (codes "]: " ++ x) h

-- The error of a reply of the manager has the whole body in its text.
request_cm-body :
    (code : Text → Outcome Text ℤ) (p : Text) (status : ℕ) (body e : Text)
    → has_substring p body ≡ true
    → (request_cm (parse_cm_response code) (response status body)).1 ≡ some e
    → (has_substring p e ≡ true)
      × ((request_cm (parse_cm_response code) (response status body)).0 ≡ body)
unfolding request_cm parse_cm_response
request_cm-body code p status body e h is = elim (Bool-cases (status == 200)) [
  | inl k ↦ (bad_code-body p (code body) body e h (ground (arith, k, is)), ground (arith, k))
  | inr k ↦
      let text = some-inj (http_error status body) e (ground (arith, k, is)) in
      (
        ap (has_substring p) (sym text)
            ∙ has_substring-suffix p (codes "http code: ") _ (
                has_substring-suffix p (itoa (pos status)) _
                  (in_the_middle p (codes ", body: [") body (codes "]") h)),
        ground (arith, k),
      )
]

-- An error that is known is not retried: the action's result is the error of the first round.
answer-known :
    (svc : CmService) (seen : List CmCall) (body e : Text)
    → (svc.attempts seen).context_done zero ≡ false
    → request_cm (parse_cm_response svc.code) ((svc.attempts seen).reply zero) ≡ (body, some e)
    → is_already_exist_error body || (is_not_exist_error body || is_using_error body) ≡ true
    → answer svc seen ≡ err (error e)
unfolding do_action_common retry_func retry_loop verdict error_text cm_condition
answer-known svc seen body e goes reads known = ground (arith, goes, reads, known)

-- The action is not retried, and its error passes the test that its body passes.
error-known :
    (svc : CmService) (seen : List CmCall) (p : Text) (code : ℕ) (body e : Text)
    → (svc.attempts seen).context_done zero ≡ false
    → (svc.attempts seen).reply zero ≡ response code body
    → (request_cm (parse_cm_response svc.code) (response code body)).1 ≡ some e
    → has_substring p body ≡ true
    → (is_already_exist_error body || (is_not_exist_error body || is_using_error body)) ≡ true
    → (answer svc seen ≡ err (error e)) × (has_substring p e ≡ true)
error-known svc seen p code body e goes replies fails found known =
    let (tells, kept) = request_cm-body svc.code p code body e found fails in
    (
      answer-known svc seen body e goes
          (ap (request_cm (parse_cm_response svc.code)) replies ∙ ground (arith, fails, kept))
          known,
      tells,
    )

unless_error-known :
    (test : Text → Bool) (instead : CmStep (Unit {0})) (r : Outcome RemoteError Text) (e : Text)
    (seen : List CmCall)
    → r ≡ err (error e)
    → test e ≡ true
    → unless_error test instead r seen ≡ instead seen
unless_error-known test instead (ok body) e seen is known = cc
unless_error-known test instead (err x) e seen is known = ground (arith, is, known)

-- AddIns, where the client's address is found: where the manager's first reply is an error whose body
-- says "already exist", AddIns returns nil, with this one request to the manager.
pub add_instance-existing :
    (svc : CmService) (m : CmClient) (id ip client_ip role sync host_name : Text) (port : ℤ)
    (is_client_ip : Bool) (log log₁ : List CmCall) (code : ℕ) (body e : Text)
    → m.inited ≡ true
    → client_ip_of svc is_client_ip ip log ≡ some (ok client_ip, log₁)
    → (svc.attempts log₁).context_done zero ≡ false
    → (svc.attempts log₁).reply zero ≡ response code body
    → (request_cm (parse_cm_response svc.code) (response code body)).1 ≡ some e
    → is_already_exist_error body ≡ true
    → add_instance svc m id ip role sync host_name port is_client_ip log
      ≡ some
          (ok tt, request (add_ins (ins_spec svc m id client_ip role sync host_name port)) ∷ log₁)
unfolding add_instance do_action is_already_exist_error
add_instance-existing svc m id ip client_ip role sync host_name port is_client_ip log log₁ code body
      e inited found goes replies fails exists =
    let (is, known) =
      error-known svc log₁ (codes "already exist") code body e goes replies fails exists
        (ground (arith, exists)) in
    let rest =
      unless_error-known is_already_exist_error (done tt) (answer svc log₁) e
        (request (add_ins (ins_spec svc m id client_ip role sync host_name port)) ∷ log₁) is
        known in
    ground (arith, inited, found, rest)

-- Where the manager's first reply is an error whose body says "not exist", DeleteCluster, DeleteDataMax
-- and DeleteTopologyEdge return nil, each with this one request.
pub deletes_of_missing :
    (svc : CmService) (m : CmClient) (id up down : Text) (log : List CmCall) (code : ℕ)
    (body e : Text)
    → m.inited ≡ true
    → (svc.attempts log).context_done zero ≡ false
    → (svc.attempts log).reply zero ≡ response code body
    → (request_cm (parse_cm_response svc.code) (response code body)).1 ≡ some e
    → is_not_exist_error body ≡ true
    → (delete_cluster svc m id log ≡ some (ok tt, request (global_remove_cluster id) ∷ log))
      × (delete_data_max svc m id log ≡ some (ok tt, request (global_remove_datamax id) ∷ log))
      × (delete_topology_edge svc m up down log
          ≡ some (ok tt, request (global_remove_topology_edge up down) ∷ log))
unfolding delete_cluster delete_data_max delete_topology_edge do_action is_not_exist_error
deletes_of_missing svc m id up down log code body e inited goes replies fails missing =
    let (is, known) =
      error-known svc log (codes "not exist") code body e goes replies fails missing
        (ground (arith, missing)) in
    let after = λ (action : CmAction).
      unless_error-known is_not_exist_error (done tt) (answer svc log) e (request action ∷ log) is
        known in
    (
      ground (arith, inited, after (global_remove_cluster id)),
      ground (arith, inited, after (global_remove_datamax id)),
      ground (arith, inited, after (global_remove_topology_edge up down)),
    )
