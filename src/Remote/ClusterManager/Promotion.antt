-- ===== src/Remote/ClusterManager/Promotion.antt =====
-- Switchover of business/adapter/cluster_manager_client.go: what was read before it is asked for, and
-- whose status it was.
use polar_db_stack_common.Common.{
  ℕ, ◌+◌, ◌≡◌, ◌≢◌, inl, inr, refl, ap, ◌∙◌, Bool, true, false, List, [], ◌∷◌, ◌++◌, Option, none,
  some, any, sym, ◌⊎◌, ltb, arith, Bool-cases,
}
use polar_db_stack_common.Common.Text.{Text, text_eq_iff}
use polar_db_stack_common.Common.Outcome.{Outcome, ok, err}
use polar_db_stack_common.Common.Trace.{after_step-ok}
use polar_db_stack_common.Engine.Wait.{waited}
use polar_db_stack_common.Remote.Polling.{RemoteError, poll_forever, poll_error-ok}
use polar_db_stack_common.Remote.Polling.Kept.{poll_forever-held}
use polar_db_stack_common.Remote.ClusterManager.Requests.{
  CmCall, request, wait_signal, read_clock, switchover, InsStatus, ClusterStatus, CmService,
  client_ip_of,
}
use polar_db_stack_common.Remote.ClusterManager.{CmClient}
use polar_db_stack_common.Remote.ClusterManager.Steps.{when_inited-ok, do_action_only-ok}
use polar_db_stack_common.Remote.ClusterManager.Switchover.{
  Starting, InsPointer, before_loop, loop_variable, ro_loop, no_status, at_endpoint, select_ins,
  running, is_starting, endpoint_of, get_cluster_status, judge, after_status, starting_round,
  wait_for_starting_completed, after_wait, switch_over,
}

judge-ok :
    (svc : CmService) (m : CmClient) (vars vars' : Starting) (found : Option InsStatus)
    (seen seen' : List CmCall)
    → judge svc m vars found seen ≡ (ok true, vars', seen')
    → (ins : InsStatus) × (found ≡ some ins)
      × (ins.phase ≡ running)
      × (vars' ≡ vars)
      × (seen' ≡ seen)
judge-ok svc m vars vars' none seen seen' e = cc
judge-ok svc m vars vars' (some ins) seen seen' e =
    let phase = text_eq_iff ins.phase running in
    (ins, refl, ground (arith, phase), ground arith, ground arith)

after_status-ok :
    (svc : CmService) (m : CmClient) (endpoint : Text) (vars vars' : Starting)
    (r : Outcome RemoteError ClusterStatus) (seen seen' : List CmCall)
    → after_status svc m endpoint vars r seen ≡ (ok true, vars', seen')
    → (status : ClusterStatus) × (ins : InsStatus) × (r ≡ ok status)
      × (select_ins endpoint vars.ins_status status ≡ some ins)
      × (vars'.ins_status ≡ some ins)
      × (ins.phase ≡ running)
      × (seen' ≡ seen)
after_status-ok svc m endpoint vars vars' (err x) seen seen' e = cc
after_status-ok svc m endpoint vars vars' (ok status) seen seen' e =
    let found = select_ins endpoint vars.ins_status status in
    let (ins, is, phase, same, log) =
      judge-ok svc m (record vars { ins_status = found }) vars' found seen seen' e in
    (status, ins, refl, is, ap (λ (v : Starting). v.ins_status) same ∙ is, phase, log)

starting_round-ok :
    (svc : CmService) (m : CmClient) (endpoint : Text) (timeout : ℕ) (vars vars' : Starting)
    (seen seen' : List CmCall)
    → starting_round svc m endpoint timeout vars seen ≡ (ok true, vars', seen')
    → (status : ClusterStatus) × (ins : InsStatus) × (get_cluster_status svc m (read_clock ∷ seen)
        ≡ (ok status, seen'))
      × (select_ins endpoint vars.ins_status status ≡ some ins)
      × (vars'.ins_status ≡ some ins)
      × (ins.phase ≡ running)
unfolding starting_round
starting_round-ok svc m endpoint timeout vars vars' seen seen' e =
    elim (Bool-cases (ltb (vars.timeout_begin_time + timeout) (svc.now seen))) [
      | inl h ↦ absurd (ground arith)
      | inr h ↦
          let r = get_cluster_status svc m (read_clock ∷ seen) in
          let (status, ins, is, found, stays, phase, log) =
            after_status-ok svc m endpoint vars vars' r.0 r.1 seen' (ground arith) in
          (status, ins, ground (arith, is, log), found, stays, phase)
    ]

ro_loop-append :
    (endpoint : Text) (pointer : InsPointer) (ro last : InsStatus) (ros : List InsStatus)
    → (pointer ≡ loop_variable) ⊎ (any (at_endpoint endpoint) (ros ++ last ∷ []) ≡ true)
    → ro_loop endpoint pointer ro (ros ++ last ∷ []) ≡ some last
unfolding ro_loop
ro_loop-append endpoint pointer ro last [] h = elim (Bool-cases (at_endpoint endpoint last)) [
  | inl here ↦ rw here refl
  | inr elsewhere ↦ elim h [
    | inl is ↦ rw (elsewhere, is) refl
    | inr hit ↦ absurd (ground (arith, elsewhere, hit))
  ]
]
ro_loop-append endpoint pointer ro last (next ∷ ros) h =
    elim (Bool-cases (at_endpoint endpoint next)) [
      | inl here ↦
          rw (here, ro_loop) (ro_loop-append endpoint loop_variable next last ros (inl refl))
      | inr elsewhere ↦
          rw (elsewhere, ro_loop)
            (ro_loop-append endpoint pointer next last ros
              (elim h [ inl is ↦ inl is | inr hit ↦ inr (ground (arith, elsewhere, hit)) ]))
    ]

-- Without an RO at the endpoint the loop leaves the pointer.
ro_loop-missed :
    (endpoint : Text) (found : Option InsStatus) (ro : InsStatus) (ros : List InsStatus)
    → any (at_endpoint endpoint) ros ≡ false
    → ro_loop endpoint (before_loop found) ro ros ≡ found
unfolding ro_loop
ro_loop-missed endpoint found ro [] missed = refl
ro_loop-missed endpoint found ro (next ∷ ros) missed =
    let rest = ro_loop-missed endpoint found next ros in ground (arith, missed, rest)

last_of :
    (endpoint : Text) (ros : List InsStatus)
    → any (at_endpoint endpoint) ros ≡ true
    → (front : List InsStatus) × (last : InsStatus) × (ros ≡ front ++ last ∷ [])
last_of endpoint [] hit = cc
last_of endpoint (ro ∷ ros) hit = split ro ros
  where
    split :
        (ro : InsStatus) (ros : List InsStatus)
        → (front : List InsStatus) × (last : InsStatus) × (ro ∷ ros ≡ front ++ last ∷ [])
    split ro [] = ([], ro, refl)
    split ro (next ∷ ros) =
        let (front, last, is) = split next ros in (ro ∷ front, last, ap (λ l. ro ∷ l) is)

-- The instance stands in the status: it is the RW, at the endpoint, or the last RO, with some RO at it.
abbrev pub StandsIn : Text → ClusterStatus → InsStatus → Type 0
StandsIn endpoint status ins =
    ((status.rw.endpoint ≡ endpoint) × (ins ≡ status.rw))
    ⊎ ((front : List InsStatus) × (any (at_endpoint endpoint) status.ro ≡ true)
        × (status.ro ≡ front ++ ins ∷ []))

-- What was found before, if anything, is starting.
abbrev starts : Option InsStatus → Bool
starts none = true
starts (some ins) = is_starting ins.phase

starting-ne-running : (ins : InsStatus) → is_starting ins.phase ≡ true → ins.phase ≢ running
starting-ne-running ins h e = absurd (ground (arith, ap is_starting e, h))

select_ins-StandsIn :
    (endpoint : Text) (found : Option InsStatus) (status : ClusterStatus) (ins : InsStatus)
    → starts found ≡ true
    → ins.phase ≡ running
    → select_ins endpoint found status ≡ some ins
    → StandsIn endpoint status ins
unfolding select_ins
select_ins-StandsIn endpoint found status ins h runs e =
    elim (Bool-cases (at_endpoint endpoint status.rw)) [
      | inl here ↦ inl ((text_eq_iff status.rw.endpoint endpoint).0 here, ground (arith, here, e))
      | inr elsewhere ↦
          let chosen : ro_loop endpoint (before_loop found) no_status status.ro ≡ some ins =
            ground (arith, elsewhere, e) in
          elim (Bool-cases (any (at_endpoint endpoint) status.ro)) [
            | inr missed ↦
                let is : found ≡ some ins =
                  sym (ro_loop-missed endpoint found no_status status.ro missed) ∙ chosen in
                absurd (starting-ne-running ins (sym (ap starts is) ∙ h) runs)
            | inl hit ↦
                let (front, last, list) = last_of endpoint status.ro hit in
                let listed : any (at_endpoint endpoint) (front ++ last ∷ []) ≡ true =
                  sym (ap (any (at_endpoint endpoint)) list) ∙ hit in
                let loop : ro_loop endpoint (before_loop found) no_status status.ro ≡ some last =
                  ap (ro_loop endpoint (before_loop found) no_status) list
                  ∙ ro_loop-append endpoint (before_loop found) no_status last front (inr listed) in
                let same : last ≡ ins = ground (arith, loop, chosen) in
                inr (front, hit, list ∙ ap (λ i. front ++ i ∷ []) same)
          ]
    ]

judge-starts :
    (svc : CmService) (m : CmClient) (vars : Starting) (found : Option InsStatus)
    (seen : List CmCall)
    → (judge svc m (record vars { ins_status = found }) found seen).0 ≡ ok false
    → starts (judge svc m (record vars { ins_status = found }) found seen).1.ins_status ≡ true
judge-starts svc m vars none seen e = refl
judge-starts svc m vars (some ins) seen e = elim (Bool-cases (is_starting ins.phase)) [
  | inl h ↦ ground (arith, h)
  | inr h ↦ ground (arith, h, e)
]

after_status-starts :
    (svc : CmService) (m : CmClient) (endpoint : Text) (vars : Starting)
    (r : Outcome RemoteError ClusterStatus) (seen : List CmCall)
    → starts vars.ins_status ≡ true
    → (after_status svc m endpoint vars r seen).0 ≡ ok false
    → starts (after_status svc m endpoint vars r seen).1.ins_status ≡ true
after_status-starts svc m endpoint vars (err x) seen h e = h
after_status-starts svc m endpoint vars (ok status) seen h e =
    judge-starts svc m vars (select_ins endpoint vars.ins_status status) seen e

starting_round-starts :
    (svc : CmService) (m : CmClient) (endpoint : Text) (timeout : ℕ) (vars : Starting)
    (seen : List CmCall)
    → starts vars.ins_status ≡ true
    → (starting_round svc m endpoint timeout vars seen).0 ≡ ok false
    → starts (starting_round svc m endpoint timeout vars seen).1.ins_status ≡ true
unfolding starting_round
starting_round-starts svc m endpoint timeout vars seen h e =
    elim (Bool-cases (ltb (vars.timeout_begin_time + timeout) (svc.now seen))) [
      | inl late ↦ absurd (ground (arith, late, e))
      | inr early ↦
          let r = get_cluster_status svc m (read_clock ∷ seen) in
          let next = after_status-starts svc m endpoint vars r.0 r.1 h in
          ground (arith, early, e, next)
    ]

-- WaitForStartingCompleted without an error ends on a status of the cluster that was read without an
-- error, and the instance of it that it gives back is running.
pub wait_for_starting_completed-running :
    (svc : CmService) (m : CmClient) (fuel : ℕ) (client_ip port : Text) (timeout : ℕ)
    (t : Option InsStatus) (log log' : List CmCall)
    → wait_for_starting_completed svc m fuel client_ip port timeout log ≡ some (ok (t, ok tt), log')
    → (ins : InsStatus) × (status : ClusterStatus) × (before : List CmCall) × (t ≡ some ins)
      × (ins.phase ≡ running)
      × StandsIn (endpoint_of client_ip port) status ins
      × (get_cluster_status svc m before ≡ (ok status, log'))
unfolding wait_for_starting_completed
wait_for_starting_completed-running svc m fuel client_ip port timeout t log log' e =
    let start : Starting = record { ins_status = none; timeout_begin_time = svc.now log } in
    let round = starting_round svc m (endpoint_of client_ip port) timeout in
    let (r, log₁, e₁, e₂) =
      after_step-ok (poll_forever svc.received wait_signal round fuel start (read_clock ∷ log)) _
        e in
    let w : r.1 ≡ waited = (poll_error-ok r.1 tt tt (ground arith)).0 in
    let (vars, before, passed, held) =
      poll_forever-held svc.received wait_signal round (λ v. starts v.ins_status) fuel start r.0
        (read_clock ∷ log) log₁ (starting_round-starts svc m (endpoint_of client_ip port) timeout)
        refl (ground (arith, w, e₁)) in
    let (status, ins, read, chosen, stays, phase) =
      starting_round-ok svc m (endpoint_of client_ip port) timeout vars r.0 before log₁ held in
    (
      ins,
      status,
      read_clock ∷ before,
      ground arith,
      phase,
      select_ins-StandsIn (endpoint_of client_ip port) vars.ins_status status ins passed phase
          chosen,
      ground arith,
    )

after_wait-ok :
    (svc : CmService) (m : CmClient) (rw ro ori port : Text)
    (w : Option InsStatus × Outcome RemoteError (Unit {0})) (seen log' : List CmCall)
    → after_wait svc m rw ro ori port w seen ≡ some (ok tt, log')
    → (w.1 ≡ ok tt)
      × (log' ≡ request (switchover (endpoint_of rw port) (endpoint_of ro port)) ∷ seen)
after_wait-ok svc m rw ro ori port (ins, ok u) seen log' e =
    (refl, (do_action_only-ok svc (switchover (endpoint_of rw port) (endpoint_of ro port)) e).2)
after_wait-ok svc m rw ro ori port (ins, err x) seen log' e = cc

-- Switchover without an error, of the old RW and the RO at the addresses that the arguments stand for:
-- its last call is the action `switchover` from the old RW's endpoint to the RO's, and directly before it
-- the status of the cluster was read. In this status the RO's endpoint is that of the RW, which is running,
-- or that of an RO, and the last RO of the list is running.
pub switch_over_after_running :
    (svc : CmService) (m : CmClient) (fuel : ℕ) (ori_rw_ip ori_ro_ip port : Text)
    (is_client_ip : Bool) (log log' : List CmCall)
    → switch_over svc m fuel ori_rw_ip ori_ro_ip port is_client_ip log ≡ some (ok tt, log')
    → (rw : Text) × (ro : Text) × (ins : InsStatus) × (status : ClusterStatus) × (log₁ : List
        CmCall)
      × (log₂ : List CmCall) × (before : List CmCall) × (between : List CmCall) × (client_ip_of svc
            is_client_ip ori_rw_ip log
          ≡ some (ok rw, log₁))
      × (client_ip_of svc is_client_ip ori_ro_ip log₁ ≡ some (ok ro, log₂))
      × (get_cluster_status svc m before ≡ (ok status, between))
      × StandsIn (endpoint_of ro port) status ins
      × (ins.phase ≡ running)
      × (log' ≡ request (switchover (endpoint_of rw port) (endpoint_of ro port)) ∷ between)
unfolding switch_over
switch_over_after_running svc m fuel ori_rw_ip ori_ro_ip port is_client_ip log log' e =
    let (inited, f₀) = when_inited-ok m _ e in
    let (rw, log₁, e₁, f₁) = after_step-ok (client_ip_of svc is_client_ip ori_rw_ip log) _ f₀ in
    let (ro, log₂, e₂, f₂) = after_step-ok (client_ip_of svc is_client_ip ori_ro_ip log₁) _ f₁ in
    let (w, log₃, e₃, f₃) =
      after_step-ok (wait_for_starting_completed svc m fuel ro port 300000000000 log₂) _ f₂ in
    let (without_error, posted) = after_wait-ok svc m rw ro ori_ro_ip port w log₃ log' f₃ in
    let (ins, status, before, is, phase, stands, read) =
      wait_for_starting_completed-running svc m fuel ro port 300000000000 w.0 log₂ log₃
        (ground (arith, without_error, e₃)) in
    (rw, ro, ins, status, log₁, log₂, before, log₃, e₁, e₂, read, stands, phase, posted)

-- Where the RW is at another endpoint and some RO, anywhere in the list, is at the one asked for, the
-- status that is judged is that of the last RO of the list, whatever its endpoint.
pub last_ro_judged :
    (endpoint : Text) (found : Option InsStatus) (status : ClusterStatus) (ros : List InsStatus)
    (last : InsStatus)
    → status.rw.endpoint ≢ endpoint
    → status.ro ≡ ros ++ last ∷ []
    → any (at_endpoint endpoint) status.ro ≡ true
    → select_ins endpoint found status ≡ some last
unfolding select_ins
last_ro_judged endpoint found status ros last elsewhere list hit =
    let rw_eq = text_eq_iff status.rw.endpoint endpoint in
    let listed : any (at_endpoint endpoint) (ros ++ last ∷ []) ≡ true =
      sym (ap (any (at_endpoint endpoint)) list) ∙ hit in
    let loop : ro_loop endpoint (before_loop found) no_status status.ro ≡ some last =
      ap (ro_loop endpoint (before_loop found) no_status) list
      ∙ ro_loop-append endpoint (before_loop found) no_status last ros (inr listed) in
    ground (arith, rw_eq, loop)
