-- ===== src/Remote/ClusterManager/Adding.antt =====
-- AddCluster and DeleteCluster of business/adapter/cluster_manager_client.go.
use polar_db_stack_common.Common.{
  ◌≡◌, ◌↔◌, ◌⊎◌, inl, inr, refl, sym, ◌∙◌, Bool, true, false, List, ◌∷◌, Option, none, some,
  if◌then◌else◌, arith, Bool-cases,
}
use polar_db_stack_common.Common.Int.{ℤ}
use polar_db_stack_common.Common.Text.{Text, codes, has_substring}
use polar_db_stack_common.Common.Decimal.{itoa}
use polar_db_stack_common.Common.Trace.{after_step, done}
use polar_db_stack_common.Common.Outcome.{Outcome, ok, err}
use polar_db_stack_common.Remote.Polling.{RemoteError}
use polar_db_stack_common.Remote.ClusterManager.Requests.{
  CmCall, CmAction, request, global_remove_cluster, global_add_cluster, global_update_cluster,
  is_already_exist_error, do_action_only, CmService, is_not_exist_error, is_using_error, says,
  CmStep, unless_error, do_action, client_ip_of,
}
use polar_db_stack_common.Remote.ClusterManager.Steps.{answer}
use polar_db_stack_common.Remote.ClusterManager.{
  CmClient, delete_cluster, update_cluster, add_now, after_delete, add_cluster,
}

-- How DeleteCluster reads the reply.
abbrev deleted : Outcome RemoteError Text → Outcome RemoteError (Unit {0})
deleted (ok body) = ok tt
deleted (err e) = if says is_not_exist_error e then ok tt else err e

unless_error-deleted :
    (a : Outcome RemoteError Text) (seen : List CmCall)
    → unless_error is_not_exist_error (λ l. some (ok tt, l)) a seen ≡ some (deleted a, seen)
unless_error-deleted (ok body) seen = refl
unless_error-deleted (err e) seen = elim (Bool-cases (says is_not_exist_error e)) [
  | inl h ↦ ground (arith, h)
  | inr h ↦ ground (arith, h)
]

delete_cluster-deleted :
    (svc : CmService) (m : CmClient) (id : Text) (seen : List CmCall)
    → m.inited ≡ true
    → delete_cluster svc m id seen
      ≡ some (deleted (answer svc seen), request (global_remove_cluster id) ∷ seen)
unfolding delete_cluster do_action
delete_cluster-deleted svc m id seen inited =
    let reply =
      unless_error-deleted (answer svc seen) (request (global_remove_cluster id) ∷ seen) in
    ground (arith, inited, reply)

after_delete_cases :
    (svc : CmService) (m : CmClient) (add : CmStep (Unit {0})) (a : Outcome RemoteError Text)
    (seen log' : List CmCall) (r : Outcome RemoteError (Unit {0}))
    → (after_delete svc m add (deleted a) seen ≡ some (r, log')) ↔ (
        ((body : Text) × (a ≡ ok body) × (add seen ≡ some (r, log')))
        ⊎ ((e : RemoteError) × (a ≡ err e)
            × (says is_not_exist_error e ≡ true)
            × (add seen ≡ some (r, log')))
        ⊎ ((e : RemoteError) × (a ≡ err e)
            × (says is_not_exist_error e ≡ false)
            × (says is_using_error e ≡ true)
            × (r ≡ ok tt)
            × (log' ≡ seen))
        ⊎ ((e : RemoteError) × (a ≡ err e)
            × (says is_not_exist_error e ≡ false)
            × (says is_using_error e ≡ false)
            × (r ≡ err e)
            × (log' ≡ seen)))
after_delete_cases svc m add (ok body) seen log' r = ((λ h. inl (body, refl, h)), ground arith)
after_delete_cases svc m add (err e) seen log' r = elim (Bool-cases (says is_not_exist_error e)) [
  | inl h ↦ ground (arith, h)
  | inr h ↦ elim (Bool-cases (says is_using_error e)) [
    | inl k ↦ ground (arith, h, k)
    | inr k ↦ ground (arith, h, k)
  ]
]

add_cluster_cases :
    (svc : CmService) (m : CmClient) (id ip client_ip : Text) (port : ℤ) (is_client_ip : Bool)
    (log log₁ log' : List CmCall) (r : Outcome RemoteError (Unit {0}))
    → m.inited ≡ true
    → client_ip_of svc is_client_ip ip log ≡ some (ok client_ip, log₁)
    → (add_cluster svc m id ip port is_client_ip log ≡ some (r, log')) ↔ (
        ((body : Text) × (answer svc log₁ ≡ ok body)
          × (add_now svc m id client_ip ip port is_client_ip
                (request (global_remove_cluster id) ∷ log₁)
              ≡ some (r, log')))
        ⊎ ((e : RemoteError) × (answer svc log₁ ≡ err e)
            × (says is_not_exist_error e ≡ true)
            × (add_now svc m id client_ip ip port is_client_ip
                  (request (global_remove_cluster id) ∷ log₁)
                ≡ some (r, log')))
        ⊎ ((e : RemoteError) × (answer svc log₁ ≡ err e)
            × (says is_not_exist_error e ≡ false)
            × (says is_using_error e ≡ true)
            × (r ≡ ok tt)
            × (log' ≡ request (global_remove_cluster id) ∷ log₁))
        ⊎ ((e : RemoteError) × (answer svc log₁ ≡ err e)
            × (says is_not_exist_error e ≡ false)
            × (says is_using_error e ≡ false)
            × (r ≡ err e)
            × (log' ≡ request (global_remove_cluster id) ∷ log₁)))
unfolding add_cluster
add_cluster_cases svc m id ip client_ip port is_client_ip log log₁ log' r inited found =
    let add = add_now svc m id client_ip ip port is_client_ip in
    let removed = delete_cluster-deleted svc m id log₁ inited in
    let cases =
      after_delete_cases svc m add (answer svc log₁) (request (global_remove_cluster id) ∷ log₁)
        log' r in
    ground (arith, inited, found, removed, cases)

-- The end of a request whose body is not looked at.
abbrev pub posted : Outcome RemoteError Text → Outcome RemoteError (Unit {0})
posted (ok body) = ok tt
posted (err e) = err e

-- The client's address is looked for again, and where it is found the request to update follows.
abbrev pub Updated :
    CmService
    → Text
    → Text
    → ℤ
    → Bool
    → List CmCall
    → Outcome RemoteError (Unit {0})
    → List CmCall
    → Type 0
Updated svc id ip port is_client_ip seen r log' =
    ((client_ip : Text) × (seen' : List CmCall) × (client_ip_of svc is_client_ip ip seen
        ≡ some (ok client_ip, seen'))
      × (r ≡ posted (answer svc seen'))
      × (log' ≡ request (global_update_cluster id client_ip (itoa port)) ∷ seen'))
    ⊎ ((e : RemoteError) × (client_ip_of svc is_client_ip ip seen ≡ some (err e, log'))
        × (r ≡ err e))

-- The request to add, and what follows its reply.
abbrev pub Added :
    CmService
    → Text
    → Text
    → Text
    → ℤ
    → Bool
    → List CmCall
    → Outcome RemoteError (Unit {0})
    → List CmCall
    → Type 0
Added svc id client_ip ip port is_client_ip seen r log' =
    ((body : Text) × (answer svc seen ≡ ok body)
      × (r ≡ ok tt)
      × (log' ≡ request (global_add_cluster id client_ip (itoa port)) ∷ seen))
    ⊎ ((e : RemoteError) × (answer svc seen ≡ err e)
        × (says (has_substring (codes "already exist")) e ≡ true)
        × Updated svc id ip port is_client_ip
            (request (global_add_cluster id client_ip (itoa port)) ∷ seen) r log')
    ⊎ ((e : RemoteError) × (answer svc seen ≡ err e)
        × (says (has_substring (codes "already exist")) e ≡ false)
        × (r ≡ err e)
        × (log' ≡ request (global_add_cluster id client_ip (itoa port)) ∷ seen))

posted_step :
    (a : Outcome RemoteError Text) (seen : List CmCall)
    → after_step (some (a, seen)) (λ body. done tt) ≡ some (posted a, seen)
posted_step (ok body) seen = refl
posted_step (err e) seen = refl

do_action_only-posted :
    (svc : CmService) (action : CmAction) (seen : List CmCall)
    → do_action_only svc action seen ≡ some (posted (answer svc seen), request action ∷ seen)
unfolding do_action
do_action_only-posted svc action seen = posted_step (answer svc seen) (request action ∷ seen)

updated_from :
    (svc : CmService) (id : Text) (port : ℤ)
    (found : Option (Outcome RemoteError Text × List CmCall)) (r : Outcome RemoteError (Unit {0}))
    (log' : List CmCall)
    → (after_step found (λ c. do_action_only svc (global_update_cluster id c (itoa port)))
        ≡ some (r, log'))
      ↔ (((client_ip : Text) × (seen' : List CmCall) × (found ≡ some (ok client_ip, seen'))
            × (r ≡ posted (answer svc seen'))
            × (log' ≡ request (global_update_cluster id client_ip (itoa port)) ∷ seen'))
          ⊎ ((e : RemoteError) × (found ≡ some (err e, log')) × (r ≡ err e)))
updated_from svc id port none r log' = ground arith
updated_from svc id port (some (err e, seen)) r log' = ground arith
updated_from svc id port (some (ok c, seen)) r log' =
    let p = do_action_only-posted svc (global_update_cluster id c (itoa port)) seen in
    (
      (λ h.
          let same : some
                (posted (answer svc seen), request (global_update_cluster id c (itoa port)) ∷ seen)
              ≡ some (r, log') =
            sym p ∙ h in
          inl (c, seen, refl, ground arith, ground arith)),
      λ h. elim h [
        | inr (e, missed, failed) ↦ absurd (ground arith)
        | inl (c', seen', found, result, log) ↦
            let same_ip : c' ≡ c = ground arith in
            let same_log : seen' ≡ seen = ground arith in
            p ∙ ground (arith, same_ip, same_log, result, log)
      ],
    )

update_cluster_iff :
    (svc : CmService) (m : CmClient) (id ip : Text) (port : ℤ) (is_client_ip : Bool)
    (seen log' : List CmCall) (r : Outcome RemoteError (Unit {0}))
    → m.inited ≡ true
    → (update_cluster svc m id ip port is_client_ip seen ≡ some (r, log'))
      ↔ Updated svc id ip port is_client_ip seen r log'
unfolding update_cluster
update_cluster_iff svc m id ip port is_client_ip seen log' r inited =
    rw inited (updated_from svc id port (client_ip_of svc is_client_ip ip seen) r log')

after_add :
    (svc : CmService) (m : CmClient) (id ip client_ip : Text) (port : ℤ) (is_client_ip : Bool)
    (a : Outcome RemoteError Text) (seen log' : List CmCall) (r : Outcome RemoteError (Unit {0}))
    → m.inited ≡ true
    → (unless_error is_already_exist_error (update_cluster svc m id ip port is_client_ip) a seen
        ≡ some (r, log'))
      ↔ (((body : Text) × (a ≡ ok body) × (r ≡ ok tt) × (log' ≡ seen))
          ⊎ ((e : RemoteError) × (a ≡ err e)
              × (says (has_substring (codes "already exist")) e ≡ true)
              × Updated svc id ip port is_client_ip seen r log')
          ⊎ ((e : RemoteError) × (a ≡ err e)
              × (says (has_substring (codes "already exist")) e ≡ false)
              × (r ≡ err e)
              × (log' ≡ seen)))
unfolding is_already_exist_error
after_add svc m id ip client_ip port is_client_ip (ok body) seen log' r inited = (
  (λ h. inl (body, refl, ground arith, ground arith)),
  λ k. elim k [
    | inl (b, is, done_so, log) ↦ ground (arith, done_so, log)
    | inr (inl (f, is, says_it, rest)) ↦ cc
    | inr (inr (f, is, says_not, failed, log)) ↦ cc
  ],
)
after_add svc m id ip client_ip port is_client_ip (err e) seen log' r inited =
    let update = update_cluster_iff svc m id ip port is_client_ip seen log' r inited in
    elim (Bool-cases (says (has_substring (codes "already exist")) e)) [
      | inl h ↦ (
        (λ k. inr (inl (e, refl, h, update.0 (rw h at k)))),
        λ k. elim k [
          | inl (body, is, done_so, log) ↦ cc
          | inr (inl (f, is, says_so, updated)) ↦ rw h (update.1 updated)
          | inr (inr (f, is, says_not, failed, log)) ↦ absurd (ground (arith, h))
        ],
      )
      | inr h ↦ (
        (λ k. inr (inr (e, refl, h, ground (arith, h, k), ground (arith, h, k)))),
        λ k. elim k [
          | inl (body, is, done_so, log) ↦ cc
          | inr (inl (f, is, says_so, updated)) ↦ absurd (ground (arith, h))
          | inr (inr (f, is, says_not, failed, log)) ↦ rw h (ground (arith, is, failed, log))
        ],
      )
    ]

add_now_iff :
    (svc : CmService) (m : CmClient) (id ip client_ip : Text) (port : ℤ) (is_client_ip : Bool)
    (seen log' : List CmCall) (r : Outcome RemoteError (Unit {0}))
    → m.inited ≡ true
    → (add_now svc m id client_ip ip port is_client_ip seen ≡ some (r, log'))
      ↔ Added svc id client_ip ip port is_client_ip seen r log'
unfolding do_action
add_now_iff svc m id ip client_ip port is_client_ip seen log' r inited =
    after_add svc m id ip client_ip port is_client_ip (answer svc seen)
      (request (global_add_cluster id client_ip (itoa port)) ∷ seen) log' r inited

abbrev pub AddedOrKept :
    CmService
    → Text
    → Text
    → Text
    → ℤ
    → Bool
    → List CmCall
    → Outcome RemoteError (Unit {0})
    → List CmCall
    → Type 0
AddedOrKept svc id client_ip ip port is_client_ip seen r log' =
    let removed : List CmCall = request (global_remove_cluster id) ∷ seen in
    ((body : Text) × (answer svc seen ≡ ok body)
      × Added svc id client_ip ip port is_client_ip removed r log')
    ⊎ ((e : RemoteError) × (answer svc seen ≡ err e)
        × (says (has_substring (codes "not exist")) e ≡ true)
        × Added svc id client_ip ip port is_client_ip removed r log')
    ⊎ ((e : RemoteError) × (answer svc seen ≡ err e)
        × (says (has_substring (codes "not exist")) e ≡ false)
        × (says (has_substring (codes "still in edge")) e ≡ true)
        × (r ≡ ok tt)
        × (log' ≡ removed))
    ⊎ ((e : RemoteError) × (answer svc seen ≡ err e)
        × (says (has_substring (codes "not exist")) e ≡ false)
        × (says (has_substring (codes "still in edge")) e ≡ false)
        × (r ≡ err e)
        × (log' ≡ removed))

-- AddCluster of a client that is set up, where the client's address is found, first asks to remove the
-- cluster. The request to add it follows exactly where the removal succeeds or fails with "not exist". On
-- another error with "still in edge" AddCluster returns nil and keeps the cluster as it is, and on any
-- other error it returns that error; in both cases the removal is its last request. The request to add
-- ends the call, with its error if it has one, except that on an error with "already exist" the client's
-- address is looked for again and the request to update follows, whose end is the end of the call.
pub add_cluster_iff :
    (svc : CmService) (m : CmClient) (id ip client_ip : Text) (port : ℤ) (is_client_ip : Bool)
    (log log₁ log' : List CmCall) (r : Outcome RemoteError (Unit {0}))
    → m.inited ≡ true
    → client_ip_of svc is_client_ip ip log ≡ some (ok client_ip, log₁)
    → (add_cluster svc m id ip port is_client_ip log ≡ some (r, log'))
      ↔ AddedOrKept svc id client_ip ip port is_client_ip log₁ r log'
unfolding is_not_exist_error is_using_error
add_cluster_iff svc m id ip client_ip port is_client_ip log log₁ log' r inited found =
    let cases =
      add_cluster_cases svc m id ip client_ip port is_client_ip log log₁ log' r inited found in
    let add =
      add_now_iff svc m id ip client_ip port is_client_ip
        (request (global_remove_cluster id) ∷ log₁) log' r inited in
    (
      (λ h. elim (cases.0 h) [
        | inl (body, is, added) ↦ inl (body, is, add.0 added)
        | inr (inl (e, is, missing, added)) ↦ inr (inl (e, is, missing, add.0 added))
        | inr (inr kept) ↦ inr (inr kept)
      ]),
      λ h. cases.1 (elim h [
        | inl (body, is, added) ↦ inl (body, is, add.1 added)
        | inr (inl (e, is, missing, added)) ↦ inr (inl (e, is, missing, add.1 added))
        | inr (inr kept) ↦ inr (inr kept)
      ]),
    )
