-- ===== src/Remote/ClusterManager/Pods/Upgrade.antt =====
-- UpgradeVersion of business/adapter/cluster_manager_client.go: the deployment that it writes.
use polar_db_stack_common.Common.{
  ◌≡◌, inl, inr, refl, Bool, false, ◌&&◌, List, [], ◌∷◌, map, none, some, if◌then◌else◌, any, arith,
  Bool-cases,
}
use polar_db_stack_common.Common.Text.{Text, codes, text_eq}
use polar_db_stack_common.Common.Outcome.{ok}
use polar_db_stack_common.Remote.ClusterManager.Pods.Objects.{
  Container, Deployment, PodCall, get_deployment, update_deployment, Kube,
}
use polar_db_stack_common.Remote.ClusterManager.Pods.{
  is_manager, upgrade_containers, update_result, upgrade_cm_deploy,
}

-- A manager's container that has the image already.
abbrev pub has_image : Text → Container → Bool
has_image cm_image c = is_manager c && text_eq c.image cm_image

abbrev pub set_image : Text → Container → Container
set_image cm_image c = if is_manager c then record c { image = cm_image } else c

-- The deployment with the image in every container of the manager, and in these alone.
abbrev pub upgraded : Text → Deployment → Deployment
upgraded cm_image d =
    if any is_manager d.containers
    then record {
      containers = map (set_image cm_image) d.containers;
      strategy = codes "Recreate";
      rolling_update = none;
    }
    else d

upgrade_containers-map :
    (cm_image : Text) (cs : List Container)
    → upgrade_containers cm_image cs
      ≡ (if any (has_image cm_image) cs then none else some (map (set_image cm_image) cs))
unfolding upgrade_containers
upgrade_containers-map cm_image [] = refl
upgrade_containers-map cm_image (c ∷ cs) =
    let rest = upgrade_containers-map cm_image cs in
    elim (Bool-cases (is_manager c)) [
      | inl m ↦ elim (Bool-cases (text_eq c.image cm_image)) [
        | inl h ↦ ground (arith, m, h)
        | inr h ↦ elim (Bool-cases (any (has_image cm_image) cs)) [
          | inl r ↦ ground (arith, m, h, r, rest)
          | inr r ↦ ground (arith, m, h, r, rest)
        ]
      ]
      | inr m ↦ elim (Bool-cases (any (has_image cm_image) cs)) [
        | inl r ↦ ground (arith, m, r, rest)
        | inr r ↦ ground (arith, m, r, rest)
      ]
    ]

no_manager-map :
    (cm_image : Text) (cs : List Container)
    → any is_manager cs ≡ false
    → map (set_image cm_image) cs ≡ cs
no_manager-map cm_image [] h = refl
no_manager-map cm_image (c ∷ cs) h =
    let rest = no_manager-map cm_image cs in ground (arith, h, rest)

-- UpgradeVersion, where the deployment is read: if no container of the manager has the image yet, it
-- writes the deployment with the image in every container of the manager and in no other one, and with
-- the strategy Recreate where there is such a container, and returns what the update returns; if one of
-- them has it, UpgradeVersion returns nil without an update, also where others have not.
pub upgrade_cm_deploy-upgraded :
    (k : Kube) (cm_image : Text) (d : Deployment) (log : List PodCall)
    → k.deployment log ≡ ok d
    → upgrade_cm_deploy k cm_image log ≡ (
        if any (has_image cm_image) d.containers
        then some (ok tt, get_deployment ∷ log)
        else some (
          update_result (k.updated (get_deployment ∷ log)),
          update_deployment (upgraded cm_image d) ∷ (get_deployment ∷ log),
        ))
unfolding upgrade_cm_deploy
upgrade_cm_deploy-upgraded k cm_image d log read =
    let loop = upgrade_containers-map cm_image d.containers in
    elim (Bool-cases (any (has_image cm_image) d.containers)) [
      | inl h ↦ ground (arith, h, loop, read)
      | inr h ↦ elim (Bool-cases (any is_manager d.containers)) [
        | inl m ↦ ground (arith, h, m, loop, read)
        | inr m ↦ ground (arith, h, m, loop, read, no_manager-map cm_image d.containers m)
      ]
    ]
