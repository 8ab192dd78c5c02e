-- ===== src/Domain/Base.antt =====
-- business/domain/db_cluster_base.go: the operations of a cluster that initialise its metadata and
-- its parameters, and those that hand them to an instance. The repositories and clients are the
-- answers that the definitions take.
pub mod Version
pub mod Params
use polar_db_stack_common.Common.{
  ℕ, ◌≡◌, Bool, true, false, not, ◌&&◌, List, [], ◌∷◌, Option, none, some, if◌then◌else◌,
}
use polar_db_stack_common.Common.Text.{Text}
use polar_db_stack_common.Common.Dict.{Dict}
use polar_db_stack_common.Common.Outcome.{Outcome, ok, err, ◌>>=◌, ◌>>◌, require}
use polar_db_stack_common.Domain.Classes.{
  InstanceResource, ClassQuery, ClassError, new_engine_classes, get_class,
}
use polar_db_stack_common.Domain.Versions.{MinorVersion, VersionQuery}
use polar_db_stack_common.Params.Template.{ParamsTemplate, TemplateError, get_class_init_params}
use polar_db_stack_common.Params.Item.{ParamItem}
use polar_db_stack_common.Params.Effective.{EffectiveError, Progress, get_effective_params}
use polar_db_stack_common.Params.UserParams.{
  EffectiveUserParamValue, UserProgress, Answers, get_effective_user_params,
}
use polar_db_stack_common.Engine.Calls.{Log, InsError, World}
use polar_db_stack_common.Engine.Ins.{DbIns, flush_params}

pub data ClusterError : Type 0 where
  -- clusterNotInitError
  cluster_not_init : ClusterError
  class_failed : ClassError → ClusterError
  version_failed : Text → ClusterError
  params_failed : TemplateError → ClusterError
  effective_failed : EffectiveError → ClusterError
  save_failed : Text → ClusterError
  ins_failed : InsError → ClusterError
  client_failed : Text → ClusterError
  nil_dereference : ClusterError

pub record ImageInfo : Type 0 where
  pub version : Text
  pub images : Dict Text

-- The metadata that these operations read and write; `image_info` is `none` for a nil pointer.
pub record DbClusterBase : Type 0 where
  pub inited : Bool
  pub engine_type : Text
  pub class_name : Text
  pub resources : Dict InstanceResource
  pub image_info : Option ImageInfo

abbrev of_class {ℓ} : {A : Type ℓ} → Outcome ClassError A → Outcome ClusterError A
of_class (ok a) = ok a
of_class (err e) = err (class_failed e)

abbrev pub of_version {ℓ} : {A : Type ℓ} → Outcome Text A → Outcome ClusterError A
of_version (ok a) = ok a
of_version (err e) = err (version_failed e)

abbrev of_template {ℓ} : {A : Type ℓ} → Outcome TemplateError A → Outcome ClusterError A
of_template (ok a) = ok a
of_template (err e) = err (params_failed e)

abbrev of_effective {ℓ} : {A : Type ℓ} → Outcome EffectiveError A → Outcome ClusterError A
of_effective (ok a) = ok a
of_effective (err e) = err (effective_failed e)

abbrev pub of_client : Option Text → Outcome ClusterError (Unit {0})
of_client none = ok tt
of_client (some e) = err (client_failed e)

unfoldable pub init_class : Option ClassQuery → DbClusterBase → Outcome ClusterError DbClusterBase
init_class class_query c = do
  require cluster_not_init c.inited
  classes ← of_class (new_engine_classes c.engine_type class_query)
  class ← of_class (get_class classes c.class_name)
  ok (record c { resources = class.resource })

-- `InitVersion`: the latest version where none is given, else the given one.
unfoldable pub query_version : VersionQuery → Text → Option ImageInfo → Outcome Text MinorVersion
query_version query engine_type none = query.get_latest_minor_version engine_type
query_version query engine_type (some image_info) = elim image_info.version [
  | [] ↦ query.get_latest_minor_version engine_type
  | c ∷ version ↦ query.get_minor_version engine_type (c ∷ version)
]

-- The assignments through `dbCluster.ImageInfo`.
abbrev pub assign_version :
    DbClusterBase → Option ImageInfo → MinorVersion → Outcome ClusterError DbClusterBase
assign_version c none version = err nil_dereference
assign_version c (some image_info) version =
    ok (record c { image_info = some (record { version = version.name; images = version.images }) })

unfoldable pub init_version : VersionQuery → DbClusterBase → Outcome ClusterError DbClusterBase
init_version query c = do
  require cluster_not_init c.inited
  version ← of_version (query_version query c.engine_type c.image_info)
  assign_version c c.image_info version

-- What the two config maps of the parameters hold.
pub record ParamStore : Type 0 where
  pub user_params : Option (Dict Text)
  pub running_params : Option (Dict Text)

-- A save that fails is taken to leave the stored parameters as they are.
abbrev save_running :
    Option Text → Dict Text → ParamStore → Outcome ClusterError (Unit {0}) × ParamStore
save_running none params store = (ok tt, record store { running_params = some params })
save_running (some e) params store = (err (save_failed e), store)

abbrev save_both :
    Option Text
    → Option Text
    → Dict Text
    → ParamStore
    → Outcome ClusterError (Unit {0}) × ParamStore
save_both none running_error params store =
    save_running running_error params (record store { user_params = some params })
save_both (some e) running_error params store = (err (save_failed e), store)

abbrev save_init_params :
    Option Text
    → Option Text
    → Outcome TemplateError ParamsTemplate
    → ParamStore
    → Outcome ClusterError (Unit {0}) × ParamStore
save_init_params user_error running_error (err e) store = (err (params_failed e), store)
save_init_params user_error running_error (ok template) store =
    save_both user_error running_error (get_class_init_params template) store

-- `InitEngineParams`, with the errors of SaveUserParams and SaveRunningParams.
unfoldable pub init_engine_params :
    DbClusterBase
    → Outcome TemplateError ParamsTemplate
    → Option Text
    → Option Text
    → ParamStore
    → Outcome ClusterError (Unit {0}) × ParamStore
init_engine_params c template user_error running_error store =
    if c.inited
    then save_init_params user_error running_error template store
    else (err cluster_not_init, store)

-- `ModifyClassParams`: the update is the last step, and only where the parameters change.
unfoldable pub modify_class_params :
    DbClusterBase
    → Bool
    → Option Text
    → Text
    → Answers
    → (Dict EffectiveUserParamValue → Option Text)
    → Outcome ClusterError (Unit {0})
modify_class_params c can_update old_class new_class answers update = do
  require cluster_not_init c.inited
  progress ← of_effective (get_effective_user_params false can_update old_class new_class answers)
  if progress.changed then of_client (update progress.result) else ok tt

-- `InitAccount`: the two accounts, the second only after the first.
unfoldable pub init_account :
    DbClusterBase → Option Text → Option Text → Outcome ClusterError (Unit {0})
init_account c aurora replicator = do
  require cluster_not_init c.inited
  of_client aurora
  of_client replicator

-- `DisableHA` and `EnableHA`: the manager's client is initialised first.
unfoldable pub switch_ha : Option Text → Option Text → Outcome ClusterError (Unit {0})
switch_ha init_error switch_error = do of_client init_error; of_client switch_error

abbrev pub of_ins :
    Option (Outcome InsError (Unit {0}) × Log) → Option (Outcome ClusterError (Unit {0}) × Log)
of_ins none = none
of_ins (some (ok u, log)) = some (ok tt, log)
of_ins (some (err e, log)) = some (err (ins_failed e), log)

abbrev pub flush_progress :
    World
    → DbIns
    → ℕ
    → Outcome EffectiveError Progress
    → Log
    → Option (Outcome ClusterError (Unit {0}) × Log)
flush_progress w ins fuel (err e) log = some (err (effective_failed e), log)
flush_progress w ins fuel (ok progress) log =
    of_ins (flush_params w ins fuel progress.result progress.need_restart log)

-- `FlushParams` of a cluster: the effective parameters are handed to the instance.
unfoldable pub flush_cluster_params :
    World
    → DbClusterBase
    → DbIns
    → ℕ
    → Bool
    → Outcome TemplateError ParamsTemplate
    → Outcome Text (Option (Dict ParamItem) × Text)
    → Outcome Text (Dict ParamItem)
    → Log
    → Option (Outcome ClusterError (Unit {0}) × Log)
flush_cluster_params w c ins fuel can_update template user_params running_params log =
    if c.inited
    then flush_progress w ins fuel
        (get_effective_params false can_update template user_params running_params) log
    else some (err cluster_not_init, log)
