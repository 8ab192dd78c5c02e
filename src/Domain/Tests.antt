-- ===== src/Domain/Tests.antt =====
-- Runs of the cluster's operations.
use polar_db_stack_common.Common.{◌≡◌, refl, true, false, [], ◌∷◌, Option, none, some, length}
use polar_db_stack_common.Common.Text.{Text, codes}
use polar_db_stack_common.Common.Dict.{Dict}
use polar_db_stack_common.Common.Outcome.{Outcome, ok}
use polar_db_stack_common.Params.Template.{ParamsTemplate, TemplateError}
use polar_db_stack_common.Params.Item.{ParamItem}
use polar_db_stack_common.Params.Effective
use polar_db_stack_common.Params.Effective.{EffectiveError}
use polar_db_stack_common.Engine.Calls.{
  check_health, read_clock, next_tick, manager_set_ins, update_engine_params, restart_engine, Log,
  World,
}
use polar_db_stack_common.Engine.Ins.{DbIns}
use polar_db_stack_common.Domain.Versions.{MinorVersion, VersionQuery, MinorVersions}
use polar_db_stack_common.Domain.Base.{DbClusterBase, query_version}

abbrev version : MinorVersion
version = record { name = codes "v2"; images = [] }

abbrev query : VersionQuery
query = record {
  get_minor_versions =
      λ engine. record { latest = codes "v2"; versions = version ∷ []; failure = none };
  get_latest_minor_version = λ engine. ok version;
  get_minor_version = λ engine name. ok version;
}

abbrev versions : MinorVersions
versions = record {
  engine_type = codes "Rwo";
  latest_version = [];
  minor_versions = [];
  repository = query;
}

abbrev cluster : DbClusterBase
cluster = record {
  inited = true;
  engine_type = codes "Rwo";
  class_name = codes "small";
  resources = [];
  image_info = none;
}

asked : query_version query cluster.engine_type cluster.image_info ≡ ok version
unfolding query_version
asked = refl

abbrev world : World
world = record {
  answer = λ log call. none;
  deleted = λ log. ok false;
  system_identifier = λ log. ok [];
  health = λ log. none;
  install_is_ready = λ log. (true, none);
  now = λ log. length log;
  context_done = λ log. false;
}

abbrev class_template : ParamsTemplate
class_template = record {
  engine_type = codes "Rwo";
  class_key = codes "small";
  template_params = [];
  class_params = [];
  merged_template_params = [];
}

abbrev template : Outcome TemplateError ParamsTemplate
template = ok class_template

abbrev port : Text
port = codes "port"

abbrev user_params : Outcome Text (Option (Dict ParamItem) × Text)
user_params = ok (
  some ((port, record { name = port; value = codes "1"; update_time = []; inoperative = [] }) ∷ []),
  [],
)

abbrev sent : Dict Text
sent = (port, codes "1") ∷ []

abbrev ins : DbIns
ins = record { installed = true; inited = true }

abbrev after_flush : Log
after_flush =
    restart_engine
    ∷ update_engine_params sent
    ∷ check_health
    ∷ read_clock
    ∷ next_tick
    ∷ read_clock
    ∷ manager_set_ins
    ∷ manager_set_ins
    ∷ []
