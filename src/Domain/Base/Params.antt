-- ===== src/Domain/Base/Params.antt =====
-- InitEngineParams and FlushParams of business/domain/db_cluster_base.go: what the parameter store
-- and the engine hold afterwards.
use polar_db_stack_common.Common.Text.{Text}
use polar_db_stack_common.Common.Outcome.{Outcome}
use polar_db_stack_common.Common.Dict.{Dict}
