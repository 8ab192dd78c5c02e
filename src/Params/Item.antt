-- ===== src/Params/Item.antt =====
-- business/domain/engine_param.go, and the lists of ignored names in define/constant.go.
use polar_db_stack_common.Common.{Bool, List, [], ◌∷◌}
use polar_db_stack_common.Common.Text.{Text, codes}

pub record ParamItem : Type 0 where
  pub name : Text
  pub value : Text
  pub update_time : Text
  pub inoperative : Text

pub record ChangedParamItemValue : Type 0 where
  pub old_value : Text
  pub new_value : Text
  pub need_restart : Bool

abbrev pub ignore_template_params : List Text
ignore_template_params =
    codes "ssl" ∷ codes "ssl_cert_file" ∷ codes "ssl_key_file" ∷ codes "listen_addresses" ∷ []

abbrev pub ignore_params : List Text
ignore_params = codes "log_line_prefix" ∷ []
