-- ===== src/Params/Effective.antt =====
-- GetEffectiveParams of business/domain/db_cluster_base.go: the parameters that take effect, from
-- the running values, the user's values and the template.
pub mod Loops
pub mod Restarts
pub mod Results
pub mod Defects
use polar_db_stack_common.Common.{
  ◌≡◌, Bool, true, false, not, ◌&&◌, ◌||◌, List, [], ◌∷◌, ◌++◌, Option, none, some, if◌then◌else◌,
}
use polar_db_stack_common.Common.Int.{ℤ, pos, eqb_ℤ}
use polar_db_stack_common.Common.Text.{Text, text_eq, text_lt}
use polar_db_stack_common.Common.Dict.{Dict, lookup, insert, has_key, text_at}
use polar_db_stack_common.Common.Outcome.{Outcome, ok, err, ◌>>=◌}
use polar_db_stack_common.Params.Slice.{contains_string}
use polar_db_stack_common.Params.Template.{
  ParamTemplateItem, ParamsTemplate, TemplateError, get_class_params_template, get_template_param,
}
use polar_db_stack_common.Params.Item.{
  ParamItem, ChangedParamItemValue, ignore_params, ignore_template_params,
}
use polar_db_stack_common.Params.Quote.{get_running_param_quota_value}

-- The variables of the function.
pub record Progress : Type 0 where
  pub result : Dict Text
  pub changed : Bool
  pub need_restart : Bool
  pub changed_params : Dict ChangedParamItemValue

pub data EffectiveError : Type 0 where
  template_failed : TemplateError → EffectiveError
  repository_failed : Text → EffectiveError
  -- the panic at `userParamValue.Value`, where the map had no such key
  nil_dereference : EffectiveError

abbrev pub ignored : Text → Bool
ignored key = contains_string ignore_params key none

-- `paramNeedRestart`: a parameter that is not in the template always needs a restart.
unfoldable pub param_need_restart : Option ParamTemplateItem → Bool
param_need_restart none = true
param_need_restart (some item) = eqb_ℤ item.is_dynamic (pos 0)

abbrev pub regex_of : Option ParamTemplateItem → Text
regex_of none = []
regex_of (some item) = item.optional

-- A changed value: the result, the two flags, and the record of the change.
unfoldable pub record_change : Text → Text → Text → Bool → Progress → Progress
record_change key old_value new_value restart st = record {
  result = insert key new_value st.result;
  changed = true;
  need_restart = if restart then true else st.need_restart;
  changed_params =
      insert key (record { old_value = old_value; new_value = new_value; need_restart = restart })
        st.changed_params;
}

unfoldable pub set_result : Text → Text → Progress → Progress
set_result key value st = record st { result = insert key value st.result }

module _ (template_params : List ParamTemplateItem) where
  -- The case of a value that waits for a restart. A running parameter that the user's map lacks has
  -- a nil pointer here.
  unfoldable pub take_inoperative :
      Text → Option ParamItem → ParamItem → Progress → Outcome EffectiveError Progress
  take_inoperative key none running st = err nil_dereference
  take_inoperative key (some user) running st =
      let item = get_template_param key template_params in
      ok (
        record_change key running.value
          (get_running_param_quota_value user.value running.inoperative (regex_of item))
          (param_need_restart item) st)

  -- `inoperative && userParams != nil && runningParamValue.Inoperative != ""`
  abbrev pub if_inoperative :
      Bool → Bool → Text → Option ParamItem → ParamItem → Progress → Outcome EffectiveError Progress
  if_inoperative inoperative has_user_params key user running st =
      if inoperative && has_user_params && not (text_eq running.inoperative [])
      then take_inoperative key user running st
      else ok st

  -- The user's value was set after the running one.
  unfoldable pub take_user : Text → Text → ParamItem → ParamItem → Progress → Progress
  take_user latest_flush_time key user running st =
      if not (text_eq latest_flush_time []) && text_lt user.update_time latest_flush_time
      then set_result key user.value st
      else record_change key running.value user.value
          (param_need_restart (get_template_param key template_params)) st

  -- One round of the first loop, with the user's entry for the key.
  unfoldable pub take_running :
      Bool
      → Bool
      → Text
      → Text
      → Option ParamItem
      → ParamItem
      → Progress
      → Outcome EffectiveError Progress
  take_running inoperative has_user_params latest_flush_time key none running st =
      if_inoperative inoperative has_user_params key none running st
  take_running inoperative has_user_params latest_flush_time key (some user) running st =
      if text_lt running.update_time user.update_time
      then ok (take_user latest_flush_time key user running st)
      else if not inoperative || (inoperative && text_eq running.inoperative [])
      then ok (
          set_result key
            (get_running_param_quota_value user.value running.value
              (regex_of (get_template_param key template_params)))
            st)
      else if_inoperative inoperative has_user_params key (some user) running st

  -- The first loop, over the running parameters.
  unfoldable pub merge_running :
      Bool
      → Bool
      → Text
      → Dict ParamItem
      → Dict ParamItem
      → Progress
      → Outcome EffectiveError Progress
  merge_running inoperative has_user_params latest_flush_time user_params [] st = ok st
  merge_running inoperative has_user_params latest_flush_time user_params ((key, running) ∷ rest)
        st =
      do
        st' ←
            (if ignored key
              then ok st
              else take_running inoperative has_user_params latest_flush_time key
                  (lookup key user_params) running st)
        merge_running inoperative has_user_params latest_flush_time user_params rest st'

  -- One round of the third loop: a user's value that is not in the result takes effect.
  unfoldable pub add_user : Text → ParamItem → Progress → Progress
  add_user key user st =
      if ignored key
      then st
      else if has_key key st.result
      then st
      else record_change key [] user.value
          (param_need_restart (get_template_param key template_params)) st

  unfoldable pub add_users : Dict ParamItem → Progress → Progress
  add_users [] st = st
  add_users ((key, user) ∷ rest) st = add_users rest (add_user key user st)

unfoldable pub need_override : Bool → ParamTemplateItem → Text → Bool
need_override can_update_not_changeable_params item value =
    not can_update_not_changeable_params
    && eqb_ℤ item.is_user_changeable (pos 0)
    && eqb_ℤ item.is_deleted (pos 0)
    && not (text_eq value item.default_value)
    && not (contains_string ignore_template_params item.name none)

-- One round of the second loop. The recorded old value is read after the result is overwritten.
unfoldable pub override_item : Bool → ParamTemplateItem → Progress → Progress
override_item can_update_not_changeable_params item st =
    if has_key item.name st.result
    then if need_override can_update_not_changeable_params item (text_at item.name st.result)
      then record_change item.name
          (text_at item.name (insert item.name item.default_value st.result)) item.default_value
          (eqb_ℤ item.is_dynamic (pos 0)) st
      else st
    else st

unfoldable pub override_items : Bool → List ParamTemplateItem → Progress → Progress
override_items can_update_not_changeable_params [] st = st
override_items can_update_not_changeable_params (item ∷ items) st =
    override_items can_update_not_changeable_params items
      (override_item can_update_not_changeable_params item st)

abbrev pub start : Progress
start = record { result = []; changed = false; need_restart = false; changed_params = [] }

abbrev pub entries : Option (Dict ParamItem) → Dict ParamItem
entries none = []
entries (some d) = d

abbrev pub is_some : Option (Dict ParamItem) → Bool
is_some none = false
is_some (some d) = true

-- The loops, over a template that is loaded and maps that are read.
unfoldable pub merge_params :
    Bool
    → Bool
    → List ParamTemplateItem
    → Option (Dict ParamItem)
    → Text
    → Dict ParamItem
    → Outcome EffectiveError Progress
merge_params inoperative can_update template_params user_params latest_flush_time running_params =
    do
      st ←
          merge_running template_params inoperative (is_some user_params) latest_flush_time
            (entries user_params) running_params start
      ok (
          add_users template_params (entries user_params)
            (override_items can_update template_params st))

abbrev of_template {ℓ} : {A : Type ℓ} → Outcome TemplateError A → Outcome EffectiveError A
of_template (ok a) = ok a
of_template (err e) = err (template_failed e)

abbrev of_repository {ℓ} : {A : Type ℓ} → Outcome Text A → Outcome EffectiveError A
of_repository (ok a) = ok a
of_repository (err e) = err (repository_failed e)

-- `GetEffectiveParams`: the template, then the user's parameters with the time of the last flush,
-- then the running parameters, as the repositories answer.
unfoldable pub get_effective_params :
    Bool
    → Bool
    → Outcome TemplateError ParamsTemplate
    → Outcome Text (Option (Dict ParamItem) × Text)
    → Outcome Text (Dict ParamItem)
    → Outcome EffectiveError Progress
get_effective_params inoperative can_update template user_params running_params = do
  params_template ← of_template template
  let template_params = get_class_params_template params_template
  user ← of_repository user_params
  running ← of_repository running_params
  merge_params inoperative can_update template_params user.0 user.1 running
