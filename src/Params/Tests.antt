-- ===== src/Params/Tests.antt =====
-- Runs of the parameter functions: a template of one dynamic and one fixed parameter.
use polar_db_stack_common.Common.{
  ◌≡◌, ◌≢◌, refl, ◌⊎◌, true, false, List, [], ◌∷◌, ◌++◌, length, Option, none, some, arith,
}
use polar_db_stack_common.Common.Int.{pos}
use polar_db_stack_common.Common.Text.{Text, codes, IsFree, take, drop, take-append}
use polar_db_stack_common.Common.Dict.{Dict, lookup}
use polar_db_stack_common.Common.Outcome.{ok}
use polar_db_stack_common.Params.Slice.{contains_string, either}
use polar_db_stack_common.Params.Template.{
  get_template_param, ParamTemplateItem, ParamsTemplate, get_class_init_params,
  get_class_params_template,
}
use polar_db_stack_common.Params.Template.Defaults.{
  DistinctNames, default_of, init_params-eq_merged,
}
use polar_db_stack_common.Params.Item.{ParamItem}
use polar_db_stack_common.Params.Effective
use polar_db_stack_common.Params.Effective.{
  Progress, EffectiveError, nil_dereference, ignored, need_override, override_item, merge_running,
  add_users, override_items, add_user, take_running, take_user, take_inoperative, set_result,
  record_change, param_need_restart,
}
use polar_db_stack_common.Params.Effective.Results.{expected_value, effective_values}
use polar_db_stack_common.Params.UserParams.{
  EffectiveUserParamValue, Situation, UserProgress, override_all, update_entries, update_entry,
}
use polar_db_stack_common.Params.UserParams.Overrides.{item_of, Result, each_param_by_itself}
use polar_db_stack_common.Params.UserParams.Update.{HasWanted, update_entries-wanted}
use polar_db_stack_common.Params.Repository.{
  SaveAnswers, first_error, create_after_delete, create_params_config_map,
  get_params_config_map_values,
}
use polar_db_stack_common.Params.Repository.RoundTrip.{item_value, saved_params-read}

abbrev item : Text → Text → ParamTemplateItem
item name value = record {
  name = name;
  default_value = value;
  is_dynamic = pos 0;
  is_visible = pos 1;
  is_user_changeable = pos 0;
  optional = [];
  unit = [];
  divide_base = [];
  is_deleted = pos 0;
  comment = [];
}

abbrev fixed : Text
fixed = codes "fixed"

abbrev items : List ParamTemplateItem
items = item fixed (codes "1") ∷ []

abbrev param : Text → Text → Text → ParamItem
param name value time = record { name = name; value = value; update_time = time; inoperative = [] }

abbrev users : Dict ParamItem
users = (fixed, param fixed (codes "2") (codes "t2")) ∷ []

abbrev running : Dict ParamItem
running = (fixed, param fixed (codes "3") (codes "t1")) ∷ []

items-DistinctNames : DistinctNames items
unfolding default_of
items-DistinctNames = (refl, tt)

effective_values_example :
    (st : Progress) × (Effective.merge_params false false items (some users) [] running ≡ ok st)
    × (lookup fixed st.result
        ≡ expected_value false items fixed (lookup fixed running) (lookup fixed users))
effective_values_example =
    effective_values false items users [] fixed running (refl, tt) (refl, tt) items-DistinctNames

overriding : need_override false (item fixed (codes "1")) (codes "2") ≡ true
unfolding need_override contains_string
overriding = refl

not_ignored : ignored (codes "w") ≡ false
unfolding contains_string
not_ignored = refl

one_line : IsFree 10 (codes "a")
one_line = (ground arith, tt)

abbrev overridden_progress : Progress
overridden_progress = record {
  result = (fixed, codes "2") ∷ [];
  changed = true;
  need_restart = true;
  changed_params = [];
}

abbrev waiting : ParamItem
waiting = record (param (codes "w") (codes "3") []) { inoperative = codes "4" }

waiting_value : waiting.inoperative ≢ []
waiting_value = λ e. cc e

abbrev situation : Situation
situation = record {
  reset_class_changeable_value = false;
  can_update_not_changeable_params = false;
  old_class_key = [];
  new_class_key = codes "small";
  new_class_params = [];
  running_params = running;
  old_class_params = ok [];
}

abbrev wanted : EffectiveUserParamValue
wanted = record { value = codes "2"; need_flush = true; running_update_time = [] }

abbrev user_progress : UserProgress
user_progress = record { result = (fixed, wanted) ∷ []; changed = false; need_restart = false }

each_param_by_itself_example :
    Result situation none
      (item_of fixed items)
      (lookup fixed user_progress.result)
      (lookup fixed (override_all situation none items user_progress).result)
each_param_by_itself_example =
    each_param_by_itself situation none items user_progress fixed (refl, tt)

-- A text form of an item for a round trip: every field after its length.
abbrev encode : Text → Text → Text
encode s rest = length s ∷ (s ++ rest)

abbrev decode : Text → Text × Text
decode [] = ([], [])
decode (n ∷ t) = (take n t, drop n t)

drop-length : (s t : Text) → drop (length s) (s ++ t) ≡ t
drop-length [] t = refl
drop-length (c ∷ s) t = drop-length s t

decode-encode : (s rest : Text) → decode (encode s rest) ≡ (s, rest)
decode-encode s rest = ground (arith, take-append s rest, drop-length s rest)

abbrev marshal : ParamItem → Text
marshal i = encode i.name (encode i.value (encode i.update_time (encode i.inoperative [])))

abbrev unmarshal : Text → Option ParamItem
unmarshal t =
    let a = decode t in
    let b = decode a.1 in
    let c = decode b.1 in
    let d = decode c.1 in
    some (record { name = a.0; value = b.0; update_time = c.0; inoperative = d.0 })

round_trip : (i : ParamItem) → unmarshal (marshal i) ≡ some i
round_trip i = ground (
  arith,
  decode-encode i.name (encode i.value (encode i.update_time (encode i.inoperative []))),
  decode-encode i.value (encode i.update_time (encode i.inoperative [])),
  decode-encode i.update_time (encode i.inoperative []),
  decode-encode i.inoperative [],
)

abbrev stored_params : Dict Text
stored_params = (fixed, marshal (param fixed (codes "3") (codes "t1"))) ∷ (codes "old", []) ∷ []

abbrev now : Text
now = codes "t3"

updated :
    update_entries unmarshal marshal now ((fixed, wanted) ∷ []) stored_params
    ≡ ok ((fixed, marshal (param fixed (codes "2") now)) ∷ [], true)
unfolding update_entries update_entry
updated = refl

update_entries-wanted_example :
    ((lookup fixed ((fixed, marshal (param fixed (codes "2") now)) ∷ []) ≡ none)
      × ((lookup fixed stored_params ≡ none) ⊎ (lookup fixed ((fixed, wanted) ∷ []) ≡ none)))
    ⊎ (((old : Text) × (lookup fixed stored_params ≡ some old))
        × HasWanted unmarshal marshal now
            ((fixed, wanted) ∷ [])
            fixed
            (lookup fixed ((fixed, marshal (param fixed (codes "2") now)) ∷ [])))
update_entries-wanted_example =
    update_entries-wanted unmarshal marshal now ((fixed, wanted) ∷ []) stored_params
      ((fixed, marshal (param fixed (codes "2") now)) ∷ []) true fixed round_trip (refl, (refl, tt))
      updated

abbrev template : ParamsTemplate
template = record {
  engine_type = codes "Rwo";
  class_key = codes "small";
  template_params = items;
  class_params = (fixed, codes "5") ∷ [];
  merged_template_params = [];
}

init_params-eq_merged_example :
    (lookup fixed (get_class_init_params template)
      ≡ default_of fixed (get_class_params_template template))
    × (lookup fixed (get_class_init_params template)
        ≡ either (lookup fixed template.class_params) (default_of fixed template.template_params))
init_params-eq_merged_example = init_params-eq_merged template fixed (refl, tt) items-DistinctNames

abbrev restarted : Progress
restarted = record {
  result = (fixed, codes "2") ∷ [];
  changed = true;
  need_restart = true;
  changed_params =
      (fixed, record { old_value = codes "3"; new_value = codes "2"; need_restart = true }) ∷ [];
}

merged : Effective.merge_params false true items (some users) [] running ≡ ok restarted
unfolding Effective.merge_params merge_running take_running take_user record_change
    param_need_restart get_template_param contains_string override_items override_item need_override
    add_users add_user set_result
merged = refl

abbrev no_errors : SaveAnswers
no_errors = record {
  reads = true;
  delete_error = none;
  resource_error = none;
  owner_error = none;
  create_error = none;
}

abbrev saved : Dict Text
saved = (fixed, codes "1") ∷ []

abbrev times : Text → Text
times key = now

was_saved :
    (create_params_config_map unmarshal marshal times no_errors saved (some stored_params)).0
    ≡ ok tt
unfolding create_params_config_map create_after_delete
was_saved = refl

saved_params-read_example :
    (read : Dict ParamItem) × (get_params_config_map_values unmarshal marshal times
        (create_params_config_map unmarshal marshal times no_errors saved (some stored_params)).1
      ≡ ok read)
    × ((k : Text) → lookup k read ≡ item_value times k (lookup k saved))
saved_params-read_example =
    saved_params-read unmarshal marshal times no_errors saved (some stored_params) round_trip
      was_saved

abbrev no_owner : SaveAnswers
no_owner = record no_errors { owner_error = some (codes "no owner") }

owner_fails :
    first_error no_owner.resource_error (first_error no_owner.owner_error no_owner.create_error)
    ≢ none
owner_fails = λ e. cc e
