-- ===== src/Params/UserParams.antt =====
-- GetEffectiveUserParams of business/domain/db_cluster_base.go, and updateUserParams of
-- business/adapter/engine_params_repository.go, which writes its result back.
pub mod Overrides
pub mod Update
use polar_db_stack_common.Common.{
  ◌≡◌, Bool, true, false, not, ◌&&◌, ◌||◌, List, [], ◌∷◌, Option, none, some, if◌then◌else◌,
}
use polar_db_stack_common.Common.Int.{ℤ, pos, eqb_ℤ}
use polar_db_stack_common.Common.Text.{Text, text_eq}
use polar_db_stack_common.Common.Dict.{Dict, lookup, insert, has_key, text_at}
use polar_db_stack_common.Common.Outcome.{Outcome, ok, err, ◌>>=◌}
use polar_db_stack_common.Params.Template.{
  ParamTemplateItem, ParamsTemplate, TemplateError, get_class_params_template,
}
use polar_db_stack_common.Params.Item.{ParamItem}
use polar_db_stack_common.Params.Effective.{
  EffectiveError, template_failed, repository_failed, need_override,
}

pub record EffectiveUserParamValue : Type 0 where
  pub value : Text
  pub need_flush : Bool
  pub running_update_time : Text

pub record UserProgress : Type 0 where
  pub result : Dict EffectiveUserParamValue
  pub changed : Bool
  pub need_restart : Bool

-- What the loop over the template reads besides its own variables.
pub record Situation : Type 0 where
  pub reset_class_changeable_value : Bool
  pub can_update_not_changeable_params : Bool
  pub old_class_key : Text
  pub new_class_key : Text
  pub new_class_params : Dict Text
  pub running_params : Dict ParamItem
  -- the answer of the query for the old class, which is asked only on a change of the class
  pub old_class_params : Outcome Text (Dict Text)

abbrev pub class_changes : Situation → Bool
class_changes s =
    not (text_eq s.old_class_key s.new_class_key)
    && not (text_eq s.new_class_key [])
    && not (text_eq s.old_class_key [])

-- The user's value of an item, empty where there is none.
abbrev pub value_or_empty : Option EffectiveUserParamValue → Text
value_or_empty none = []
value_or_empty (some v) = v.value

-- `needOverride2`: a class parameter that the call resets.
unfoldable pub resets : Situation → ParamTemplateItem → Text → Bool
resets s item v =
    has_key item.name s.new_class_params
    && s.reset_class_changeable_value
    && eqb_ℤ item.is_user_changeable (pos 1)
    && not (text_eq v (text_at item.name s.new_class_params))

-- `needOverride3`: the value is the old class's default, and the new class has another.
unfoldable pub follows_class : Situation → Dict Text → ParamTemplateItem → Text → Bool
follows_class s old item v =
    has_key item.name old
    && eqb_ℤ item.is_user_changeable (pos 1)
    && text_eq v (text_at item.name old)
    && not (text_eq v (text_at item.name s.new_class_params))

-- The three tests together; the old class's parameters are those of the class change, if any.
abbrev pub overrides : Situation → Option (Dict Text) → ParamTemplateItem → Text → Bool
overrides s none item v = need_override s.can_update_not_changeable_params item v || resets s item v
overrides s (some old) item v =
    need_override s.can_update_not_changeable_params item v
    || resets s item v
    || follows_class s old item v

-- Where the template's value runs already, nothing has to be flushed and its time is kept.
unfoldable pub override_value : Situation → ParamTemplateItem → EffectiveUserParamValue
override_value s item = elim (lookup item.name s.running_params) [
  | none ↦ record { value = item.default_value; need_flush = true; running_update_time = [] }
  | some running ↦
      if text_eq item.default_value running.value
      then record {
        value = item.default_value;
        need_flush = false;
        running_update_time = running.update_time;
      }
      else record { value = item.default_value; need_flush = true; running_update_time = [] }
]

-- One round, with the old class's parameters at hand.
unfoldable pub override_user :
    Situation → Option (Dict Text) → ParamTemplateItem → UserProgress → UserProgress
override_user s old item st =
    if overrides s old item (value_or_empty (lookup item.name st.result))
    then record {
      result = insert item.name (override_value s item) st.result;
      changed = true;
      need_restart =
          if eqb_ℤ item.is_dynamic (pos 0) && (override_value s item).need_flush
          then true
          else st.need_restart;
    }
    else st

unfoldable pub override_all :
    Situation → Option (Dict Text) → List ParamTemplateItem → UserProgress → UserProgress
override_all s old [] st = st
override_all s old (item ∷ items) st = override_all s old items (override_user s old item st)

-- The loop over the template. On a change of the class the first round asks for the old class's
-- parameters, and an error ends the function.
unfoldable pub override_loop :
    Situation → List ParamTemplateItem → UserProgress → Outcome EffectiveError UserProgress
override_loop s [] st = ok st
override_loop s (item ∷ items) st =
    if class_changes s
    then elim s.old_class_params [
      | err e ↦ err (repository_failed e)
      | ok old ↦ ok (override_all s (some old) (item ∷ items) st)
    ]
    else ok (override_all s none (item ∷ items) st)

-- The user's values, each to be flushed.
unfoldable pub user_values :
    Dict ParamItem → Dict EffectiveUserParamValue → Dict EffectiveUserParamValue
user_values [] result = result
user_values ((key, user) ∷ rest) result =
    user_values rest (
      insert key (record { value = user.value; need_flush = true; running_update_time = [] })
        result)

abbrev of_repository {ℓ} : {A : Type ℓ} → Outcome Text A → Outcome EffectiveError A
of_repository (ok a) = ok a
of_repository (err e) = err (repository_failed e)

abbrev of_template {ℓ} : {A : Type ℓ} → Outcome TemplateError A → Outcome EffectiveError A
of_template (ok a) = ok a
of_template (err e) = err (template_failed e)

-- The answers of the repositories, in the order in which they are asked.
pub record Answers : Type 0 where
  pub user_params : Outcome Text (Dict ParamItem)
  pub new_class_params : Outcome Text (Dict Text)
  pub running_params : Outcome Text (Dict ParamItem)
  pub template : Outcome TemplateError ParamsTemplate
  pub old_class_params : Outcome Text (Dict Text)

-- `GetEffectiveUserParams`; a cluster without OldClassInfo has the empty old class key.
unfoldable pub get_effective_user_params :
    Bool → Bool → Option Text → Text → Answers → Outcome EffectiveError UserProgress
get_effective_user_params reset can_update old_class new_class a = do
  user_params ← of_repository a.user_params
  new_class_params ← of_repository a.new_class_params
  running_params ← of_repository a.running_params
  let result = user_values user_params []
  params_template ← of_template a.template
  override_loop
      (record {
        reset_class_changeable_value = reset;
        can_update_not_changeable_params = can_update;
        old_class_key = elim old_class [ none ↦ [] | some key ↦ key ];
        new_class_key = new_class;
        new_class_params = new_class_params;
        running_params = running_params;
        old_class_params = a.old_class_params;
      })
      (get_class_params_template params_template)
      (record { result = result; changed = false; need_restart = false })

-- The JSON form of an item, as encoding/json reads and writes it.
module _ (unmarshal : Text → Option ParamItem) (marshal : ParamItem → Text) (now : Text) where
  -- One entry of the config map: dropped, kept, or written anew; the flag says whether it changed.
  unfoldable pub update_entry :
      Dict EffectiveUserParamValue → Text → Text → Outcome Text (Option Text × Bool)
  update_entry user_params key text = elim (lookup key user_params) [
    | none ↦ ok (none, true)
    | some wanted ↦ elim (unmarshal text) [
      | none ↦ err text
      | some entity ↦
          if text_eq wanted.value entity.value
          then ok (some text, false)
          else ok (
            some (
                marshal (record entity {
                  value = wanted.value;
                  update_time = if wanted.need_flush then now else wanted.running_update_time;
                })),
            true,
          )
    ]
  ]

  abbrev pub keep_entry : Text → Option Text → Dict Text → Dict Text
  keep_entry key none rest = rest
  keep_entry key (some text) rest = (key, text) ∷ rest

  -- The loop over the config map: the new contents, and whether an update is sent.
  unfoldable pub update_entries :
      Dict EffectiveUserParamValue → Dict Text → Outcome Text (Dict Text × Bool)
  update_entries user_params [] = ok ([], false)
  update_entries user_params ((key, text) ∷ contents) = do
    entry ← update_entry user_params key text
    rest ← update_entries user_params contents
    ok (keep_entry key entry.0 rest.0, entry.1 || rest.1)

  -- `updateUserParams`: what the config map holds afterwards, if the API server takes the update.
  unfoldable pub update_user_params :
      Dict EffectiveUserParamValue
      → Outcome Text (Dict Text)
      → (Dict Text → Bool)
      → Outcome Text (Dict Text)
  update_user_params user_params stored accepts = do
    contents ← stored
    r ← update_entries user_params contents
    if r.1 then (if accepts r.0 then ok r.0 else err []) else ok contents
