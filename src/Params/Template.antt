-- ===== src/Params/Template.antt =====
-- business/domain/engine_params_template.go: the parameter template, and the template with the
-- defaults of a class put in. The items of the merged template are fresh copies in the source, so
-- values stand for the pointers. The queries are the repositories that the code is given.
pub mod Defaults
use polar_db_stack_common.Common.{
  ◌≡◌, Bool, true, false, List, [], ◌∷◌, ◌++◌, Option, none, some, if◌then◌else◌,
}
use polar_db_stack_common.Common.Int.{ℤ, pos}
use polar_db_stack_common.Common.Text.{Text, text_eq}
use polar_db_stack_common.Common.Dict.{Dict, lookup, insert}
use polar_db_stack_common.Common.Outcome.{Outcome, ok, err, ◌>>=◌}
use polar_db_stack_common.Params.Slice.{copy_into}

pub record ParamTemplateItem : Type 0 where
  pub name : Text
  pub default_value : Text
  pub is_dynamic : ℤ
  pub is_visible : ℤ
  pub is_user_changeable : ℤ
  pub optional : Text
  pub unit : Text
  pub divide_base : Text
  pub is_deleted : ℤ
  pub comment : Text

pub record ParamsTemplate : Type 0 where
  pub engine_type : Text
  pub class_key : Text
  pub template_params : List ParamTemplateItem
  pub class_params : Dict Text
  pub merged_template_params : List ParamTemplateItem

pub data TemplateError : Type 0 where
  template_query_nil class_query_nil : TemplateError
  query_failed : Text → TemplateError

-- The inner loop: the first item of the name gets the value; the flag is `haveItem`.
unfoldable pub set_default : Text → Text → List ParamTemplateItem → List ParamTemplateItem × Bool
set_default k v [] = ([], false)
set_default k v (item ∷ items) =
    let (rest, have_item) = set_default k v items in
    if text_eq item.name k
    then (record item { default_value = v } ∷ items, true)
    else (item ∷ rest, have_item)

-- A parameter of the class that the template lacks is one that nobody may change.
abbrev pub class_item : Text → Text → ParamTemplateItem
class_item k v = record {
  name = k;
  default_value = v;
  is_dynamic = pos 1;
  is_visible = pos 0;
  is_user_changeable = pos 0;
  optional = [];
  unit = [];
  divide_base = [];
  is_deleted = pos 0;
  comment = [];
}

unfoldable pub merge_param : Text → Text → List ParamTemplateItem → List ParamTemplateItem
merge_param k v items =
    let (changed, have_item) = set_default k v items in
    if have_item then changed else items ++ (class_item k v ∷ [])

unfoldable pub merge_params : Dict Text → List ParamTemplateItem → List ParamTemplateItem
merge_params [] items = items
merge_params ((k, v) ∷ class_params) items = merge_params class_params (merge_param k v items)

unfoldable pub get_class_params_template : ParamsTemplate → List ParamTemplateItem
get_class_params_template t = merge_params t.class_params t.template_params

unfoldable pub default_values : List ParamTemplateItem → Dict Text → Dict Text
default_values [] result = result
default_values (param ∷ params) result =
    default_values params (insert param.name param.default_value result)

unfoldable pub get_params_template_default_values : ParamsTemplate → Dict Text
get_params_template_default_values t = default_values t.template_params []

-- The values of the class are put over the defaults of the template.
unfoldable pub get_class_init_params : ParamsTemplate → Dict Text
get_class_init_params t = copy_into t.class_params (get_params_template_default_values t)

-- `getTemplateParam` of db_cluster_base.go
unfoldable pub get_template_param : Text → List ParamTemplateItem → Option ParamTemplateItem
get_template_param param_name [] = none
get_template_param param_name (item ∷ items) =
    if text_eq item.name param_name then some item else get_template_param param_name items

-- `query_failed` carries what a query reports.
abbrev of_query {ℓ} : {A : Type ℓ} → Outcome Text A → Outcome TemplateError A
of_query (ok a) = ok a
of_query (err e) = err (query_failed e)

abbrev pub TemplateQuery : Type 0
TemplateQuery = Text → Outcome Text (List ParamTemplateItem)

abbrev pub ClassParamsQuery : Type 0
ClassParamsQuery = Text → Text → Outcome Text (Dict Text)

-- `load`
load : ParamsTemplate → TemplateQuery → ClassParamsQuery → Outcome TemplateError ParamsTemplate
load t template_query class_query = do
  template_params ← of_query (template_query t.engine_type)
  let t₁ = record t { template_params = template_params }
  class_params ← of_query (class_query t.engine_type t.class_key)
  let t₂ = record t₁ { class_params = class_params }
  ok (record t₂ { merged_template_params = get_class_params_template t₂ })

-- A query may be nil.
unfoldable pub new_params_template :
    Text
    → Text
    → Option TemplateQuery
    → Option ClassParamsQuery
    → Outcome TemplateError ParamsTemplate
unfolding load
new_params_template engine_type class_key none class_query = err template_query_nil
new_params_template engine_type class_key (some template_query) none = err class_query_nil
new_params_template engine_type class_key (some template_query) (some class_query) =
    load
      (record {
        engine_type = engine_type;
        class_key = class_key;
        template_params = [];
        class_params = [];
        merged_template_params = [];
      })
      template_query class_query
