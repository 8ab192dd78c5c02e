-- ===== src/Params/Template/Defaults.antt =====
-- The two ways to the default of a parameter in business/domain/engine_params_template.go agree.
use polar_db_stack_common.Common.{
  ◌≡◌, refl, Bool, true, false, List, [], ◌∷◌, ◌++◌, Option, none, some, arith, if◌then◌else◌,
}
use polar_db_stack_common.Common.Text.{Text, text_eq, text_eq_iff}
use polar_db_stack_common.Common.Dict.{Dict, lookup, insert, IsMap, lookup-insert}
use polar_db_stack_common.Params.Slice.{either, lookup-copy_into}
use polar_db_stack_common.Params.Template.{
  ParamTemplateItem, ParamsTemplate, set_default, class_item, merge_param, merge_params,
  get_class_params_template, default_values, get_params_template_default_values,
  get_class_init_params,
}

-- The default of the first item of a name.
unfoldable pub default_of : Text → List ParamTemplateItem → Option Text
default_of k [] = none
default_of k (item ∷ items) =
    if text_eq item.name k then some item.default_value else default_of k items

-- Each name once.
abbrev pub DistinctNames : List ParamTemplateItem → Type 0
DistinctNames [] = Unit
DistinctNames (item ∷ items) = (default_of item.name items ≡ none) × DistinctNames items

has_item : Text → List ParamTemplateItem → Bool
has_item k [] = false
has_item k (item ∷ items) = if text_eq item.name k then true else has_item k items

set_default-flag :
    (k v : Text) (items : List ParamTemplateItem) → (set_default k v items).1 ≡ has_item k items
unfolding set_default has_item
set_default-flag k v [] = refl
set_default-flag k v (item ∷ items) = ground (arith, set_default-flag k v items)

default_of-set :
    (j k v : Text) (items : List ParamTemplateItem)
    → has_item k items ≡ true
    → default_of j (set_default k v items).0 ≡ (if text_eq k j then some v else default_of j items)
unfolding set_default has_item default_of
default_of-set j k v [] h = cc
default_of-set j k v (item ∷ items) h = ground (
  arith,
  default_of-set j k v items,
  text_eq_iff item.name k,
  text_eq_iff item.name j,
  text_eq_iff k j,
)

default_of-snoc :
    (j k v : Text) (items : List ParamTemplateItem)
    → has_item k items ≡ false
    → default_of j (items ++ (class_item k v ∷ []))
      ≡ (if text_eq k j then some v else default_of j items)
unfolding has_item default_of
default_of-snoc j k v [] h = refl
default_of-snoc j k v (item ∷ items) h = ground (
  arith,
  default_of-snoc j k v items,
  text_eq_iff item.name k,
  text_eq_iff item.name j,
  text_eq_iff k j,
)

default_of-merge_param :
    (j k v : Text) (items : List ParamTemplateItem)
    → default_of j (merge_param k v items) ≡ (if text_eq k j then some v else default_of j items)
unfolding merge_param
default_of-merge_param j k v items =
    ground
      (arith, set_default-flag k v items, default_of-set j k v items, default_of-snoc j k v items)

default_of-merge_params :
    (j : Text) (d : Dict Text) (items : List ParamTemplateItem)
    → IsMap d
    → default_of j (merge_params d items) ≡ either (lookup j d) (default_of j items)
unfolding merge_params
default_of-merge_params j [] items m = refl
default_of-merge_params j ((k, v) ∷ d) items m = ground (
  arith,
  default_of-merge_params j d (merge_param k v items) m.1,
  default_of-merge_param j k v items,
  text_eq_iff k j,
)

lookup-default_values :
    (j : Text) (items : List ParamTemplateItem) (d : Dict Text)
    → DistinctNames items
    → lookup j (default_values items d) ≡ either (default_of j items) (lookup j d)
unfolding default_values default_of
lookup-default_values j [] d n = refl
lookup-default_values j (item ∷ items) d n = ground (
  arith,
  lookup-default_values j items (insert item.name item.default_value d) n.1,
  lookup-insert j item.name item.default_value d,
  text_eq_iff item.name j,
)

-- For a template that names each parameter once, the initial parameters of a class are exactly the
-- defaults of the merged template: the class's value where the class has one, else the template's.
pub init_params-eq_merged :
    (t : ParamsTemplate) (k : Text)
    → IsMap t.class_params
    → DistinctNames t.template_params
    → (lookup k (get_class_init_params t) ≡ default_of k (get_class_params_template t))
      × (lookup k (get_class_init_params t)
          ≡ either (lookup k t.class_params) (default_of k t.template_params))
unfolding get_class_init_params get_params_template_default_values get_class_params_template
init_params-eq_merged t k m n = ground (
  arith,
  lookup-copy_into k t.class_params (default_values t.template_params []) m,
  lookup-default_values k t.template_params [] n,
  default_of-merge_params k t.class_params t.template_params m,
)
