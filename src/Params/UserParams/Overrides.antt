-- ===== src/Params/UserParams/Overrides.antt =====
-- GetEffectiveUserParams of business/domain/db_cluster_base.go: the user's values, and which of them
-- the template's values replace.
use polar_db_stack_common.Common.{
  ◌≡◌, ◌≢◌, ◌↔◌, ◌⊎◌, refl, sym, ap, ◌∙◌, inl, inr, Bool, true, false, not, Option-cases, List, [],
  ◌∷◌, Option, none, some, arith, Bool-cases, if◌then◌else◌,
}
use polar_db_stack_common.Common.Text.{Text, text_eq, text_eq_iff, text_eq_refl}
use polar_db_stack_common.Common.Dict.{Dict, lookup, has_key, text_at, lookup-insert}
use polar_db_stack_common.Common.Int.{pos, eqb_ℤ_iff}
use polar_db_stack_common.Params.Slice.{contains_string}
use polar_db_stack_common.Params.Item.{ignore_template_params}
use polar_db_stack_common.Params.Effective.{need_override}
use polar_db_stack_common.Params.Template.{ParamTemplateItem}
use polar_db_stack_common.Params.UserParams.{
  EffectiveUserParamValue, UserProgress, Situation, value_or_empty, overrides, override_value,
  resets, follows_class, override_user, override_all,
}

-- The template's item of a name, if there is one.
abbrev pub item_of : Text → List ParamTemplateItem → Option ParamTemplateItem
item_of k [] = none
item_of k (item ∷ items) = if text_eq item.name k then some item else item_of k items

-- Each name stands once in the template.
abbrev pub DistinctNames : List ParamTemplateItem → Type 0
DistinctNames [] = Unit
DistinctNames (item ∷ items) = (item_of item.name items ≡ none) × DistinctNames items

-- What the loop makes of one parameter, by itself.
abbrev pub final_value :
    Situation
    → Option (Dict Text)
    → Option ParamTemplateItem
    → Option EffectiveUserParamValue
    → Option EffectiveUserParamValue
final_value s old none v = v
final_value s old (some item) v =
    if overrides s old item (value_or_empty v) then some (override_value s item) else v

override_user-other :
    (s : Situation) (old : Option (Dict Text)) (item : ParamTemplateItem) (st : UserProgress)
    (k : Text)
    → text_eq item.name k ≡ false
    → lookup k (override_user s old item st).result ≡ lookup k st.result
unfolding override_user
override_user-other s old item st k differ =
    ground (arith, lookup-insert k item.name (override_value s item) st.result)

override_user-same :
    (s : Situation) (old : Option (Dict Text)) (item : ParamTemplateItem) (st : UserProgress)
    → lookup item.name (override_user s old item st).result
      ≡ final_value s old (some item) (lookup item.name st.result)
unfolding override_user
override_user-same s old item st = ground (
  arith,
  lookup-insert item.name item.name (override_value s item) st.result,
  text_eq_refl item.name,
)

override_all-final :
    (s : Situation) (old : Option (Dict Text)) (items : List ParamTemplateItem) (st : UserProgress)
    (k : Text)
    → DistinctNames items
    → lookup k (override_all s old items st).result
      ≡ final_value s old (item_of k items) (lookup k st.result)
unfolding override_all
override_all-final s old [] st k d = refl
override_all-final s old (item ∷ items) st k d =
    let rest = override_all-final s old items (override_user s old item st) k d.1 in
    elim (Bool-cases (text_eq item.name k)) [
      | inr differ ↦ ground (arith, override_user-other s old item st k differ)
      | inl same ↦
          let eq = (text_eq_iff item.name k).0 same in
          let unique : item_of k items ≡ none = ap (λ j. item_of j items) (sym eq) ∙ d.0 in
          ground (arith, override_user-same s old item st, eq)
    ]

-- The three reasons for which the template's value replaces a user's value `v`.

-- The user may not change the item, which is neither deleted nor one of the names that are left alone,
-- and `v` is not its default.
abbrev pub Fixed : Situation → ParamTemplateItem → Text → Type 0
Fixed s item v =
    (s.can_update_not_changeable_params ≡ false)
    × (item.is_user_changeable ≡ pos 0)
    × (item.is_deleted ≡ pos 0)
    × (v ≢ item.default_value)
    × (contains_string ignore_template_params item.name none ≡ false)

-- The call resets the parameters of the class, and `v` is not the new class's value.
abbrev pub Reset : Situation → ParamTemplateItem → Text → Type 0
Reset s item v =
    (has_key item.name s.new_class_params ≡ true)
    × (s.reset_class_changeable_value ≡ true)
    × (item.is_user_changeable ≡ pos 1)
    × (v ≢ text_at item.name s.new_class_params)

-- `v` is the old class's value, and the new class has another.
abbrev pub Follows : Situation → Option (Dict Text) → ParamTemplateItem → Text → Type 0
Follows s old item v =
    (params : Dict Text) × (old ≡ some params)
    × (has_key item.name params ≡ true)
    × (item.is_user_changeable ≡ pos 1)
    × (v ≡ text_at item.name params)
    × (v ≢ text_at item.name s.new_class_params)

abbrev pub Overridden : Situation → Option (Dict Text) → ParamTemplateItem → Text → Type 0
Overridden s old item v = Fixed s item v ⊎ Reset s item v ⊎ Follows s old item v

-- The template's value runs already.
abbrev pub runs : Situation → ParamTemplateItem → Bool
runs s item = elim (lookup item.name s.running_params) [
  | none ↦ false
  | some running ↦ text_eq running.value item.default_value
]

need_override_iff :
    (s : Situation) (item : ParamTemplateItem) (v : Text)
    → (need_override s.can_update_not_changeable_params item v ≡ true) ↔ Fixed s item v
unfolding need_override
need_override_iff s item v = ground (
  arith,
  text_eq_iff v item.default_value,
  eqb_ℤ_iff item.is_user_changeable (pos 0),
  eqb_ℤ_iff item.is_deleted (pos 0),
)

resets_iff :
    (s : Situation) (item : ParamTemplateItem) (v : Text)
    → (resets s item v ≡ true) ↔ Reset s item v
unfolding resets
resets_iff s item v = ground (
  arith,
  text_eq_iff v (text_at item.name s.new_class_params),
  eqb_ℤ_iff item.is_user_changeable (pos 1),
)

follows_class_iff :
    (s : Situation) (old : Dict Text) (item : ParamTemplateItem) (v : Text)
    → (follows_class s old item v ≡ true) ↔ (
        (has_key item.name old ≡ true)
        × (item.is_user_changeable ≡ pos 1)
        × (v ≡ text_at item.name old)
        × (v ≢ text_at item.name s.new_class_params))
unfolding follows_class
follows_class_iff s old item v = ground (
  arith,
  text_eq_iff v (text_at item.name s.new_class_params),
  text_eq_iff v (text_at item.name old),
  eqb_ℤ_iff item.is_user_changeable (pos 1),
)

overrides_iff :
    (s : Situation) (old : Option (Dict Text)) (item : ParamTemplateItem) (v : Text)
    → (overrides s old item v ≡ true) ↔ Overridden s old item v
overrides_iff s none item v = ground (arith, need_override_iff s item v, resets_iff s item v)
overrides_iff s (some old) item v =
    ground (arith, need_override_iff s item v, resets_iff s item v, follows_class_iff s old item v)

override_value-value :
    (s : Situation) (item : ParamTemplateItem)
    → ((override_value s item).value ≡ item.default_value)
      × ((override_value s item).need_flush ≡ not (runs s item))
unfolding override_value
override_value-value s item = elim (Option-cases (lookup item.name s.running_params)) [
  | inl missing ↦ ground (arith, missing)
  | inr (running, is) ↦ ground (
    arith,
    is,
    text_eq_iff item.default_value running.value,
    text_eq_iff running.value item.default_value,
  )
]

-- What the loop makes of a value of the user, with the item of its name: the item's value, which has to
-- be flushed unless it runs already, or the value that was there.
abbrev pub Result :
    Situation
    → Option (Dict Text)
    → Option ParamTemplateItem
    → Option EffectiveUserParamValue
    → Option EffectiveUserParamValue
    → Type 0
Result s old found v result =
    ((item : ParamTemplateItem) × (new : EffectiveUserParamValue) × (found ≡ some item)
      × Overridden s old item (value_or_empty v)
      × (result ≡ some new)
      × (new.value ≡ item.default_value)
      × (new.need_flush ≡ not (runs s item)))
    ⊎ ((item : ParamTemplateItem) × (found ≡ some item)
        × (¬ Overridden s old item (value_or_empty v))
        × (result ≡ v))
    ⊎ ((found ≡ none) × (result ≡ v))

final_value-Result :
    (s : Situation) (old : Option (Dict Text)) (found : Option ParamTemplateItem)
    (v : Option EffectiveUserParamValue)
    → Result s old found v (final_value s old found v)
final_value-Result s old none v = inr (inr (refl, refl))
final_value-Result s old (some item) v =
    let tests = overrides_iff s old item (value_or_empty v) in
    elim (Bool-cases (overrides s old item (value_or_empty v))) [
      | inl b ↦
          let (value, flush) = override_value-value s item in
          inl (item, override_value s item, refl, tests.0 b, rw b refl, value, flush)
      | inr b ↦ inr (inl (item, refl, (λ h. absurd (ground (arith, b, tests.1 h))), rw b refl))
    ]

-- For a template in which each name stands once, the loop decides every parameter by itself; `v` is the
-- user's value, empty where there is none. The template's item of the name replaces it in three cases.
-- The first is that the user may not change the item, which is not deleted and not one of the names that
-- are left alone, the configuration forbids the change, and `v` is not the item's default. The second is
-- that the call resets the class's parameters, the item is changeable and one of the new class, and `v` is
-- not the new class's value. The third is that the old class's parameters are given, as on a change of
-- the class, the item is changeable and one of them, `v` is the old class's value, and the new class has
-- another. The result is then the item's default value, which has to be flushed unless it runs already; in
-- every other case the user's value is kept.
pub each_param_by_itself :
    (s : Situation) (old : Option (Dict Text)) (items : List ParamTemplateItem) (st : UserProgress)
    (k : Text)
    → DistinctNames items
    → Result s old
        (item_of k items)
        (lookup k st.result)
        (lookup k (override_all s old items st).result)
each_param_by_itself s old items st k distinct =
    let is = override_all-final s old items st k distinct in
    rw is (final_value-Result s old (item_of k items) (lookup k st.result))
