-- ===== src/Params/Effective/Loops.antt =====
-- The three loops of GetEffectiveParams (business/domain/db_cluster_base.go), key by key.
use polar_db_stack_common.Common.{
  ◌≡◌, refl, Bool, true, false, List, [], ◌∷◌, Option, none, some, arith, Bool-cases, Option-cases,
  inl, inr, if◌then◌else◌,
}
use polar_db_stack_common.Common.Text.{Text, text_eq, text_eq_iff, text_lt}
use polar_db_stack_common.Common.Dict.{Dict, lookup, insert, IsMap, lookup-insert}
use polar_db_stack_common.Common.Outcome.{ok}
use polar_db_stack_common.Params.Template.{ParamTemplateItem, get_template_param}
use polar_db_stack_common.Params.Template.Defaults.{DistinctNames, default_of}
use polar_db_stack_common.Params.Item.{ParamItem}
use polar_db_stack_common.Params.Quote.{get_running_param_quota_value}
use polar_db_stack_common.Params.Effective.{
  Progress, ignored, regex_of, record_change, set_result, take_user, take_running, merge_running,
  add_user, add_users, need_override, override_item, override_items,
}

-- One value stands before another.
abbrev pub over : Option Text → Option Text → Option Text
over none b = b
over (some v) b = some v

module _ (template_params : List ParamTemplateItem) where
  -- The value of a parameter that is running and set by the user.
  unfoldable pub merged_value : Text → ParamItem → ParamItem → Text
  merged_value k running user =
      if text_lt running.update_time user.update_time
      then user.value
      else get_running_param_quota_value user.value running.value
          (regex_of (get_template_param k template_params))

  unfoldable pub running_value : Text → Option ParamItem → Option ParamItem → Option Text
  running_value k none user = none
  running_value k (some running) none = none
  running_value k (some running) (some user) =
      if ignored k then none else some (merged_value k running user)

  -- One round, without the parameters that wait for a restart.
  pub Merged :
      (hu : Bool) (latest key : Text) (user : Option ParamItem) (r : ParamItem) (st : Progress)
      → Type 0
  Merged hu latest key user r st =
      (st' : Progress) × (take_running template_params false hu latest key user r st ≡ ok st')
      × ((k : Text)
          → ignored key ≡ false
          → lookup k st'.result ≡ (
              if text_eq key k
              then over (running_value key (some r) user) (lookup k st.result)
              else lookup k st.result))

  take_running-Merged :
      (hu : Bool) (latest key : Text) (user : Option ParamItem) (r : ParamItem) (st : Progress)
      → Merged hu latest key user r st
  unfolding Merged take_running running_value merged_value take_user record_change set_result
  take_running-Merged hu latest key none r st = (st, refl, λ k i. ground arith)
  take_running-Merged hu latest key (some u) r st =
      elim (Bool-cases (text_lt r.update_time u.update_time)) [
        | inl newer ↦ (
          take_user template_params latest key u r st,
          ground arith,
          λ k i. ground (arith, lookup-insert k key u.value st.result),
        )
        | inr older ↦ (
          set_result key (merged_value key r u) st,
          ground arith,
          λ k i. ground (arith, lookup-insert k key (merged_value key r u) st.result),
        )
      ]

  abbrev pub value_of : Text → Dict ParamItem → Dict ParamItem → Option Text
  value_of k running users = running_value k (lookup k running) (lookup k users)

  running_value-ignored :
      (k : Text) (r u : Option ParamItem) → ignored k ≡ true → running_value k r u ≡ none
  unfolding running_value
  running_value-ignored k none u i = refl
  running_value-ignored k (some r) none i = refl
  running_value-ignored k (some r) (some u) i = rw i

  abbrev pub MergedAll :
      (hu : Bool) (latest : Text) (users running : Dict ParamItem) (st : Progress) → Type 0
  MergedAll hu latest users running st =
      (st' : Progress) × (merge_running template_params false hu latest users running st ≡ ok st')
      × ((k : Text) → lookup k st'.result ≡ over (value_of k running users) (lookup k st.result))

  -- The first loop ends without an error, with the value of each key that is running, set by the
  -- user and not ignored.
  pub merge_running-MergedAll :
      (hu : Bool) (latest : Text) (users running : Dict ParamItem) (st : Progress)
      → IsMap running
      → MergedAll hu latest users running st
  unfolding Merged merge_running running_value
  merge_running-MergedAll hu latest users [] st m = (st, refl, λ k. refl)
  merge_running-MergedAll hu latest users ((key, r) ∷ rest) st m = elim (Bool-cases (ignored key)) [
    | inl i ↦
        let (st', e, h) = merge_running-MergedAll hu latest users rest st m.1 in
        (
          st',
          ground arith,
          λ k. ground (
            arith,
            h k,
            text_eq_iff key k,
            running_value-ignored key (some r) (lookup key users) i,
          ),
        )
    | inr i ↦
        let (st₁, e₁, h₁) = take_running-Merged hu latest key (lookup key users) r st in
        let (st', e, h) = merge_running-MergedAll hu latest users rest st₁ m.1 in
        (st', ground arith, λ k. ground (arith, h k, h₁ k i, text_eq_iff key k))
  ]

-- The second loop gives a template's default to what is in the result and may not be changed.
unfoldable pub overridden : Bool → Option ParamTemplateItem → Text → Text
overridden can_update none v = v
overridden can_update (some item) v =
    if need_override can_update item v then item.default_value else v

override_item-absent :
    (can_update : Bool) (item : ParamTemplateItem) (st : Progress)
    → lookup item.name st.result ≡ none
    → override_item can_update item st ≡ st
unfolding override_item
override_item-absent can_update item st e = ground arith

override_item-present :
    (can_update : Bool) (item : ParamTemplateItem) (st : Progress) (v : Text)
    → lookup item.name st.result ≡ some v
    → (override_item can_update item st).result ≡ (
        if need_override can_update item v
        then insert item.name item.default_value st.result
        else st.result)
unfolding override_item record_change
override_item-present can_update item st v e = ground arith

overridden_by : Bool → ParamTemplateItem → Text → Option Text → Option Text
overridden_by can_update item k none = none
overridden_by can_update item k (some v) =
    some (if text_eq item.name k then overridden can_update (some item) v else v)

override_item-lookup :
    (can_update : Bool) (item : ParamTemplateItem) (st : Progress) (k : Text)
    → lookup k (override_item can_update item st).result
      ≡ overridden_by can_update item k (lookup k st.result)
unfolding overridden overridden_by
override_item-lookup can_update item st k = elim (Option-cases (lookup item.name st.result)) [
  | inl absent ↦
      rw (override_item-absent can_update item st absent) (ground (arith, text_eq_iff item.name k))
  | inr (v, present) ↦ ground (
    arith,
    override_item-present can_update item st v present,
    lookup-insert k item.name item.default_value st.result,
    text_eq_iff item.name k,
  )
]

absent_item :
    (k : Text) (items : List ParamTemplateItem)
    → default_of k items ≡ none
    → get_template_param k items ≡ none
unfolding default_of get_template_param
absent_item k [] e = refl
absent_item k (item ∷ items) e = ground (arith, absent_item k items)

unfoldable pub overridden_in : Bool → List ParamTemplateItem → Text → Option Text → Option Text
overridden_in can_update items k none = none
overridden_in can_update items k (some v) =
    some (overridden can_update (get_template_param k items) v)

-- In a template with distinct names an item of another name changes nothing for a key.
pub override_items-lookup :
    (can_update : Bool) (items : List ParamTemplateItem) (st : Progress) (k : Text)
    → DistinctNames items
    → lookup k (override_items can_update items st).result
      ≡ overridden_in can_update items k (lookup k st.result)
unfolding override_items overridden_in overridden_by overridden get_template_param
override_items-lookup can_update [] st k n = ground arith
override_items-lookup can_update (item ∷ items) st k n = ground (
  arith,
  override_items-lookup can_update items (override_item can_update item st) k n.1,
  override_item-lookup can_update item st k,
  text_eq_iff item.name k,
  absent_item k items,
)

-- The third loop adds the user's values that are not there yet.
unfoldable pub user_value : Text → Option ParamItem → Option Text
user_value k none = none
user_value k (some user) = if ignored k then none else some user.value

module _ (template_params : List ParamTemplateItem) where
  add_user-lookup :
      (key : Text) (user : ParamItem) (st : Progress) (k : Text)
      → lookup k (add_user template_params key user st).result ≡ (
          if text_eq key k
          then over (lookup k st.result) (user_value key (some user))
          else lookup k st.result)
  unfolding add_user record_change user_value
  add_user-lookup key user st k =
      ground (arith, lookup-insert k key user.value st.result, text_eq_iff key k)

  pub add_users-lookup :
      (users : Dict ParamItem) (st : Progress) (k : Text)
      → IsMap users
      → lookup k (add_users template_params users st).result
        ≡ over (lookup k st.result) (user_value k (lookup k users))
  unfolding add_users user_value
  add_users-lookup [] st k m = ground arith
  add_users-lookup ((key, user) ∷ rest) st k m = ground (
    arith,
    add_users-lookup rest (add_user template_params key user st) k m.1,
    add_user-lookup key user st k,
    text_eq_iff key k,
  )
