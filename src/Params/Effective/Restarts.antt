-- ===== src/Params/Effective/Restarts.antt =====
-- Which parameters make GetEffectiveParams of business/domain/db_cluster_base.go ask for a restart.
use polar_db_stack_common.Common.{
  ◌≡◌, refl, ap, Bool, true, false, ◌||◌, List, [], ◌∷◌, Option, none, some, arith, All, any,
  Bool-cases, inl, inr,
}
use polar_db_stack_common.Common.Int.{pos, eqb_ℤ}
use polar_db_stack_common.Common.Text.{Text, text_eq, text_eq_iff, text_eq_refl}
use polar_db_stack_common.Common.Dict.{Dict, lookup, insert, text_at}
use polar_db_stack_common.Common.Outcome.{Outcome, ok, err, >>=-eq-ok}
use polar_db_stack_common.Params.Template.{
  ParamTemplateItem, ParamsTemplate, get_class_params_template, get_template_param,
}
use polar_db_stack_common.Params.Template.Defaults.{DistinctNames, default_of}
use polar_db_stack_common.Params.Item.{ParamItem, ChangedParamItemValue}
use polar_db_stack_common.Params.Effective.{
  Progress, ignored, param_need_restart, record_change, set_result, take_user, take_running,
  merge_running, add_user, add_users, override_item, override_items, start, entries, is_some,
  merge_params, get_effective_params,
}

-- A parameter that changes only with a restart: a static one of the template, or one that is not in it.
abbrev pub needs_restart : List ParamTemplateItem → Text → Bool
needs_restart items k = elim (get_template_param k items) [
  | none ↦ true
  | some item ↦ eqb_ℤ item.is_dynamic (pos 0)
]

-- One of the changed parameters is of this kind.
abbrev pub some_needs_restart : List ParamTemplateItem → Dict ChangedParamItemValue → Bool
some_needs_restart items changed = any (λ e. needs_restart items e.0) changed

some_needs_restart-insert :
    (items : List ParamTemplateItem) (k : Text) (v : ChangedParamItemValue)
    (changed : Dict ChangedParamItemValue)
    → some_needs_restart items (insert k v changed)
      ≡ (needs_restart items k || some_needs_restart items changed)
some_needs_restart-insert items k v [] = refl
some_needs_restart-insert items k v ((j, w) ∷ changed) =
    let rest = some_needs_restart-insert items k v changed in
    elim (Bool-cases (text_eq j k)) [
      | inl same ↦
          let eq : needs_restart items j ≡ needs_restart items k =
            ap (needs_restart items) ((text_eq_iff j k).0 same) in
          ground (arith, same, eq)
      | inr differ ↦ ground (arith, differ, rest)
    ]

-- A restart is asked for exactly where one of the changes recorded so far needs it.
abbrev Restarting : List ParamTemplateItem → Progress → Type 0
Restarting items st = st.need_restart ≡ some_needs_restart items st.changed_params

record_change-Restarting :
    (items : List ParamTemplateItem) (key old new : Text) (restart : Bool) (st : Progress)
    → restart ≡ needs_restart items key
    → Restarting items st
    → Restarting items (record_change key old new restart st)
unfolding record_change
record_change-Restarting items key old new restart st is h =
    let changed : ChangedParamItemValue = record {
      old_value = old;
      new_value = new;
      need_restart = restart;
    } in
    let inserted = some_needs_restart-insert items key changed st.changed_params in
    elim (Bool-cases restart) [
      | inl b ↦ ground (arith, b, is, h, inserted)
      | inr b ↦ ground (arith, b, is, h, inserted)
    ]

param_need_restart-needs_restart :
    (items : List ParamTemplateItem) (k : Text)
    → param_need_restart (get_template_param k items) ≡ needs_restart items k
unfolding param_need_restart
param_need_restart-needs_restart items k = of (get_template_param k items)
  where
    of :
        (o : Option ParamTemplateItem)
        → param_need_restart o ≡ elim o [ none ↦ true | some item ↦ eqb_ℤ item.is_dynamic (pos 0) ]
    of none = refl
    of (some item) = refl

module _ (items : List ParamTemplateItem) where
  take_user-Restarting :
      (latest key : Text) (u r : ParamItem) (st : Progress)
      → Restarting items st
      → Restarting items (take_user items latest key u r st)
  unfolding take_user set_result
  take_user-Restarting latest key u r st h =
      let changed =
        record_change-Restarting items key r.value u.value _ st
          (param_need_restart-needs_restart items key) h in
      ground (arith, changed)

  take_running-Restarting :
      (hu : Bool) (latest key : Text) (user : Option ParamItem) (r : ParamItem) (st st' : Progress)
      → Restarting items st
      → take_running items false hu latest key user r st ≡ ok st'
      → Restarting items st'
  unfolding take_running set_result
  take_running-Restarting hu latest key none r st st' h e = ground arith
  take_running-Restarting hu latest key (some u) r st st' h e =
      ground (arith, take_user-Restarting latest key u r st h)

  merge_running-Restarting :
      (hu : Bool) (latest : Text) (users running : Dict ParamItem) (st st' : Progress)
      → Restarting items st
      → merge_running items false hu latest users running st ≡ ok st'
      → Restarting items st'
  unfolding merge_running
  merge_running-Restarting hu latest users [] st st' h e = ground arith
  merge_running-Restarting hu latest users ((key, r) ∷ rest) st st' h e =
      elim (Bool-cases (ignored key)) [
        | inl i ↦ merge_running-Restarting hu latest users rest st st' h (ground arith)
        | inr i ↦
            let (st₁, e₁, e₂) = >>=-eq-ok _ _ (rw i at e) in
            merge_running-Restarting hu latest users rest st₁ st'
              (take_running-Restarting hu latest key (lookup key users) r st st₁ h e₁) e₂
      ]

  add_users-Restarting :
      (users : Dict ParamItem) (st : Progress)
      → Restarting items st
      → Restarting items (add_users items users st)
  unfolding add_users add_user
  add_users-Restarting [] st h = h
  add_users-Restarting ((key, u) ∷ rest) st h =
      let changed =
        record_change-Restarting items key [] u.value _ st
          (param_need_restart-needs_restart items key) h in
      add_users-Restarting rest (add_user items key u st) (ground (arith, changed))

  -- The items of a part of the template are found in the whole by their names.
  abbrev Found : List ParamTemplateItem → Type 0
  Found = All (λ item. get_template_param item.name items ≡ some item)

  override_items-Restarting :
      (can_update : Bool) (part : List ParamTemplateItem) (st : Progress)
      → Found part
      → Restarting items st
      → Restarting items (override_items can_update part st)
  unfolding override_items override_item
  override_items-Restarting can_update [] st f h = h
  override_items-Restarting can_update (item ∷ part) st f h =
      let is : eqb_ℤ item.is_dynamic (pos 0) ≡ needs_restart items item.name =
        rw (f.0, needs_restart) refl in
      override_items-Restarting can_update part (override_item can_update item st) f.1 (
        ground (
          arith,
          record_change-Restarting items item.name
              (text_at item.name (insert item.name item.default_value st.result)) item.default_value
              (eqb_ℤ item.is_dynamic (pos 0)) st is h,
        ))

absent_param :
    (k : Text) (items : List ParamTemplateItem)
    → default_of k items ≡ none
    → get_template_param k items ≡ none
unfolding default_of get_template_param
absent_param k [] e = refl
absent_param k (item ∷ items) e = ground (arith, absent_param k items)

Found-cons :
    (item : ParamTemplateItem) (items part : List ParamTemplateItem)
    → get_template_param item.name items ≡ none
    → Found items part
    → Found (item ∷ items) part
unfolding get_template_param
Found-cons item items [] absent f = tt
Found-cons item items (next ∷ part) absent f = (
  elim (Bool-cases (text_eq item.name next.name)) [
    | inl same ↦
        let eq = ap (λ k. get_template_param k items) ((text_eq_iff item.name next.name).0 same) in
        absurd (ground (arith, eq, absent, f.0))
    | inr differ ↦ rw differ f.0
  ],
  Found-cons item items part absent f.1,
)

items-Found : (items : List ParamTemplateItem) → DistinctNames items → Found items items
unfolding get_template_param
items-Found [] n = tt
items-Found (item ∷ items) n = (
  rw (text_eq_refl item.name) refl,
  Found-cons item items items (absent_param item.name items n.0) (items-Found items n.1),
)

merge_params-Restarting :
    (can_update : Bool) (items : List ParamTemplateItem) (users : Option (Dict ParamItem))
    (latest : Text) (running : Dict ParamItem) (st : Progress)
    → DistinctNames items
    → merge_params false can_update items users latest running ≡ ok st
    → Restarting items st
unfolding merge_params
merge_params-Restarting can_update items users latest running st n e =
    let (st₁, e₁, e₂) = >>=-eq-ok _ _ e in
    let h = add_users-Restarting items (entries users) (override_items can_update items st₁) (
      override_items-Restarting items can_update items st₁ (items-Found items n) (
        merge_running-Restarting items (is_some users) latest (entries users) running start st₁ refl
          e₁)) in
    ground arith

-- Over a template with distinct names, a restart is asked for exactly where one of the changed
-- parameters needs it.
pub restart_iff_needed :
    (can_update : Bool) (t : ParamsTemplate)
    (user_params : Outcome Text (Option (Dict ParamItem) × Text))
    (running_params : Outcome Text (Dict ParamItem)) (st : Progress)
    → DistinctNames (get_class_params_template t)
    → get_effective_params false can_update (ok t) user_params running_params ≡ ok st
    → st.need_restart ≡ some_needs_restart (get_class_params_template t) st.changed_params
unfolding get_effective_params
restart_iff_needed can_update t (err x) running st n e = cc
restart_iff_needed can_update t (ok user) (err x) st n e = cc
restart_iff_needed can_update t (ok user) (ok running) st n e =
    merge_params-Restarting can_update (get_class_params_template t) user.0 user.1 running st n e
