-- ===== src/Params/Effective/Results.antt =====
-- What GetEffectiveParams of business/domain/db_cluster_base.go returns.
use polar_db_stack_common.Common.{
  ◌≡◌, refl, Bool, true, false, List, [], ◌∷◌, Option, none, some, arith, Bool-cases, ◌⊎◌, inl, inr,
  if◌then◌else◌,
}
use polar_db_stack_common.Common.Text.{Text}
use polar_db_stack_common.Common.Dict.{Dict, lookup, IsMap}
use polar_db_stack_common.Common.Outcome.{ok, >>=-eq-ok}
use polar_db_stack_common.Params.Template.{ParamTemplateItem, get_template_param}
use polar_db_stack_common.Params.Template.Defaults.{DistinctNames}
use polar_db_stack_common.Params.Item.{ParamItem}
use polar_db_stack_common.Params.Effective.{
  Progress, ignored, merge_running, merge_params, add_users, add_user, override_items,
  override_item, record_change, take_running, take_inoperative, take_user, set_result, start,
  entries, is_some,
}
use polar_db_stack_common.Params.Effective.Loops.{
  merged_value, running_value, merge_running-MergedAll, overridden, overridden_in,
  override_items-lookup, user_value, add_users-lookup,
}

-- The value that a parameter of the user should have: what the user set, or the running value with
-- its quotes, under the template's override; a parameter that is not running is taken as it is.
unfoldable pub expected_value :
    Bool → List ParamTemplateItem → Text → Option ParamItem → Option ParamItem → Option Text
expected_value can_update items k running none = none
expected_value can_update items k none (some user) = if ignored k then none else some user.value
expected_value can_update items k (some running) (some user) =
    if ignored k
    then none
    else some
        (overridden can_update (get_template_param k items) (merged_value items k running user))

-- Without the parameters that wait for a restart, over maps and a template that names each
-- parameter once, the function returns without an error, and the result has exactly the expected
-- value for every key: no key that the user has not set, no ignored key.
pub effective_values :
    (can_update : Bool) (items : List ParamTemplateItem) (users : Dict ParamItem) (latest k : Text)
    (running : Dict ParamItem)
    → IsMap users
    → IsMap running
    → DistinctNames items
    → (st : Progress) × (merge_params false can_update items (some users) latest running ≡ ok st)
      × (lookup k st.result ≡ expected_value can_update items k (lookup k running) (lookup k users))
unfolding merge_params expected_value user_value running_value overridden_in
effective_values can_update items users latest k running mu mr n =
    let (st, e, h) = merge_running-MergedAll items true latest users running start mr in
    (
      add_users items users (override_items can_update items st),
      ground arith,
      ground (
        arith,
        add_users-lookup items users (override_items can_update items st) k mu,
        override_items-lookup can_update items st k n,
        h k,
      ),
    )

-- A restart is asked for only with a change.
abbrev Flags : Progress → Type 0
Flags st = (st.need_restart ≡ false) ⊎ (st.changed ≡ true)

record_change-Flags :
    (key old new : Text) (restart : Bool) (st : Progress)
    → Flags (record_change key old new restart st)
unfolding record_change
record_change-Flags key old new restart st = inr refl

module _ (items : List ParamTemplateItem) where
  take_inoperative-Flags :
      (key : Text) (user : Option ParamItem) (r : ParamItem) (st st' : Progress)
      → take_inoperative items key user r st ≡ ok st'
      → Flags st'
  unfolding take_inoperative record_change
  take_inoperative-Flags key none r st st' e = cc
  take_inoperative-Flags key (some u) r st st' e = inr (ground arith)

  take_user-Flags :
      (latest key : Text) (u r : ParamItem) (st : Progress)
      → Flags st
      → Flags (take_user items latest key u r st)
  unfolding take_user record_change set_result
  take_user-Flags latest key u r st f = ground arith

  take_running-Flags :
      (inoperative hu : Bool) (latest key : Text) (user : Option ParamItem) (r : ParamItem)
      (st st' : Progress)
      → Flags st
      → take_running items inoperative hu latest key user r st ≡ ok st'
      → Flags st'
  unfolding take_running set_result
  take_running-Flags inoperative hu latest key none r st st' f e =
      ground (arith, take_inoperative-Flags key none r st st')
  take_running-Flags inoperative hu latest key (some u) r st st' f e =
      ground
        (arith, take_inoperative-Flags key (some u) r st st', take_user-Flags latest key u r st f)

  merge_running-Flags :
      (inoperative hu : Bool) (latest : Text) (users running : Dict ParamItem) (st st' : Progress)
      → Flags st
      → merge_running items inoperative hu latest users running st ≡ ok st'
      → Flags st'
  unfolding merge_running
  merge_running-Flags inoperative hu latest users [] st st' f e = ground arith
  merge_running-Flags inoperative hu latest users ((key, r) ∷ rest) st st' f e =
      elim (Bool-cases (ignored key)) [
        | inl i ↦ merge_running-Flags inoperative hu latest users rest st st' f (ground arith)
        | inr i ↦
            let (st₁, e₁, f₁) = >>=-eq-ok _ _ (rw i at e) in
            merge_running-Flags inoperative hu latest users rest st₁ st'
              (take_running-Flags inoperative hu latest key (lookup key users) r st st₁ f e₁) f₁
      ]

  add_users-Flags :
      (users : Dict ParamItem) (st : Progress) → Flags st → Flags (add_users items users st)
  unfolding add_users add_user record_change
  add_users-Flags [] st f = f
  add_users-Flags ((key, u) ∷ rest) st f =
      add_users-Flags rest (add_user items key u st) (ground arith)

override_items-Flags :
    (can_update : Bool) (items : List ParamTemplateItem) (st : Progress)
    → Flags st
    → Flags (override_items can_update items st)
unfolding override_items override_item record_change
override_items-Flags can_update [] st f = f
override_items-Flags can_update (item ∷ items) st f =
    override_items-Flags can_update items (override_item can_update item st) (ground arith)

-- Whenever the function returns parameters and asks for a restart, it also reports a change.
pub restart_needs_change :
    (inoperative can_update : Bool) (items : List ParamTemplateItem)
    (users : Option (Dict ParamItem)) (latest : Text) (running : Dict ParamItem) (st : Progress)
    → merge_params inoperative can_update items users latest running ≡ ok st
    → st.need_restart ≡ true
    → st.changed ≡ true
unfolding merge_params
restart_needs_change inoperative can_update items users latest running st e r =
    let (st₁, e₁, f₁) = >>=-eq-ok _ _ e in
    let f = add_users-Flags items (entries users) (override_items can_update items st₁) (
      override_items-Flags can_update items st₁ (
        merge_running-Flags items inoperative (is_some users) latest (entries users) running start
          st₁ (inl refl) e₁)) in
    ground arith
