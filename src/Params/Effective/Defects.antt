-- ===== src/Params/Effective/Defects.antt =====
-- Two places where GetEffectiveParams of business/domain/db_cluster_base.go does not do what it
-- means to: the nil pointer of a parameter that the user's map lacks, and the log of an override.
use polar_db_stack_common.Common.{
  ◌≡◌, ◌≢◌, refl, ap, inl, inr, Bool, true, false, List, [], ◌∷◌, Option, none, some, arith,
  Bool-cases, if◌then◌else◌,
}
use polar_db_stack_common.Common.Int.{pos, eqb_ℤ}
use polar_db_stack_common.Common.Text.{Text, text_eq, text_eq_iff, text_eq_refl}
use polar_db_stack_common.Common.Dict.{Dict, lookup, lookup-insert}
use polar_db_stack_common.Common.Outcome.{Outcome, ok, err, ◌>>=◌}
use polar_db_stack_common.Params.Template.{ParamTemplateItem}
use polar_db_stack_common.Params.Item.{ParamItem}
use polar_db_stack_common.Params.Effective.{
  Progress, EffectiveError, nil_dereference, ignored, merge_running, merge_params, take_running,
  take_inoperative, override_item, record_change, need_override, start,
}

-- A chain ends with the nil pointer if its first step can only fail so, and the rest does.
nil_chain :
    (o : Outcome EffectiveError Progress) (f : Progress → Outcome EffectiveError Progress)
    → ((e : EffectiveError) → o ≡ err e → e ≡ nil_dereference)
    → ((st : Progress) → f st ≡ err nil_dereference)
    → (o >>= f) ≡ err nil_dereference
nil_chain (ok st) f h k = k st
nil_chain (err e) f h k = ap err (h e refl)

module _ (items : List ParamTemplateItem) where
  take_inoperative-err :
      (key : Text) (user : Option ParamItem) (r : ParamItem) (st : Progress) (e : EffectiveError)
      → take_inoperative items key user r st ≡ err e
      → e ≡ nil_dereference
  unfolding take_inoperative
  take_inoperative-err key none r st e h = ground arith
  take_inoperative-err key (some u) r st e h = cc

  take_running-err :
      (latest key : Text) (user : Option ParamItem) (r : ParamItem) (st : Progress)
      (e : EffectiveError)
      → take_running items true true latest key user r st ≡ err e
      → e ≡ nil_dereference
  unfolding take_running
  take_running-err latest key none r st e h = ground (arith, take_inoperative-err key none r st e)
  take_running-err latest key (some u) r st e h =
      ground (arith, take_inoperative-err key (some u) r st e)

  round-err :
      (latest key : Text) (user : Option ParamItem) (r : ParamItem) (st : Progress)
      (e : EffectiveError)
      → (if ignored key then ok st else take_running items true true latest key user r st) ≡ err e
      → e ≡ nil_dereference
  round-err latest key user r st e h = elim (Bool-cases (ignored key)) [
    | inl i ↦ ground arith
    | inr i ↦ take_running-err latest key user r st e (rw i at h)
  ]

  round_crash :
      (latest key : Text) (r : ParamItem) (st : Progress)
      → ignored key ≡ false
      → r.inoperative ≢ []
      → (if ignored key then ok st else take_running items true true latest key none r st)
        ≡ err nil_dereference
  unfolding take_running take_inoperative
  round_crash latest key r st i w = ground (arith, text_eq_iff r.inoperative [])

  merge_running_crash :
      (latest k : Text) (users running : Dict ParamItem) (r : ParamItem) (st : Progress)
      → lookup k running ≡ some r
      → lookup k users ≡ none
      → ignored k ≡ false
      → r.inoperative ≢ []
      → merge_running items true true latest users running st ≡ err nil_dereference
  unfolding merge_running
  merge_running_crash latest k users [] r st e u i w = cc
  merge_running_crash latest k users ((key, x) ∷ rest) r st e u i w =
      elim (Bool-cases (text_eq key k)) [
        | inl here ↦
            let same : key ≡ k = (text_eq_iff key k).0 here in
            let found : x ≡ r = ground arith in rw (same, u, found, round_crash latest k r st i w)
        | inr later ↦
            nil_chain _ _ (round-err latest key (lookup key users) x st)
              (λ st'. merge_running_crash latest k users rest r st' (ground arith) u i w)
      ]

-- With `inoperative` set, a running parameter that waits for a restart, is not ignored and has no
-- entry in the user's map makes the function dereference a nil pointer, whatever else is running.
pub inoperative_crash :
    (can_update : Bool) (items : List ParamTemplateItem) (users : Dict ParamItem) (latest k : Text)
    (running : Dict ParamItem) (r : ParamItem)
    → lookup k running ≡ some r
    → lookup k users ≡ none
    → ignored k ≡ false
    → r.inoperative ≢ []
    → merge_params true can_update items (some users) latest running ≡ err nil_dereference
unfolding merge_params
inoperative_crash can_update items users latest k running r e u i w =
    rw (merge_running_crash items latest k users running r start e u i w)

-- The record of an override has the new value as its old value too, whatever value was replaced.
pub override_logs_new_value :
    (can_update : Bool) (item : ParamTemplateItem) (st : Progress) (v : Text)
    → lookup item.name st.result ≡ some v
    → need_override can_update item v ≡ true
    → lookup item.name (override_item can_update item st).changed_params
      ≡ some (record {
        old_value = item.default_value;
        new_value = item.default_value;
        need_restart = eqb_ℤ item.is_dynamic (pos 0);
      })
unfolding override_item record_change
override_logs_new_value can_update item st v e o = ground (
  arith,
  lookup-insert item.name item.name item.default_value st.result,
  text_eq_refl item.name,
  lookup-insert item.name item.name
      (record {
        old_value = item.default_value;
        new_value = item.default_value;
        need_restart = eqb_ℤ item.is_dynamic (pos 0);
      })
      st.changed_params,
)
