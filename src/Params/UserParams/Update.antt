-- ===== src/Params/UserParams/Update.antt =====
-- updateUserParams of business/adapter/engine_params_repository.go: what the config map holds after
-- an update with the effective user's values.
use polar_db_stack_common.Common.{
  ◌≡◌, refl, sym, ◌⊎◌, inl, inr, Bool, [], ◌∷◌, Option, none, some, arith, Bool-cases, Option-cases,
  if◌then◌else◌,
}
use polar_db_stack_common.Common.Text.{Text, text_eq, text_eq_iff}
use polar_db_stack_common.Common.Dict.{Dict, lookup, IsMap}
use polar_db_stack_common.Common.Outcome.{ok, >>=-eq-ok}
use polar_db_stack_common.Params.Item.{ParamItem}
use polar_db_stack_common.Params.UserParams.{
  EffectiveUserParamValue, update_entry, update_entries, keep_entry,
}

module _ (unmarshal : Text → Option ParamItem) (marshal : ParamItem → Text) (now : Text)
    (user_params : Dict EffectiveUserParamValue) where
  -- An entry under a key that both maps have, with the value that is wanted.
  abbrev pub HasWanted : Text → Option Text → Type 0
  HasWanted key entry =
      (wanted : EffectiveUserParamValue) × (text : Text) × (item : ParamItem) × (lookup key
          user_params
        ≡ some wanted)
      × (entry ≡ some text)
      × (unmarshal text ≡ some item)
      × (item.value ≡ wanted.value)

  update_entry-wanted :
      (key text : Text) (entry : Option Text) (changed : Bool)
      → ((item : ParamItem) → unmarshal (marshal item) ≡ some item)
      → update_entry unmarshal marshal now user_params key text ≡ ok (entry, changed)
      → ((entry ≡ none) × (lookup key user_params ≡ none)) ⊎ HasWanted key entry
  unfolding update_entry
  update_entry-wanted key text entry changed round_trip e =
      elim (Option-cases (lookup key user_params)) [
        | inl h ↦ inl (ground arith, h)
        | inr (wanted, h) ↦ elim (Option-cases (unmarshal text)) [
          | inl f ↦ absurd (ground arith)
          | inr (entity, f) ↦ elim (Bool-cases (text_eq wanted.value entity.value)) [
            | inl same ↦ inr (
              wanted,
              text,
              entity,
              h,
              ground arith,
              f,
              sym ((text_eq_iff wanted.value entity.value).0 same),
            )
            | inr differ ↦
                let item : ParamItem = record entity {
                  value = wanted.value;
                  update_time = if wanted.need_flush then now else wanted.running_update_time;
                } in
                inr (wanted, marshal item, item, h, ground arith, round_trip item, refl)
          ]
        ]
      ]

  -- Where JSON round-trips, a successful pass over the config map leaves an entry under exactly the
  -- keys that both the config map and the user's values have, and every one of them reads as the
  -- value that is wanted; a parameter that the config map lacks is not added.
  pub update_entries-wanted :
      (contents updated : Dict Text) (changed : Bool) (k : Text)
      → ((item : ParamItem) → unmarshal (marshal item) ≡ some item)
      → IsMap contents
      → update_entries unmarshal marshal now user_params contents ≡ ok (updated, changed)
      → ((lookup k updated ≡ none) × ((lookup k contents ≡ none) ⊎ (lookup k user_params ≡ none)))
        ⊎ (((old : Text) × (lookup k contents ≡ some old)) × HasWanted k (lookup k updated))
  unfolding update_entries
  update_entries-wanted [] updated changed k round_trip m e = inl (ground arith, inl refl)
  update_entries-wanted ((key, text) ∷ contents) updated changed k round_trip m e =
      let (entry, first, e₁) =
        >>=-eq-ok (update_entry unmarshal marshal now user_params key text) _ e in
      let (rest, second, e₂) =
        >>=-eq-ok (update_entries unmarshal marshal now user_params contents) _ e₁ in
      let others = update_entries-wanted contents rest.0 rest.1 k round_trip m.1 second in
      let kept : keep_entry unmarshal marshal now key entry.0 rest.0 ≡ updated = ground arith in
      let this = update_entry-wanted key text entry.0 entry.1 round_trip first in
      elim (Bool-cases (text_eq key k)) [
        | inr differ ↦ ground arith
        | inl same ↦
            let eq = (text_eq_iff key k).0 same in
            elim this [
              | inl (gone, unwanted) ↦ elim others [
                | inl (none_left, _) ↦ inl (ground (arith, eq), inr (ground (arith, eq)))
                | inr ((old, found), _) ↦ absurd (ground (arith, eq, m.0))
              ]
              | inr (wanted, new_text, item, asked, present, reads, value) ↦ inr (
                (text, ground arith),
                (wanted, new_text, item, ground (arith, eq), ground arith, reads, value),
              )
            ]
      ]
