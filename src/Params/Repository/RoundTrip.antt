-- ===== src/Params/Repository/RoundTrip.antt =====
-- What business/adapter/engine_params_repository.go reads back after a save, and what is left after
-- a save that fails.
use polar_db_stack_common.Common.{
  ◌≡◌, ◌≢◌, refl, ap, ◌∙◌, inl, inr, true, [], ◌∷◌, Option, none, some, arith, Bool-cases,
  Option-cases, if◌then◌else◌,
}
use polar_db_stack_common.Common.Text.{Text, text_eq, text_eq_iff}
use polar_db_stack_common.Common.Dict.{Dict, lookup, insert, lookup-insert}
use polar_db_stack_common.Common.Outcome.{Outcome, ok, err}
use polar_db_stack_common.Params.Item.{ParamItem}
use polar_db_stack_common.Params.Repository.{
  RepositoryError, call_failed, SaveAnswers, first_error, create_after_delete, convert_params,
  create_params_config_map, add_entity, read_entries, get_params_config_map_values,
}

-- Where the config map exists and can be read and deleted, and one of the calls after the delete
-- fails, the save fails and no config map is left.
pub failed_save_loses :
    (unmarshal : Text → Option ParamItem) (marshal : ParamItem → Text) (now : Text → Text)
    (a : SaveAnswers) (params stored : Dict Text)
    → a.reads ≡ true
    → a.delete_error ≡ none
    → first_error a.resource_error (first_error a.owner_error a.create_error) ≢ none
    → (e : Text) × (create_params_config_map unmarshal marshal now a params (some stored)
        ≡ (err (call_failed e), none))
unfolding create_params_config_map create_after_delete
failed_save_loses unmarshal marshal now a params stored r d f =
    elim (Option-cases (first_error a.resource_error (first_error a.owner_error a.create_error))) [
      | inl h ↦ absurd (f h)
      | inr (e, h) ↦ (e, ground arith)
    ]

create_after_delete-stores :
    (a : SaveAnswers) (contents : Dict Text) (stored : Option (Dict Text))
    → (create_after_delete a contents stored).0 ≡ ok tt
    → (create_after_delete a contents stored).1 ≡ some contents
unfolding create_after_delete
create_after_delete-stores a contents stored e =
    elim (Option-cases (first_error a.resource_error (first_error a.owner_error a.create_error))) [
      | inl h ↦ ground arith
      | inr (x, h) ↦ absurd (ground arith)
    ]

create_params_config_map-stores :
    (unmarshal : Text → Option ParamItem) (marshal : ParamItem → Text) (now : Text → Text)
    (a : SaveAnswers) (params : Dict Text) (stored : Option (Dict Text))
    → (create_params_config_map unmarshal marshal now a params stored).0 ≡ ok tt
    → (create_params_config_map unmarshal marshal now a params stored).1
      ≡ some (convert_params unmarshal marshal now params)
unfolding create_params_config_map
create_params_config_map-stores unmarshal marshal now a params none e =
    create_after_delete-stores a _ none e
create_params_config_map-stores unmarshal marshal now a params (some stored) e =
    elim (Bool-cases a.reads) [
      | inr h ↦ ground (
        arith,
        create_after_delete-stores a (convert_params unmarshal marshal now params) (some stored),
      )
      | inl h ↦ elim (Option-cases a.delete_error) [
        | inl d ↦
            ground (
              arith,
              create_after_delete-stores a (convert_params unmarshal marshal now params) none,
            )
        | inr (x, d) ↦ absurd (ground arith)
      ]
    ]

add_entity-ok :
    (key value : Text) (entity : ParamItem) (rest : Outcome RepositoryError (Dict ParamItem))
    (result : Dict ParamItem)
    → add_entity key value (some entity) rest ≡ ok result
    → (r : Dict ParamItem) × (rest ≡ ok r) × (insert key entity r ≡ result)
add_entity-ok key value entity (err x) result e = cc
add_entity-ok key value entity (ok r) result e = (r, refl, ground arith)

-- What a value becomes.
abbrev pub item_value : (Text → Text) → Text → Option Text → Option ParamItem
item_value now k none = none
item_value now k (some v) =
    some (record { name = k; value = v; update_time = now k; inoperative = [] })

module _ (unmarshal : Text → Option ParamItem) (marshal : ParamItem → Text) (now : Text → Text)
    (round_trip : (item : ParamItem) → unmarshal (marshal item) ≡ some item) where
  read_entries-insert :
      (k : Text) (item : ParamItem) (contents : Dict Text) (result : Dict ParamItem)
      → read_entries unmarshal marshal now contents ≡ ok result
      → (updated : Dict ParamItem) × (read_entries unmarshal marshal now
            (insert k (marshal item) contents)
          ≡ ok updated)
        × ((j : Text) → lookup j updated ≡ (if text_eq k j then some item else lookup j result))
  unfolding read_entries
  read_entries-insert k item [] result e = (
    insert k item [],
    ground (arith, round_trip item),
    λ j. ground (arith, lookup-insert j k item []),
  )
  read_entries-insert k item ((key, value) ∷ contents) result e =
      elim (Option-cases (unmarshal value)) [
        | inl h ↦ absurd (ground arith)
        | inr (entity, h) ↦
            let (r, reads, whole) =
              add_entity-ok key value entity (read_entries unmarshal marshal now contents) result
                (ground arith) in
            elim (Bool-cases (text_eq key k)) [
              | inl same ↦ (
                insert k item r,
                ground (arith, round_trip item),
                λ j. ground (
                  arith,
                  lookup-insert j k item r,
                  lookup-insert j key entity r,
                  text_eq_iff key k,
                  text_eq_iff k j,
                  text_eq_iff key j,
                ),
              )
              | inr differ ↦
                  let (u, reads_u, at) = read_entries-insert k item contents r reads in
                  (
                    insert key entity u,
                    ground arith,
                    λ j. ground (
                      arith,
                      at j,
                      lookup-insert j key entity u,
                      lookup-insert j key entity r,
                      text_eq_iff key k,
                      text_eq_iff k j,
                      text_eq_iff key j,
                    ),
                  )
            ]
      ]

  converted-reads :
      (params : Dict Text)
      → (items : Dict ParamItem) × (read_entries unmarshal marshal now
            (convert_params unmarshal marshal now params)
          ≡ ok items)
        × ((k : Text) → lookup k items ≡ item_value now k (lookup k params))
  unfolding read_entries convert_params
  converted-reads [] = ([], refl, λ k. refl)
  converted-reads ((key, value) ∷ params) =
      let (rest, reads, each) = converted-reads params in
      let item : ParamItem = record {
        name = key;
        value = value;
        update_time = now key;
        inoperative = [];
      } in
      let (items, reads_items, at) =
        read_entries-insert key item (convert_params unmarshal marshal now params) rest reads in
      (items, reads_items, λ k. ground (arith, at k, each k, text_eq_iff key k))

-- Where JSON round-trips and none of the calls of the save fails, the parameters that are read back
-- from the new config map are exactly those that were saved, each with its value, the time of its save
-- and no inoperative value.
pub saved_params-read :
    (unmarshal : Text → Option ParamItem) (marshal : ParamItem → Text) (now : Text → Text)
    (a : SaveAnswers) (params : Dict Text) (stored : Option (Dict Text))
    → ((item : ParamItem) → unmarshal (marshal item) ≡ some item)
    → (create_params_config_map unmarshal marshal now a params stored).0 ≡ ok tt
    → (items : Dict ParamItem) × (get_params_config_map_values unmarshal marshal now
          (create_params_config_map unmarshal marshal now a params stored).1
        ≡ ok items)
      × ((k : Text) → lookup k items ≡ item_value now k (lookup k params))
unfolding get_params_config_map_values
saved_params-read unmarshal marshal now a params stored round_trip saved =
    let (items, reads, each) = converted-reads unmarshal marshal now round_trip params in
    let holds = create_params_config_map-stores unmarshal marshal now a params stored saved in
    (items, ap (get_params_config_map_values unmarshal marshal now) holds ∙ reads, each)
