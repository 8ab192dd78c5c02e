-- ===== src/Params/Repository.antt =====
-- The config maps of parameters in business/adapter/engine_params_repository.go: how they are
-- created, and how they are read. The JSON form of an item is an argument.
pub mod RoundTrip
use polar_db_stack_common.Common.{
  ◌≡◌, refl, sym, ap, ◌∙◌, ◌⊎◌, inl, inr, Bool, true, false, List, [], ◌∷◌, Option, none, some,
  arith, Bool-cases, if◌then◌else◌,
}
use polar_db_stack_common.Common.Text.{Text, text_eq, text_eq_iff}
use polar_db_stack_common.Common.Dict.{Dict, lookup, insert, lookup-insert}
use polar_db_stack_common.Common.Outcome.{Outcome, ok, err}
use polar_db_stack_common.Params.Item.{ParamItem}

pub data RepositoryError : Type 0 where
  not_read : RepositoryError
  not_unmarshalled : Text → RepositoryError
  call_failed : Text → RepositoryError

-- The errors of the calls that createParamsConfigMap makes, in their order, and whether the existing
-- config map could be read.
pub record SaveAnswers : Type 0 where
  pub reads : Bool
  pub delete_error : Option Text
  pub resource_error : Option Text
  pub owner_error : Option Text
  pub create_error : Option Text

-- The first error of two calls.
abbrev pub first_error : Option Text → Option Text → Option Text
first_error none e = e
first_error (some d) e = some d

abbrev pub create_result :
    Option Text
    → Dict Text
    → Option (Dict Text)
    → Outcome RepositoryError (Unit {0}) × Option (Dict Text)
create_result none contents stored = (ok tt, some contents)
create_result (some e) contents stored = (err (call_failed e), stored)

-- After the existing config map, if it was read, is deleted: what the calls up to the create give.
unfoldable pub create_after_delete :
    SaveAnswers
    → Dict Text
    → Option (Dict Text)
    → Outcome RepositoryError (Unit {0}) × Option (Dict Text)
create_after_delete a contents stored =
    create_result (first_error a.resource_error (first_error a.owner_error a.create_error)) contents
      stored

abbrev pub delete_result :
    SaveAnswers
    → Option Text
    → Dict Text
    → Option (Dict Text)
    → Outcome RepositoryError (Unit {0}) × Option (Dict Text)
delete_result a none contents stored = create_after_delete a contents none
delete_result a (some e) contents stored = (err (call_failed e), stored)

-- One entry of the config map in front of the others.
abbrev pub add_entity :
    Text
    → Text
    → Option ParamItem
    → Outcome RepositoryError (Dict ParamItem)
    → Outcome RepositoryError (Dict ParamItem)
add_entity key value none rest = err (not_unmarshalled value)
add_entity key value (some entity) (err e) = err e
add_entity key value (some entity) (ok result) = ok (insert key entity result)

module _ (unmarshal : Text → Option ParamItem) (marshal : ParamItem → Text)
    (now : Text → Text) where
  -- The clock is read for each item; `now` gives the time that the item of a key gets.
  abbrev pub new_item : Text → Text → ParamItem
  new_item key value = record { name = key; value = value; update_time = now key; inoperative = [] }

  -- `convertParams`
  unfoldable pub convert_params : Dict Text → Dict Text
  convert_params [] = []
  convert_params ((key, value) ∷ params) =
      insert key (marshal (new_item key value)) (convert_params params)

  -- `createParamsConfigMap`: the error, and the data of the config map afterwards, `none` for none.
  unfoldable pub create_params_config_map :
      SaveAnswers
      → Dict Text
      → Option (Dict Text)
      → Outcome RepositoryError (Unit {0}) × Option (Dict Text)
  create_params_config_map a params none = create_after_delete a (convert_params params) none
  create_params_config_map a params (some stored) =
      if a.reads
      then delete_result a a.delete_error (convert_params params) (some stored)
      else create_after_delete a (convert_params params) (some stored)

  unfoldable pub read_entries : Dict Text → Outcome RepositoryError (Dict ParamItem)
  read_entries [] = ok []
  read_entries ((key, value) ∷ contents) =
      add_entity key value (unmarshal value) (read_entries contents)

  -- `getParamsConfigMapValues`
  unfoldable pub get_params_config_map_values :
      Option (Dict Text) → Outcome RepositoryError (Dict ParamItem)
  get_params_config_map_values none = err not_read
  get_params_config_map_values (some contents) = read_entries contents
