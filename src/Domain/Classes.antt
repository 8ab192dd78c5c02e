-- ===== src/Domain/Classes.antt =====
-- business/domain/engine_class.go: the classes of an engine type, cached once they are listed.
use polar_db_stack_common.Common.{
  ◌≡◌, sym, ap, ◌∙◌, inl, inr, List, [], ◌∷◌, Option, none, some, if◌then◌else◌, arith, Bool-cases,
}
use polar_db_stack_common.Common.Text.{Text, text_eq, text_eq_iff}
use polar_db_stack_common.Common.Dict.{Dict}
use polar_db_stack_common.Common.Outcome.{Outcome, ok, err, ◌>>=◌}

-- The quantities are the texts that resource.Quantity prints.
pub record InstanceResource : Type 0 where
  pub cpu_cores : Text
  pub limit_memory : Text
  pub config : Text

-- The fields that this package reads.
pub record EngineClass : Type 0 where
  pub name : Text
  pub class_key : Text
  pub resource : Dict InstanceResource

pub data ClassError : Type 0 where
  engine_type_empty class_query_nil : ClassError
  class_query_failed : Text → ClassError
  class_not_found : Text → ClassError

-- `IClassQuery.GetClasses(engineType, classKey)`: the list is assigned along with the error.
abbrev pub ClassQuery : Type 0
ClassQuery = Text → Text → List EngineClass × Option Text

-- A nil list and an empty one are treated alike.
pub record EngineClasses : Type 0 where
  pub engine_type : Text
  pub class_query : ClassQuery
  pub class_list : List EngineClass

unfoldable pub new_engine_classes : Text → Option ClassQuery → Outcome ClassError EngineClasses
new_engine_classes [] class_query = err engine_type_empty
new_engine_classes (c ∷ engine_type) none = err class_query_nil
new_engine_classes (c ∷ engine_type) (some class_query) =
    ok (record { engine_type = c ∷ engine_type; class_query = class_query; class_list = [] })

abbrev of_answer {ℓ} : {A : Type ℓ} → Option Text → A → Outcome ClassError A
of_answer none a = ok a
of_answer (some e) a = err (class_query_failed e)

-- `GetClassList`: what it returns, and the object afterwards.
unfoldable pub get_class_list :
    EngineClasses → Outcome ClassError (List EngineClass) × EngineClasses
get_class_list c = elim c.class_list [
  | [] ↦
      let answer = c.class_query c.engine_type [] in
      (of_answer answer.1 answer.0, record c { class_list = answer.0 })
  | class ∷ classes ↦ (ok (class ∷ classes), c)
]

unfoldable pub find_class : Text → List EngineClass → Outcome ClassError EngineClass
find_class key [] = err (class_not_found key)
find_class key (class ∷ classes) =
    if text_eq class.class_key key then ok class else find_class key classes

unfoldable pub get_class : EngineClasses → Text → Outcome ClassError EngineClass
get_class c key = elim c.class_list [
  | [] ↦
      let answer = c.class_query c.engine_type key in of_answer answer.1 answer.0 >>= find_class key
  | class ∷ classes ↦ find_class key (class ∷ classes)
]

-- Where a class is found, it has the key that was asked for.
pub find_class-key :
    (key : Text) (classes : List EngineClass) (class : EngineClass)
    → find_class key classes ≡ ok class
    → class.class_key ≡ key
unfolding find_class
find_class-key key [] class e = cc
find_class-key key (c ∷ classes) class e = elim (Bool-cases (text_eq c.class_key key)) [
  | inl h ↦
      let same : c ≡ class = ground arith in
      ap (λ (x : EngineClass). x.class_key) (sym same) ∙ (text_eq_iff c.class_key key).0 h
  | inr h ↦ find_class-key key classes class (ground arith)
]
