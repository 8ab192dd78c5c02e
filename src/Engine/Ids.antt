-- ===== src/Engine/Ids.antt =====
-- business/adapter/id_generator.go: GetNextClusterScopeHostInsIds. The mutex makes a call one step;
-- the config map that holds the next id is the state, `none` where its data is a nil map.
pub mod Counter
use polar_db_stack_common.Common.{
  ℕ, zero, suc, ◌≡◌, Bool, List, [], ◌∷◌, Option, none, some, if◌then◌else◌,
}
use polar_db_stack_common.Common.Int.{ℤ, pos, pos_part, int_add}
use polar_db_stack_common.Common.Text.{Text, codes}
use polar_db_stack_common.Common.Decimal.{atoi, itoa}
use polar_db_stack_common.Common.Dict.{Dict, lookup, insert}
use polar_db_stack_common.Common.Outcome.{Outcome, ok, err, ◌>>=◌, or_fail}

pub data IdError : Type 0 where
  -- the config map cannot be read
  no_config_map : Text → IdError
  -- "strconv.Atoi error"
  not_a_number : Text → IdError
  -- the assignment to an entry of a nil map panics
  nil_map : IdError
  -- "can not update NextClusterScopeCustInsId"
  not_updated : IdError

abbrev pub next_cluster_scope_cust_ins_id_key : Text
next_cluster_scope_cust_ins_id_key = codes "NextClusterScopeCustInsId"

abbrev pub default_next_cluster_scope_cust_ins_id : Text
default_next_cluster_scope_cust_ins_id = codes "1000"

abbrev pub entries : Option (Dict Text) → Dict Text
entries none = []
entries (some contents) = contents

-- The text that the next id is read from.
unfoldable pub stored_id : Option (Dict Text) → Text
stored_id stored = elim (lookup next_cluster_scope_cust_ins_id_key (entries stored)) [
  | none ↦ default_next_cluster_scope_cust_ins_id
  | some text ↦ text
]

-- `id + i` for the count indices from i on.
unfoldable pub ids_from : ℤ → ℕ → ℕ → List ℤ
ids_from id i zero = []
ids_from id i (suc count) = int_add id (pos i) ∷ ids_from id (suc i) count

abbrev write_entry : Text → Option (Dict Text) → Outcome IdError (Dict Text)
write_entry text none = err nil_map
write_entry text (some contents) = ok (insert next_cluster_scope_cust_ins_id_key text contents)

-- The ids handed out, and the data of the config map afterwards. A count below 0 runs no round of
-- the loop, and is added to the stored id as well.
unfoldable pub get_next_cluster_scope_host_ins_ids :
    Outcome Text (Option (Dict Text))
    → (Dict Text → Bool)
    → ℤ
    → Outcome IdError (List ℤ × Dict Text)
get_next_cluster_scope_host_ins_ids (err e) accepts n = err (no_config_map e)
get_next_cluster_scope_host_ins_ids (ok stored) accepts n = do
  id ← or_fail (atoi (stored_id stored)) (not_a_number (stored_id stored))
  updated ← write_entry (itoa (int_add id n)) stored
  if accepts updated then ok (ids_from id zero (pos_part n), updated) else err not_updated
