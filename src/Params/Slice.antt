-- ===== src/Params/Slice.antt =====
-- utils/slice.go, and MapMergeString of utils/util.go.
use polar_db_stack_common.Common.{
  ◌≡◌, refl, Bool, true, false, List, [], ◌∷◌, Option, none, some, arith, if◌then◌else◌,
}
use polar_db_stack_common.Common.Text.{Text, text_eq, text_mem, text_eq_iff}
use polar_db_stack_common.Common.Dict.{Dict, lookup, insert, IsMap, lookup-insert}

-- The modifier may be nil.
abbrev pub modified_eq : Option (Text → Text) → Text → Text → Bool
modified_eq none item s = false
modified_eq (some modifier) item s = text_eq (modifier item) s

unfoldable pub contains_string : List Text → Text → Option (Text → Text) → Bool
contains_string [] s modifier = false
contains_string (item ∷ slice) s modifier =
    let rest = contains_string slice s modifier in
    if text_eq item s then true else if modified_eq modifier item s then true else rest

unfoldable pub remove_string : List Text → Text → Option (Text → Text) → List Text
remove_string [] s modifier = []
remove_string (item ∷ slice) s modifier =
    let rest = remove_string slice s modifier in
    if text_eq item s then rest else if modified_eq modifier item s then rest else item ∷ rest

-- The two loops of `MapMergeString` over maps that are not nil: `m2` first, then `m1`.
unfoldable pub copy_into : Dict Text → Dict Text → Dict Text
copy_into [] nm = nm
copy_into ((k, v) ∷ m) nm = copy_into m (insert k v nm)

-- `none` is the nil map.
unfoldable pub map_merge_string : Option (Dict Text) → Option (Dict Text) → Option (Dict Text)
map_merge_string m1 none = m1
map_merge_string none (some m2) = some m2
map_merge_string (some m1) (some m2) = some (copy_into m1 (copy_into m2 []))

-- What is removed is not found again, under the same modifier.
pub contains-remove :
    (slice : List Text) (s : Text) (modifier : Option (Text → Text))
    → contains_string (remove_string slice s modifier) s modifier ≡ false
unfolding contains_string remove_string
contains-remove [] s modifier = refl
contains-remove (item ∷ slice) s modifier = ground (arith, contains-remove slice s modifier)

pub contains_string-mem :
    (slice : List Text) (s : Text) → contains_string slice s none ≡ text_mem s slice
unfolding contains_string
contains_string-mem [] s = refl
contains_string-mem (item ∷ slice) s =
    ground (arith, contains_string-mem slice s, text_eq_iff item s, text_eq_iff s item)

-- The first map wins, key by key.
abbrev pub either : Option Text → Option Text → Option Text
either none b = b
either (some v) b = some v

pub lookup-copy_into :
    (k : Text) (m nm : Dict Text)
    → IsMap m
    → lookup k (copy_into m nm) ≡ either (lookup k m) (lookup k nm)
unfolding copy_into
lookup-copy_into k [] nm h = refl
lookup-copy_into k ((j, v) ∷ m) nm h =
    ground
      (arith, lookup-copy_into k m (insert j v nm) h.1, lookup-insert k j v nm, text_eq_iff j k)

-- Merging two maps gives each key the value of the first map, and that of the second where the first
-- has none.
pub lookup-map_merge :
    (m1 m2 : Dict Text) (k : Text)
    → IsMap m1
    → IsMap m2
    → (m : Dict Text) × (map_merge_string (some m1) (some m2) ≡ some m)
      × (lookup k m ≡ either (lookup k m1) (lookup k m2))
unfolding map_merge_string
lookup-map_merge m1 m2 k h₁ h₂ = (
  copy_into m1 (copy_into m2 []),
  refl,
  ground (arith, lookup-copy_into k m1 (copy_into m2 []) h₁, lookup-copy_into k m2 [] h₂),
)
