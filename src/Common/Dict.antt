-- ===== src/Common/Dict.antt =====
-- Go maps keyed by strings: association lists in the order of an iteration. A missing key reads as
-- `none`; the index expression of a `map[string]string` reads it as the empty text.
use polar_db_stack_common.Common.{
  ◌≡◌, refl, Bool, List, [], ◌∷◌, Option, none, some, arith, if◌then◌else◌, true, false,
}
use polar_db_stack_common.Common.Text.{Text, text_eq, text_eq_iff}

abbrev pub Dict {ℓ} : Type ℓ → Type ℓ
Dict V = List (Text × V)

module _ {ℓ} {V : Type ℓ} where
  abbrev pub lookup : Text → Dict V → Option V
  lookup k [] = none
  lookup k ((j, v) ∷ d) = if text_eq j k then some v else lookup k d

  abbrev pub insert : Text → V → Dict V → Dict V
  insert k v [] = (k, v) ∷ []
  insert k v ((j, w) ∷ d) = if text_eq j k then (k, v) ∷ d else (j, w) ∷ insert k v d

  -- `delete(d, k)`
  abbrev pub erase : Text → Dict V → Dict V
  erase k [] = []
  erase k ((j, w) ∷ d) = if text_eq j k then erase k d else (j, w) ∷ erase k d

  abbrev pub has_key : Text → Dict V → Bool
  has_key k d = elim (lookup k d) [ none ↦ false | some v ↦ true ]

  -- Each key once, as in a Go map.
  abbrev pub IsMap : Dict V → Type ℓ
  IsMap [] = Unit
  IsMap ((k, v) ∷ d) = (lookup k d ≡ none) × IsMap d

  pub lookup-insert :
      (j k : Text) (v : V) (d : Dict V)
      → lookup j (insert k v d) ≡ (if text_eq k j then some v else lookup j d)
  lookup-insert j k v [] = refl
  lookup-insert j k v ((i, w) ∷ d) =
      ground (arith, text_eq_iff k j, text_eq_iff i k, text_eq_iff i j, lookup-insert j k v d)

  pub lookup-erase :
      (j k : Text) (d : Dict V) → lookup j (erase k d) ≡ (if text_eq k j then none else lookup j d)
  lookup-erase j k [] = ground arith
  lookup-erase j k ((i, w) ∷ d) =
      ground (arith, text_eq_iff k j, text_eq_iff i k, text_eq_iff i j, lookup-erase j k d)

  pub insert-IsMap : (k : Text) (v : V) (d : Dict V) → IsMap d → IsMap (insert k v d)
  insert-IsMap k v [] m = (refl, tt)
  insert-IsMap k v ((i, w) ∷ d) m =
      ground
        (arith, insert-IsMap k v d m.1, lookup-insert i k v d, text_eq_iff i k, text_eq_iff k i)

-- `d[k]` on a map of strings.
abbrev pub text_at : Text → Dict Text → Text
text_at k d = elim (lookup k d) [ none ↦ [] | some v ↦ v ]
