-- ===== src/Domain/Versions.antt =====
-- business/domain/minor_version.go: the kernel versions of an engine type and the latest of them.
use polar_db_stack_common.Common.{
  ◌≡◌, refl, ap, ◌∙◌, ◌⊎◌, inl, inr, false, List, [], ◌∷◌, Option, none, some, if◌then◌else◌, arith,
  Bool-cases,
}
use polar_db_stack_common.Common.Text.{Text, text_eq, text_eq_iff}
use polar_db_stack_common.Common.Dict.{Dict}
use polar_db_stack_common.Common.Outcome.{Outcome, ok, err}

pub record MinorVersion : Type 0 where
  pub name : Text
  pub images : Dict Text

pub data VersionError : Type 0 where
  engine_type_empty query_nil : VersionError
  query_failed : Text → VersionError
  latest_not_found : Text → VersionError

-- The answer of `GetMinorVersions`: all three parts are assigned, also with an error.
pub record VersionList : Type 0 where
  pub latest : Text
  pub versions : List MinorVersion
  pub failure : Option Text

pub record VersionQuery : Type 0 where
  pub get_minor_versions : Text → VersionList
  pub get_latest_minor_version : Text → Outcome Text MinorVersion
  pub get_minor_version : Text → Text → Outcome Text MinorVersion

-- A nil list and an empty one are treated alike.
pub record MinorVersions : Type 0 where
  pub engine_type : Text
  pub latest_version : Text
  pub minor_versions : List MinorVersion
  pub repository : VersionQuery

unfoldable pub new_minor_version : Text → Option VersionQuery → Outcome VersionError MinorVersions
new_minor_version [] repository = err engine_type_empty
new_minor_version (c ∷ engine_type) none = err query_nil
new_minor_version (c ∷ engine_type) (some repository) = ok (record {
  engine_type = c ∷ engine_type;
  latest_version = [];
  minor_versions = [];
  repository = repository;
})

abbrev of_failure {ℓ} : {A : Type ℓ} → Option Text → A → Outcome VersionError A
of_failure none a = ok a
of_failure (some e) a = err (query_failed e)

abbrev of_query {ℓ} : {A : Type ℓ} → Outcome Text A → Outcome VersionError A
of_query (ok a) = ok a
of_query (err e) = err (query_failed e)

-- `GetMinorVersionList`: what it returns, and the object afterwards.
unfoldable pub get_minor_version_list :
    MinorVersions → Outcome VersionError (List MinorVersion) × MinorVersions
get_minor_version_list v = elim v.minor_versions [
  | [] ↦
      let answer = v.repository.get_minor_versions v.engine_type in
      (
        of_failure answer.failure answer.versions,
        record v { latest_version = answer.latest; minor_versions = answer.versions },
      )
  | version ∷ versions ↦ (ok (version ∷ versions), v)
]

unfoldable pub find_version : Text → List MinorVersion → Outcome VersionError MinorVersion
find_version name [] = err (latest_not_found name)
find_version name (version ∷ versions) =
    if text_eq version.name name then ok version else find_version name versions

unfoldable pub get_latest_minor_version : MinorVersions → Outcome VersionError MinorVersion
get_latest_minor_version v = elim v.minor_versions [
  | [] ↦ of_query (v.repository.get_latest_minor_version v.engine_type)
  | version ∷ versions ↦ find_version v.latest_version (version ∷ versions)
]

abbrev pub Listed : Text → List MinorVersion → Type 0
Listed name [] = ⊥
Listed name (version ∷ versions) = (version.name ≡ name) ⊎ Listed name versions

later :
    (name : Text) (version : MinorVersion) (versions : List MinorVersion)
    → text_eq version.name name ≡ false
    → Listed name (version ∷ versions)
    → Listed name versions
later name version versions differ (inl same) = ground (arith, text_eq_iff version.name name)
later name version versions differ (inr listed) = listed

find_version-Listed :
    (name : Text) (versions : List MinorVersion)
    → Listed name versions
    → (version : MinorVersion) × (find_version name versions ≡ ok version) × (version.name ≡ name)
unfolding find_version
find_version-Listed name [] h = absurd h
find_version-Listed name (version ∷ versions) h = elim (Bool-cases (text_eq version.name name)) [
  | inl same ↦ (version, ground arith, (text_eq_iff version.name name).0 same)
  | inr differ ↦
      let listed : Listed name versions = later name version versions differ h in
      let (found, e, named) = find_version-Listed name versions listed in
      (found, ground arith, named)
]

latest-cached :
    (v : MinorVersions) (versions : List MinorVersion)
    → v.minor_versions ≡ versions
    → Listed v.latest_version versions
    → get_latest_minor_version v ≡ find_version v.latest_version versions
unfolding get_latest_minor_version
latest-cached v [] e h = absurd h
latest-cached v (version ∷ versions) e h = ground arith

get_minor_version_list-asks :
    (v : MinorVersions)
    → v.minor_versions ≡ []
    → get_minor_version_list v ≡ (
      of_failure
          (v.repository.get_minor_versions v.engine_type).failure
          (v.repository.get_minor_versions v.engine_type).versions,
      record v {
        latest_version = (v.repository.get_minor_versions v.engine_type).latest;
        minor_versions = (v.repository.get_minor_versions v.engine_type).versions;
      },
    )
unfolding get_minor_version_list
get_minor_version_list-asks v e = ground arith

-- Where the versions are listed without an error and the answer has the version that it calls the
-- latest, GetLatestMinorVersion then returns a version of that name, without a query.
pub latest-Listed :
    (v : MinorVersions)
    → v.minor_versions ≡ []
    → (v.repository.get_minor_versions v.engine_type).failure ≡ none
    → Listed
        (v.repository.get_minor_versions v.engine_type).latest
        (v.repository.get_minor_versions v.engine_type).versions
    → ((get_minor_version_list v).0 ≡ ok (v.repository.get_minor_versions v.engine_type).versions)
      × (version : MinorVersion) × (get_latest_minor_version (get_minor_version_list v).1
          ≡ ok version)
      × (version.name ≡ (v.repository.get_minor_versions v.engine_type).latest)
latest-Listed v empty fine listed =
    let answer = v.repository.get_minor_versions v.engine_type in
    let asked = get_minor_version_list-asks v empty in
    let after : MinorVersions = record v {
      latest_version = answer.latest;
      minor_versions = answer.versions;
    } in
    let (version, found, named) = find_version-Listed answer.latest answer.versions listed in
    (
      ap (λ r. r.0) asked ∙ ap (λ f. of_failure f answer.versions) fine,
      version,
      ap (λ r. get_latest_minor_version r.1) asked
          ∙ latest-cached after answer.versions refl listed
          ∙ found,
      named,
    )
