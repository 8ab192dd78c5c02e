-- ===== src/Version.antt =====
-- utils/version/polar_version_func.go: the ids of the pod and the container that the process runs in, from
-- the text of /proc/self/cgroup.
mod RoundTrip
mod Tests
use polar_db_stack_common.Common.{
  ℕ, zero, suc, ◌+◌, ◌-◌, ◌≡◌, Bool, true, false, not, ◌&&◌, List, [], ◌∷◌, ◌++◌, Option, none,
  some, if◌then◌else◌, ◌==◌, length,
}
use polar_db_stack_common.Common.Text.{
  Text, codes, text_eq, trim_space, index_byte, take, drop, split_byte, starts_with, has_substring,
}
use polar_db_stack_common.Common.Outcome.{Outcome, ok, err}
use mathlib.Core.List.{reverse}

-- `strings.SplitN` for a separator of one byte.
abbrev pub split_n : ℕ → ℕ → Text → List Text
split_n c zero s = []
split_n c (suc zero) s = s ∷ []
split_n c (suc (suc n)) s = elim (index_byte c s) [
  | none ↦ s ∷ []
  | some i ↦ take i s ∷ split_n c (suc n) (drop (suc i) s)
]

-- `strings.HasSuffix(s, p)`
abbrev pub has_suffix : Text → Text → Bool
has_suffix p s = starts_with (reverse p) (reverse s)

-- `s[:len(s)-n]`
abbrev pub drop_last : ℕ → Text → Text
drop_last n s = take (length s - n) s

-- `strings.ReplaceAll(s, "_", "-")`
abbrev pub dashes : Text → Text
dashes [] = []
dashes (c ∷ s) = (if c == b'_' then b'-' else c) ∷ dashes s

abbrev pub empty_text : Text → Bool
empty_text s = text_eq s []

-- The loop of parseContainerId, over the parts from the last on.
abbrev pub last_part : List Text → Text
last_part [] = []
last_part (p ∷ ps) = if empty_text (trim_space p) then last_part ps else trim_space p

abbrev pub container_of : Text → Text
container_of docker_path =
    if empty_text docker_path
    then []
    else if has_suffix (codes ".scope") docker_path && starts_with (codes "docker-") docker_path
    then trim_space (drop 7 (drop_last 6 docker_path))
    else if has_suffix (codes ".scope") docker_path
    then trim_space (drop_last 6 docker_path)
    else if starts_with (codes "docker-") docker_path
    then trim_space (drop 7 docker_path)
    else docker_path

unfoldable pub parse_container_id : Text → Text
parse_container_id path = container_of (last_part (reverse (split_byte b'/' path)))

-- The id that follows a prefix of this length.
abbrev pub pod_of : ℕ → Text → Text
pod_of offset pod_path =
    if has_suffix (codes ".slice") pod_path
    then dashes (drop offset (drop_last 6 pod_path))
    else dashes (drop offset pod_path)

-- The loop of parsePodId, over the parts from the one before the last on.
abbrev pub pod_part : List Text → Text
pod_part [] = []
pod_part (part ∷ parts) =
    let rest = pod_part parts in
    let p = trim_space part in
    if empty_text p
    then rest
    else if starts_with (codes "kubepods-pod") p
    then pod_of 12 p
    else if starts_with (codes "kubepods-burstable-pod") p
    then pod_of 22 p
    else if starts_with (codes "kubepods-besteffort-pod") p
    then pod_of 23 p
    else rest

abbrev pub without_last : List Text → List Text
without_last [] = []
without_last (last ∷ parts) = parts

unfoldable pub parse_pod_id : Text → Text
parse_pod_id path = pod_part (without_last (reverse (split_byte b'/' path)))

abbrev pub of_fields : List Text → Option (Text × Text)
of_fields (number ∷ subsystem ∷ cgroup ∷ []) =
    if has_substring (codes "memory") (trim_space subsystem) && not (empty_text (trim_space cgroup))
    then some (parse_pod_id (trim_space cgroup), parse_container_id (trim_space cgroup))
    else none
of_fields _ = none

-- The loop over the lines.
abbrev pub ids_of_lines : List Text → Outcome Text (Text × Text)
ids_of_lines [] = err (codes "cgroup memory not found")
ids_of_lines (line ∷ lines) = elim (of_fields (split_n b':' 3 (trim_space line))) [
  | some ids ↦ ok ids
  | none ↦ ids_of_lines lines
]

-- `getSelfContainerInfo`, by what reading the file gives.
unfoldable pub get_self_container_info : Outcome Text Text → Outcome Text (Text × Text)
get_self_container_info (err e) = err e
get_self_container_info (ok contents) = ids_of_lines (split_byte b'\n' contents)
