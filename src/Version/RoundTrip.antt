-- ===== src/Version/RoundTrip.antt =====
-- The ids that utils/version/polar_version_func.go finds in a cgroup's path.
use mathlib.Core.List.{reverse, reverse_aux-append}
use polar_db_stack_common.Common.{
  ℕ, ◌-◌, ◌≡◌, ap, ◌∙◌, true, false, List, [], ◌∷◌, ◌++◌, if◌then◌else◌, length, length-append, All,
  arith,
}
use polar_db_stack_common.Common.Text.{
  Text, codes, IsFree, is_space, take, drop, split_byte, starts_with, trim_space, trim_space-eq,
  take-append, split_byte-free, split_byte-last, All-append, IsFree-append,
}
use polar_db_stack_common.Version.{
  has_suffix, drop_last, dashes, empty_text, last_part, container_of, pod_part, without_last,
  parse_container_id, parse_pod_id,
}

-- A text without white space.
abbrev pub IsSolid : Text → Type 0
IsSolid s = All (λ c. is_space c ≡ false) s

drop_last-append : (s t : Text) → drop_last (length t) (s ++ t) ≡ s
drop_last-append s t =
    let n : length (s ++ t) - length t ≡ length s = omega (arith, length-append s t) in
    ap (λ k. take k (s ++ t)) n ∙ take-append s t

reverse-snoc : {A : Type 0} (xs : List A) (x : A) → reverse (xs ++ (x ∷ [])) ≡ x ∷ reverse xs
reverse-snoc xs x = reverse_aux-append xs (x ∷ []) []

abbrev pub docker_part : Text → Text
docker_part id = codes "docker-" ++ (id ++ codes ".scope")

docker_suffix : (id : Text) → has_suffix (codes ".scope") (docker_part id) ≡ true
docker_suffix id =
    ap (λ r. starts_with (reverse (codes ".scope")) r)
      (reverse_aux-append (codes "docker-" ++ id) (codes ".scope") [])

container_of-docker : (id : Text) → IsSolid id → container_of (docker_part id) ≡ id
container_of-docker id solid =
    let suffix = docker_suffix id in
    let cut : drop_last 6 (docker_part id) ≡ codes "docker-" ++ id =
      drop_last-append (codes "docker-" ++ id) (codes ".scope") in
    let trimmed = trim_space-eq id solid in
    rw suffix (ap (λ r. trim_space (drop 7 r)) cut ∙ trimmed)

IsSolid-part :
    (before id after : Text)
    → IsSolid before
    → IsSolid id
    → IsSolid after
    → IsSolid (before ++ (id ++ after))
IsSolid-part before id after b i a = All-append _ before (id ++ after) b (All-append _ id after i a)

last_part-docker :
    (id : Text) (parts : List Text) (part : Text)
    → IsSolid id
    → container_of (last_part (docker_part id ∷ (part ∷ parts))) ≡ id
last_part-docker id parts part solid =
    let trimmed : trim_space (docker_part id) ≡ docker_part id =
      trim_space-eq (docker_part id)
        (IsSolid-part (codes "docker-") id (codes ".scope") (ground arith) solid (ground arith)) in
    ap (λ r. container_of (if empty_text r then last_part (part ∷ parts) else r)) trimmed
    ∙ container_of-docker id solid

abbrev pub pod_part_of : Text → Text
pod_part_of uid = codes "kubepods-pod" ++ (uid ++ codes ".slice")

slice_suffix : (uid : Text) → has_suffix (codes ".slice") (pod_part_of uid) ≡ true
slice_suffix uid =
    ap (λ r. starts_with (reverse (codes ".slice")) r)
      (reverse_aux-append (codes "kubepods-pod" ++ uid) (codes ".slice") [])

IsFree-part :
    (c : ℕ) (before id after : Text)
    → IsFree c before
    → IsFree c id
    → IsFree c after
    → IsFree c (before ++ (id ++ after))
IsFree-part c before id after b i a =
    IsFree-append c before (id ++ after) b (IsFree-append c id after i a)

pod_part-kubepods :
    (uid : Text) (parts : List Text) → IsSolid uid → pod_part (pod_part_of uid ∷ parts) ≡ dashes uid
pod_part-kubepods uid parts solid =
    let trimmed : trim_space (pod_part_of uid) ≡ pod_part_of uid = trim_space-eq (pod_part_of uid) (
      IsSolid-part (codes "kubepods-pod") uid (codes ".slice") (ground arith) solid
        (ground arith)) in
    let suffix = slice_suffix uid in
    let cut : drop_last 6 (pod_part_of uid) ≡ codes "kubepods-pod" ++ uid =
      drop_last-append (codes "kubepods-pod" ++ uid) (codes ".slice") in
    rw trimmed (rw suffix (ap (λ r. dashes (drop 12 r)) cut))

-- Of a path that ends with "/kubepods-pod<uid>.slice/docker-<id>.scope", whatever is before, the pod's id
-- is the uid with dashes for its underscores, and the container's id is the id; the ids have no slash and
-- no white space in them.
pub ids_of_path :
    (before uid id : Text)
    → IsSolid uid
    → IsSolid id
    → IsFree b'/' uid
    → IsFree b'/' id
    → (parse_pod_id ((before ++ b'/' ∷ pod_part_of uid) ++ b'/' ∷ docker_part id) ≡ dashes uid)
      × (parse_container_id ((before ++ b'/' ∷ pod_part_of uid) ++ b'/' ∷ docker_part id) ≡ id)
unfolding parse_pod_id parse_container_id
ids_of_path before uid id solid_uid solid_id free_uid free_id =
    let front = before ++ b'/' ∷ pod_part_of uid in
    let pod_free = split_byte-free b'/' (pod_part_of uid) (
      IsFree-part b'/' (codes "kubepods-pod") uid (codes ".slice") (ground arith) free_uid
        (ground arith)) in
    let docker_free = split_byte-free b'/' (docker_part id) (
      IsFree-part b'/' (codes "docker-") id (codes ".scope") (ground arith) free_id
        (ground arith)) in
    let parts : split_byte b'/' (front ++ b'/' ∷ docker_part id)
        ≡ (split_byte b'/' before ++ (pod_part_of uid ∷ [])) ++ (docker_part id ∷ []) =
      split_byte-last b'/' front (docker_part id) docker_free
      ∙ ap (λ l. l ++ (docker_part id ∷ []))
          (split_byte-last b'/' before (pod_part_of uid) pod_free) in
    let reversed : reverse (split_byte b'/' (front ++ b'/' ∷ docker_part id))
        ≡ docker_part id ∷ (pod_part_of uid ∷ reverse (split_byte b'/' before)) =
      ap reverse parts
      ∙ (reverse-snoc (split_byte b'/' before ++ (pod_part_of uid ∷ [])) (docker_part id)
          ∙ ap (λ l. docker_part id ∷ l)
              (reverse-snoc (split_byte b'/' before) (pod_part_of uid))) in
    (
      ap (λ l. pod_part (without_last l)) reversed
          ∙ pod_part-kubepods uid (reverse (split_byte b'/' before)) solid_uid,
      ap (λ l. container_of (last_part l)) reversed
          ∙ last_part-docker id (reverse (split_byte b'/' before)) (pod_part_of uid) solid_id,
    )
