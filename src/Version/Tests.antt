-- ===== src/Version/Tests.antt =====
-- Runs of utils/version/polar_version_func.go on lines of a cgroup file.
use polar_db_stack_common.Common.{◌≡◌, refl, ◌∷◌, ◌++◌, arith}
use polar_db_stack_common.Common.Text.{codes, trim_space, split_byte, has_substring}
use polar_db_stack_common.Common.Outcome.{ok}
use polar_db_stack_common.Version.{
  get_self_container_info, parse_pod_id, parse_container_id, dashes,
}
use polar_db_stack_common.Version.RoundTrip.{pod_part_of, docker_part, ids_of_path}

memory_line :
    get_self_container_info (
      ok (
        codes "5:freezer:/x\n4:memory:/kubepods.slice/kubepods-podaa_d4.slice/docker-4786.scope\n"))
    ≡ ok (codes "aa-d4", codes "4786")
unfolding get_self_container_info parse_pod_id parse_container_id trim_space split_byte
    has_substring
memory_line = refl

ids_of_path_example :
    (parse_pod_id (
        (codes "/kubepods.slice" ++ b'/' ∷ pod_part_of (codes "aa_d4"))
        ++ b'/' ∷ docker_part (codes "4786"))
      ≡ dashes (codes "aa_d4"))
    × (parse_container_id (
          (codes "/kubepods.slice" ++ b'/' ∷ pod_part_of (codes "aa_d4"))
          ++ b'/' ∷ docker_part (codes "4786"))
        ≡ codes "4786")
ids_of_path_example =
    ids_of_path (codes "/kubepods.slice") (codes "aa_d4") (codes "4786") (ground arith)
      (ground arith) (ground arith) (ground arith)
