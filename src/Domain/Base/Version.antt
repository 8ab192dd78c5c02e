-- ===== src/Domain/Base/Version.antt =====
-- InitVersion and InitClass of business/domain/db_cluster_base.go.
use polar_db_stack_common.Common.{◌≡◌, ◌⊎◌, inl, inr, true, none, some, arith, Option-cases}
use polar_db_stack_common.Common.Outcome.{ok, err}
use polar_db_stack_common.Domain.Versions.{MinorVersion, VersionQuery}
use polar_db_stack_common.Domain.Base.{
  nil_dereference, ImageInfo, DbClusterBase, query_version, init_version,
}

-- On an initialised cluster without ImageInfo, for which InitVersion asks for the latest version,
-- the answer is not stored: the assignment dereferences the nil pointer. With ImageInfo, the version
-- that was asked for, the latest where the given one is empty, is stored with its images.
pub init_version_stores :
    (query : VersionQuery) (c : DbClusterBase) (version : MinorVersion)
    → c.inited ≡ true
    → query_version query c.engine_type c.image_info ≡ ok version
    → ((c.image_info ≡ none) × (init_version query c ≡ err nil_dereference))
      ⊎ ((image_info : ImageInfo) × (c.image_info ≡ some image_info)
          × (init_version query c
              ≡ ok (record c {
                image_info = some (record { version = version.name; images = version.images });
              })))
unfolding init_version
init_version_stores query c version i asked = elim (Option-cases c.image_info) [
  | inl h ↦ inl (h, ground arith)
  | inr (image_info, h) ↦ inr (image_info, h, ground arith)
]
