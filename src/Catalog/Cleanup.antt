-- ===== src/Catalog/Cleanup.antt =====
-- What expires: `cleanup_expired` of app/catalog.py.
use personal_vault_rag.Prelude.{
  Bool, List, Option, String, [], false, if◌then◌else◌, is_some, ltb, map, none, same, seconds,
  some, true, ℕ, ◌*◌, ◌&&◌, ◌++◌, ◌+◌, ◌∷◌,
}
use personal_vault_rag.Db.{
  Version, Preview, EmbeddingBatch, ArtifactState, PendingArtifact, TemporaryInspection,
}
use personal_vault_rag.Table.{select, update, delete}
use personal_vault_rag.Table.Each.{has}
use personal_vault_rag.Jobs.{create_job}
use personal_vault_rag.Catalog.{Catalog, is_version}

-- `raw_staging_path IS NOT NULL AND raw_expires_at<?`
abbrev pub is_stale : (stamp : ℕ) → Version → Bool
is_stale stamp v =
    is_some v.raw_staging_path && elim v.raw_expires_at [ none ↦ false | some t ↦ ltb t stamp ]

-- `state IN ('pending','failed')`
abbrev pub is_waiting : ArtifactState → Bool
is_waiting ArtifactState.pending = true
is_waiting ArtifactState.failed = true
is_waiting _ = false

abbrev pub is_unclaimed : (stamp : ℕ) → PendingArtifact → Bool
is_unclaimed stamp a = is_waiting a.state && ltb a.expires_at stamp

abbrev pub is_over : (stamp : ℕ) → TemporaryInspection → Bool
is_over stamp i = ltb i.expires_at stamp

-- `created_at<stamp-preview_ttl_days*86400`, without the negative numbers
abbrev pub is_old : (stamp preview_ttl_days : ℕ) → Preview → Bool
is_old stamp preview_ttl_days p = ltb (p.created_at + seconds (preview_ttl_days * 86400)) stamp

abbrev pub unstaged : Version → Version
unstaged v = record v { raw_staging_path = none }

abbrev pub expire : PendingArtifact → PendingArtifact
expire a = record a { state = ArtifactState.expired; staging_path = none }

abbrev pub recover : Version → Version
recover v = record v {
  preview_bytes = 0;
  visual_indexed_at = none;
  visual_model = none;
  visual_recovery_needed = true;
}

abbrev pub is_visual_batch : (vault_id version_id : String) → EmbeddingBatch → Bool
is_visual_batch vault_id version_id b =
    same b.vault_id vault_id && same b.version_id version_id && same b.modality "visual"

-- `if path: unlink`: the paths that are neither NULL nor empty.
unfoldable pub files : List (Option String) → List String
files [] = []
files (none ∷ os) = files os
files (some s ∷ os) = let rest = files os in if same s "" then rest else s ∷ rest

abbrev pub same_pair : String × String → String × String → Bool
same_pair (a, b) (x, y) = same x a && same y b

-- The set of the versions of these previews, in the order of their last preview.
unfoldable pub expired_versions : List Preview → List (String × String)
expired_versions [] = []
expired_versions (p ∷ ps) =
    let rest = expired_versions ps in
    let pair : String × String = (p.vault_id, p.version_id) in
    if has (same_pair pair) rest then rest else pair ∷ rest

-- A version's identifier makes the identifier of a new job.
module _ (stamp : ℕ) (uuid : String → String) where
  -- The loop over the versions that lost a preview.
  unfoldable pub recover_versions : List (String × String) → Catalog → Catalog
  recover_versions [] c = c
  recover_versions ((vault_id, version_id) ∷ pairs) c = recover_versions pairs (record c {
    batches = delete (is_visual_batch vault_id version_id) c.batches;
    versions = update (is_version vault_id version_id) recover c.versions;
    jobs =
        (create_job c.jobs stamp (uuid version_id) vault_id "delete_version_vectors"
          (("version_id", version_id) ∷ ("modality", "visual") ∷ []) 20).0;
  })

  -- The catalog and the files that are unlinked.
  unfoldable pub cleanup_expired : Catalog → (preview_ttl_days : ℕ) → Catalog × List String
  unfolding files expired_versions recover_versions
  cleanup_expired c preview_ttl_days =
      let previews = select (is_old stamp preview_ttl_days) c.previews in
      (
        recover_versions (expired_versions previews) (record c {
          versions = update (is_stale stamp) unstaged c.versions;
          artifacts = update (is_unclaimed stamp) expire c.artifacts;
          inspections = delete (is_over stamp) c.inspections;
          previews = delete (is_old stamp preview_ttl_days) c.previews;
        }),
        files (
              map (λ v. v.raw_staging_path) (select (is_stale stamp) c.versions)
              ++ map (λ a. a.staging_path) (select (is_unclaimed stamp) c.artifacts))
            ++ files (map (λ i. i.staging_path) (select (is_over stamp) c.inspections))
            ++ map (λ p. p.path) previews,
      )
