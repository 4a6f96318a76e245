-- ===== src/Catalog/Expired.antt =====
-- What `cleanup_expired` of app/catalog.py does to what has expired, in terms of the times.
use personal_vault_rag.Prelude.{
  All, List, Option, String, false, map, same, seconds, some, true, ℕ, ◌*◌, ◌+◌, ◌<◌, ◌≡◌, ◌≤◌,
}
use personal_vault_rag.Db.{Preview}
use personal_vault_rag.Table.{select}
use personal_vault_rag.Table.Each.{has}
use personal_vault_rag.Table.Rows.{Place}
use personal_vault_rag.Catalog.{Catalog}
use personal_vault_rag.Catalog.Cleanup.{
  is_stale, is_waiting, is_unclaimed, is_over, is_old, cleanup_expired,
}
use personal_vault_rag.Catalog.Expiry.{Recovers}

-- The file is unlinked.
abbrev pub IsUnlinked : List String → String → Type 0
IsUnlinked unlinked path = has (λ f. same f path) unlinked ≡ true

-- The file that a row names, if it names one.
abbrev pub LosesFile : List String → Option String → Type 0
LosesFile unlinked staged =
    (path : String) → staged ≡ some path → same path "" ≡ false → IsUnlinked unlinked path

module _ (stamp : ℕ) (uuid : String → String) (days : ℕ) where
  abbrev pub preview_end : Preview → ℕ
  preview_end p = p.created_at + seconds (days * 86400)

  -- What a cleanup of `c` has left, `c'`, and unlinked.
  pub record IsCleaned (c c' : Catalog) (unlinked : List String) : Type 0 where
    pub staged :
        All
          (λ v.
            (path : String) (t : ℕ)
            → v.raw_staging_path ≡ some path
            → v.raw_expires_at ≡ some t
            → stamp ≤ t)
          c'.versions
    pub waiting : All (λ a. is_waiting a.state ≡ true → stamp ≤ a.expires_at) c'.artifacts
    pub inspections : All (λ i. stamp ≤ i.expires_at) c'.inspections
    pub previews : All (λ p. stamp ≤ preview_end p) c'.previews
    pub kept_artifacts : All (λ a. stamp ≤ a.expires_at → Place a c'.artifacts) c.artifacts
    pub kept_inspections : All (λ i. stamp ≤ i.expires_at → Place i c'.inspections) c.inspections
    pub kept_previews : All (λ p. stamp ≤ preview_end p → Place p c'.previews) c.previews
    pub version_files :
        All
          (λ v.
            (t : ℕ) → v.raw_expires_at ≡ some t → t < stamp → LosesFile unlinked v.raw_staging_path)
          c.versions
    pub artifact_files :
        All
          (λ a.
            is_waiting a.state ≡ true → a.expires_at < stamp → LosesFile unlinked a.staging_path)
          c.artifacts
    pub inspection_files :
        All (λ i. i.expires_at < stamp → LosesFile unlinked i.staging_path) c.inspections
    pub preview_files : All (λ p. preview_end p < stamp → IsUnlinked unlinked p.path) c.previews
    pub recovers :
        All
          (λ p. preview_end p < stamp → Recovers stamp uuid (p.vault_id, p.version_id) c')
          c.previews

  module _ (c : Catalog) where
    abbrev unlinked_paths : List String
    unlinked_paths = (cleanup_expired stamp uuid c days).1

    abbrev version_paths : List (Option String)
    version_paths = map (λ v. v.raw_staging_path) (select (is_stale stamp) c.versions)

    abbrev artifact_paths : List (Option String)
    artifact_paths = map (λ a. a.staging_path) (select (is_unclaimed stamp) c.artifacts)

    abbrev inspection_paths : List (Option String)
    inspection_paths = map (λ i. i.staging_path) (select (is_over stamp) c.inspections)

    abbrev preview_paths : List String
    preview_paths = map (λ p. p.path) (select (is_old stamp days) c.previews)
