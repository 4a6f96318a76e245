-- ===== src/Catalog/Expiry.antt =====
-- What `cleanup_expired` of app/catalog.py leaves.
use personal_vault_rag.Prelude.{
  All, Bool-cases, and_parts, same_iff, same_refl, List, inl, inr, String, [], arith, false, refl,
  same, true, ℕ, ◌∷◌, ◌≡◌,
}
use personal_vault_rag.Db.{Version, Preview}
use personal_vault_rag.Table.{select, fetch_one}
use personal_vault_rag.Table.Laws.{All-map}
use personal_vault_rag.Table.Each.{All-update, update-All, delete-All, select-none, has}
use personal_vault_rag.Catalog.{Catalog, is_version}
use personal_vault_rag.Catalog.Cleanup.{
  is_stale, is_unclaimed, is_over, is_old, unstaged, expire, recover, expired_versions, same_pair,
  recover_versions, cleanup_expired, files,
}

-- No row passes a test of the cleanup any more.
pub record IsSwept (stamp preview_ttl_days : ℕ) (c : Catalog) : Type 0 where
  pub versions : All (λ v. is_stale stamp v ≡ false) c.versions
  pub artifacts : All (λ a. is_unclaimed stamp a ≡ false) c.artifacts
  pub inspections : All (λ i. is_over stamp i ≡ false) c.inspections
  pub previews : All (λ p. is_old stamp preview_ttl_days p ≡ false) c.previews

module _ (stamp : ℕ) (uuid : String → String) where
  recover_versions-IsSwept :
      (pairs : List (String × String)) (c : Catalog) (days : ℕ)
      → IsSwept stamp days c
      → IsSwept stamp days (recover_versions stamp uuid pairs c)
  unfolding recover_versions
  recover_versions-IsSwept [] c days h = h
  recover_versions-IsSwept ((vault_id, version_id) ∷ pairs) c days h =
      recover_versions-IsSwept pairs _ days (record {
        versions =
            All-update _ _ (is_version vault_id version_id) recover (λ v e fits. e) (λ v e fits. e)
              c.versions h.versions;
        artifacts = h.artifacts;
        inspections = h.inspections;
        previews = h.previews;
      })

  pub cleanup_expired-IsSwept :
      (c : Catalog) (days : ℕ) → IsSwept stamp days (cleanup_expired stamp uuid c days).0
  unfolding cleanup_expired
  cleanup_expired-IsSwept c days =
      recover_versions-IsSwept (expired_versions (select (is_old stamp days) c.previews)) _ days
        (record {
          versions = update-All _ (is_stale stamp) unstaged (λ v e. refl) (λ v e. e) c.versions;
          artifacts = update-All _ (is_unclaimed stamp) expire (λ a e. refl) (λ a e. e) c.artifacts;
          inspections = delete-All (is_over stamp) c.inspections;
          previews = delete-All (is_old stamp days) c.previews;
        })

  -- A clean catalog is cleaned up without removing a file.
  cleanup_expired-clean :
      (c : Catalog) (days : ℕ) → IsSwept stamp days c → (cleanup_expired stamp uuid c days).1 ≡ []
  unfolding cleanup_expired files
  cleanup_expired-clean c days h =
      rw
        (
          select-none _ _ h.versions,
          select-none _ _ h.artifacts,
          select-none _ _ h.inspections,
          select-none _ _ h.previews,
        )
        refl

  -- A second cleanup at the same time removes no file.
  pub cleanup_expired_twice :
      (c : Catalog) (days : ℕ)
      → (cleanup_expired stamp uuid (cleanup_expired stamp uuid c days).0 days).1 ≡ []
  cleanup_expired_twice c days =
      cleanup_expired-clean (cleanup_expired stamp uuid c days).0 days
        (cleanup_expired-IsSwept c days)

  -- A version that lost a preview waits for new ones.
  abbrev pub Recovers : String × String → Catalog → Type 0
  Recovers (vault_id, version_id) c =
      All (λ v. is_version vault_id version_id v ≡ true → v.visual_recovery_needed ≡ true)
        c.versions

  same_version :
      (pair : String × String) (vault_id version_id : String) (v : Version)
      → same_pair pair (vault_id, version_id) ≡ true
      → is_version vault_id version_id v ≡ is_version pair.0 pair.1 v
  same_version pair vault_id version_id v e =
      let parts = and_parts (same vault_id pair.0) (same version_id pair.1) e in
      rw ((same_iff _ _).0 parts.0, (same_iff _ _).0 parts.1) refl

  recover_versions-keeps :
      (pairs : List (String × String)) (c : Catalog) (pair : String × String)
      → Recovers pair c
      → Recovers pair (recover_versions stamp uuid pairs c)
  unfolding recover_versions
  recover_versions-keeps [] c pair h = h
  recover_versions-keeps ((vault_id, version_id) ∷ pairs) c pair h =
      recover_versions-keeps pairs _ pair (
        All-update _ _ (is_version vault_id version_id) recover (λ v e fits own. refl)
          (λ v e fits own. e own) c.versions h)

  recover_versions-Recovers :
      (pairs : List (String × String)) (c : Catalog) (pair : String × String)
      → has (same_pair pair) pairs ≡ true
      → Recovers pair (recover_versions stamp uuid pairs c)
  unfolding recover_versions fetch_one
  recover_versions-Recovers [] c pair h = absurd (ground arith)
  recover_versions-Recovers ((vault_id, version_id) ∷ pairs) c pair h =
      elim (Bool-cases (same_pair pair (vault_id, version_id))) [
        | inl e ↦ recover_versions-keeps pairs _ pair (
            update-All _ (is_version vault_id version_id) recover (λ v fits own. refl)
              (λ v fits own. absurd (ground (arith, same_version pair vault_id version_id v e)))
              c.versions)
        | inr e ↦ recover_versions-Recovers pairs _ pair (rw e at h)
      ]

  expired_versions-head :
      (p : Preview) (ps : List Preview)
      → has (same_pair (p.vault_id, p.version_id)) (expired_versions (p ∷ ps)) ≡ true
  unfolding expired_versions fetch_one
  expired_versions-head p ps =
      elim (Bool-cases (has (same_pair (p.vault_id, p.version_id)) (expired_versions ps))) [
        | inl e ↦ ground arith
        | inr e ↦ ground (arith, same_refl p.vault_id, same_refl p.version_id)
      ]

  expired_versions-tail :
      (p : Preview) (ps : List Preview) (pair : String × String)
      → has (same_pair pair) (expired_versions ps) ≡ true
      → has (same_pair pair) (expired_versions (p ∷ ps)) ≡ true
  unfolding expired_versions fetch_one
  expired_versions-tail p ps pair h =
      elim (Bool-cases (has (same_pair (p.vault_id, p.version_id)) (expired_versions ps))) [
        | inl e ↦ ground arith
        | inr e ↦ ground arith
      ]

  -- The version of every preview is among the versions.
  expired_versions-has :
      (ps : List Preview)
      → All (λ p. has (same_pair (p.vault_id, p.version_id)) (expired_versions ps) ≡ true) ps
  expired_versions-has [] = tt
  expired_versions-has (p ∷ ps) = (
    expired_versions-head p ps,
    All-map (λ q h. expired_versions-tail p ps (q.vault_id, q.version_id) h) ps
        (expired_versions-has ps),
  )

  -- Every version that loses a preview to `cleanup_expired` is marked for recovery.
  pub cleanup_expired-Recovers :
      (c : Catalog) (days : ℕ)
      → All
          (λ p. Recovers (p.vault_id, p.version_id) (cleanup_expired stamp uuid c days).0)
          (select (is_old stamp days) c.previews)
  unfolding cleanup_expired
  cleanup_expired-Recovers c days =
      let previews = select (is_old stamp days) c.previews in
      All-map
        (λ p h.
          recover_versions-Recovers (expired_versions previews) _ (p.vault_id, p.version_id) h)
        previews (expired_versions-has previews)
