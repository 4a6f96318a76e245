-- ===== src/Ingest/Orphans.antt =====
-- A file that is uploaded again before it is extracted.
use personal_vault_rag.Prelude.{
  All, Bool, Bool-cases, List, String, ap, arith, checks-ok, false, inl, inr, ok, refl, same,
  same_iff, seconds, some, subst, sym, true, truthy, ℕ, ◌*◌, ◌+◌, ◌∙◌, ◌≡◌,
}
use personal_vault_rag.Db.{Version}
use personal_vault_rag.Table.{fetch_one, update}
use personal_vault_rag.Table.Each.{has, has-append_left, update-All}
use personal_vault_rag.Jobs.{create_job}
use personal_vault_rag.Security.{Principal}
use personal_vault_rag.Catalog.{Catalog, is_version}
use personal_vault_rag.Catalog.Upload.{
  Upload, Registered, staged, version_payload, register_version, queue_extract, register_upload,
}
use personal_vault_rag.Ingest.{Bytes, has_path, Intake, addressed, Settings, ingest}
use personal_vault_rag.Ingest.Uploaded.{left_files, ingest-Stored}

-- The rows of the version name the path as their staged file.
abbrev pub NamesFile : (vault_id version_id path : String) → Catalog → Type 0
NamesFile vault_id version_id path c =
    All (λ w. is_version vault_id version_id w ≡ true → w.raw_staging_path ≡ some path) c.versions

module _ (stamp : ℕ) (uuid : (kind id : String) → String) (hours : ℕ) (supported valid_id : Bool)
    (u : Upload) (v : Version) where
  -- A version that waits for its extraction names the file of the last upload.
  register_upload-NamesFile :
      (c d : Catalog) (r : Registered)
      → fetch_one (is_version u.vault_id u.version_id) c.versions ≡ some v
      → truthy v.indexed_at ≡ false
      → register_upload stamp uuid c hours supported valid_id u ≡ ok (d, r)
      → NamesFile u.vault_id u.version_id u.staging_path d
        × ((id : String) × (r ≡ Registered.job id))
  unfolding register_upload register_version queue_extract
  register_upload-NamesFile c d r e f h =
      let q = checks-ok _ _ (d, r) h in
      let expiry = stamp + seconds (hours * 3600) in
      let written : update (is_version u.vault_id u.version_id) (staged u expiry) c.versions
          ≡ d.versions =
        ground arith in
      (
        subst
            (All λ w.
              is_version u.vault_id u.version_id w ≡ true
              → w.raw_staging_path ≡ some u.staging_path)
            written
            (update-All _ (is_version u.vault_id u.version_id) (staged u expiry)
              (λ w fits again. refl) (λ w other fits. absurd (ground arith)) c.versions),
        (
          (create_job c.jobs stamp (uuid "extract" u.version_id) u.vault_id "extract"
              (version_payload u) 100).1,
          ground arith,
        ),
      )

module _ (settings : Settings) (stamp : ℕ) (uuid : (kind id : String) → String)
    (sha256 : Bytes → String) (target : String) (supported valid_id : Bool) (p : Principal)
    (form : Upload) (blocks : List Bytes) where
  -- Where a version is not indexed yet and the file that it names is on the disk, an upload of the same
  -- version that is accepted is staged under another name and leaves that file where it is, although all
  -- rows of the version name the new one from then on.
  pub ingest-NamesFile :
      (s t : Intake) (r : Registered) (v : Version) (old : String)
      → fetch_one (is_version p.vault_id form.version_id) s.catalog.versions ≡ some v
      → truthy v.indexed_at ≡ false
      → v.raw_staging_path ≡ some old
      → has (has_path old) s.files ≡ true
      → ingest settings stamp uuid sha256 target supported valid_id s p form blocks ≡ (t, ok r)
      → (same old target ≡ false)
        × ((has (has_path old) t.files ≡ true)
            × NamesFile p.vault_id form.version_id target t.catalog)
  ingest-NamesFile s t r v old e f staged kept h =
      let stored =
        ingest-Stored settings stamp uuid sha256 target supported valid_id p form blocks s t r h in
      let (named, (id, job)) =
        register_upload-NamesFile stamp uuid settings.staging_ttl_hours supported valid_id
          (addressed p target form) v s.catalog t.catalog r e f stored.registered in
      let files =
        stored.files
        ∙ ap (left_files settings stamp uuid sha256 target supported valid_id p form blocks s.files)
            job in
      (
        elim (Bool-cases (same old target)) [
          | inr d ↦ d
          | inl d ↦
              let q = (same_iff old target).0 d in let fresh = stored.fresh in absurd (ground arith)
        ],
        (
          subst (λ l. has (has_path old) l ≡ true) (sym files)
              (has-append_left (has_path old) s.files _ kept),
          named,
        ),
      )
