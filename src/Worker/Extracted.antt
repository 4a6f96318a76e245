-- ===== src/Worker/Extracted.antt =====
-- What `process_extract` of app/worker.py has done when it ends, and when it raises.
use Prim.Native.String
use personal_vault_rag.Prelude.{
  All, Option-cases, Result, Result-cases, String, ap, arith, inl, inr, none, ok, raise, refl, some,
  subst, true, ℕ, ◌∙◌, ◌≡◌,
}
use personal_vault_rag.Db.{DocumentState}
use personal_vault_rag.Catalog.{Catalog, is_document, is_version}
use personal_vault_rag.Worker.{Extraction}
use personal_vault_rag.Worker.Evidence.{Target, Names, replace_chunks, replace_visual_evidence}
use personal_vault_rag.Worker.Extract.{
  Staged, staged_row, staged_path, store_extraction, process_extract,
}
use personal_vault_rag.Worker.Stored.{IsStored, replace_chunks-ok}

module _ (names : Names) (stamp : ℕ) (t : Target) (uuid : (kind id : String) → String) where
  -- The version is the current one of its document, which is indexed; both times of indexing of the
  -- version are those of the job, and its file is not staged.
  pub record IsCurrent (c : Catalog) : Type 0 where
    pub documents :
        All
          (λ d.
            is_document t.vault_id t.document_id d ≡ true
            → (d.current_version_id ≡ some t.version_id) × (d.state ≡ DocumentState.indexed))
          c.documents
    pub versions :
        All
          (λ v.
            is_version t.vault_id t.version_id v ≡ true
            → (v.indexed_at ≡ some stamp)
              × (v.lexical_indexed_at ≡ some stamp)
              × (v.raw_staging_path ≡ none))
          c.versions

  -- What an extraction that ends has read and left.
  pub record Extracted (extract : (path name : String) → Result String Extraction) (c c' : Catalog)
      : Type 0 where
    pub row : Staged
    pub found : staged_row t c ≡ some row
    pub path : String
    pub staged : staged_path row.version ≡ some path
    pub extraction : Extraction
    pub answered : extract path row.document.display_name ≡ ok extraction
    pub stored : IsStored names stamp t extraction c'
    pub current : IsCurrent c'

  store_extraction-raise :
      (c : Catalog) (raw_path : String) (extracted : Extraction) (c' : Catalog) (e : String)
      → store_extraction names stamp uuid t c raw_path extracted ≡ (c', raise e)
      → (c'.documents ≡ c.documents) × ((c'.versions ≡ c.versions) × (c'.jobs ≡ c.jobs))
  unfolding store_extraction
  store_extraction-raise c raw_path extracted c' x h =
      elim (Result-cases (replace_chunks names stamp t c extracted)) [
        | inr (y, e) ↦
            let q : c ≡ c' = ground arith in
            subst
              (λ a. (a.documents ≡ c.documents) × ((a.versions ≡ c.versions) × (a.jobs ≡ c.jobs))) q
              (refl, (refl, refl))
        | inl (stored, e) ↦
            elim (Result-cases
              (replace_visual_evidence names stamp t stored.0 extracted.previews stored.1)) [
                | inl (shown, f) ↦ absurd (ground arith)
                | inr (y, f) ↦
                    let a = ap (λ r. r.0) (replace_chunks-ok names stamp t c extracted stored e) in
                    let q : stored.0 ≡ c' = ground arith in
                    subst
                      (λ z.
                        (z.documents ≡ c.documents)
                        × ((z.versions ≡ c.versions) × (z.jobs ≡ c.jobs)))
                      (a ∙ q) (refl, (refl, refl))
              ]
      ]

  -- A job that extracts and raises leaves the documents, the versions and the jobs as they were: the
  -- document keeps its current version, and the staged file its place for the next attempt.
  pub process_extract-raise :
      (c : Catalog) (extract : (path name : String) → Result String Extraction) (c' : Catalog)
      (e : String)
      → process_extract names stamp uuid t c extract ≡ (c', raise e)
      → (c'.documents ≡ c.documents) × ((c'.versions ≡ c.versions) × (c'.jobs ≡ c.jobs))
  unfolding process_extract
  process_extract-raise c extract c' x h =
      let same_tables : c ≡ c' → _ =
        subst
          (λ a. (a.documents ≡ c.documents) × ((a.versions ≡ c.versions) × (a.jobs ≡ c.jobs))) in
      elim (Option-cases (staged_row t c)) [
        | inl e ↦ let q : c ≡ c' = ground arith in same_tables q (refl, (refl, refl))
        | inr (row, e) ↦ elim (Option-cases (staged_path row.version)) [
          | inl f ↦ let q : c ≡ c' = ground arith in same_tables q (refl, (refl, refl))
          | inr (path, f) ↦ elim (Result-cases (extract path row.document.display_name)) [
            | inr (y, g) ↦ let q : c ≡ c' = ground arith in same_tables q (refl, (refl, refl))
            | inl (y, g) ↦ store_extraction-raise c path y c' x (ground arith)
          ]
        ]
      ]
