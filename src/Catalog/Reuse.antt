-- ===== src/Catalog/Reuse.antt =====
-- A path that comes back under a new document identifier: `complete_reconcile` and then
-- `register_upload` of app/catalog.py.
use personal_vault_rag.Prelude.{
  Bool, List, Option-cases, String, [], ap, ◌∷◌, arith, false, inl, inr, raise, refl, true, ℕ, ◌∙◌,
  ◌≡◌,
}
use personal_vault_rag.Db.{Document}
use personal_vault_rag.Table.{fetch_one}
use personal_vault_rag.Table.Each.{has, has-map, has-updated}
use personal_vault_rag.Catalog.{
  Catalog, is_source, is_document, complete_reconcile, delete_documents, delete_document, Derived,
  scanned, count_missing, confirmed_rows, nothing,
}
use personal_vault_rag.Catalog.Upload.{
  Upload, path_not_unique, is_path_owner, path_taken, register_upload,
}
use personal_vault_rag.Catalog.Deletions.{IsKeyed, reconciled, complete_reconcile-documents}

module _ (v s : String) (stamp conf gen : ℕ) (complete : Bool) where
  -- A reconciliation changes no key, source or path of a document.
  reconciled_keeps :
      (d : Document)
      → let r = reconciled v s stamp conf gen complete d in
        (r.vault_id ≡ d.vault_id)
        × (r.id ≡ d.id)
        × (r.source_id ≡ d.source_id)
        × (r.relative_path ≡ d.relative_path)
  unfolding reconciled
  reconciled_keeps d = (ground arith, ground arith, ground arith, ground arith)

module _ (vault_id : String) (stamp : ℕ) (uuid : String → String) where
  delete_documents-sources :
      (rows : List Document) (c : Catalog) (files : Derived)
      → (delete_documents vault_id stamp uuid rows (c, files)).0.sources ≡ c.sources
  unfolding delete_documents delete_document
  delete_documents-sources [] c files = refl
  delete_documents-sources (r ∷ rs) c files =
      let next = delete_document vault_id stamp uuid r (c, files) in
      delete_documents-sources rs next.0 next.1

  -- The sources of a vault stay its sources.
  complete_reconcile-sources :
      (c : Catalog) (conf : ℕ) (s : String) (gen : ℕ) (complete : Bool) (v id : String)
      → has
          (is_source v id)
          (complete_reconcile vault_id stamp uuid c conf s gen complete).0.0.sources
        ≡ has (is_source v id) c.sources
  unfolding complete_reconcile
  complete_reconcile-sources c conf s gen false v id =
      has-updated (is_source v id) (is_source vault_id s) (scanned gen stamp false) (λ x. refl)
        c.sources
  complete_reconcile-sources c conf s gen true v id =
      let counted = count_missing vault_id stamp uuid c s gen in
      ap (has (is_source v id)) (
        delete_documents-sources (confirmed_rows vault_id stamp uuid conf s counted) counted
          (nothing vault_id stamp uuid))
      ∙ has-updated (is_source v id) (is_source vault_id s) (scanned gen stamp true) (λ x. refl)
          c.sources

-- A file that comes back under a new document identifier is refused whatever a scan has found: if a
-- document of the source has the path, then after any reconciliation of the vault, one that deletes
-- that document included, `register_upload` of an upload for the path with an identifier that no
-- document has violates the uniqueness of paths.
pub register_upload-taken :
    (stamp later : ℕ) (uuid : String → String) (job_uuid : (kind id : String) → String)
    (c : Catalog) (confirmations : ℕ) (source_id : String) (generation : ℕ) (complete : Bool)
    (staging_ttl_hours : ℕ) (u : Upload)
    → IsKeyed c.documents
    → path_taken u c.documents ≡ true
    → has (is_document u.vault_id u.document_id) c.documents ≡ false
    → has (is_source u.vault_id u.source_id) c.sources ≡ true
    → register_upload later job_uuid
        (complete_reconcile u.vault_id stamp uuid c confirmations source_id generation complete).0.0
        staging_ttl_hours
        true
        true
        u
      ≡ raise path_not_unique
unfolding register_upload path_taken
register_upload-taken stamp later uuid job_uuid c conf s gen complete hours u keyed taken new
      known =
    let after = (complete_reconcile u.vault_id stamp uuid c conf s gen complete).0.0 in
    let owner = is_path_owner u.vault_id u.source_id u.relative_path u.document_id in
    let own = is_document u.vault_id u.document_id in
    let each = reconciled u.vault_id s stamp conf gen complete in
    let keeps = reconciled_keeps u.vault_id s stamp conf gen complete in
    let docs = complete_reconcile-documents u.vault_id stamp uuid c conf s gen complete keyed in
    let still : has owner after.documents ≡ true =
      ap (has owner) docs
      ∙ has-map owner each (λ d. let (a, b, e, f) = keeps d in rw (a, b, e, f) refl) c.documents
      ∙ taken in
    let fresh : has own after.documents ≡ false =
      ap (has own) docs
      ∙ has-map own each (λ d. let (a, b, e, f) = keeps d in rw (a, b) refl) c.documents
      ∙ new in
    let there : has (is_source u.vault_id u.source_id) after.sources ≡ true =
      complete_reconcile-sources u.vault_id stamp uuid c conf s gen complete u.vault_id u.source_id
      ∙ known in
    elim (Option-cases (fetch_one own after.documents)) [
      | inr (d, e) ↦ absurd (ground arith)
      | inl e ↦ rw (there, e, still) refl
    ]
