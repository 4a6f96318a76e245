-- ===== src/Views/Previews.antt =====
-- The previews that a caller may see: `api_visual_preview` of app/main.py, with the transaction for a
-- preview whose file is gone.
use personal_vault_rag.Prelude.{
  Bool, List, Result, String, [], false, is_some, none, not, ok, raise, same, some, true, ℕ, ◌&&◌,
  ◌==◌, ◌∷◌,
}
use personal_vault_rag.Db.{Document, Version, Preview}
use personal_vault_rag.Table.{fetch_one, update, delete}
use personal_vault_rag.Table.Each.{has}
use personal_vault_rag.Jobs.{create_job}
use personal_vault_rag.Security.{HttpException, http, Principal, require}
use personal_vault_rag.Catalog.{Catalog, is_version}
use personal_vault_rag.Catalog.Cleanup.{is_visual_batch}
use personal_vault_rag.Views.{ℤ, clamp, is_shown, is_version_of}

abbrev pub lost_previews : Version → Version
lost_previews v = record v {
  visual_indexed_at = none;
  visual_model = none;
  visual_recovery_needed = true;
}

abbrev pub modality_payload : (version_id : String) → List (String × String)
modality_payload version_id = ("version_id", version_id) ∷ ("modality", "visual") ∷ []

abbrev pub expired_410 : HttpException
expired_410 =
    http 410
      "Visual preview expired; the connector will request source bytes on its next complete scan"

abbrev pub missing_410 : HttpException
missing_410 =
    http 410
      "Visual preview is missing; the connector will request source bytes on its next complete scan"

abbrev pub unavailable_404 : HttpException
unavailable_404 = http 404 "Visual preview is unavailable"

abbrev pub no_visual : String
no_visual = "No retained visual preview exists for that document/index"

-- The documents with this current version that are not deleted.
abbrev pub is_current_of : (vault_id version_id : String) → Document → Bool
is_current_of vault_id version_id d =
    same d.vault_id vault_id && is_version_of d version_id && not (is_some d.deleted_at)

-- The join of `api_visual_preview`.
abbrev pub is_current_preview :
    List Document → (vault_id document_id : String) (ordinal : ℕ) → Preview → Bool
is_current_preview documents vault_id document_id ordinal p =
    same p.vault_id vault_id
    && same p.document_id document_id
    && (p.ordinal == ordinal)
    && has (λ d. same d.id p.document_id && is_current_of p.vault_id p.version_id d) documents

-- The version of a document is marked for recovery.
unfoldable pub is_recovering : Catalog → (vault_id document_id : String) → Bool
is_recovering c vault_id document_id =
    elim (fetch_one (is_shown vault_id document_id) c.documents) [
      | none ↦ false
      | some d ↦ elim d.current_version_id [
        | none ↦ false
        | some id ↦ elim (fetch_one (is_version d.vault_id id) c.versions) [
          | none ↦ false
          | some v ↦ v.visual_recovery_needed
        ]
      ]
    ]

module _ (stamp : ℕ) (uuid : String) where
  -- The transaction for a preview whose file is gone.
  abbrev pub forget_previews : (vault_id version_id : String) → Catalog → Catalog
  forget_previews vault_id version_id c = record c {
    batches = delete (is_visual_batch vault_id version_id) c.batches;
    versions = update (is_version vault_id version_id) lost_previews c.versions;
    jobs =
        (create_job c.jobs stamp uuid vault_id "delete_version_vectors"
          (modality_payload version_id) 20).0;
  }

  -- The state, and the preview whose file is sent.
  unfoldable pub api_visual_preview :
      (is_file : String → Bool)
      → Catalog
      → Principal
      → (document_id : String) (preview_index : ℤ) → Catalog × Result HttpException Preview
  unfolding is_recovering
  api_visual_preview is_file c p document_id preview_index = elim (require p "search") [
    | raise e ↦ (c, raise e)
    | ok _ ↦
        elim (fetch_one
          (is_current_preview c.documents p.vault_id document_id (clamp 119 preview_index))
          c.previews) [
            | none ↦ elim (is_recovering c p.vault_id document_id) [
              | true ↦ (c, raise expired_410)
              | false ↦ (c, raise unavailable_404)
            ]
            | some row ↦ elim (is_file row.path) [
              | true ↦ (c, ok row)
              | false ↦ (forget_previews p.vault_id row.version_id c, raise missing_410)
            ]
          ]
  ]
