-- ===== src/Views/Tool.antt =====
-- The tool `inspect_visual` of app/mcp_server.py.
use personal_vault_rag.Prelude.{
  Bool, List, Option, Result, String, false, if◌then◌else◌, none, ok, raise, same, some, true, ℕ,
  ◌&&◌, ◌==◌,
}
use personal_vault_rag.Db.{Document, Preview}
use personal_vault_rag.Table.{fetch_one, update}
use personal_vault_rag.Table.Each.{has}
use personal_vault_rag.Mcp.{Access, current_vault}
use personal_vault_rag.Catalog.{Catalog, is_document, is_version}
use personal_vault_rag.Views.{ℤ, clamp}
use personal_vault_rag.Views.Previews.{is_current_of, forget_previews, lost_previews, no_visual}

-- The joins of the tool, by the identifier of a preview where one is given, or by its place.
abbrev pub is_inspected :
    List Document
    → (vault_id document_id : String) (preview_index : ℤ) (preview_id : Option String) → Preview
    → Bool
is_inspected documents vault_id document_id preview_index preview_id p =
    same p.vault_id vault_id
    && same p.document_id document_id
    && elim preview_id [
      | none ↦ p.ordinal == clamp 119 preview_index
      | some id ↦ if same id "" then p.ordinal == clamp 119 preview_index else same p.id id
    ]
    && has (is_current_of p.vault_id p.version_id) documents

-- The transaction for a document whose preview has no file: the document's current version is marked.
unfoldable pub forget_current :
    (stamp : ℕ) (uuid : String) (vault_id document_id : String) → Catalog → Catalog
forget_current stamp uuid vault_id document_id c =
    elim (fetch_one (is_document vault_id document_id) c.documents) [
      | none ↦ c
      | some d ↦ elim d.current_version_id [
        | none ↦ c
        | some id ↦
            if same id ""
            then record c { versions = update (is_version vault_id "") lost_previews c.versions }
            else forget_previews stamp uuid vault_id id c
      ]
    ]

-- The state, and the preview whose file is sent.
unfoldable pub inspect_visual :
    (stamp : ℕ) (uuid : String) (is_file : String → Bool)
    → Catalog
    → Option Access
    → (document_id : String) (preview_index : ℤ) (preview_id : Option String)
    → Catalog × Result String Preview
unfolding forget_current
inspect_visual stamp uuid is_file c access document_id preview_index preview_id =
    elim (current_vault access "search") [
      | raise e ↦ (c, raise e)
      | ok vault_id ↦
          elim (fetch_one (is_inspected c.documents vault_id document_id preview_index preview_id)
            c.previews) [
              | none ↦ (c, raise no_visual)
              | some row ↦ elim (is_file row.path) [
                | true ↦ (c, ok row)
                | false ↦ (forget_current stamp uuid vault_id document_id c, raise no_visual)
              ]
            ]
    ]
