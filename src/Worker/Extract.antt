-- ===== src/Worker/Extract.antt =====
-- `process_extract` and `process_render_visual` of app/worker.py. Table cells are not part of the
-- catalog here. The files that are unlinked are part of the result.
use Prim.Native.String
use personal_vault_rag.Prelude.{
  Bool, List, Option, Result, String, [], false, if◌then◌else◌, is_some, map, none, not, ok,
  or_else, raise, same, some, ℕ, ◌&&◌, ◌∷◌,
}
use personal_vault_rag.Db.{Document, DocumentState, Version, Chunk, Job}
use personal_vault_rag.Table.{select, fetch_one, update, delete, sum, order_by}
use personal_vault_rag.Table.Each.{has}
use personal_vault_rag.Jobs.{create_job, is_failed}
use personal_vault_rag.Catalog.{Catalog, is_document, is_version}
use personal_vault_rag.Catalog.Embedding.{enqueue_missing_embedding_jobs}
use personal_vault_rag.Catalog.Upload.{current_payload}
use personal_vault_rag.Catalog.Cleanup.{is_visual_batch, files}
use personal_vault_rag.Worker.{Picture, Extraction, Outcome, payload_field}
use personal_vault_rag.Worker.Evidence.{
  Target, Names, of_target, replace_chunks, replace_visual_evidence,
}

-- The row of a version with its document.
pub record Staged : Type 0 where
  pub version : Version
  pub document : Document

-- `SELECT v.*,d.… FROM versions v JOIN documents d …`
unfoldable pub staged_row : Target → Catalog → Option Staged
staged_row t c = elim (fetch_one (is_version t.vault_id t.version_id) c.versions) [
  | none ↦ none
  | some v ↦
      if same v.document_id t.document_id
      then elim (fetch_one (is_document t.vault_id t.document_id) c.documents) [
        | none ↦ none
        | some d ↦ some (record { version = v; document = d })
      ]
      else none
]

-- `not row["raw_staging_path"]` fails for this path.
unfoldable pub staged_path : Version → Option String
staged_path v = elim v.raw_staging_path [
  | none ↦ none
  | some path ↦ if same path "" then none else some path
]

abbrev pub picture_size : Picture → ℕ
picture_size p = or_else p.size 0

-- `_preview_bytes`
unfoldable pub preview_bytes : List Picture → ℕ
preview_bytes previews = sum picture_size previews

abbrev pub join_lines : List String → String
join_lines [] = ""
join_lines (w ∷ []) = w
join_lines (w ∷ x ∷ ws) =
    Prim.Native.String.◌++◌ w (Prim.Native.String.◌++◌ "\n" (join_lines (x ∷ ws)))

-- `"\n".join(warnings) or None`
unfoldable pub warning_text : List String → Option String
warning_text warnings = let text = join_lines warnings in if same text "" then none else some text

-- A version of the document that was never indexed.
abbrev pub is_obsolete : Target → Version → Bool
is_obsolete t v =
    same v.vault_id t.vault_id
    && same v.document_id t.document_id
    && not (same v.id t.version_id)
    && not (is_some v.indexed_at)

abbrev pub failed_extract : Target → Job → Bool
failed_extract t j =
    same j.vault_id t.vault_id
    && same j.kind "extract"
    && is_failed j.state
    && elim (payload_field "document_id" j.payload) [
      | none ↦ false
      | some id ↦ same id t.document_id
    ]

abbrev pub indexed_version : (stamp text_bytes preview_bytes : ℕ) → Version → Version
indexed_version stamp text_bytes preview_bytes v = record v {
  indexed_at = some stamp;
  lexical_indexed_at = some stamp;
  embedding_model = none;
  visual_model = none;
  text_indexed_at = none;
  visual_indexed_at = none;
  visual_recovery_needed = false;
  raw_staging_path = none;
  text_bytes = text_bytes;
  preview_bytes = preview_bytes;
}

abbrev pub indexed_document : Target → (error : Option String) → Document → Document
indexed_document t error d = record d {
  current_version_id = some t.version_id;
  state = DocumentState.indexed;
  error = error;
}

abbrev pub rendered_version : (preview_bytes : ℕ) → Version → Version
rendered_version preview_bytes v = record v {
  raw_staging_path = none;
  preview_bytes = preview_bytes;
  visual_indexed_at = none;
  visual_model = none;
  visual_recovery_needed = false;
}

-- A kind of job with a version's identifier makes the identifier of a new job.
module _ (names : Names) (stamp : ℕ) (uuid : (kind id : String) → String) (t : Target) where
  -- The last transaction of `process_extract`, and the files that it unlinks.
  unfoldable pub finish_extract :
      Catalog → (error : Option String) (text_bytes preview_bytes : ℕ) → Catalog × List String
  finish_extract c error text_bytes preview_bytes =
      let versions =
        update (is_version t.vault_id t.version_id) (indexed_version stamp text_bytes preview_bytes)
          c.versions in
      let obsolete = select (is_obsolete t) versions in
      let gone : String → Bool = λ id. has (is_version t.vault_id id) obsolete in
      (
        record c {
          versions = delete (is_obsolete t) versions;
          documents =
              update (is_document t.vault_id t.document_id) (indexed_document t error) c.documents;
          chunks = delete (λ k. same k.vault_id t.vault_id && gone k.version_id) c.chunks;
          previews = delete (λ p. same p.vault_id t.vault_id && gone p.version_id) c.previews;
          batches = delete (λ b. same b.vault_id t.vault_id && gone b.version_id) c.batches;
          jobs =
              (create_job (delete (failed_extract t) c.jobs) stamp
                (uuid "mark_historical" t.version_id) t.vault_id "mark_historical"
                (current_payload t.document_id t.version_id) 30).0;
        },
        files (map (λ v. v.raw_staging_path) obsolete),
      )

  abbrev pub enqueue_embedding : Catalog → Catalog
  enqueue_embedding c = record c {
    jobs = (enqueue_missing_embedding_jobs stamp uuid c t.vault_id (some t.version_id)).0;
  }

  -- From the extraction on: the passages and pictures, and the last transaction.
  unfoldable pub store_extraction :
      Catalog → (raw_path : String) → Extraction → Outcome (List String)
  unfolding finish_extract
  store_extraction c raw_path extracted = elim (replace_chunks names stamp t c extracted) [
    | raise e ↦ (c, raise e)
    | ok stored ↦
        elim (replace_visual_evidence names stamp t stored.0 extracted.previews stored.1) [
          | raise e ↦ (stored.0, raise e)
          | ok shown ↦
              let done =
                finish_extract shown (warning_text extracted.warnings)
                  (sum (λ k. String.len k.text) stored.1) (preview_bytes extracted.previews) in
              (enqueue_embedding done.0, ok (raw_path ∷ done.1))
        ]
  ]

  -- `extract path name` is what `extract_document` answers.
  unfoldable pub process_extract :
      Catalog → (extract : (path name : String) → Result String Extraction) → Outcome (List String)
  unfolding store_extraction
  process_extract c extract = elim (staged_row t c) [
    | none ↦ (c, raise "Staged source is no longer available; reconnect the source to retry")
    | some row ↦ elim (staged_path row.version) [
      | none ↦ (c, raise "Staged source is no longer available; reconnect the source to retry")
      | some path ↦ elim (extract path row.document.display_name) [
        | raise e ↦ (c, raise e)
        | ok extracted ↦ store_extraction c path extracted
      ]
    ]
  ]

  -- The document is live and the version is its current one.
  unfoldable pub current_row : Catalog → Option Staged
  current_row c = elim (staged_row t c) [
    | none ↦ none
    | some row ↦
        if not (is_some row.document.deleted_at)
          && elim row.document.current_version_id [ none ↦ false | some id ↦ same id t.version_id ]
        then some row
        else none
  ]

  abbrev pub is_text : Chunk → Bool
  is_text k = of_target t k && not (same k.kind "visual")

  -- From the extraction on: `delete_version_vectors` and the new pictures.
  unfoldable pub store_rendering :
      Catalog
      → (raw_path : String) → (text_records : List Chunk) → Extraction
      → Outcome (List String)
  store_rendering c raw_path text_records extracted =
      let cleared : Catalog = record c {
        batches = delete (is_visual_batch t.vault_id t.version_id) c.batches;
      } in
      elim (replace_visual_evidence names stamp t cleared extracted.previews text_records) [
        | raise e ↦ (cleared, raise e)
        | ok shown ↦ (
          enqueue_embedding (record shown {
            versions =
                update (is_version t.vault_id t.version_id)
                  (rendered_version (preview_bytes extracted.previews)) shown.versions;
          }),
          ok (raw_path ∷ []),
        )
      ]

  -- `unindex` is the answer of the vector store to `delete_version_vectors`.
  unfoldable pub process_render_visual :
      Catalog
      → (extract : (path name : String) → Result String Extraction)
      → (unindex : Result String (Unit {0})) → Outcome (List String)
  unfolding store_rendering current_row
  process_render_visual c extract unindex = elim (current_row c) [
    | none ↦ (c, raise "Source content is required to regenerate expired visual previews")
    | some row ↦ elim (staged_path row.version) [
      | none ↦ (c, raise "Source content is required to regenerate expired visual previews")
      | some path ↦ elim (extract path row.document.display_name) [
        | raise e ↦ (c, raise e)
        | ok extracted ↦ elim unindex [
          | raise e ↦ (c, raise e)
          | ok _ ↦
              store_rendering c path (order_by (λ k. k.ordinal) (select is_text c.chunks)) extracted
        ]
      ]
    ]
  ]
