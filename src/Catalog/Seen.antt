-- ===== src/Catalog/Seen.antt =====
-- A file that a scan finds unchanged: `seen` of app/main.py.
use personal_vault_rag.Prelude.{
  Bool, Result, String, false, none, not, ok, raise, raise_if, same, some, ℕ, ◌>>◌,
}
use personal_vault_rag.Db.{Document, Availability}
use personal_vault_rag.Table.{fetch_one, update}
use personal_vault_rag.Table.Each.{has}
use personal_vault_rag.Security.{HttpException, http, Principal, require}
use personal_vault_rag.Catalog.{Catalog, is_document, is_version}
use personal_vault_rag.Catalog.Upload.{is_path_owner}

pub record SeenRequest : Type 0 where
  pub source_id : String
  pub document_id : String
  pub relative_path : String
  pub display_name : String
  pub mtime_ns : ℕ
  pub size_bytes : ℕ
  pub scan_generation : ℕ

abbrev pub seen_again : (stamp : ℕ) → SeenRequest → Document → Document
seen_again stamp body d = record d {
  relative_path = body.relative_path;
  display_name = body.display_name;
  revision_mtime_ns = body.mtime_ns;
  size_bytes = body.size_bytes;
  last_seen_generation = body.scan_generation;
  last_seen_at = some stamp;
  missing_confirmations = 0;
  availability = Availability.source_online;
}

-- `COALESCE(v.visual_recovery_needed,0)` of the join with the current version.
unfoldable pub needs_content : Catalog → Document → Bool
needs_content c d = elim d.current_version_id [
  | none ↦ false
  | some id ↦ elim (fetch_one (is_version d.vault_id id) c.versions) [
    | none ↦ false
    | some v ↦ v.visual_recovery_needed
  ]
]

abbrev pub unregistered : HttpException
unregistered = http 404 "Document is not registered to this source"

-- The IntegrityError of UNIQUE (vault_id, source_id, relative_path), which nothing catches.
abbrev pub integrity_error : HttpException
integrity_error = http 500 "Internal Server Error"

-- The answer says whether the file's content is wanted.
unfoldable pub seen :
    Catalog → Principal → (stamp : ℕ) → SeenRequest → Result HttpException (Catalog × Bool)
unfolding needs_content
seen c p stamp body =
    require p "ingest" >> elim (fetch_one (is_document p.vault_id body.document_id) c.documents) [
      | none ↦ raise unregistered
      | some d ↦
          raise_if (not (same d.source_id body.source_id)) unregistered
          >> raise_if
              (has (is_path_owner p.vault_id d.source_id body.relative_path body.document_id)
                c.documents)
              integrity_error
          >> ok (
            record c {
              documents =
                  update (is_document p.vault_id body.document_id) (seen_again stamp body)
                    c.documents;
            },
            needs_content c d,
          )
    ]
