-- ===== src/Catalog/Upload.antt =====
-- Files that arrive: `register_upload` of app/catalog.py.
use personal_vault_rag.Prelude.{
  Bool, List, Option, Result, String, [], false, if◌then◌else◌, is_some, none, not, ok, raise_if,
  same, seconds, some, truthy, ℕ, ◌&&◌, ◌*◌, ◌++◌, ◌+◌, ◌>>◌, ◌∷◌,
}
use personal_vault_rag.Db.{Document, DocumentState, Availability, Version}
use personal_vault_rag.Table.{fetch_one, update}
use personal_vault_rag.Jobs.{create_job}
use personal_vault_rag.Catalog.{Catalog, is_document, is_version, is_source}
use personal_vault_rag.Catalog.Embedding.{enqueue_missing_embedding_jobs}

-- What is known of an uploaded file. `document_id` is the connector's, or the stable one;
-- `media_type` the given one, or the guess from the name.
pub record Upload : Type 0 where
  pub vault_id : String
  pub source_id : String
  pub relative_path : String
  pub display_name : String
  pub content_sha256 : String
  pub mtime_ns : ℕ
  pub size_bytes : ℕ
  pub staging_path : String
  pub media_type : String
  pub scan_generation : ℕ
  pub document_id : String
  pub version_id : String

-- The ValueErrors, and the IntegrityError of UNIQUE (vault_id, source_id, relative_path).
pub data UploadError : Type 0 where
  unsupported_type invalid_id unknown_source foreign_id path_not_unique : UploadError

-- The answer: the identifier of a job, or "unchanged".
pub data Registered : Type 0 where
  job : (job_id : String) → Registered
  unchanged : Registered

abbrev pub new_document : (stamp : ℕ) → Upload → Document
new_document stamp u = record {
  id = u.document_id;
  vault_id = u.vault_id;
  source_id = u.source_id;
  relative_path = u.relative_path;
  display_name = u.display_name;
  media_type = some u.media_type;
  size_bytes = u.size_bytes;
  revision_mtime_ns = u.mtime_ns;
  content_sha256 = some u.content_sha256;
  current_version_id = none;
  state = DocumentState.queued;
  availability = Availability.source_online;
  last_seen_generation = u.scan_generation;
  missing_confirmations = 0;
  last_seen_at = some stamp;
  deleted_at = none;
  error = none;
}

-- ON CONFLICT(vault_id,id) DO UPDATE
abbrev pub refreshed : (stamp : ℕ) → Upload → Document → Document
refreshed stamp u d = record d {
  relative_path = u.relative_path;
  display_name = u.display_name;
  media_type = some u.media_type;
  size_bytes = u.size_bytes;
  revision_mtime_ns = u.mtime_ns;
  content_sha256 = some u.content_sha256;
  availability = Availability.source_online;
  last_seen_generation = u.scan_generation;
  last_seen_at = some stamp;
  missing_confirmations = 0;
  deleted_at = none;
}

-- Another document, deleted or not, has the path.
abbrev pub is_path_owner : (vault_id source_id relative_path document_id : String) → Document → Bool
is_path_owner vault_id source_id relative_path document_id d =
    same d.vault_id vault_id
    && same d.source_id source_id
    && same d.relative_path relative_path
    && not (same d.id document_id)

unfoldable pub path_taken : Upload → List Document → Bool
path_taken u documents =
    is_some
      (fetch_one (is_path_owner u.vault_id u.source_id u.relative_path u.document_id) documents)

unfoldable pub upsert_document : (stamp : ℕ) → Upload → List Document → List Document
upsert_document stamp u documents =
    elim (fetch_one (is_document u.vault_id u.document_id) documents) [
      | none ↦ documents ++ new_document stamp u ∷ []
      | some d ↦ update (is_document u.vault_id u.document_id) (refreshed stamp u) documents
    ]

abbrev pub staged : Upload → (expiry : ℕ) → Version → Version
staged u expiry v = record v {
  raw_staging_path = some u.staging_path;
  raw_expires_at = some expiry;
}

abbrev pub new_version : (stamp : ℕ) → Upload → (expiry : ℕ) → Version
new_version stamp u expiry = record {
  id = u.version_id;
  vault_id = u.vault_id;
  document_id = u.document_id;
  content_sha256 = u.content_sha256;
  source_mtime_ns = u.mtime_ns;
  extraction_version = "pvr-extract-1";
  embedding_model = none;
  visual_model = none;
  created_at = stamp;
  indexed_at = none;
  lexical_indexed_at = none;
  text_indexed_at = none;
  visual_indexed_at = none;
  visual_recovery_needed = false;
  raw_staging_path = some u.staging_path;
  raw_expires_at = some expiry;
  text_bytes = 0;
  preview_bytes = 0;
}

abbrev pub version_payload : Upload → List (String × String)
version_payload u = ("document_id", u.document_id) ∷ ("version_id", u.version_id) ∷ []

abbrev pub current_payload : (document_id version_id : String) → List (String × String)
current_payload document_id version_id =
    ("document_id", document_id) ∷ ("current_version_id", version_id) ∷ []

abbrev pub make_current : Upload → Document → Document
make_current u d = record d {
  current_version_id = some u.version_id;
  state = DocumentState.indexed;
}

abbrev pub wait_for_index : Document → Document
wait_for_index d = record d { state = DocumentState.queued; error = none }

-- A kind of job with a version's identifier makes the identifier of a new job.
module _ (stamp : ℕ) (uuid : (kind id : String) → String) where
  -- An indexed version whose previews have expired.
  unfoldable pub recover_visual : Catalog → (expiry : ℕ) → Upload → Catalog × Registered
  recover_visual c expiry u =
      let r =
        create_job c.jobs stamp (uuid "render_visual" u.version_id) u.vault_id "render_visual"
          (version_payload u) 70 in
      (
        record c {
          versions = update (is_version u.vault_id u.version_id) (staged u expiry) c.versions;
          jobs = r.0;
        },
        job r.1,
      )

  -- An indexed version.
  unfoldable pub keep_indexed : Catalog → Upload → Catalog × Registered
  unfolding enqueue_missing_embedding_jobs
  keep_indexed c u =
      let r =
        create_job c.jobs stamp (uuid "mark_historical" u.version_id) u.vault_id "mark_historical"
          (current_payload u.document_id u.version_id) 30 in
      let marked : Catalog = record c {
        documents = update (is_document u.vault_id u.document_id) (make_current u) c.documents;
        jobs = r.0;
      } in
      (
        record marked {
          jobs =
              (enqueue_missing_embedding_jobs stamp uuid marked u.vault_id (some u.version_id)).0;
        },
        unchanged,
      )

  -- A version that is new, or not indexed yet.
  unfoldable pub queue_extract : Catalog → (expiry : ℕ) → Upload → Catalog × Registered
  queue_extract c expiry u =
      let r =
        create_job c.jobs stamp (uuid "extract" u.version_id) u.vault_id "extract"
          (version_payload u) 100 in
      (
        record c {
          versions = elim (fetch_one (is_version u.vault_id u.version_id) c.versions) [
            | none ↦ c.versions ++ new_version stamp u expiry ∷ []
            | some v ↦ update (is_version u.vault_id u.version_id) (staged u expiry) c.versions
          ];
          jobs = r.0;
          documents = update (is_document u.vault_id u.document_id) wait_for_index c.documents;
        },
        job r.1,
      )

  -- The cases of `register_upload` after the document is written, by the row of the version.
  unfoldable pub register_version :
      Catalog → (expiry : ℕ) → Upload → Option Version → Catalog × Registered
  register_version c expiry u none = queue_extract c expiry u
  register_version c expiry u (some v) =
      if truthy v.indexed_at
      then (if v.visual_recovery_needed then recover_visual c expiry u else keep_indexed c u)
      else queue_extract c expiry u

  -- `supported` says whether the suffix is one of SUPPORTED_EXTENSIONS, `valid_id` whether the
  -- document's identifier has the form that the code asks for.
  unfoldable pub register_upload :
      Catalog
      → (staging_ttl_hours : ℕ) (supported valid_id : Bool) → Upload
      → Result UploadError (Catalog × Registered)
  unfolding register_version upsert_document path_taken
  register_upload c staging_ttl_hours supported valid_id u =
      raise_if (not supported) unsupported_type
      >> raise_if (not valid_id) invalid_id
      >> raise_if (not (is_some (fetch_one (is_source u.vault_id u.source_id) c.sources)))
          unknown_source
      >> raise_if
          (elim (fetch_one (is_document u.vault_id u.document_id) c.documents) [
            | none ↦ false
            | some owner ↦ not (same owner.source_id u.source_id)
          ])
          foreign_id
      >> raise_if (path_taken u c.documents) path_not_unique
      >> ok (
          register_version (record c { documents = upsert_document stamp u c.documents })
            (stamp + seconds (staging_ttl_hours * 3600)) u
            (fetch_one (is_version u.vault_id u.version_id) c.versions))
