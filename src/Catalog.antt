-- ===== src/Catalog.antt =====
-- The catalog of documents: app/catalog.py and the requests of app/main.py that a connector makes.
-- `Catalog` is the part of the database that they use; a foreign key ON DELETE CASCADE is written
-- out where rows are deleted. Hashes, regular expressions, media type guesses, identifiers and the
-- clock are arguments.
pub mod Embedding
pub mod Upload
pub mod Cleanup
pub mod Expiry
pub mod Expired
pub mod Seen
pub mod Sightings
pub mod Reuse
pub mod Deletions
pub mod References
use personal_vault_rag.Prelude.{
  Bool, List, Option, String, [], false, if◌then◌else◌, is_some, leb, length, ltb, map, max, none,
  not, same, some, true, ℕ, ◌&&◌, ◌++◌, ◌+◌, ◌==◌, ◌∷◌,
}
use personal_vault_rag.Db.{
  Vault, Source, Document, DocumentState, Availability, Version, Chunk, ChunkFts, Preview,
  EmbeddingBatch, PendingArtifact, TemporaryInspection, Job,
}
use personal_vault_rag.Table.{select, fetch_one, update, delete, sum}
use personal_vault_rag.Jobs.{create_job}

pub record Catalog : Type 0 where
  pub vaults : List Vault
  pub sources : List Source
  pub documents : List Document
  pub versions : List Version
  pub chunks : List Chunk
  pub chunks_fts : List ChunkFts
  pub previews : List Preview
  pub batches : List EmbeddingBatch
  pub artifacts : List PendingArtifact
  pub inspections : List TemporaryInspection
  pub jobs : List Job

abbrev pub is_document : (vault_id id : String) → Document → Bool
is_document vault_id id d = same d.vault_id vault_id && same d.id id

abbrev pub is_version : (vault_id id : String) → Version → Bool
is_version vault_id id v = same v.vault_id vault_id && same v.id id

abbrev pub is_source : (vault_id id : String) → Source → Bool
is_source vault_id id s = same s.vault_id vault_id && same s.id id

abbrev pub is_vault : String → Vault → Bool
is_vault id v = same v.id id

-- A document of the source that is not deleted.
abbrev pub is_live : (vault_id source_id : String) → Document → Bool
is_live vault_id source_id d =
    same d.vault_id vault_id && same d.source_id source_id && not (is_some d.deleted_at)

abbrev pub scanned : (generation stamp : ℕ) (complete : Bool) → Source → Source
scanned generation stamp complete s = record s {
  online = complete;
  last_seen_at = some stamp;
  last_successful_sync_at = if complete then some stamp else s.last_successful_sync_at;
  scan_generation = max s.scan_generation generation;
}

abbrev pub missed : Document → Document
missed d = record d { missing_confirmations = d.missing_confirmations + 1 }

abbrev pub removed : ℕ → Document → Document
removed stamp d = record d {
  state = DocumentState.deleted;
  availability = Availability.gone;
  deleted_at = some stamp;
}

abbrev pub available : Availability → Document → Document
available a d = record d { availability = a }

abbrev pub of_version : (vault_id document_id : String) → Version → Bool
of_version vault_id document_id v = same v.vault_id vault_id && same v.document_id document_id

abbrev pub of_preview : (vault_id document_id : String) → Preview → Bool
of_preview vault_id document_id p = same p.vault_id vault_id && same p.document_id document_id

abbrev pub somes : List (Option String) → List String
somes [] = []
somes (none ∷ os) = somes os
somes (some s ∷ os) = s ∷ somes os

-- The files and the preview directories, by version, that `complete_reconcile` removes afterwards.
pub record Derived : Type 0 where
  pub paths : List String
  pub directories : List String

module _ (vault_id : String) (stamp : ℕ) (uuid : String → String) where
  -- The loop over the rows of the documents that are confirmed deleted. The versions' deletion takes
  -- their chunks, previews and batches with them.
  unfoldable pub delete_document : Document → Catalog × Derived → Catalog × Derived
  delete_document row (c, files) =
      let versions = select (of_version vault_id row.id) c.versions in
      let previews = select (of_preview vault_id row.id) c.previews in
      let of_deleted : String → Bool =
        λ id. is_some (fetch_one (is_version vault_id id) versions) in
      (
        record c {
          documents = update (is_document vault_id row.id) (removed stamp) c.documents;
          versions = delete (of_version vault_id row.id) c.versions;
          chunks = delete (λ k. same k.vault_id vault_id && of_deleted k.version_id) c.chunks;
          chunks_fts =
              delete (λ k. same k.vault_id vault_id && same k.document_id row.id) c.chunks_fts;
          previews = delete (λ p. same p.vault_id vault_id && of_deleted p.version_id) c.previews;
          batches = delete (λ b. same b.vault_id vault_id && of_deleted b.version_id) c.batches;
          jobs =
              (create_job c.jobs stamp (uuid row.id) vault_id "delete_vectors"
                (("document_id", row.id) ∷ []) 20).0;
        },
        record {
          paths =
              files.paths
              ++ map (λ p. p.path) previews
              ++ somes (map (λ v. v.raw_staging_path) versions);
          directories = files.directories ++ map (λ v. v.id) versions;
        },
      )

  unfoldable pub delete_documents : List Document → Catalog × Derived → Catalog × Derived
  unfolding delete_document
  delete_documents [] state = state
  delete_documents (row ∷ rows) state = delete_documents rows (delete_document row state)

  -- The updates before the loop: the source is seen, and its documents that the scan did not see
  -- count one more miss.
  abbrev pub count_missing : Catalog → (source_id : String) (generation : ℕ) → Catalog
  count_missing c source_id generation = record c {
    sources = update (is_source vault_id source_id) (scanned generation stamp true) c.sources;
    documents =
        update (λ d. is_live vault_id source_id d && ltb d.last_seen_generation generation) missed
          c.documents;
  }

  -- The documents that are confirmed deleted.
  abbrev pub confirmed_rows : (confirmations : ℕ) (source_id : String) → Catalog → List Document
  confirmed_rows confirmations source_id c =
      select (λ d. is_live vault_id source_id d && leb confirmations d.missing_confirmations)
        c.documents

  abbrev pub nothing : Derived
  nothing = record { paths = []; directories = [] }

  -- `confirmations` is the setting `reconcile_delete_confirmations`.
  unfoldable pub complete_reconcile :
      Catalog
      → (confirmations : ℕ) (source_id : String) (generation : ℕ) (complete : Bool)
      → (Catalog × Derived) × ℕ
  unfolding delete_documents
  complete_reconcile c confirmations source_id generation false = (
    (
      record c {
        sources = update (is_source vault_id source_id) (scanned generation stamp false) c.sources;
        documents =
            update (is_live vault_id source_id) (available Availability.source_offline) c.documents;
      },
      nothing,
    ),
    0,
  )
  complete_reconcile c confirmations source_id generation true =
      let counted = count_missing c source_id generation in
      let rows = confirmed_rows confirmations source_id counted in
      let (d, files) = delete_documents rows (counted, nothing) in
      (
        (
          record d {
            documents =
                update (λ x. is_live vault_id source_id x && (x.last_seen_generation == generation))
                  (available Availability.source_online) d.documents;
          },
          files,
        ),
        length rows,
      )

-- `storage_usage`: the bytes that a vault accounts for.
unfoldable pub accounted_bytes : String → Catalog → ℕ
accounted_bytes vault_id c =
    let mine : Version → Bool = λ v. same v.vault_id vault_id in
    let staged : Version → Document → ℕ =
      λ v d. if is_document v.vault_id v.document_id d then d.size_bytes else 0 in
    sum (λ v. if mine v then v.text_bytes else 0) c.versions
    + sum (λ v. if mine v then v.preview_bytes else 0) c.versions
    + sum (λ v. if mine v && is_some v.raw_staging_path then sum (staged v) c.documents else 0)
        c.versions

pub data Capacity : Type 0 where
  accepted paused over_quota no_space : Capacity

-- `_check_capacity`: the answer, and the vaults, of which the last refusal pauses one. A vault that
-- is not there is an error that no caller meets; it is `paused` here.
unfoldable pub check_capacity :
    Catalog → (free_bytes : ℕ) (vault_id : String) (incoming : ℕ) → List Vault × Capacity
unfolding accounted_bytes
check_capacity c free_bytes vault_id incoming = elim (fetch_one (is_vault vault_id) c.vaults) [
  | none ↦ (c.vaults, Capacity.paused)
  | some v ↦
      if v.paused
      then (c.vaults, Capacity.paused)
      else if ltb v.quota_bytes (accounted_bytes vault_id c + incoming)
      then (c.vaults, Capacity.over_quota)
      else if ltb free_bytes (v.min_free_bytes + incoming)
      then (
        update (is_vault vault_id) (λ x. record x { paused = true }) c.vaults,
        Capacity.no_space,
      )
      else (c.vaults, Capacity.accepted)
]
