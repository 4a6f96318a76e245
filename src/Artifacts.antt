-- ===== src/Artifacts.antt =====
-- Artifacts on their way to a connector: the tools `save_chat_note` and `save_chat_artifact` of
-- app/mcp_server.py. The state is the table; the clock, the identifiers, the digest and the printing of
-- the provenance are arguments.
pub mod Requests
pub mod SavedPaths
pub mod SafePaths
pub mod Inserted
pub mod Lifecycle
pub mod Delivered
pub mod Refines
pub mod Listed
use Prim.Native.String
use personal_vault_rag.Prelude.{
  Bool, List, Option, Result, String, [], concat, false, ltb, none, ok, raise, raise_if, same,
  seconds, some, true, ℕ, ◌&&◌, ◌*◌, ◌++◌, ◌+◌, ◌>>◌, ◌∷◌,
}
use personal_vault_rag.Db.{ArtifactState, PendingArtifact}
use personal_vault_rag.Table.Each.{has}
use personal_vault_rag.Mcp.{Access, current_vault}

abbrev pub is_pending : ArtifactState → Bool
is_pending ArtifactState.pending = true
is_pending _ = false

-- `vault_id=? AND id=? AND state='pending'`
abbrev pub is_open : (vault_id id : String) → PendingArtifact → Bool
is_open vault_id id a = same a.vault_id vault_id && same a.id id && is_pending a.state

abbrev pub is_artifact : (vault_id id : String) → PendingArtifact → Bool
is_artifact vault_id id a = same a.vault_id vault_id && same a.id id

-- `expires_at>?`
abbrev pub is_fresh : (stamp : ℕ) → PendingArtifact → Bool
is_fresh stamp a = ltb stamp a.expires_at

-- The INSERT of an artifact, whose identifier is the primary key.
unfoldable pub insert_artifact :
    PendingArtifact → List PendingArtifact → Result String (List PendingArtifact)
insert_artifact a artifacts =
    raise_if (has (λ b. same b.id a.id) artifacts) "IntegrityError" >> ok (artifacts ++ a ∷ [])

-- A file that `_download_openai_file` has staged.
pub record Download : Type 0 where
  pub path : String
  pub file_name : String
  pub media_type : Option String
  pub digest : String
  pub size : ℕ

-- The identifier, the time of the call and the lifetime of staged files that a tool draws.
module _ (artifact_id : String) (stamp : ℕ) (staging_ttl_hours : ℕ) (provenance_json : String) where
  abbrev pub expiry : ℕ
  expiry = stamp + seconds (staging_ttl_hours * 3600)

  abbrev pub note_row : (sha256 : String → String) (vault_id title text : String) → PendingArtifact
  note_row sha256 vault_id title text = record {
    id = artifact_id;
    vault_id = vault_id;
    file_name = concat title ".md";
    media_type = some "text/markdown";
    artifact_kind = "note";
    staging_path = none;
    note_text = some text;
    content_sha256 = some (sha256 text);
    content_size_bytes = some (String.len text);
    provenance_json = provenance_json;
    state = ArtifactState.pending;
    created_at = stamp;
    expires_at = expiry;
    claimed_at = none;
    completed_at = none;
    saved_relative_path = none;
    delivery_attempts = 0;
    error = none;
  }

  abbrev pub file_row : (vault_id : String) → Download → (note : Option String) → PendingArtifact
  file_row vault_id d note = record {
    id = artifact_id;
    vault_id = vault_id;
    file_name = d.file_name;
    media_type = d.media_type;
    artifact_kind = "file";
    staging_path = some d.path;
    note_text = note;
    content_sha256 = some d.digest;
    content_size_bytes = some d.size;
    provenance_json = provenance_json;
    state = ArtifactState.pending;
    created_at = stamp;
    expires_at = expiry;
    claimed_at = none;
    completed_at = none;
    saved_relative_path = none;
    delivery_attempts = 0;
    error = none;
  }

  -- With one argument for each parameter of the tool; the text's bytes are those of its UTF-8.
  unfoldable pub save_chat_note :
      (sha256 : String → String)
      → Option Access
      → (title text : String) → List PendingArtifact
      → Result String (List PendingArtifact)
  unfolding insert_artifact
  save_chat_note sha256 access title text artifacts = elim (current_vault access "write") [
    | raise e ↦ raise e
    | ok vault_id ↦
        raise_if (ltb (1024 * 1024) (String.len text)) "Note exceeds the 1 MiB limit"
        >> insert_artifact (note_row sha256 vault_id title text) artifacts
  ]

  -- `download` is what `_download_openai_file` answers.
  unfoldable pub save_chat_artifact :
      Option Access
      → (download : Result String Download) (note : Option String) → List PendingArtifact
      → Result String (List PendingArtifact)
  unfolding insert_artifact
  save_chat_artifact access download note artifacts = elim (current_vault access "write") [
    | raise e ↦ raise e
    | ok vault_id ↦ elim download [
      | raise e ↦ raise e
      | ok d ↦ insert_artifact (file_row vault_id d note) artifacts
    ]
  ]
