-- ===== src/Db/Transfers.antt =====
-- The tables of app/db.py for files on their way: artifacts to a connector, inspections of uploads.
use personal_vault_rag.Prelude.{Option, String, ℕ}

pub data ArtifactState : Type 0 where
  pending saved failed expired : ArtifactState

pub record PendingArtifact : Type 0 where
  pub id : String
  pub vault_id : String
  pub file_name : String
  pub media_type : Option String
  pub artifact_kind : String
  pub staging_path : Option String
  pub note_text : Option String
  pub content_sha256 : Option String
  pub content_size_bytes : Option ℕ
  pub provenance_json : String
  pub state : ArtifactState
  pub created_at : ℕ
  pub expires_at : ℕ
  pub claimed_at : Option ℕ
  pub completed_at : Option ℕ
  pub saved_relative_path : Option String
  pub delivery_attempts : ℕ
  pub error : Option String

pub record TemporaryInspection : Type 0 where
  pub id : String
  pub vault_id : String
  pub file_id : String
  pub file_name : String
  pub staging_path : Option String
  pub state : String
  pub extracted_text : Option String
  pub warnings_json : Option String
  pub error : Option String
  pub created_at : ℕ
  pub expires_at : ℕ
  pub completed_at : Option ℕ
