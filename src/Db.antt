-- ===== src/Db.antt =====
-- The tables of app/db.py's SCHEMA: a record for a row, a list for a table.
-- Columns of text with a fixed set of values are data types. Times are microseconds, numbers that
-- no code makes negative are natural numbers, and texts are opaque strings.
mod Content
mod Transfers
pub use Content.{Chunk, ChunkFts, Preview, EmbeddingBatch}
pub use Transfers.{ArtifactState, PendingArtifact, TemporaryInspection}
use personal_vault_rag.Prelude.{Bool, List, Option, String, ℕ}

pub record Vault : Type 0 where
  pub id : String
  pub name : String
  pub created_at : ℕ
  pub quota_bytes : ℕ
  pub min_free_bytes : ℕ
  pub paused : Bool
  pub monthly_budget_microusd : ℕ
  pub provider_ciphertext : Option String
  pub embedding_model : String
  pub embedding_dimensions : ℕ
  pub visual_model : String
  pub rerank_model : String
  pub last_job_claim_at : Option ℕ

-- `scopes` is the list of words that the column holds separated by spaces.
pub record AccessToken : Type 0 where
  pub id : String
  pub vault_id : String
  pub token_hash : String
  pub label : String
  pub scopes : List String
  pub created_at : ℕ
  pub expires_at : Option ℕ
  pub revoked_at : Option ℕ

pub record PairingCode : Type 0 where
  pub code_hash : String
  pub vault_id : String
  pub expires_at : ℕ
  pub used_at : Option ℕ

pub record Source : Type 0 where
  pub id : String
  pub vault_id : String
  pub name : String
  pub platform : String
  pub root_label : String
  pub last_seen_at : Option ℕ
  pub last_successful_sync_at : Option ℕ
  pub online : Bool
  pub scan_generation : ℕ

pub data DocumentState : Type 0 where
  queued indexed deleted : DocumentState

pub data Availability : Type 0 where
  source_online source_offline gone : Availability

pub record Document : Type 0 where
  pub id : String
  pub vault_id : String
  pub source_id : String
  pub relative_path : String
  pub display_name : String
  pub media_type : Option String
  pub size_bytes : ℕ
  pub revision_mtime_ns : ℕ
  pub content_sha256 : Option String
  pub current_version_id : Option String
  pub state : DocumentState
  pub availability : Availability
  pub last_seen_generation : ℕ
  pub missing_confirmations : ℕ
  pub last_seen_at : Option ℕ
  pub deleted_at : Option ℕ
  pub error : Option String

pub record Version : Type 0 where
  pub id : String
  pub vault_id : String
  pub document_id : String
  pub content_sha256 : String
  pub source_mtime_ns : ℕ
  pub extraction_version : String
  pub embedding_model : Option String
  pub visual_model : Option String
  pub created_at : ℕ
  pub indexed_at : Option ℕ
  pub lexical_indexed_at : Option ℕ
  pub text_indexed_at : Option ℕ
  pub visual_indexed_at : Option ℕ
  pub visual_recovery_needed : Bool
  pub raw_staging_path : Option String
  pub raw_expires_at : Option ℕ
  pub text_bytes : ℕ
  pub preview_bytes : ℕ

pub data JobState : Type 0 where
  queued running complete failed : JobState

-- The payload is the object that `payload_json` prints: its fields sorted by name.
pub record Job : Type 0 where
  pub id : String
  pub vault_id : String
  pub kind : String
  pub payload : List (String × String)
  pub state : JobState
  pub priority : ℕ
  pub attempts : ℕ
  pub max_attempts : ℕ
  pub not_before : ℕ
  pub lease_owner : Option String
  pub lease_expires_at : Option ℕ
  pub created_at : ℕ
  pub updated_at : ℕ
  pub error : Option String

pub data UsageState : Type 0 where
  reserved complete released uncertain : UsageState

pub record Usage : Type 0 where
  pub id : String
  pub vault_id : String
  pub provider : String
  pub model : String
  pub operation : String
  pub estimated_units : ℕ
  pub reserved_microusd : ℕ
  pub actual_microusd : Option ℕ
  pub state : UsageState
  pub logical_key : String
  pub uncertainty_reason : Option String
  pub created_at : ℕ
  pub completed_at : Option ℕ
  pub request_key : String

pub record OauthClient : Type 0 where
  pub client_id : String
  pub redirect_uris : List String
  pub created_at : ℕ

pub record OauthCode : Type 0 where
  pub code_hash : String
  pub client_id : String
  pub vault_id : String
  pub redirect_uri : String
  pub code_challenge : String
  pub scope : List String
  pub expires_at : ℕ
  pub used_at : Option ℕ
