-- ===== src/Db/Content.antt =====
-- The tables of app/db.py that hold what is derived from a version.
use personal_vault_rag.Prelude.{Option, String, ℕ}

pub record Chunk : Type 0 where
  pub id : String
  pub vault_id : String
  pub document_id : String
  pub version_id : String
  pub ordinal : ℕ
  pub kind : String
  pub heading_path : Option String
  pub locator_json : String
  pub text : String
  pub contextual_text : Option String
  pub token_estimate : ℕ
  pub created_at : ℕ

pub record Preview : Type 0 where
  pub id : String
  pub vault_id : String
  pub document_id : String
  pub version_id : String
  pub ordinal : ℕ
  pub path : String
  pub media_type : String
  pub locator_json : String
  pub text_chunk_id : Option String
  pub created_at : ℕ

pub record EmbeddingBatch : Type 0 where
  pub vault_id : String
  pub version_id : String
  pub modality : String
  pub batch_start : ℕ
  pub model : String
  pub item_count : ℕ
  pub completed_at : ℕ

-- The columns of a row of the full text index.
pub record ChunkFts : Type 0 where
  pub text : String
  pub contextual_text : String
  pub heading_path : String
  pub vault_id : String
  pub chunk_id : String
  pub document_id : String
  pub version_id : String
