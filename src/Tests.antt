-- ===== src/Tests.antt =====
-- Concrete rows that the runs below share.
mod Queue
mod Spending
mod Tokens
mod Files
mod Search
mod Splitting
mod Indexing
mod Rounds
mod Chats
mod Deliveries
mod Uploads
mod Reading
use personal_vault_rag.Prelude.{List, Option, String, [], false, none, some, ℕ, ◌∷◌}
use personal_vault_rag.Db.{
  Vault, Job, JobState, Source, Document, DocumentState, Availability, Version,
}

abbrev pub home : Vault
home = record {
  id = "home";
  name = "Home";
  created_at = 1;
  quota_bytes = 1000;
  min_free_bytes = 10;
  paused = false;
  monthly_budget_microusd = 100;
  provider_ciphertext = some "sealed";
  embedding_model = "text";
  embedding_dimensions = 4;
  visual_model = "visual";
  rerank_model = "order";
  last_job_claim_at = none;
}

abbrev pub job : (id kind : String) → JobState → Job
job id kind state = record {
  id = id;
  vault_id = "home";
  kind = kind;
  payload = ("document_id", "doc") ∷ [];
  state = state;
  priority = 20;
  attempts = 0;
  max_attempts = 3;
  not_before = 0;
  lease_owner = none;
  lease_expires_at = none;
  created_at = 5;
  updated_at = 5;
  error = none;
}

abbrev pub laptop : Source
laptop = record {
  id = "laptop";
  vault_id = "home";
  name = "Laptop";
  platform = "linux";
  root_label = "Documents";
  last_seen_at = none;
  last_successful_sync_at = none;
  online = false;
  scan_generation = 1;
}

-- A document of the laptop, seen in the generation given.
abbrev pub document : (id relative_path : String) (generation : ℕ) → Document
document id relative_path generation = record {
  id = id;
  vault_id = "home";
  source_id = "laptop";
  relative_path = relative_path;
  display_name = relative_path;
  media_type = some "text/plain";
  size_bytes = 12;
  revision_mtime_ns = 1;
  content_sha256 = some "hash";
  current_version_id = some "v1";
  state = DocumentState.indexed;
  availability = Availability.source_online;
  last_seen_generation = generation;
  missing_confirmations = 1;
  last_seen_at = some 5;
  deleted_at = none;
  error = none;
}

abbrev pub version : (id document_id : String) → Version
version id document_id = record {
  id = id;
  vault_id = "home";
  document_id = document_id;
  content_sha256 = "hash";
  source_mtime_ns = 1;
  extraction_version = "pvr-extract-1";
  embedding_model = none;
  visual_model = none;
  created_at = 5;
  indexed_at = some 6;
  lexical_indexed_at = some 6;
  text_indexed_at = none;
  visual_indexed_at = none;
  visual_recovery_needed = false;
  raw_staging_path = none;
  raw_expires_at = none;
  text_bytes = 10;
  preview_bytes = 0;
}
