-- ===== src/Tests/Files.antt =====
-- Runs of the catalog.
use personal_vault_rag.Prelude.{
  All, String, [], map, none, ok, arith, raise, false, refl, true, ℕ, ◌∷◌, ◌≡◌,
}
use personal_vault_rag.Db.{Preview}
use personal_vault_rag.Table.{fetch_one}
use personal_vault_rag.Table.Each.{has}
use personal_vault_rag.Catalog.{Catalog, is_document, is_source, complete_reconcile}
use personal_vault_rag.Catalog.Upload.{Upload, path_taken, path_not_unique, register_upload}
use personal_vault_rag.Security.{Principal, require, has_scope}
use personal_vault_rag.Catalog.Seen.{SeenRequest, seen}
use personal_vault_rag.Catalog.Sightings.{sighted, IsLive, complete_reconcile-seen}
use personal_vault_rag.Catalog.Reuse.{register_upload-taken}
use personal_vault_rag.Catalog.Deletions.{IsKeyed, reconciled, complete_reconcile-documents}
use personal_vault_rag.Tests.{home, laptop, document, version}

abbrev page : Preview
page = record {
  id = "p1";
  vault_id = "home";
  document_id = "d1";
  version_id = "v1";
  ordinal = 0;
  path = "/previews/p1.webp";
  media_type = "image/webp";
  locator_json = "{}";
  text_chunk_id = none;
  created_at = 5;
}

-- A catalog of two documents, of which a scan of generation 2 has seen the second.
abbrev catalog : Catalog
catalog = record {
  vaults = home ∷ [];
  sources = laptop ∷ [];
  documents = document "d1" "a.txt" 1 ∷ document "d2" "b.txt" 2 ∷ [];
  versions = version "v1" "d1" ∷ [];
  chunks = [];
  chunks_fts = [];
  previews = page ∷ [];
  batches = [];
  artifacts = [];
  inspections = [];
  jobs = [];
}

abbrev uuid : String → String
uuid id = id

catalog-IsKeyed : IsKeyed catalog.documents
catalog-IsKeyed = ((refl, tt), (tt, tt))

complete_reconcile-documents_example :
    (complete_reconcile "home" 50 uuid catalog 2 "laptop" 2 true).0.0.documents
    ≡ map (reconciled "home" "laptop" 50 2 2 true) catalog.documents
complete_reconcile-documents_example =
    complete_reconcile-documents "home" 50 uuid catalog 2 "laptop" 2 true catalog-IsKeyed

abbrev later : ℕ
later = 86_400_000_006

-- The file of the first document, which the scan missed, under a new identifier.
abbrev upload : Upload
upload = record {
  vault_id = "home";
  source_id = "laptop";
  relative_path = "a.txt";
  display_name = "a.txt";
  content_sha256 = "other";
  mtime_ns = 9;
  size_bytes = 3;
  staging_path = "/staging/1.txt";
  media_type = "text/plain";
  scan_generation = 3;
  document_id = "d9";
  version_id = "v9";
}

upload_taken : path_taken upload catalog.documents ≡ true
unfolding path_taken fetch_one
upload_taken = refl

upload_new : has (is_document "home" "d9") catalog.documents ≡ false
unfolding fetch_one
upload_new = refl

upload_known : has (is_source "home" "laptop") catalog.sources ≡ true
unfolding fetch_one
upload_known = refl

register_upload-taken_example :
    register_upload 60
      (λ kind id. kind)
      (complete_reconcile "home" 50 uuid catalog 2 "laptop" 2 true).0.0
      24
      true
      true
      upload
    ≡ raise path_not_unique
register_upload-taken_example =
    register_upload-taken 50 60 uuid (λ kind id. kind) catalog 2 "laptop" 2 true 24 upload
      catalog-IsKeyed upload_taken upload_new upload_known

-- The scan that missed the first document sees it the second time.
abbrev connector : Principal
connector = record {
  vault_id = "home";
  token_id = "tok";
  scopes = "ingest" ∷ [];
  label = "Connector";
}

abbrev sighting : SeenRequest
sighting = record {
  source_id = "laptop";
  document_id = "d1";
  relative_path = "a.txt";
  display_name = "a.txt";
  mtime_ns = 1;
  size_bytes = 12;
  scan_generation = 2;
}

abbrev reported : Catalog
reported = sighted connector 40 sighting catalog

seen_runs : seen catalog connector 40 sighting ≡ ok (reported, false)
unfolding seen fetch_one require has_scope
seen_runs = refl

catalog-IsLive : All (IsLive "home" "d1") catalog.documents
catalog-IsLive = (λ e. refl, (λ e. refl, tt))

complete_reconcile-seen_example :
    All
      (IsLive "home" "d1")
      (complete_reconcile "home" 50 uuid reported 1 "laptop" 2 true).0.0.documents
complete_reconcile-seen_example =
    complete_reconcile-seen catalog reported connector 40 50 sighting false uuid 1 catalog-IsKeyed
      catalog-IsLive (omega arith) seen_runs
