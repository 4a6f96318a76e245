-- ===== src/Tests/Indexing.antt =====
-- Runs of the worker's jobs.
use personal_vault_rag.Prelude.{
  Result, String, [], false, none, ok, raise, refl, some, true, if◌then◌else◌, ◌==◌, ℕ, ◌∷◌, ◌≡◌,
}
use personal_vault_rag.Db.{Version, Document}
use personal_vault_rag.Table.{fetch_one}
use personal_vault_rag.Table.Each.{has}
use personal_vault_rag.Catalog.{Catalog, is_document, is_version, is_source}
use personal_vault_rag.Catalog.Upload.{Upload, Registered, path_taken, register_upload}
use personal_vault_rag.Catalog.Cleanup.{cleanup_expired}
use personal_vault_rag.Catalog.References.{IsReferenced}
use personal_vault_rag.Worker.{Locator, Extraction}
use personal_vault_rag.Worker.Evidence.{Target, Names}
use personal_vault_rag.Worker.Extract.{
  staged_row, staged_path, process_extract, process_render_visual,
}
use personal_vault_rag.Worker.Extracted.{Extracted}
use personal_vault_rag.Worker.Embed.{Embedder, batches_of, embed_batches}
use personal_vault_rag.Worker.Batches.{IsPaid, embed_batches-IsPaid}
use personal_vault_rag.Worker.Recovery.{render_visual-recovered}
use personal_vault_rag.Worker.Histories.{Reach, start, next, cleans, extracts, Reach-IsReferenced}
use personal_vault_rag.Tests.{home, laptop, document, version}

abbrev names : Names
names = record {
  dump = λ l. "{}";
  parse = λ s. nowhere;
  chunk_uuid = λ v i text. v;
  visual_uuid = λ v i. v;
  preview_uuid = λ v i. v;
}
  where
    nowhere : Locator
    nowhere = record {
      page = none;
      page_end = none;
      slide = none;
      image = none;
      time_start = none;
      time_end = none;
    }

abbrev target : Target
target = record { vault_id = "home"; document_id = "d1"; version_id = "v2" }

abbrev staged : Version
staged = record (version "v2" "d1") {
  indexed_at = none;
  lexical_indexed_at = none;
  raw_staging_path = some "/staging/1";
  raw_expires_at = some 1_000;
}

-- A new version of a document waits for its extraction.
abbrev catalog : Catalog
catalog = record {
  vaults = home ∷ [];
  sources = laptop ∷ [];
  documents = document "d1" "a.txt" 1 ∷ [];
  versions = version "v1" "d1" ∷ staged ∷ [];
  chunks = [];
  chunks_fts = [];
  previews = [];
  batches = [];
  artifacts = [];
  inspections = [];
  jobs = [];
}

abbrev uuid : (kind id : String) → String
uuid kind id = id

abbrev anywhere : Locator
anywhere = names.parse "{}"

abbrev read : Extraction
read = record {
  chunks = record { text = "words"; kind = "text"; heading_path = ""; locator = anywhere } ∷ [];
  previews = record { path = "/p/1.webp"; is_webp = true; locator = anywhere; size = some 5 } ∷ [];
  warnings = [];
}

abbrev extract_words : (path name : String) → Result String Extraction
extract_words path name = ok read

abbrev extract_broken : (path name : String) → Result String Extraction
extract_broken path name = raise "broken"

abbrev after : Catalog
after = (process_extract names 50 uuid target catalog extract_words).0

broken_runs :
    process_extract names 50 uuid target catalog extract_broken ≡ (catalog, raise "broken")
unfolding process_extract staged_row fetch_one staged_path
broken_runs = refl

-- The vector store is out of order at the second batch, which the provider has answered.
abbrev embedder : Embedder ℕ
embedder = record {
  embed = λ first batch. ok tt;
  upsert = λ first batch. if first == 2 then raise "unavailable" else ok tt;
}

embed_batches-IsPaid_example :
    IsPaid 50 "home" "v2" "text" "m" {A = ℕ} catalog [] (batches_of 2 (1 ∷ 2 ∷ 3 ∷ [])) (
      embed_batches 50 "home" "v2" "text" "m" embedder
        (batches_of 2 (1 ∷ 2 ∷ 3 ∷ []))
        (catalog, []))
embed_batches-IsPaid_example =
    embed_batches-IsPaid 50 "home" "v2" "text" "m" embedder (batches_of 2 (1 ∷ 2 ∷ 3 ∷ [])) catalog
      []

catalog-IsReferenced : IsReferenced catalog
catalog-IsReferenced = record { chunks = tt; previews = tt; batches = tt }

abbrev cleaned : Catalog
cleaned = (cleanup_expired 60 (λ id. id) after 7).0

cleaned-Reach : Reach catalog cleaned
cleaned-Reach =
    next after (next catalog start (extracts names 50 uuid target extract_words refl))
      (cleans 60 (λ id. id) 7 refl)

Reach-IsReferenced_example : IsReferenced cleaned
Reach-IsReferenced_example = Reach-IsReferenced catalog cleaned cleaned-Reach catalog-IsReferenced

-- The first version lost its previews while the second is the current one, and comes back.
abbrev lost : Version
lost = record (version "v1" "d1") { visual_recovery_needed = true }

abbrev shown : Document
shown = record (document "d1" "a.txt" 1) { current_version_id = some "v2" }

abbrev behind : Catalog
behind = record catalog { documents = shown ∷ []; versions = lost ∷ version "v2" "d1" ∷ [] }

abbrev upload : Upload
upload = record {
  vault_id = "home";
  source_id = "laptop";
  relative_path = "a.txt";
  display_name = "a.txt";
  content_sha256 = "hash";
  mtime_ns = 1;
  size_bytes = 12;
  staging_path = "/staging/2";
  media_type = "text/plain";
  scan_generation = 2;
  document_id = "d1";
  version_id = "v1";
}

own : fetch_one (is_document "home" "d1") behind.documents ≡ some shown
unfolding fetch_one
own = refl

free : path_taken upload behind.documents ≡ false
unfolding path_taken fetch_one
free = refl

known : has (is_source "home" "laptop") behind.sources ≡ true
unfolding fetch_one
known = refl

row : fetch_one (is_version "home" "v1") behind.versions ≡ some lost
unfolding fetch_one
row = refl

render_visual-recovered_example :
    (recovered : Catalog) × ((id : String) × ((register_upload 50 uuid behind 24 true true upload
          ≡ ok (recovered, Registered.job id))
        × ((extract : (path name : String) → Result String Extraction)
            → (unindex : Result String (Unit {0}))
            → process_render_visual names 50 uuid
                (record { vault_id = "home"; document_id = "d1"; version_id = "v1" })
                recovered
                extract
                unindex
              ≡ (
                recovered,
                raise "Source content is required to regenerate expired visual previews",
              ))))
render_visual-recovered_example =
    render_visual-recovered names 50 uuid uuid behind 24 upload shown lost "v2" own refl free known
      row refl refl refl refl
