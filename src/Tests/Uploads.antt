-- ===== src/Tests/Uploads.antt =====
-- Runs of uploads and downloads. The digest of a file is its number of bytes, in words.
use personal_vault_rag.Prelude.{
  All, List, Result, String, [], false, if◌then◌else◌, length, none, ok, raise, refl, same, some,
  true, ◌==◌, ◌≡◌, ◌≤◌, ◌++◌, ◌∷◌,
}
use personal_vault_rag.Db.{Version}
use personal_vault_rag.Table.{fetch_one, update, sum, first_by, select}
use personal_vault_rag.Table.Each.{has}
use personal_vault_rag.Jobs.{create_job, enqueue}
use personal_vault_rag.Security.{Principal, require, has_scope}
use personal_vault_rag.Catalog.{is_version, check_capacity}
use personal_vault_rag.Catalog.Upload.{
  Upload, Registered, path_taken, upsert_document, register_version, queue_extract, register_upload,
}
use personal_vault_rag.Ingest.{
  Bytes, StagedFile, has_path, Intake, Settings, IngestError, refused, mismatch, receive, accept,
  admit, ingest,
}
use personal_vault_rag.Ingest.Uploaded.{Stored, IsUntouched, ingest-Stored, ingest-raise}
use personal_vault_rag.Ingest.Orphans.{NamesFile, ingest-NamesFile}
use personal_vault_rag.Mcp.Download.{
  Address, Network, redirect, body, safe_remote_url, write_blocks, attempts, download_openai_file,
}
use personal_vault_rag.Mcp.Fetched.{
  IsChecked, IsBody, download_openai_file-IsChecked, download_openai_file-IsBody,
}
use personal_vault_rag.Tests.{home, laptop, document, version}

abbrev settings : Settings
settings = record { max_upload_bytes = 100; staging_ttl_hours = 1; free_bytes = 1_000 }

abbrev uuid : (kind id : String) → String
uuid kind id = id

abbrev digest : Bytes → String
digest bytes = if length bytes == 3 then "three" else "other"

-- A version that waits for its extraction, with its staged file.
abbrev waiting : Version
waiting = record (version "v1" "d1") {
  content_sha256 = "three";
  indexed_at = none;
  lexical_indexed_at = none;
  raw_staging_path = some "/staging/1.txt";
  raw_expires_at = some 9_000;
}

abbrev intake : Intake
intake = record {
  catalog = record {
    vaults = home ∷ [];
    sources = laptop ∷ [];
    documents = document "d1" "a.txt" 1 ∷ [];
    versions = waiting ∷ [];
    chunks = [];
    chunks_fts = [];
    previews = [];
    batches = [];
    artifacts = [];
    inspections = [];
    jobs = [];
  };
  files = ("/staging/1.txt", 1 ∷ 2 ∷ 3 ∷ []) ∷ [];
}

abbrev connector : Principal
connector = record {
  vault_id = "home";
  token_id = "tok";
  scopes = "ingest" ∷ [];
  label = "Connector";
}

abbrev form : Upload
form = record {
  vault_id = "";
  source_id = "laptop";
  relative_path = "a.txt";
  display_name = "a.txt";
  content_sha256 = "three";
  mtime_ns = 1;
  size_bytes = 3;
  staging_path = "";
  media_type = "text/plain";
  scan_generation = 2;
  document_id = "d1";
  version_id = "v1";
}

abbrev bytes : List Bytes
bytes = (1 ∷ 2 ∷ []) ∷ (3 ∷ []) ∷ [] ∷ []

-- The file is sent again, and then with a byte too few.
abbrev sent : Intake × Result IngestError Registered
sent = ingest settings 50 uuid digest "/staging/2.txt" true true intake connector form bytes

abbrev cut_short : Intake × Result IngestError Registered
cut_short =
    ingest settings 50 uuid digest "/staging/2.txt" true true intake connector form
      ((1 ∷ 2 ∷ []) ∷ [])

sent_runs :
    ingest settings 50 uuid digest "/staging/2.txt" true true intake connector form bytes
    ≡ (sent.0, ok (Registered.job "job_v1"))
unfolding ingest accept admit receive check_capacity require has_scope register_upload path_taken
    upsert_document register_version queue_extract create_job fetch_one update sum enqueue first_by
    select
sent_runs = refl

ingest-Stored_example :
    Stored settings 50 uuid digest "/staging/2.txt" true true connector form bytes intake sent.0
      (Registered.job "job_v1")
ingest-Stored_example =
    ingest-Stored settings 50 uuid digest "/staging/2.txt" true true connector form bytes intake
      sent.0 (Registered.job "job_v1") sent_runs

cut_short_runs :
    ingest settings 50 uuid digest "/staging/2.txt" true true intake connector form
      ((1 ∷ 2 ∷ []) ∷ [])
    ≡ (cut_short.0, raise (refused mismatch))
unfolding ingest accept admit receive check_capacity require has_scope fetch_one sum
cut_short_runs = refl

new_name : has (has_path "/staging/2.txt") intake.files ≡ false
unfolding fetch_one
new_name = refl

ingest-raise_example :
    IsUntouched settings 50 uuid digest "/staging/2.txt" true true connector form
      ((1 ∷ 2 ∷ []) ∷ [])
      intake
      cut_short.0
ingest-raise_example =
    ingest-raise settings 50 uuid digest "/staging/2.txt" true true connector form
      ((1 ∷ 2 ∷ []) ∷ []) intake cut_short.0 (refused mismatch) new_name cut_short_runs

waiting_found : fetch_one (is_version "home" "v1") intake.catalog.versions ≡ some waiting
unfolding fetch_one
waiting_found = refl

old_kept : has (has_path "/staging/1.txt") intake.files ≡ true
unfolding fetch_one
old_kept = refl

ingest-NamesFile_example :
    (same "/staging/1.txt" "/staging/2.txt" ≡ false)
    × ((has (has_path "/staging/1.txt") sent.0.files ≡ true)
        × NamesFile "home" "v1" "/staging/2.txt" sent.0.catalog)
ingest-NamesFile_example =
    ingest-NamesFile settings 50 uuid digest "/staging/2.txt" true true connector form bytes intake
      sent.0 (Registered.job "job_v1") waiting "/staging/1.txt" waiting_found refl refl old_kept
      sent_runs

abbrev public : Address
public = record {
  is_private = false;
  is_loopback = false;
  is_link_local = false;
  is_reserved = false;
}

-- A host that redirects to another, which answers with three bytes.
abbrev network : Network
network = record {
  urlparse = λ url. ok (record { scheme = "https"; hostname = some url; port = none });
  getaddrinfo = λ hostname port. ok (public ∷ []);
  get = λ url.
      if same url "files"
      then ok (redirect (some "store"))
      else ok (body 3 ((1 ∷ 2 ∷ []) ∷ (3 ∷ []) ∷ []));
}

abbrev target : String
target = "/staging/9.txt"

abbrev downloaded : List StagedFile
downloaded = (target, 1 ∷ 2 ∷ 3 ∷ []) ∷ []

abbrev download : (List StagedFile × List String) × Result String String
download = download_openai_file network 100 true ".txt" "/staging/9.txt" "files" []

download_runs :
    download_openai_file network 100 true ".txt" "/staging/9.txt" "files" []
    ≡ ((downloaded, "files" ∷ "store" ∷ []), ok "/staging/9.txt")
unfolding download_openai_file attempts safe_remote_url write_blocks fetch_one
download_runs = refl

download_openai_file-IsChecked_example :
    All (IsChecked network) download.0.1 × (length download.0.1 ≤ 4)
download_openai_file-IsChecked_example =
    download_openai_file-IsChecked network 100 true ".txt" "/staging/9.txt" "files" []

download_openai_file-IsBody_example :
    (target ≡ target)
    × ((b : Bytes) × (downloaded ≡ [] ++ ("/staging/9.txt", b) ∷ [])
        × IsBody network 100 (has (has_path "/staging/9.txt") []) b)
download_openai_file-IsBody_example =
    download_openai_file-IsBody network 100 true ".txt" "/staging/9.txt" "files" [] downloaded
      ("files" ∷ "store" ∷ []) "/staging/9.txt" download_runs
