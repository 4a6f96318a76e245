-- ===== src/Tests/Rounds.antt =====
-- Runs of the worker's loop and of inspections.
use personal_vault_rag.Prelude.{
  List, Result, String, [], if◌then◌else◌, none, ok, raise, refl, same, some, true, ◌∷◌, ◌≡◌,
}
use personal_vault_rag.Db.{Job, JobState, TemporaryInspection}
use personal_vault_rag.Table.{fetch_one, update, first_by, count}
use personal_vault_rag.Table.Each.{has}
use personal_vault_rag.Budget.{find_vault}
use personal_vault_rag.Jobs.{claim_job, expire_leases, candidates, due}
use personal_vault_rag.Worker.{Locator, Extraction}
use personal_vault_rag.Worker.Inspect.{Disk, inspected_path, process_temporary_inspection}
use personal_vault_rag.Worker.Inspections.{ReadsFiles, process_temporary_inspection-raise}
use personal_vault_rag.Worker.Dispatch.{Services, claimed, round}
use personal_vault_rag.Worker.Rounds.{IsSettled, round-IsSettled}
use personal_vault_rag.Tests.{home, job}

abbrev inspection : TemporaryInspection
inspection = record {
  id = "i1";
  vault_id = "home";
  file_id = "f1";
  file_name = "a.txt";
  staging_path = some "/staging/1";
  state = "queued";
  extracted_text = none;
  warnings_json = none;
  error = none;
  created_at = 1;
  expires_at = 1_000;
  completed_at = none;
}

abbrev pub inspects : Job
inspects = record (job "j1" "inspect_temporary" JobState.queued) {
  payload = ("inspection_id", "i1") ∷ [];
}

abbrev pub disk : Disk
disk = record {
  catalog = record {
    vaults = home ∷ [];
    sources = [];
    documents = [];
    versions = [];
    chunks = [];
    chunks_fts = [];
    previews = [];
    batches = [];
    artifacts = [];
    inspections = inspection ∷ [];
    jobs = inspects ∷ [];
  };
  staged_files = "/staging/1" ∷ [];
}

abbrev nowhere : Locator
nowhere = record {
  page = none;
  page_end = none;
  slide = none;
  image = none;
  time_start = none;
  time_end = none;
}

abbrev pub read : Extraction
read = record {
  chunks = record { text = "words"; kind = "text"; heading_path = ""; locator = nowhere } ∷ [];
  previews = [];
  warnings = [];
}

abbrev pub dumps : List String → String
dumps warnings = "[]"

-- A reader that answers where the file exists.
abbrev pub extract_words : List String → (path name : String) → Result String Extraction
extract_words fs path name =
    if has (λ f. same f path) fs then ok read else raise "FileNotFoundError"

-- A reader that is out of order.
abbrev extract_broken : List String → (path name : String) → Result String Extraction
extract_broken fs path name = raise "broken"

words-ReadsFiles : ReadsFiles dumps "home" "i1" extract_words
words-ReadsFiles fs path name e = ("FileNotFoundError", rw e refl)

broken_runs :
    (process_temporary_inspection dumps 50 disk "home" "i1" extract_broken).1 ≡ raise "broken"
unfolding process_temporary_inspection fetch_one inspected_path
broken_runs = refl

-- The reader is in order again at the second attempt.
process_temporary_inspection-raise_example :
    (f : String) × ((process_temporary_inspection dumps 60
        (process_temporary_inspection dumps 50 disk "home" "i1" extract_broken).0
        "home"
        "i1"
        extract_words).1
      ≡ raise f)
process_temporary_inspection-raise_example =
    process_temporary_inspection-raise dumps "home" "i1" extract_broken extract_words 50 60 disk
      "broken" words-ReadsFiles broken_runs

abbrev pub services : Services
services = record {
  names = record {
    dump = λ l. "{}";
    parse = λ s. nowhere;
    chunk_uuid = λ v i text. v;
    visual_uuid = λ v i. v;
    preview_uuid = λ v i. v;
  };
  uuid = λ kind id. id;
  dumps = dumps;
  extract = extract_broken;
  is_file = λ path. true;
  embed_text =
      λ version_id model. record { embed = λ first batch. ok tt; upsert = λ first batch. ok tt };
  embed_visual =
      λ version_id model. record { embed = λ first batch. ok tt; upsert = λ first batch. ok tt };
  mark_document_vectors_historical = λ vault_id document_id version_id. ok tt;
  delete_document_vectors = λ vault_id document_id. ok tt;
  delete_version_vectors = λ vault_id version_id modality. ok tt;
  preview_ttl_days = 1;
}

claims_job : (claimed services "worker" 50 51 52 disk).1 ≡ some inspects
unfolding claimed claim_job expire_leases candidates due find_vault first_by count update fetch_one
claims_job = refl

round-IsSettled_example : IsSettled "j1" (round services "worker" 50 51 52 (disk, 0)).0.0
round-IsSettled_example = round-IsSettled services "worker" 50 51 52 disk 0 inspects claims_job
