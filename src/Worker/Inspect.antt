-- ===== src/Worker/Inspect.antt =====
-- `process_temporary_inspection` and `fail_job` of app/worker.py, over the catalog and the staged
-- files that exist. `extract` reads a file as far as it exists, `dumps` prints the warnings. The
-- directory of the previews is not modelled.
use personal_vault_rag.Prelude.{
  Bool, List, Option, Result, String, [], codes, concat, cut, if◌then◌else◌, length, ltb, map, none,
  not, ok, raise, same, some, ℕ, ◌&&◌, ◌++◌, ◌∷◌,
}
use personal_vault_rag.Db.{Job, TemporaryInspection}
use personal_vault_rag.Table.{fetch_one, update, delete}
use personal_vault_rag.Jobs.{retries}
use personal_vault_rag.Jobs
use personal_vault_rag.Catalog.{Catalog}
use personal_vault_rag.Worker.{Extraction, payload_field}

-- The catalog and the staged files that exist.
pub record Disk : Type 0 where
  pub catalog : Catalog
  pub staged_files : List String

-- `Path(path).unlink(missing_ok=True)`
abbrev pub unlink : String → List String → List String
unlink path = delete (λ f. same f path)

abbrev pub is_inspection : (vault_id id : String) → TemporaryInspection → Bool
is_inspection vault_id id i = same i.vault_id vault_id && same i.id id

abbrev pub is_queued_inspection : (vault_id id : String) → TemporaryInspection → Bool
is_queued_inspection vault_id id i = is_inspection vault_id id i && same i.state "queued"

-- The path of an inspection, unless it is NULL or empty.
unfoldable pub inspected_path : TemporaryInspection → Option String
inspected_path i = elim i.staging_path [
  | none ↦ none
  | some path ↦ if same path "" then none else some path
]

-- `"\n\n".join(texts)`
abbrev pub join_paragraphs : List String → String
join_paragraphs [] = ""
join_paragraphs (s ∷ []) = s
join_paragraphs (s ∷ t ∷ ss) = concat s (concat "\n\n" (join_paragraphs (t ∷ ss)))

abbrev pub full_text : Extraction → String
full_text extracted = join_paragraphs (map (λ p. p.text) extracted.chunks)

unfoldable pub inspection_warnings : Extraction → List String
inspection_warnings extracted =
    if ltb 16000 (length (codes (full_text extracted)))
    then extracted.warnings ++ "Temporary extracted context was truncated to 16,000 characters" ∷ []
    else extracted.warnings

module _ (dumps : List String → String) (stamp : ℕ) where
  abbrev pub completed : Extraction → TemporaryInspection → TemporaryInspection
  completed extracted i = record i {
    state = "complete";
    extracted_text = some (cut 16000 (full_text extracted));
    warnings_json = some (dumps (inspection_warnings extracted));
    staging_path = none;
    completed_at = some stamp;
  }

  -- The file is removed whether the extraction answers or raises.
  unfoldable pub process_temporary_inspection :
      Disk
      → (vault_id inspection_id : String)
      → (extract : List String → (path name : String) → Result String Extraction)
      → Disk × Result String (Unit {0})
  process_temporary_inspection d vault_id inspection_id extract =
      let c = d.catalog in
      elim (fetch_one (is_queued_inspection vault_id inspection_id) c.inspections) [
        | none ↦ (d, raise "Temporary inspection expired or is unavailable")
        | some row ↦ elim (inspected_path row) [
          | none ↦ (d, raise "Temporary inspection expired or is unavailable")
          | some path ↦ elim (extract d.staged_files path row.file_name) [
            | raise e ↦ (record d { staged_files = unlink path d.staged_files }, raise e)
            | ok extracted ↦ (
              record {
                catalog = record c {
                  inspections =
                      update (is_inspection vault_id inspection_id) (completed extracted)
                        c.inspections;
                };
                staged_files = unlink path d.staged_files;
              },
              ok tt,
            )
          ]
        ]
      ]

module _ (message : String) (stamp : ℕ) where
  abbrev pub failed_inspection : TemporaryInspection → TemporaryInspection
  failed_inspection i = record i {
    state = "failed";
    error = some (cut 2000 message);
    staging_path = none;
    completed_at = some stamp;
  }

  -- The file of the inspection, if there is one.
  unfoldable pub without_file : Disk → (vault_id inspection_id : String) → List String
  without_file d vault_id inspection_id =
      elim (fetch_one (is_inspection vault_id inspection_id) d.catalog.inspections) [
        | none ↦ d.staged_files
        | some row ↦ elim (inspected_path row) [
          | none ↦ d.staged_files
          | some path ↦ unlink path d.staged_files
        ]
      ]

  -- `job` is the row that the claim returned.
  unfoldable pub fail_job : Disk → Job → Disk × Result String (Unit {0})
  fail_job d job =
      let c = d.catalog in
      let kept : Disk = record d {
        catalog = record c { jobs = Jobs.fail_job c.jobs job message stamp };
      } in
      if not (retries job) && same job.kind "inspect_temporary"
      then elim (payload_field "inspection_id" job.payload) [
        | none ↦ (kept, raise "KeyError")
        | some id ↦ (
          record {
            catalog = record c {
              jobs = Jobs.fail_job c.jobs job message stamp;
              inspections = update (is_inspection job.vault_id id) failed_inspection c.inspections;
            };
            staged_files = without_file d job.vault_id id;
          },
          ok tt,
        )
      ]
      else (kept, ok tt)
