-- ===== src/Mcp/Inspection.antt =====
-- `inspect_chat_attachment` and `get_chat_inspection` of app/mcp_server.py: a file of a chat that a
-- worker reads once. The identifiers, the clock, the download, the name at the end of a path and
-- the parsing of the stored warnings are arguments.
use personal_vault_rag.Prelude.{
  Bool, List, Option, Result, String, [], false, if◌then◌else◌, none, ok, raise, raise_if, same,
  seconds, some, true, ℕ, ◌*◌, ◌++◌, ◌+◌, ◌>>◌, ◌∷◌,
}
use personal_vault_rag.Db.{TemporaryInspection}
use personal_vault_rag.Table.{fetch_one}
use personal_vault_rag.Table.Each.{has}
use personal_vault_rag.Jobs.{create_job}
use personal_vault_rag.Worker.Inspect.{Disk, is_inspection}
use personal_vault_rag.Mcp.{Access, current_vault}

-- `value or default` of a text that may be None
abbrev pub given_or : Option String → String → String
given_or none default = default
given_or (some s) default = if same s "" then default else s

-- The INSERT of an inspection, whose identifier is the primary key.
unfoldable pub insert_inspection :
    TemporaryInspection → List TemporaryInspection → Result String (List TemporaryInspection)
insert_inspection i inspections =
    raise_if (has (λ b. same b.id i.id) inspections) "IntegrityError" >> ok (inspections ++ i ∷ [])

-- The identifier of the inspection, the time of the call, the lifetime of staged files, and
-- `path.name`.
module _ (inspection_id : String) (stamp staging_ttl_hours : ℕ) (name : String → String) where
  abbrev pub inspection_row :
      (vault_id path file_id : String) (file_name : Option String) → TemporaryInspection
  inspection_row vault_id path file_id file_name = record {
    id = inspection_id;
    vault_id = vault_id;
    file_id = file_id;
    file_name = given_or file_name (name path);
    staging_path = some path;
    state = "queued";
    extracted_text = none;
    warnings_json = none;
    error = none;
    created_at = stamp;
    expires_at = stamp + seconds (staging_ttl_hours * 3600);
    completed_at = none;
  }

  -- `download` is what `_download_openai_file` answers: the path of the new file. The answer is the
  -- identifier, its other fields are constants.
  unfoldable pub inspect_chat_attachment :
      (job_uuid : String) (access : Option Access)
      → (download : Result String String) (file_id : String) (file_name : Option String) → Disk
      → Disk × Result String String
  inspect_chat_attachment job_uuid access download file_id file_name d =
      elim (current_vault access "search") [
        | raise e ↦ (d, raise e)
        | ok vault_id ↦ elim download [
          | raise e ↦ (d, raise e)
          | ok path ↦
              let c = d.catalog in
              let files = d.staged_files ++ path ∷ [] in
              let row = inspection_row vault_id path file_id file_name in
              elim (insert_inspection row c.inspections) [
                | raise e ↦ (record d { staged_files = files }, raise e)
                | ok inspections ↦ (
                  record {
                    catalog = record c {
                      inspections = inspections;
                      jobs =
                          (create_job c.jobs stamp job_uuid vault_id "inspect_temporary"
                            (("inspection_id", inspection_id) ∷ []) 60).0;
                    };
                    staged_files = files;
                  },
                  ok inspection_id,
                )
              ]
        ]
      ]

-- What a poll answers.
pub record ChatInspection : Type 0 where
  pub id : String
  pub file_id : String
  pub file_name : String
  pub state : String
  pub extracted_text : Option String
  pub warnings : List String
  pub error : Option String
  pub expires_at : ℕ
  pub temporary : Bool
  pub saved : Bool

module _ (loads : String → List String) where
  abbrev pub chat_inspection : TemporaryInspection → ChatInspection
  chat_inspection i = record {
    id = i.id;
    file_id = i.file_id;
    file_name = i.file_name;
    state = i.state;
    extracted_text = i.extracted_text;
    warnings = loads (given_or i.warnings_json "[]");
    error = i.error;
    expires_at = i.expires_at;
    temporary = true;
    saved = false;
  }

  unfoldable pub get_chat_inspection :
      Option Access
      → (inspection_id : String) → List TemporaryInspection
      → Result String ChatInspection
  get_chat_inspection access inspection_id inspections = elim (current_vault access "search") [
    | raise e ↦ raise e
    | ok vault_id ↦ elim (fetch_one (is_inspection vault_id inspection_id) inspections) [
      | none ↦ raise "Temporary inspection not found in this vault"
      | some row ↦ ok (chat_inspection row)
    ]
  ]
