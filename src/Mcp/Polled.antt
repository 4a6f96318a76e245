-- ===== src/Mcp/Polled.antt =====
-- What a chat learns of a file that it has handed to inspect_chat_attachment of app/mcp_server.py:
-- the tool, the queue, the worker's job and the polls, one after another.
use personal_vault_rag.Prelude.{
  Bool-cases, List, Option, Result, Result-cases, String, cut, false, inl, inr, ok, raise, same,
  some, true, ℕ, ◌≡◌,
}
use personal_vault_rag.Db.{Job, TemporaryInspection}
use personal_vault_rag.Table.Each.{has}
use personal_vault_rag.Jobs.{retries}
use personal_vault_rag.Jobs.Unique.{IsUnique}
use personal_vault_rag.Worker.{Extraction}
use personal_vault_rag.Worker.Inspect.{Disk, full_text, inspection_warnings}
use personal_vault_rag.Worker.Dispatch.{Services, process_job, settle_job}
use personal_vault_rag.Mcp.{Access, current_vault}
use personal_vault_rag.Mcp.Inspection.{
  ChatInspection, chat_inspection, get_chat_inspection, inspect_chat_attachment, inspection_row,
}
use personal_vault_rag.Mcp.Attempts.{
  IsFor, Waits, get_chat_inspection-found, completed-polled, failed-polled, retried-Waits,
}
use personal_vault_rag.Mcp.Accepted.{HasJob, inspect_chat_attachment-Waits}

module _ (inspection_id : String) (stamp staging_ttl_hours : ℕ) (name : String → String)
    (loads : String → List String) (services : Services) (poll : Option Access)
    (vault_id path file_id : String) (file_name : Option String) where
  abbrev row : TemporaryInspection
  row = inspection_row inspection_id stamp staging_ttl_hours name vault_id path file_id file_name

  abbrev pub complete_answer : Extraction → ChatInspection
  complete_answer x = record (chat_inspection loads row) {
    state = "complete";
    extracted_text = some (cut 16000 (full_text x));
    warnings = inspection_warnings x;
  }

  abbrev pub failed_answer : (message : String) → ChatInspection
  failed_answer message = record (chat_inspection loads row) {
    state = "failed";
    error = some (cut 2000 message);
  }

  -- The warnings of this file are printed to a text that is not empty and is parsed to what they were.
  abbrev pub IsParsed : Type 0
  IsParsed =
      (files : List String) (x : Extraction)
      → services.extract files path row.file_name ≡ ok x
      → (loads (services.dumps (inspection_warnings x)) ≡ inspection_warnings x)
        × (same (services.dumps (inspection_warnings x)) "" ≡ false)

  -- What a poll answers on a disk.
  abbrev pub polled : Disk → Result String ChatInspection
  polled d = get_chat_inspection loads poll inspection_id d.catalog.inspections

  -- The worker's attempt of a job.
  abbrev pub tried :
      (worker : String) (claimed_at run_at ended_at : ℕ)
      → Job
      → Disk
      → Disk × Result String (Unit {0})
  tried worker claimed_at run_at ended_at job d =
      settle_job services worker claimed_at run_at ended_at job (process_job services run_at d job)

  -- The disks that are reached by attempts that raise while more are left, and by whatever leaves the
  -- inspections as they are.
  pub data Tries (d : Disk) : Disk → Type 0 where
    start : Tries d d
    other : (e f : Disk) → Tries d e → f.catalog.inspections ≡ e.catalog.inspections → Tries d f
    again :
        (e : Disk) (job : Job) (worker : String) (claimed_at run_at ended_at : ℕ) (message : String)
        → Tries d e
        → IsFor vault_id inspection_id job
        → services.extract e.staged_files path row.file_name ≡ raise message
        → retries job ≡ true
        → Tries d (tried worker claimed_at run_at ended_at job e).0

  -- What an attempt on the disk `e` has led to.
  pub data Outcome (e : Disk) (job : Job) (r : Disk) : Type 0 where
    ends :
        (x : Extraction)
        → services.extract e.staged_files path row.file_name ≡ ok x
        → polled r ≡ ok (complete_answer x)
        → Outcome e job r
    waits :
        (message : String)
        → services.extract e.staged_files path row.file_name ≡ raise message
        → retries job ≡ true
        → polled r ≡ ok (chat_inspection loads row)
        → Outcome e job r
    fails :
        (message : String)
        → services.extract e.staged_files path row.file_name ≡ raise message
        → retries job ≡ false
        → polled r ≡ ok (failed_answer message)
        → Outcome e job r

  pub record Polls (d e : Disk) (job : Job) (r : Disk × Result String (Unit {0})) : Type 0 where
    pub has_job : HasJob vault_id inspection_id d.catalog.jobs
    pub waiting : polled e ≡ ok (chat_inspection loads row)
    pub goes_on : r.1 ≡ ok tt
    pub outcome : Outcome e job r.0
    pub removed : has (λ f. same f path) r.0.staged_files ≡ false

  Tries-Waits :
      (d e : Disk)
      → current_vault poll "search" ≡ ok vault_id
      → Waits vault_id inspection_id d row path
      → Tries d e
      → Waits vault_id inspection_id e row path
  Tries-Waits d _ f w start = w
  Tries-Waits d e f w (other g _ t q) =
      let v = Tries-Waits d g f w t in
      record { found = rw q v.found; queued = rw q v.queued; staged = v.staged }
  Tries-Waits d _ f w (again e job worker claimed_at run_at ended_at m t i x left) =
      (retried-Waits vault_id inspection_id loads poll f services e job i row path
        (Tries-Waits d e f w t) worker claimed_at run_at ended_at m x left).1

  -- A job for an inspection that waits.
  tried-Outcome :
      (e : Disk) (job : Job) (worker : String) (claimed_at run_at ended_at : ℕ)
      → current_vault poll "search" ≡ ok vault_id
      → IsParsed
      → Waits vault_id inspection_id e row path
      → IsFor vault_id inspection_id job
      → let r = tried worker claimed_at run_at ended_at job e in
        (r.1 ≡ ok tt) × Outcome e job r.0 × (has (λ f. same f path) r.0.staged_files ≡ false)
  tried-Outcome e job worker claimed_at run_at ended_at f parsed w i =
      elim (Result-cases (services.extract e.staged_files path row.file_name)) [
        | inl (x, q) ↦
            let (back, filled) = parsed e.staged_files x q in
            let (done, answer, gone) =
              completed-polled vault_id inspection_id loads poll f services e job i row path w
                worker claimed_at run_at ended_at x q in
            (done, ends x q (rw (filled, back) at answer), gone)
        | inr (m, q) ↦ elim (Bool-cases (retries job)) [
          | inl left ↦
              let (done, v, gone) =
                retried-Waits vault_id inspection_id loads poll f services e job i row path w worker
                  claimed_at run_at ended_at m q left in
              (
                done,
                waits m q left
                    (get_chat_inspection-found vault_id inspection_id loads poll f _ row v.found),
                gone,
              )
          | inr over ↦
              let (done, answer, gone) =
                failed-polled vault_id inspection_id loads poll f services e job i row path w worker
                  claimed_at run_at ended_at m q over in
              (done, fails m q over answer, gone)
        ]
      ]

  -- Let the tool accept a file that was downloaded to a path that is not empty, with a queue without
  -- duplicates, and let the file's warnings be parsed to what they were. Then the queue has an active
  -- job for the inspection. After any number of attempts that raised while more were left, and of
  -- operations that leave the inspections as they are, a poll of the vault answers that the
  -- inspection is queued. The worker goes on after the next attempt of a job for it, the file is gone,
  -- and a poll answers that the inspection is complete, with the text cut to 16,000 characters and
  -- the warnings, if the reader answered; that it is queued, if the reader raised and more attempts
  -- are left; and that it has failed, with the error cut to 2,000 characters, if the reader raised in
  -- the last attempt.
  pub inspect_chat_attachment-Polls :
      (job_uuid : String) (access : Option Access) (d d' e : Disk) (job : Job) (worker : String)
      (claimed_at run_at ended_at : ℕ)
      → IsUnique d.catalog.jobs
      → IsParsed
      → same path "" ≡ false
      → current_vault access "search" ≡ ok vault_id
      → current_vault poll "search" ≡ ok vault_id
      → inspect_chat_attachment inspection_id stamp staging_ttl_hours name job_uuid access
          (ok path)
          file_id
          file_name
          d
        ≡ (d', ok inspection_id)
      → Tries d' e
      → IsFor vault_id inspection_id job
      → Polls d' e job (tried worker claimed_at run_at ended_at job e)
  inspect_chat_attachment-Polls job_uuid access d d' e job worker claimed_at run_at ended_at unique
        parsed filled f g h t i =
      let (has_job, w) =
        inspect_chat_attachment-Waits inspection_id stamp staging_ttl_hours name vault_id path
          file_id file_name job_uuid access d d' unique filled f h in
      let v = Tries-Waits d' e g w t in
      let (done, outcome, gone) =
        tried-Outcome e job worker claimed_at run_at ended_at g parsed v i in
      record {
        has_job = has_job;
        waiting = get_chat_inspection-found vault_id inspection_id loads poll g _ row v.found;
        goes_on = done;
        outcome = outcome;
        removed = gone;
      }
