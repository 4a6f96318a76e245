-- ===== src/Mcp/Attempts.antt =====
-- What an attempt of the job of inspect_chat_attachment of app/mcp_server.py does to its inspection,
-- and what get_chat_inspection answers after it.
use personal_vault_rag.Prelude.{
  List, Option, String, [], arith, false, ok, raise, refl, same, same_iff, some, true, ℕ, ◌∙◌, ◌∷◌,
  ◌≡◌,
}
use personal_vault_rag.Db.{Job, TemporaryInspection}
use personal_vault_rag.Table.{fetch_one, update}
use personal_vault_rag.Table.Closed.{fetch_one-update}
use personal_vault_rag.Table.Each.{has}
use personal_vault_rag.Table.Rows.{fetch_one-Place}
use personal_vault_rag.Jobs.{
  Payload, is_active, active_for, insert_field, requests, retries, same_payload, sort_keys,
}
use personal_vault_rag.Worker.{Extraction, payload_field}
use personal_vault_rag.Worker.Inspect.{
  Disk, completed, fail_job, failed_inspection, is_inspection, is_queued_inspection, inspected_path,
  unlink, without_file, process_temporary_inspection,
}
use personal_vault_rag.Worker.Inspections.{has-unlink}
use personal_vault_rag.Worker.Dispatch.{Services, process_job, settle_job}
use personal_vault_rag.Mcp.{Access, current_vault}
use personal_vault_rag.Mcp.Inspection.{chat_inspection, get_chat_inspection}

abbrev pub inspection_payload : String → Payload
inspection_payload id = ("inspection_id", id) ∷ []

-- The job is one for this inspection.
abbrev pub IsFor : (vault_id id : String) → Job → Type 0
IsFor vault_id id job =
    (job.vault_id ≡ vault_id)
    × (job.kind ≡ "inspect_temporary")
    × (payload_field "inspection_id" job.payload ≡ some id)

same_payload-payload_field :
    (id : String) (p : Payload)
    → same_payload p (inspection_payload id) ≡ true
    → payload_field "inspection_id" p ≡ some id
unfolding same_payload payload_field
same_payload-payload_field id [] h = absurd (ground arith)
same_payload-payload_field id ((k, x) ∷ []) h =
    ground (arith, same_iff k "inspection_id", same_iff x id)
same_payload-payload_field id ((k, x) ∷ f ∷ fs) h = absurd (ground arith)

pub active_for-IsFor :
    (vault_id id : String) (job : Job)
    → active_for vault_id "inspect_temporary" (sort_keys (inspection_payload id)) job ≡ true
    → IsFor vault_id id job
unfolding active_for requests sort_keys insert_field
active_for-IsFor vault_id id job h = (
  (same_iff job.vault_id vault_id).0 (ground arith),
  (same_iff job.kind "inspect_temporary").0 (ground arith),
  same_payload-payload_field id job.payload (ground arith),
)

pub active_for-is_active :
    (vault_id kind : String) (p : Payload) (job : Job)
    → active_for vault_id kind p job ≡ true
    → is_active job.state ≡ true
unfolding active_for
active_for-is_active vault_id kind p job h = ground arith

module _ (vault_id id : String) where
  -- The inspection waits for a worker, with its file at `path`.
  pub record Waits (d : Disk) (row : TemporaryInspection) (path : String) : Type 0 where
    pub found : fetch_one (is_inspection vault_id id) d.catalog.inspections ≡ some row
    pub queued : fetch_one (is_queued_inspection vault_id id) d.catalog.inspections ≡ some row
    pub staged : inspected_path row ≡ some path

  written :
      (f : TemporaryInspection → TemporaryInspection) (is : List TemporaryInspection)
      (row : TemporaryInspection)
      → ((i : TemporaryInspection) → is_inspection vault_id id (f i) ≡ is_inspection vault_id id i)
      → fetch_one (is_inspection vault_id id) is ≡ some row
      → fetch_one (is_inspection vault_id id) (update (is_inspection vault_id id) f is)
        ≡ some (f row)
  written f is row keeps h =
      fetch_one-update (is_inspection vault_id id) (is_inspection vault_id id) f keeps is row h
      ∙ rw ((fetch_one-Place (is_inspection vault_id id) is row h).1) refl

  module _ (loads : String → List String) (poll : Option Access)
      (allowed : current_vault poll "search" ≡ ok vault_id) where
    pub get_chat_inspection-found :
        (is : List TemporaryInspection) (row : TemporaryInspection)
        → fetch_one (is_inspection vault_id id) is ≡ some row
        → get_chat_inspection loads poll id is ≡ ok (chat_inspection loads row)
    unfolding get_chat_inspection
    get_chat_inspection-found is row e = ground arith

    fail_job-polled :
        (message : String) (stamp : ℕ) (d : Disk) (job : Job) (row : TemporaryInspection)
        (path : String)
        → IsFor vault_id id job
        → retries job ≡ false
        → fetch_one (is_inspection vault_id id) d.catalog.inspections ≡ some row
        → inspected_path row ≡ some path
        → let r = fail_job message stamp d job in
          (r.1 ≡ ok tt)
          × (get_chat_inspection loads poll id r.0.catalog.inspections
              ≡ ok (chat_inspection loads (failed_inspection message stamp row)))
          × (has (λ f. same f path) r.0.staged_files ≡ false)
    unfolding fail_job without_file
    fail_job-polled message stamp d job row path is_for over found staged =
        rw (over, is_for.1, is_for.2, is_for.0)
          (
            refl,
            get_chat_inspection-found _ (failed_inspection message stamp row)
                (written (failed_inspection message stamp) _ row (λ i. refl) found),
            rw (without_file, found, staged) (has-unlink path d.staged_files),
          )

    module _ (services : Services) (d : Disk) (job : Job) (is_for : IsFor vault_id id job)
        (row : TemporaryInspection) (path : String) (w : Waits d row path) where
      process_job-inspects :
          (stamp : ℕ)
          → process_job services stamp d job
            ≡ process_temporary_inspection services.dumps stamp d vault_id id services.extract
      unfolding process_job
      process_job-inspects stamp = rw is_for.1 (ground (arith, is_for.0, is_for.2))

      pub completed-polled :
          (worker : String) (claimed_at stamp ended_at : ℕ) (x : Extraction)
          → services.extract d.staged_files path row.file_name ≡ ok x
          → let r =
              settle_job services worker claimed_at stamp ended_at job
                (process_job services stamp d job) in
            (r.1 ≡ ok tt)
            × (get_chat_inspection loads poll id r.0.catalog.inspections
                ≡ ok (chat_inspection loads (completed services.dumps stamp x row)))
            × (has (λ f. same f path) r.0.staged_files ≡ false)
      unfolding process_temporary_inspection settle_job
      completed-polled worker claimed_at stamp ended_at x e =
          rw (process_job-inspects stamp, process_temporary_inspection, w.queued, w.staged, e)
            (
              refl,
              get_chat_inspection-found _ (completed services.dumps stamp x row)
                  (written (completed services.dumps stamp x) _ row (λ i. refl) w.found),
              has-unlink path d.staged_files,
            )

      process_job-raises :
          (stamp : ℕ) (e : String)
          → services.extract d.staged_files path row.file_name ≡ raise e
          → process_job services stamp d job
            ≡ (record d { staged_files = unlink path d.staged_files }, raise e)
      unfolding process_temporary_inspection
      process_job-raises stamp e f =
          rw (process_job-inspects stamp, process_temporary_inspection, w.queued, w.staged, f) refl

      pub failed-polled :
          (worker : String) (claimed_at stamp ended_at : ℕ) (e : String)
          → services.extract d.staged_files path row.file_name ≡ raise e
          → retries job ≡ false
          → let r =
              settle_job services worker claimed_at stamp ended_at job
                (process_job services stamp d job) in
            (r.1 ≡ ok tt)
            × (get_chat_inspection loads poll id r.0.catalog.inspections
                ≡ ok (chat_inspection loads (failed_inspection e ended_at row)))
            × (has (λ f. same f path) r.0.staged_files ≡ false)
      unfolding settle_job
      failed-polled worker claimed_at stamp ended_at e f over = rw (process_job-raises stamp e f) (
          fail_job-polled e ended_at (record d { staged_files = unlink path d.staged_files }) job
            row path is_for over w.found w.staged)

      pub retried-Waits :
          (worker : String) (claimed_at stamp ended_at : ℕ) (e : String)
          → services.extract d.staged_files path row.file_name ≡ raise e
          → retries job ≡ true
          → let r =
              settle_job services worker claimed_at stamp ended_at job
                (process_job services stamp d job) in
            (r.1 ≡ ok tt) × Waits r.0 row path × (has (λ f. same f path) r.0.staged_files ≡ false)
      unfolding settle_job fail_job
      retried-Waits worker claimed_at stamp ended_at e f left =
          rw (process_job-raises stamp e f, left)
            (
              refl,
              record { found = w.found; queued = w.queued; staged = w.staged },
              has-unlink path d.staged_files,
            )
