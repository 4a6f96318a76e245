-- ===== src/Mcp/Accepted.antt =====
-- What inspect_chat_attachment of app/mcp_server.py leaves in the queue and the inspections.
use personal_vault_rag.Prelude.{
  Bool-cases, List, Option, String, [], arith, false, inl, inr, ok, refl, same, same_refl, subst,
  true, ℕ, ◌++◌, ◌∷◌, ◌≡◌,
}
use personal_vault_rag.Db.{Job, TemporaryInspection}
use personal_vault_rag.Table.Each.{has}
use personal_vault_rag.Table.Rows.{Place}
use personal_vault_rag.Table.Unique.{fetch_one-append_new, has_wider}
use personal_vault_rag.Jobs.{is_active, create_job}
use personal_vault_rag.Jobs.Unique.{IsUnique}
use personal_vault_rag.Jobs.Created.{create_job-Answers}
use personal_vault_rag.Worker.Inspect.{Disk, is_inspection, is_queued_inspection, inspected_path}
use personal_vault_rag.Mcp.{Access, current_vault}
use personal_vault_rag.Mcp.Inspection.{insert_inspection, inspect_chat_attachment, inspection_row}
use personal_vault_rag.Mcp.Attempts.{
  inspection_payload, IsFor, active_for-IsFor, active_for-is_active, Waits,
}

-- The queue has an active job for the inspection.
pub record HasJob (vault_id inspection_id : String) (jobs : List Job) : Type 0 where
  pub job : Job
  pub place : Place job jobs
  pub active : is_active job.state ≡ true
  pub is_for : IsFor vault_id inspection_id job

module _ (inspection_id : String) (stamp staging_ttl_hours : ℕ) (name : String → String)
    (vault_id path file_id : String) (file_name : Option String) where
  abbrev row : TemporaryInspection
  row = inspection_row inspection_id stamp staging_ttl_hours name vault_id path file_id file_name

  inserted-Waits :
      (d : Disk)
      → same path "" ≡ false
      → has (λ b. same b.id inspection_id) d.catalog.inspections ≡ false
      → (jobs : List Job) (files : List String)
      → Waits vault_id inspection_id
          (record {
            catalog = record d.catalog {
              inspections = d.catalog.inspections ++ row ∷ [];
              jobs = jobs;
            };
            staged_files = files;
          })
          row
          path
  unfolding inspected_path
  inserted-Waits d filled new jobs files = record {
    found =
        fetch_one-append_new (is_inspection vault_id inspection_id) d.catalog.inspections row
          (has_wider _ (λ b. same b.id inspection_id) (λ i m. ground arith) _ new)
          (rw (same_refl, same_refl) refl);
    queued =
        fetch_one-append_new (is_queued_inspection vault_id inspection_id) d.catalog.inspections row
          (has_wider _ (λ b. same b.id inspection_id) (λ i m. ground arith) _ new)
          (rw (same_refl, same_refl) refl);
    staged = rw filled refl;
  }

  -- Accepting a file queues a job and leaves its inspection waiting.
  pub inspect_chat_attachment-Waits :
      (job_uuid : String) (access : Option Access) (d d' : Disk)
      → IsUnique d.catalog.jobs
      → same path "" ≡ false
      → current_vault access "search" ≡ ok vault_id
      → inspect_chat_attachment inspection_id stamp staging_ttl_hours name job_uuid access
          (ok path)
          file_id
          file_name
          d
        ≡ (d', ok inspection_id)
      → HasJob vault_id inspection_id d'.catalog.jobs × Waits vault_id inspection_id d' row path
  unfolding inspect_chat_attachment insert_inspection
  inspect_chat_attachment-Waits job_uuid access d d' unique filled e h =
      elim (Bool-cases (has (λ b. same b.id inspection_id) d.catalog.inspections)) [
        | inl g ↦ absurd (ground arith)
        | inr g ↦
            let queue =
              create_job d.catalog.jobs stamp job_uuid vault_id "inspect_temporary"
                (inspection_payload inspection_id) 60 in
            let after : Disk = record {
              catalog = record d.catalog {
                inspections = d.catalog.inspections ++ row ∷ [];
                jobs = queue.0;
              };
              staged_files = d.staged_files ++ path ∷ [];
            } in
            let q : after ≡ d' = ground arith in
            let a =
              create_job-Answers d.catalog.jobs stamp job_uuid vault_id "inspect_temporary"
                (inspection_payload inspection_id) 60 unique in
            subst
              (λ s.
                HasJob vault_id inspection_id s.catalog.jobs
                × Waits vault_id inspection_id s row path)
              q
              (
                record {
                  job = a.job;
                  place = a.place;
                  active = active_for-is_active vault_id _ _ a.job a.active;
                  is_for = active_for-IsFor vault_id inspection_id a.job a.active;
                },
                inserted-Waits d filled g queue.0 (d.staged_files ++ path ∷ []),
              )
      ]
