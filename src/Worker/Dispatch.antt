-- ===== src/Worker/Dispatch.antt =====
-- `process_job` and the loop of `main` of app/worker.py. A payload that lacks a field of its kind
-- raises when the job starts; the callers of create_job write all of them.
use personal_vault_rag.Prelude.{
  Bool, List, Option, Result, String, [], concat, if◌then◌else◌, ltb, none, ok, raise, same,
  seconds, some, ℕ, ◌+◌, ◌∷◌,
}
use personal_vault_rag.Db.{Chunk, Job, Preview}
use personal_vault_rag.Jobs.{claim_job, finish_job}
use personal_vault_rag.Catalog.Cleanup.{cleanup_expired}
use personal_vault_rag.Worker.{Extraction, Outcome, payload_field}
use personal_vault_rag.Worker.Evidence.{Target, Names}
use personal_vault_rag.Worker.Extract.{process_extract, process_render_visual}
use personal_vault_rag.Worker.Embed.{Embedder, Progress, process_embed_text, process_embed_visual}
use personal_vault_rag.Worker.Inspect.{Disk, unlink, process_temporary_inspection, fail_job}

-- What the worker calls: the readers of files, the provider and the vector store.
pub record Services : Type 0 where
  pub names : Names
  pub uuid : (kind id : String) → String
  pub dumps : List String → String
  pub extract : List String → (path name : String) → Result String Extraction
  pub is_file : String → Bool
  pub embed_text : (version_id model : String) → Embedder Chunk
  pub embed_visual : (version_id model : String) → Embedder (Preview × Chunk)
  pub mark_document_vectors_historical :
      (vault_id document_id current_version_id : String) → Result String (Unit {0})
  pub delete_document_vectors : (vault_id document_id : String) → Result String (Unit {0})
  pub delete_version_vectors :
      (vault_id version_id : String) (modality : Option String) → Result String (Unit {0})
  pub preview_ttl_days : ℕ

abbrev pub unlink_all : List String → List String → List String
unlink_all [] fs = fs
unlink_all (path ∷ paths) fs = unlink path (unlink_all paths fs)

-- The catalog of a job's outcome, and the disk without the files that the job removed.
abbrev pub after_files : Disk → Outcome (List String) → Disk × Result String (Unit {0})
after_files d (c, ok paths) =
    (record { catalog = c; staged_files = unlink_all paths d.staged_files }, ok tt)
after_files d (c, raise e) = (record d { catalog = c }, raise e)

abbrev pub after_batches :
    Disk → Progress × Result String (Unit {0}) → Disk × Result String (Unit {0})
after_batches d ((c, _), r) = (record d { catalog = c }, r)

-- The disk after `cleanup_expired`.
abbrev pub cleaned : Services → (stamp : ℕ) → Disk → Disk
cleaned services stamp d =
    let r =
      cleanup_expired stamp (services.uuid "delete_version_vectors") d.catalog
        services.preview_ttl_days in
    record { catalog = r.0; staged_files = unlink_all r.1 d.staged_files }

module _ (services : Services) (stamp : ℕ) (d : Disk) (job : Job) where
  -- `payload[key]`
  abbrev pub with_field :
      String → (String → Disk × Result String (Unit {0})) → Disk × Result String (Unit {0})
  with_field key next = elim (payload_field key job.payload) [
    | none ↦ (d, raise "KeyError")
    | some value ↦ next value
  ]

  abbrev pub with_target :
      (Target → Disk × Result String (Unit {0})) → Disk × Result String (Unit {0})
  with_target next = with_field "version_id" λ version_id. with_field "document_id" λ document_id.
      next (record { vault_id = job.vault_id; document_id = document_id; version_id = version_id })

  unfoldable pub process_job : Disk × Result String (Unit {0})
  process_job =
      if same job.kind "extract"
      then (with_target λ t. after_files d (
          process_extract services.names stamp services.uuid t d.catalog
            (services.extract d.staged_files)))
      else if same job.kind "render_visual"
      then (with_target λ t. after_files d (
          process_render_visual services.names stamp services.uuid t d.catalog
            (services.extract d.staged_files)
            (services.delete_version_vectors job.vault_id t.version_id (some "visual"))))
      else if same job.kind "embed_text"
      then (with_field "model" λ model. with_field "version_id" λ version_id. after_batches d (
          process_embed_text stamp job.vault_id version_id model d.catalog
            (services.embed_text version_id model)))
      else if same job.kind "embed_visual"
      then (with_field "model" λ model. with_field "version_id" λ version_id. after_batches d (
          process_embed_visual stamp job.vault_id version_id model d.catalog services.is_file
            (services.delete_version_vectors job.vault_id version_id (some "visual"))
            (services.embed_visual version_id model)))
      else if same job.kind "mark_historical"
      then (with_field "document_id" λ document_id. with_field "current_version_id" λ version_id.
          (d, services.mark_document_vectors_historical job.vault_id document_id version_id))
      else if same job.kind "inspect_temporary"
      then (with_field "inspection_id" λ inspection_id.
          process_temporary_inspection services.dumps stamp d job.vault_id inspection_id
            services.extract)
      else if same job.kind "delete_vectors"
      then (with_field "document_id"
          λ document_id. (d, services.delete_document_vectors job.vault_id document_id))
      else if same job.kind "delete_version_vectors"
      then (with_field "version_id" λ version_id. (
        d,
        services.delete_version_vectors job.vault_id version_id
            (payload_field "modality" job.payload),
      ))
      else if same job.kind "cleanup"
      then (cleaned services stamp d, ok tt)
      else (d, raise (concat "Unknown job kind " job.kind))

module _ (services : Services) (worker : String) (claimed_at run_at ended_at : ℕ) where
  -- After the job: it is finished, or the exception is recorded, which may raise in turn and end the
  -- worker.
  unfoldable pub settle_job :
      Job → Disk × Result String (Unit {0}) → Disk × Result String (Unit {0})
  settle_job job (d, ok u) = (
    record d { catalog = record d.catalog { jobs = finish_job d.catalog.jobs job.id ended_at } },
    ok tt,
  )
  settle_job job (d, raise e) = fail_job e ended_at d job

  -- The disk with the queue that `claim_job` leaves, and the job.
  unfoldable pub claimed : Disk → Disk × Option Job
  claimed d =
      let r = claim_job d.catalog.vaults d.catalog.jobs claimed_at worker in
      (record d { catalog = record d.catalog { vaults = r.0.0; jobs = r.0.1 } }, r.1)

  -- One round of the loop, on the disk and the time of the last cleanup.
  unfoldable pub round : Disk × ℕ → (Disk × ℕ) × Result String (Unit {0})
  unfolding claimed process_job settle_job
  round (d, last_cleanup) = elim ((claimed d).1) [
    | some job ↦
        let r = settle_job job (process_job services run_at (claimed d).0 job) in
        ((r.0, last_cleanup), r.1)
    | none ↦
        if ltb (last_cleanup + seconds 3600) run_at
        then ((cleaned services run_at (claimed d).0, ended_at), ok tt)
        else (((claimed d).0, last_cleanup), ok tt)
  ]
