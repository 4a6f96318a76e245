-- ===== src/Worker/Integrity/Dispatch.antt =====
-- The foreign keys under a round of the loop of app/worker.py.
use personal_vault_rag.Prelude.{
  Bool, Option, Option-cases, ltb, seconds, ◌+◌, Result, Result-cases, String, false, if◌then◌else◌,
  inl, inr, not, ok, raise, same, some, true, ℕ, ◌&&◌, Bool-cases, List,
}
use personal_vault_rag.Db.{Job}
use personal_vault_rag.Jobs.{retries}
use personal_vault_rag.Catalog.References.{IsReferenced}
use personal_vault_rag.Worker.{Outcome, payload_field, Extraction}
use personal_vault_rag.Worker.Evidence.{Target}
use personal_vault_rag.Worker.Embed.{Progress, process_embed_text, process_embed_visual}
use personal_vault_rag.Worker.Extract.{process_extract, process_render_visual}
use personal_vault_rag.Worker.Inspect.{
  Disk, is_queued_inspection, inspected_path, process_temporary_inspection, fail_job,
}
use personal_vault_rag.Table.{fetch_one}
use personal_vault_rag.Worker.Dispatch.{
  Services, after_files, after_batches, with_field, with_target, process_job, settle_job, claimed,
  round,
}
use personal_vault_rag.Worker.Integrity.{cleanup_expired-IsReferenced}
use personal_vault_rag.Worker.Integrity.Derived.{
  process_extract-IsReferenced, process_render_visual-IsReferenced,
}
use personal_vault_rag.Worker.Integrity.Batches.{
  process_embed_text-IsReferenced, process_embed_visual-IsReferenced,
}

-- The disk that a job leaves has the keys.
record IsLeft (r : Disk × Result String (Unit {0})) : Type 0 where
  left : IsReferenced r.0.catalog

branch :
    (b : Bool) (x y : Disk × Result String (Unit {0}))
    → IsLeft x
    → IsLeft y
    → IsLeft (if b then x else y)
branch true x y p q = p
branch false x y p q = q

after_files-IsLeft :
    (d : Disk) (r : Outcome (List String)) → IsReferenced r.0 → IsLeft (after_files d r)
after_files-IsLeft d (c, ok paths) h = record { left = h }
after_files-IsLeft d (c, raise e) h = record { left = h }

after_batches-IsLeft :
    (d : Disk) (r : Progress × Result String (Unit {0}))
    → IsReferenced r.0.0
    → IsLeft (after_batches d r)
after_batches-IsLeft d ((c, calls), r) h = record { left = h }

-- The keys do not name inspections and jobs.
process_temporary_inspection-IsLeft :
    (dumps : List String → String) (stamp : ℕ) (d : Disk) (vault_id inspection_id : String)
    (extract : List String → (path name : String) → Result String Extraction)
    → IsReferenced d.catalog
    → IsLeft (process_temporary_inspection dumps stamp d vault_id inspection_id extract)
unfolding process_temporary_inspection
process_temporary_inspection-IsLeft dumps stamp d vault_id inspection_id extract h =
    elim (Option-cases
      (fetch_one (is_queued_inspection vault_id inspection_id) d.catalog.inspections)) [
        | inl p ↦ rw (p, process_temporary_inspection) (record { left = h })
        | inr (i, p) ↦ elim (Option-cases (inspected_path i)) [
          | inl q ↦ rw (p, q, process_temporary_inspection) (record { left = h })
          | inr (path, q) ↦ elim (Result-cases (extract d.staged_files path i.file_name)) [
            | inr (f, r) ↦ rw (p, q, r, process_temporary_inspection) (record { left = h })
            | inl (x, r) ↦
                rw (p, q, r, process_temporary_inspection)
                  (record {
                    left = record { chunks = h.chunks; previews = h.previews; batches = h.batches };
                  })
          ]
        ]
      ]

fail_job-IsLeft :
    (message : String) (stamp : ℕ) (d : Disk) (job : Job)
    → IsReferenced d.catalog
    → IsLeft (fail_job message stamp d job)
unfolding fail_job
fail_job-IsLeft message stamp d job h =
    elim (Bool-cases (not (retries job) && same job.kind "inspect_temporary")) [
      | inr e ↦
          rw (e, fail_job)
            (record {
              left = record { chunks = h.chunks; previews = h.previews; batches = h.batches };
            })
      | inl e ↦ elim (Option-cases (payload_field "inspection_id" job.payload)) [
        | inl f ↦
            rw (e, f, fail_job)
              (record {
                left = record { chunks = h.chunks; previews = h.previews; batches = h.batches };
              })
        | inr (id, f) ↦
            rw (e, f, fail_job)
              (record {
                left = record { chunks = h.chunks; previews = h.previews; batches = h.batches };
              })
      ]
    ]

module _ (services : Services) (stamp : ℕ) (d : Disk) (job : Job) (h : IsReferenced d.catalog) where
  with_field-IsLeft :
      (key : String) (next : String → Disk × Result String (Unit {0}))
      → ((value : String) → IsLeft (next value))
      → IsLeft (with_field services stamp d job key next)
  with_field-IsLeft key next k = elim (Option-cases (payload_field key job.payload)) [
    | inl e ↦ rw (e, with_field) (record { left = h })
    | inr (value, e) ↦ rw (e, with_field) (k value)
  ]

  with_target-IsLeft :
      (next : Target → Disk × Result String (Unit {0}))
      → ((t : Target) → IsLeft (next t))
      → IsLeft (with_target services stamp d job next)
  with_target-IsLeft next k = with_field-IsLeft "version_id" _ λ version_id.
      with_field-IsLeft "document_id" _ λ document_id.
        k (record { vault_id = job.vault_id; document_id = document_id; version_id = version_id })

  process_job-IsLeft : IsLeft (process_job services stamp d job)
  unfolding process_job
  process_job-IsLeft =
      branch (same job.kind "extract") _ _
        (with_target-IsLeft _ λ t.
          after_files-IsLeft d
            (process_extract services.names stamp services.uuid t d.catalog
              (services.extract d.staged_files))
            (process_extract-IsReferenced services.names stamp t services.uuid d.catalog
              (services.extract d.staged_files) h))
        (branch (same job.kind "render_visual") _ _
          (with_target-IsLeft _ λ t.
            after_files-IsLeft d
              (process_render_visual services.names stamp services.uuid t d.catalog
                (services.extract d.staged_files)
                (services.delete_version_vectors job.vault_id t.version_id (some "visual")))
              (process_render_visual-IsReferenced services.names stamp t services.uuid d.catalog
                (services.extract d.staged_files)
                (services.delete_version_vectors job.vault_id t.version_id (some "visual")) h))
          (branch (same job.kind "embed_text") _ _
            (with_field-IsLeft "model" _ λ model. with_field-IsLeft "version_id" _ λ version_id.
              after_batches-IsLeft d
                (process_embed_text stamp job.vault_id version_id model d.catalog
                  (services.embed_text version_id model))
                (process_embed_text-IsReferenced stamp job.vault_id version_id model d.catalog
                  (services.embed_text version_id model) h))
            (branch (same job.kind "embed_visual") _ _
              (with_field-IsLeft "model" _ λ model. with_field-IsLeft "version_id" _ λ version_id.
                after_batches-IsLeft d
                  (process_embed_visual stamp job.vault_id version_id model d.catalog
                    services.is_file
                    (services.delete_version_vectors job.vault_id version_id (some "visual"))
                    (services.embed_visual version_id model))
                  (process_embed_visual-IsReferenced stamp job.vault_id version_id model d.catalog
                    services.is_file
                    (services.delete_version_vectors job.vault_id version_id (some "visual"))
                    (services.embed_visual version_id model) h))
              (branch (same job.kind "mark_historical") _ _
                (with_field-IsLeft "document_id" _ λ document_id.
                  with_field-IsLeft "current_version_id" _ λ version_id. record { left = h })
                (branch (same job.kind "inspect_temporary") _ _
                  (with_field-IsLeft "inspection_id" _ λ inspection_id.
                    process_temporary_inspection-IsLeft services.dumps stamp d job.vault_id
                      inspection_id services.extract h)
                  (branch (same job.kind "delete_vectors") _ _
                    (with_field-IsLeft "document_id" _ λ document_id. record { left = h })
                    (branch (same job.kind "delete_version_vectors") _ _
                      (with_field-IsLeft "version_id" _ λ version_id. record { left = h })
                      (branch (same job.kind "cleanup") _ _
                        (record {
                          left =
                              cleanup_expired-IsReferenced stamp
                                (services.uuid "delete_version_vectors") d.catalog
                                services.preview_ttl_days h;
                        })
                        (record { left = h })))))))))

module _ (services : Services) (worker : String) (claimed_at run_at ended_at : ℕ) where
  settle_job-IsLeft :
      (job : Job) (r : Disk × Result String (Unit {0}))
      → IsLeft r
      → IsLeft (settle_job services worker claimed_at run_at ended_at job r)
  unfolding settle_job
  settle_job-IsLeft job (d, ok u) h = record {
    left = record { chunks = h.left.chunks; previews = h.left.previews; batches = h.left.batches };
  }
  settle_job-IsLeft job (d, raise e) h = fail_job-IsLeft e ended_at d job h.left

  pub round-IsReferenced :
      (d : Disk) (last_cleanup : ℕ)
      → IsReferenced d.catalog
      → IsReferenced
          (round services worker claimed_at run_at ended_at (d, last_cleanup)).0.0.catalog
  unfolding round claimed
  round-IsReferenced d last_cleanup h =
      let c : Disk × Option Job = claimed services worker claimed_at run_at ended_at d in
      let k : IsReferenced c.0.catalog = record {
        chunks = h.chunks;
        previews = h.previews;
        batches = h.batches;
      } in
      elim (Option-cases c.1) [
        | inr (job, e) ↦
            rw (e, round)
              (settle_job-IsLeft job (process_job services run_at c.0 job)
                (process_job-IsLeft services run_at c.0 job k)).left
        | inl e ↦ elim (Bool-cases (ltb (last_cleanup + seconds 3600) run_at)) [
          | inl f ↦
              rw (e, f, round)
                (cleanup_expired-IsReferenced run_at (services.uuid "delete_version_vectors")
                  c.0.catalog services.preview_ttl_days k)
          | inr f ↦ rw (e, f, round) k
        ]
      ]
