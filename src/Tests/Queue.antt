-- ===== src/Tests/Queue.antt =====
-- Runs of the job queue.
use personal_vault_rag.Prelude.{List, Option, [], arith, refl, ◌∷◌, ◌≡◌}
use personal_vault_rag.Db.{Vault, Job, JobState}
use personal_vault_rag.Table.{count}
use personal_vault_rag.Jobs.{create_job, claim_job}
use personal_vault_rag.Jobs.Unique.{IsUnique}
use personal_vault_rag.Jobs.History.{Reach, here, next, creates, claims, Reach-IsUnique}
use personal_vault_rag.Jobs.Retries.{rounds, retries_end}
use personal_vault_rag.Tests.{home, job}

-- An empty queue takes a job, which a worker then claims.
abbrev queued : List Job
queued = (create_job [] 10 "a" "home" "delete_vectors" (("document_id", "doc") ∷ []) 20).0

abbrev claimed : (List Vault × List Job) × Option Job
claimed = claim_job (home ∷ []) queued 20 "worker"

empty-IsUnique : IsUnique []
unfolding count
empty-IsUnique = record { ids = λ id. omega arith; active = λ v k p. omega arith }

queued-Reach : Reach [] claimed.0.1
unfolding count
queued-Reach =
    next (home ∷ []) 20
      (next [] 10 here
        (creates "a" "home" "delete_vectors" (("document_id", "doc") ∷ []) 20 refl refl))
      (claims "worker" refl)

Reach-IsUnique_example : IsUnique claimed.0.1
Reach-IsUnique_example = Reach-IsUnique [] claimed.0.1 queued-Reach empty-IsUnique

abbrev waiting : Job
waiting = job "job_a" "delete_vectors" JobState.queued

-- A job with three attempts, which all fail.
retries_end_example :
    ((rounds 3 20 "worker" "Error" waiting).attempts ≡ 3)
    × ((rounds 3 20 "worker" "Error" waiting).state ≡ JobState.failed)
retries_end_example = retries_end 3 20 "worker" "Error" waiting (omega arith) (omega arith)
