-- ===== src/Worker/Rounds.antt =====
-- What a round of the loop of app/worker.py leaves.
use personal_vault_rag.Prelude.{
  All, Bool-cases, List, Option-cases, Result, String, [], arith, false, inl, inr, not, ok, raise,
  refl, same, some, true, ℕ, ◌∷◌, ◌≡◌, ◌&&◌,
}
use personal_vault_rag.Db.{Job}
use personal_vault_rag.Table.{update}
use personal_vault_rag.Jobs.{has_id, is_running, finish_job, failed_row, retries}
use personal_vault_rag.Jobs
use personal_vault_rag.Worker.{payload_field}
use personal_vault_rag.Worker.Inspect.{Disk, fail_job}
use personal_vault_rag.Worker.Dispatch.{Services, process_job, settle_job, claimed, round}

-- No job of this identifier is running.
abbrev pub IsSettled : (id : String) → Disk → Type 0
IsSettled id d = All (λ j. has_id id j ≡ true → is_running j.state ≡ false) d.catalog.jobs

update-settled :
    (id : String) (f : Job → Job)
    → ((j : Job) → is_running (f j).state ≡ false)
    → (jobs : List Job)
    → All (λ j. has_id id j ≡ true → is_running j.state ≡ false) (update (has_id id) f jobs)
unfolding update
update-settled id f stops [] = tt
update-settled id f stops (j ∷ jobs) = elim (Bool-cases (has_id id j)) [
  | inl e ↦ rw e (λ _. stops j, update-settled id f stops jobs)
  | inr e ↦ rw e (λ h. absurd (ground arith), update-settled id f stops jobs)
]

failed_row-stops :
    (job : Job) (message : String) (stamp : ℕ) (j : Job)
    → is_running (failed_row job message stamp j).state ≡ false
failed_row-stops job message stamp j = elim (Bool-cases (retries job)) [
  | inl e ↦ rw e refl
  | inr e ↦ rw e refl
]

fail_job-IsSettled :
    (message : String) (stamp : ℕ) (d : Disk) (job : Job)
    → IsSettled job.id (fail_job message stamp d job).0
unfolding fail_job Jobs.fail_job
fail_job-IsSettled message stamp d job =
    let settled =
      update-settled job.id (failed_row job message stamp) (failed_row-stops job message stamp)
        d.catalog.jobs in
    elim (Bool-cases (not (retries job) && same job.kind "inspect_temporary")) [
      | inr e ↦ rw (e, fail_job) settled
      | inl e ↦ elim (Option-cases (payload_field "inspection_id" job.payload)) [
        | inl f ↦ rw (e, f, fail_job) settled
        | inr (id, f) ↦ rw (e, f, fail_job) settled
      ]
    ]

module _ (services : Services) (worker : String) (claimed_at run_at ended_at : ℕ) where
  settle_job-IsSettled :
      (job : Job) (r : Disk × Result String (Unit {0}))
      → IsSettled job.id (settle_job services worker claimed_at run_at ended_at job r).0
  unfolding settle_job finish_job
  settle_job-IsSettled job (d, ok u) = update-settled job.id _ (λ j. refl) d.catalog.jobs
  settle_job-IsSettled job (d, raise e) = fail_job-IsSettled e ended_at d job

  -- Whatever a job does and whether it ends or raises, no job of the identifier that a round claims
  -- is running when the round is over.
  pub round-IsSettled :
      (d : Disk) (last_cleanup : ℕ) (job : Job)
      → (claimed services worker claimed_at run_at ended_at d).1 ≡ some job
      → IsSettled job.id (round services worker claimed_at run_at ended_at (d, last_cleanup)).0.0
  unfolding round
  round-IsSettled d last_cleanup job e =
      rw (e, round)
        (settle_job-IsSettled job (
          process_job services run_at (claimed services worker claimed_at run_at ended_at d).0 job))
