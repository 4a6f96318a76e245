-- ===== src/Jobs.antt =====
-- The job queue: `create_job` of app/catalog.py, and `claim_job`, `finish_job` and `fail_job` of
-- app/worker.py. The time, the random identifier and the worker's name are arguments.
pub mod Unique
pub mod History
pub mod Claims
pub mod Retries
pub mod Created
use text.Mathlib.Text.{is_lt}
use Prim.Native.String.{compare}
use personal_vault_rag.Prelude.{
  Bool, List, Option, String, [], concat, cut, false, if◌then◌else◌, leb, ltb, min, none, not,
  or_else, same, seconds, some, true, ℕ, ◌&&◌, ◌*◌, ◌++◌, ◌+◌, ◌==◌, ◌^◌, ◌||◌, ◌∷◌,
}
use personal_vault_rag.Db.{Vault, Job, JobState}
use personal_vault_rag.Table.{select, fetch_one, update, count, first_by}
use personal_vault_rag.Budget.{find_vault}

abbrev pub Payload : Type 0
Payload = List (String × String)

-- The fields of `json.dumps(payload, sort_keys=True)`.
unfoldable pub insert_field : String × String → Payload → Payload
insert_field f [] = f ∷ []
insert_field f (g ∷ gs) = if is_lt (compare g.0 f.0) then g ∷ insert_field f gs else f ∷ g ∷ gs

unfoldable pub sort_keys : Payload → Payload
unfolding insert_field
sort_keys [] = []
sort_keys (f ∷ fs) = insert_field f (sort_keys fs)

unfoldable pub same_payload : Payload → Payload → Bool
same_payload [] [] = true
same_payload [] (g ∷ gs) = false
same_payload (f ∷ fs) [] = false
same_payload (f ∷ fs) (g ∷ gs) = same f.0 g.0 && same f.1 g.1 && same_payload fs gs

abbrev pub is_queued : JobState → Bool
is_queued JobState.queued = true
is_queued _ = false

abbrev pub is_running : JobState → Bool
is_running JobState.running = true
is_running _ = false

abbrev pub is_failed : JobState → Bool
is_failed JobState.failed = true
is_failed _ = false

-- `state IN ('queued','running')`
abbrev pub is_active : JobState → Bool
is_active s = is_queued s || is_running s

-- A request for work: the vault, the kind and the payload.
unfoldable pub requests : String → String → Payload → Job → Bool
requests vault_id kind payload j =
    same j.vault_id vault_id && same j.kind kind && same_payload j.payload payload

unfoldable pub active_for : String → String → Payload → Job → Bool
active_for vault_id kind payload j = requests vault_id kind payload j && is_active j.state

unfoldable pub failed_for : String → String → Payload → Job → Bool
failed_for vault_id kind payload j = requests vault_id kind payload j && is_failed j.state

abbrev pub has_id : String → Job → Bool
has_id id j = same j.id id

abbrev pub later_created : Job → Job → Bool
later_created a b = ltb b.created_at a.created_at

abbrev pub requeue : ℕ → Job → Job
requeue stamp j = record j {
  state = JobState.queued;
  attempts = 0;
  not_before = 0;
  lease_owner = none;
  lease_expires_at = none;
  updated_at = stamp;
  error = none;
}

abbrev pub new_job : (job_id vault_id kind : String) (payload : Payload) (priority stamp : ℕ) → Job
new_job job_id vault_id kind payload priority stamp = record {
  id = job_id;
  vault_id = vault_id;
  kind = kind;
  payload = payload;
  state = JobState.queued;
  priority = priority;
  attempts = 0;
  max_attempts = 3;
  not_before = 0;
  lease_owner = none;
  lease_expires_at = none;
  created_at = stamp;
  updated_at = stamp;
  error = none;
}

-- The body of `create_job` for the payload as it is stored.
unfoldable pub enqueue :
    List Job
    → (stamp : ℕ) (job_id vault_id kind : String) → Payload
    → (priority : ℕ) → List Job × String
enqueue jobs stamp job_id vault_id kind payload priority =
    elim (fetch_one (active_for vault_id kind payload) jobs) [
      | some existing ↦ (jobs, existing.id)
      | none ↦ elim (first_by later_created (select (failed_for vault_id kind payload) jobs)) [
        | some old ↦ (update (has_id old.id) (requeue stamp) jobs, old.id)
        | none ↦ (jobs ++ new_job job_id vault_id kind payload priority stamp ∷ [], job_id)
      ]
    ]

unfoldable pub create_job :
    List Job
    → (stamp : ℕ) (uuid vault_id kind : String) → Payload
    → (priority : ℕ) → List Job × String
create_job jobs stamp uuid vault_id kind payload priority =
    enqueue jobs stamp (concat "job_" uuid) vault_id kind (sort_keys payload) priority

-- `state='running' AND lease_expires_at<?`
abbrev pub lease_over : ℕ → Job → Bool
lease_over stamp j =
    is_running j.state && elim j.lease_expires_at [ none ↦ false | some t ↦ ltb t stamp ]

abbrev pub unlease : ℕ → Job → Job
unlease stamp j = record j {
  state = JobState.queued;
  lease_owner = none;
  lease_expires_at = none;
  updated_at = stamp;
}

unfoldable pub expire_leases : ℕ → List Job → List Job
expire_leases stamp jobs = update (lease_over stamp) (unlease stamp) jobs

-- The rows of the join that `claim_job` chooses from, each with the last claim of its vault.
unfoldable pub due : List Vault → ℕ → Job → Option (Job × ℕ)
due vaults stamp j = elim (find_vault j.vault_id vaults) [
  | none ↦ none
  | some v ↦
      if is_queued j.state && leb j.not_before stamp && not v.paused
      then some (j, or_else v.last_job_claim_at 0)
      else none
]

unfoldable pub candidates : List Vault → ℕ → List Job → List (Job × ℕ)
candidates vaults stamp [] = []
candidates vaults stamp (j ∷ js) =
    let rest = candidates vaults stamp js in
    elim (due vaults stamp j) [ none ↦ rest | some c ↦ c ∷ rest ]

-- ORDER BY COALESCE(v.last_job_claim_at,0), j.priority, j.created_at
unfoldable pub goes_before : Job × ℕ → Job × ℕ → Bool
goes_before (a, s) (b, t) =
    ltb s t
    || (s == t)
      && (ltb a.priority b.priority || (a.priority == b.priority) && ltb a.created_at b.created_at)

abbrev pub lease : ℕ → String → Job → Job
lease stamp worker j = record j {
  state = JobState.running;
  attempts = j.attempts + 1;
  lease_owner = some worker;
  lease_expires_at = some (stamp + seconds 1800);
  updated_at = stamp;
}

abbrev pub touch_vault : ℕ → Vault → Vault
touch_vault stamp v = record v { last_job_claim_at = some stamp }

abbrev pub claimable : String → Job → Bool
claimable id j = same j.id id && is_queued j.state

-- The job is returned as it was before the claim.
unfoldable pub claim_job :
    List Vault → List Job → (stamp : ℕ) (worker : String) → (List Vault × List Job) × Option Job
claim_job vaults jobs stamp worker =
    let ready = expire_leases stamp jobs in
    elim (first_by goes_before (candidates vaults stamp ready)) [
      | none ↦ ((vaults, ready), none)
      | some (row, _) ↦
          if count (claimable row.id) ready == 1
          then (
            (
              update (λ v. same v.id row.vault_id) (touch_vault stamp) vaults,
              update (claimable row.id) (lease stamp worker) ready,
            ),
            some row,
          )
          else ((vaults, update (claimable row.id) (lease stamp worker) ready), none)
    ]

unfoldable pub finish_job : List Job → String → ℕ → List Job
finish_job jobs id stamp =
    update (has_id id)
      (λ j. record j {
        state = JobState.complete;
        lease_owner = none;
        lease_expires_at = none;
        updated_at = stamp;
      })
      jobs

-- `job["attempts"] + 1 < job["max_attempts"]`
unfoldable pub retries : Job → Bool
retries job = ltb (job.attempts + 1) job.max_attempts

-- The seconds to wait before the next attempt.
unfoldable pub delay : Job → ℕ
delay job = min 300 (5 * 2 ^ job.attempts)

-- The row of a failed job; `job` is the row that the claim returned, `message` the exception's
-- name and text.
abbrev pub failed_row : Job → (message : String) (stamp : ℕ) → Job → Job
failed_row job message stamp j = record j {
  state = if retries job then JobState.queued else JobState.failed;
  not_before = stamp + seconds (delay job);
  lease_owner = none;
  lease_expires_at = none;
  updated_at = stamp;
  error = some (cut 2000 message);
}

-- The queue's part of `fail_job`.
unfoldable pub fail_job : List Job → Job → (message : String) (stamp : ℕ) → List Job
unfolding retries delay
fail_job jobs job message stamp = update (has_id job.id) (failed_row job message stamp) jobs
