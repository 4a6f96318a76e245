-- ===== src/Jobs/Retries.antt =====
-- The retries of app/worker.py's `fail_job`.
use native.Mathlib.Nat.{one-le-pow, pow-le-pow_right}
use personal_vault_rag.Prelude.{String, arith, if◌then◌else◌, ltb, suc, zero, ℕ, ◌+◌, ◌<◌, ◌≡◌, ◌≤◌}
use personal_vault_rag.Db.{Job, JobState}
use personal_vault_rag.Jobs.{failed_row, lease, retries, delay}

-- One round of a job that fails: it is claimed and the attempt raises.
abbrev pub fail_round : (stamp : ℕ) (worker message : String) → Job → Job
fail_round stamp worker message j = failed_row j message stamp (lease stamp worker j)

pub rounds : ℕ → (stamp : ℕ) (worker message : String) → Job → Job
rounds zero stamp worker message j = j
rounds (suc n) stamp worker message j =
    rounds n stamp worker message (fail_round stamp worker message j)

-- A job whose every attempt fails is queued again after each attempt but the last, and is failed
-- after as many attempts as it has left.
pub retries_end :
    (n stamp : ℕ) (worker message : String) (j : Job)
    → j.attempts + n ≤ j.max_attempts
    → 0 < n
    → ((rounds n stamp worker message j).attempts ≡ j.attempts + n)
      × ((rounds n stamp worker message j).state
          ≡ (if ltb (j.attempts + n) j.max_attempts then JobState.queued else JobState.failed))
unfolding rounds retries delay
retries_end zero stamp worker message j h pos = absurd (omega arith)
retries_end (suc zero) stamp worker message j h pos = ground arith
retries_end (suc (suc n)) stamp worker message j h pos =
    ground (arith, retries_end (suc n) stamp worker message (fail_round stamp worker message j))

-- The wait before a retry is at least 5 seconds and at most 300, and no shorter after more attempts.
pub delay_bounds :
    (i j : Job) → (5 ≤ delay i) × (delay i ≤ 300) × (i.attempts ≤ j.attempts → delay i ≤ delay j)
unfolding delay
delay_bounds i j = (
  omega (arith, one-le-pow i.attempts 2 (omega arith)),
  omega arith,
  λ h. omega (arith, pow-le-pow_right {n = 2} (omega arith) h),
)
